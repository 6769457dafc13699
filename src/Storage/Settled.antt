-- ===== src/Storage/Settled.antt =====
-- The calls of ulpf/services/trino.py that change no table whose ids they bring already.
use ocsf_forge.Prelude.{
  ◌≡◌, ap, sym, ◌∙◌, inl, inr, List, [], ◌∷◌, ◌++◌, All, Result, ok, raise, Result-cases,
}
use mathlib.Core.Path.{subst}
use mathlib.Core.List.{append-nil}
use ocsf_forge.Text.{Text}
use ocsf_forge.Models.{NormalizedEvent, IngestionResult}
use ocsf_forge.Normalizer.Fields.{Library}
use ocsf_forge.Storage.Columns.{
  raw_table, quarantine_table, raw_columns, normalized_columns, quarantine_columns,
}
use ocsf_forge.Storage.Batches.{Row, BatchError, merge_batches}
use ocsf_forge.Storage.Partition.{concat, merge_batches-All}
use ocsf_forge.Storage.Actions.{Action, lift_result, ◌>>=◌, >>=-keeps}
use ocsf_forge.Storage.Values.{Encoders}
use ocsf_forge.Storage.Warehouse.{
  Table, raw_events, application_logs, quarantine_events, Run, Warehouse, IsWarehouse, Reads,
  event_id_of,
}
use ocsf_forge.Storage.Ids.{ids, Has, fresh-old}
use ocsf_forge.Storage.Prepare.{IngestError, IngestSettings, Prepared, prepare}
use ocsf_forge.Storage.Ingest.{
  run_merges, merge_rows, write_prepared, close_run, ingest_items, handled, stored, finished_run,
  result_of, failed_run,
}
use ocsf_forge.Storage.Grown.{Table-cases}
use ocsf_forge.Storage.Named.{IsPrepared, prepare-IsPrepared}
use ocsf_forge.Storage.Stored.{HasAll}
use ocsf_forge.Storage.Ingested.{IsStored}

module _ (w : Warehouse) (laws : IsWarehouse w) (s0 : w.State) where
  -- No table of events differs from what it was at the start.
  abbrev pub IsSame : w.State → Type 0
  IsSame s = (t : Table) → w.rows t s ≡ w.rows t s0

  abbrev IsOld : Table → Row → Type 0
  IsOld t row = Has (ids (w.rows t s0)) (event_id_of row)

  ids-All :
      (known : List Text) (rows : List Row)
      → All (λ row. Has known (event_id_of row)) rows
      → All (Has known) (ids rows)
  ids-All known [] hs = tt
  ids-All known (r ∷ rows) (h, hs) = (h, ids-All known rows hs)

  All-ids :
      (known : List Text) (rows : List Row)
      → All (Has known) (ids rows)
      → All (λ row. Has known (event_id_of row)) rows
  All-ids known [] hs = tt
  All-ids known (r ∷ rows) (h, hs) = (h, All-ids known rows hs)

  -- A call that leaves every table as it was at the start, if it finds it so.
  pub record Settles {A : Type 0} (m : Action w.State IngestError A) : Type 0 where
    pub settles : (s : w.State) → IsSame s → IsSame (m s).0

  read-Settles :
      {A : Type 0} (m : w.State → w.State × Result Text A) → Reads w m → Settles (stored m)
  read-Settles m reads = record { settles = λ s h t. reads t s ∙ h t }

  still-Settles : {A : Type 0} (r : Result IngestError A) → Settles (lift_result r)
  still-Settles r = record { settles = λ s h. h }

  Settles-then :
      {A B : Type 0} {m : Action w.State IngestError A} {f : A → Action w.State IngestError B}
      → Settles m
      → ((a : A) → (s : w.State) → (m s).1 ≡ ok a → Settles (f a))
      → Settles (m >>= f)
  Settles-then {A} {B} {m} {f} g h = record {
    settles =
        λ s k. >>=-keeps IsSame m f s (g.settles s k) (λ a e same. (h a s e).settles (m s).0 same);
  }

  merge-Settles :
      (t : Table) (members : List Row)
      → All (IsOld t) members
      → Settles (stored (w.merge t members))
  merge-Settles t members old = record {
    settles = λ s h u. elim (Table-cases t u) [
      | inl same ↦
          subst (λ x. w.rows x (w.merge t members s).0 ≡ w.rows x s0) same
            (elim (Result-cases (w.merge t members s).1) [
              | inl (a, e) ↦
                  laws.merges t members s e
                  ∙ ap (λ rows. w.rows t s ++ rows)
                      (fresh-old (w.rows t s) members (
                        subst (λ rows. All (Has (ids rows)) (ids members)) (sym (h t))
                          (ids-All (ids (w.rows t s0)) members old)))
                  ∙ append-nil (w.rows t s)
                  ∙ h t
              | inr (message, e) ↦ laws.merge_fails t members s message e ∙ h t
            ])
      | inr apart ↦ laws.merge_elsewhere t u members s apart ∙ h u
    ];
  }

  All-first : (P : Row → Type 0) (xs ys : List Row) → All P (xs ++ ys) → All P xs × All P ys
  All-first P [] ys hs = (tt, hs)
  All-first P (x ∷ xs) ys (h, hs) = let (a, b) = All-first P xs ys hs in ((h, a), b)

  module _ (config : IngestSettings) where
    run_merges-Settles :
        (t : Table) (batches : List (List Row)) (end : Result BatchError (Unit {0}))
        → All (IsOld t) (concat batches)
        → Settles (run_merges w config t batches end)
    unfolding run_merges
    run_merges-Settles t [] (ok u) old = record { settles = λ s h. h }
    run_merges-Settles t [] (raise e) old = record { settles = λ s h. h }
    run_merges-Settles t (b ∷ batches) end old =
        let (first, later) = All-first (IsOld t) b (concat batches) old in
        Settles-then (merge-Settles t b first) (λ _ _ _. run_merges-Settles t batches end later)

    merge_rows-Settles :
        (t : Table) (table : Text) (columns : List Text) (rows : List Row)
        → All (IsOld t) rows
        → Settles (merge_rows w config t table columns rows)
    unfolding merge_rows
    merge_rows-Settles t table columns rows old =
        let out =
          merge_batches config.max_query_bytes table columns config.insert_batch_size rows in
        run_merges-Settles t out.0 out.1 (
          merge_batches-All config.max_query_bytes table columns config.insert_batch_size (IsOld t)
            rows old)

    close_run-Settles : (run : Run) → Settles (close_run w config run)
    unfolding close_run
    close_run-Settles run =
        let count = λ (t : Table).
          read-Settles (w.count_for_run t run.run_id) (laws.count_reads t run.run_id) in
        Settles-then (count application_logs) (λ committed _ _.
          Settles-then (count quarantine_events) (λ quarantined _ _.
            Settles-then (read-Settles w.last_snapshot laws.snapshot_reads) (λ snapshot_id _ _.
              let run' = finished_run w config run committed quarantined snapshot_id in
              Settles-then (read-Settles (w.finish_run run') (laws.finish_run_reads run'))
                (λ _ _ _. still-Settles (ok (result_of w config run'))))))

    pub handled-IsSame :
        (run : Run) (message_of : IngestError → Text)
        (out : w.State × Result IngestError IngestionResult)
        → IsSame out.0
        → IsSame (handled w config run message_of out).0
    handled-IsSame run message_of (s, ok r) h t = h t
    handled-IsSame run message_of (s, raise e) h t =
        laws.finish_run_reads (failed_run w config run (message_of e)) t s ∙ h t

    module _ (lib : Library) (encoders : Encoders) (items : List NormalizedEvent)
        (has : IsStored w laws config items s0) where
      write_prepared-Settles :
          (p : Prepared) → IsPrepared items p → Settles (write_prepared w config p)
      unfolding write_prepared
      write_prepared-Settles p is =
          let old : (t : Table) (rows : List Row) (known : List Text)
              → ids rows ≡ known
              → HasAll w laws t s0 known
              → All (IsOld t) rows =
            λ t rows known e h.
              All-ids (ids (w.rows t s0)) rows (subst (All (Has (ids (w.rows t s0)))) (sym e) h) in
          Settles-then
            (merge_rows-Settles raw_events raw_table raw_columns p.raw
              (old raw_events p.raw _ is.raw has.raw))
            (λ _ _ _.
              Settles-then
                (merge_rows-Settles application_logs config.qualified_table normalized_columns
                  p.normalized (old application_logs p.normalized _ is.normalized has.normalized))
                (λ _ _ _.
                  merge_rows-Settles quarantine_events quarantine_table quarantine_columns
                    p.rejected (old quarantine_events p.rejected _ is.rejected has.rejected)))

      pub ingest_items-Settles :
          (run : Run) → Settles (ingest_items w config lib encoders run items)
      unfolding ingest_items
      ingest_items-Settles run =
          Settles-then (read-Settles (w.insert_run run) (laws.insert_run_reads run)) (λ _ _ _.
            Settles-then (still-Settles (prepare config lib encoders items)) (λ p _ e.
              Settles-then
                (write_prepared-Settles p
                  ((prepare-IsPrepared lib encoders config items).yields p e))
                (λ _ _ _. close_run-Settles run)))
