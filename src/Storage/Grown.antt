-- ===== src/Storage/Grown.antt =====
-- `ingest_events` of ulpf/services/trino.py only adds rows to the tables of events.
use mathlib.Core.List.{append_assoc, append-nil}
use mathlib.Core.Path.{subst}
use ocsf_forge.Prelude.{
  ◌≡◌, ◌≢◌, ◌⊎◌, inl, inr, refl, ap, sym, ◌∙◌, List, [], ◌∷◌, ◌++◌, any, All, All-append, All-map,
  Result, ok, raise, Result-cases, is_nil, Bool-cases,
}
use ocsf_forge.Text.{Text, strip}
use ocsf_forge.Models.{NormalizedEvent, IngestionResult}
use ocsf_forge.Normalizer.Fields.{Library}
use ocsf_forge.Storage.Batches.{Row, BatchError, merge_batches}
use ocsf_forge.Storage.Actions.{Action, pure, lift_result, ◌>>=◌, >>=-keeps}
use ocsf_forge.Storage.Values.{Encoders}
use ocsf_forge.Storage.Warehouse.{
  Table, raw_events, application_logs, quarantine_events, Run, Warehouse, IsWarehouse, Reads,
  event_id_of, fresh,
}
use ocsf_forge.Storage.Ids.{ids, Lacks, Lacks-first, fresh-Lacks}
use ocsf_forge.Storage.Prepare.{IngestError, batch, IngestSettings, Prepared, prepare}
use ocsf_forge.Storage.Ingest.{
  run_merges, merge_rows, write_prepared, close_run, ingest_items, ingest_events, handled, stored,
  unique_items, initial_run, finished_run, result_of, failed_run,
}

pub Table-cases : (t u : Table) → (t ≡ u) ⊎ (t ≢ u)
Table-cases raw_events raw_events = inl refl
Table-cases raw_events application_logs = inr (λ e. cc)
Table-cases raw_events quarantine_events = inr (λ e. cc)
Table-cases application_logs raw_events = inr (λ e. cc)
Table-cases application_logs application_logs = inl refl
Table-cases application_logs quarantine_events = inr (λ e. cc)
Table-cases quarantine_events raw_events = inr (λ e. cc)
Table-cases quarantine_events application_logs = inr (λ e. cc)
Table-cases quarantine_events quarantine_events = inl refl

module _ (w : Warehouse) (laws : IsWarehouse w) where
  -- Every row is still there, and those that were added have new ids.
  pub record IsGrownAt (t : Table) (before after : w.State) : Type 0 where
    pub added : List Row
    pub kept : w.rows t after ≡ w.rows t before ++ added
    pub new : All (λ r. Lacks (ids (w.rows t before)) (event_id_of r)) added

  abbrev pub IsGrown : w.State → w.State → Type 0
  IsGrown before after = (t : Table) → IsGrownAt t before after

  same-IsGrownAt : (t : Table) (s s' : w.State) → w.rows t s' ≡ w.rows t s → IsGrownAt t s s'
  same-IsGrownAt t s s' e = record {
    added = [];
    kept = e ∙ sym (append-nil (w.rows t s));
    new = tt;
  }

  pub read-IsGrown :
      {A : Type 0} (m : w.State → w.State × Result Text A) (s : w.State)
      → Reads w m
      → IsGrown s (m s).0
  read-IsGrown m s reads t = same-IsGrownAt t s (m s).0 (reads t s)

  pub IsGrown-same : (s : w.State) → IsGrown s s
  IsGrown-same s t = same-IsGrownAt t s s refl

  pub IsGrown-then : (a b c : w.State) → IsGrown a b → IsGrown b c → IsGrown a c
  IsGrown-then a b c g h t = record {
    added = (g t).added ++ (h t).added;
    kept =
        (h t).kept
        ∙ ap (λ rows. rows ++ (h t).added) (g t).kept
        ∙ append_assoc (w.rows t a) (g t).added (h t).added;
    new =
        All-append (λ r. Lacks (ids (w.rows t a)) (event_id_of r)) (g t).added (h t).added (g t).new
          (All-map (λ r. Lacks (ids (w.rows t b)) (event_id_of r))
            (λ r. Lacks (ids (w.rows t a)) (event_id_of r))
            (λ r k.
              Lacks-first (w.rows t a) (g t).added (event_id_of r)
                (subst (λ rows. Lacks (ids rows) (event_id_of r)) (g t).kept k))
            (h t).added (h t).new);
  }

  merge-IsGrown : (t : Table) (members : List Row) (s : w.State) → IsGrown s (w.merge t members s).0
  merge-IsGrown t members s u = elim (Table-cases t u) [
    | inl same ↦
        subst (λ x. IsGrownAt x s (w.merge t members s).0) same
          (elim (Result-cases (w.merge t members s).1) [
            | inl (a, e) ↦ record {
              added = fresh (w.rows t s) members;
              kept = laws.merges t members s e;
              new = fresh-Lacks (w.rows t s) members;
            }
            | inr (message, e) ↦
                same-IsGrownAt t s (w.merge t members s).0 (laws.merge_fails t members s message e)
          ])
    | inr apart ↦
        same-IsGrownAt u s (w.merge t members s).0 (laws.merge_elsewhere t u members s apart)
  ]

  pub record Grows {A : Type 0} (m : Action w.State IngestError A) : Type 0 where
    pub grown : (s : w.State) → IsGrown s (m s).0

  pure-Grows : {A : Type 0} (a : A) → Grows (pure a)
  pure-Grows a = record { grown = λ s. IsGrown-same s }

  lift_result-Grows : {A : Type 0} (r : Result IngestError A) → Grows (lift_result r)
  lift_result-Grows r = record { grown = λ s. IsGrown-same s }

  read-Grows : {A : Type 0} (m : w.State → w.State × Result Text A) → Reads w m → Grows (stored m)
  read-Grows m reads = record { grown = λ s. read-IsGrown m s reads }

  merge-Grows : (t : Table) (members : List Row) → Grows (stored (w.merge t members))
  merge-Grows t members = record { grown = merge-IsGrown t members }

  -- A sequence of calls that grow the tables grows them.
  Grows-then :
      {A B : Type 0} {m : Action w.State IngestError A} {f : A → Action w.State IngestError B}
      → Grows m
      → ((a : A) → Grows (f a))
      → Grows (m >>= f)
  Grows-then {A} {B} {m} {f} g h = record {
    grown = λ s.
        >>=-keeps (IsGrown s) m f s (g.grown s)
          (λ a e k. IsGrown-then s (m s).0 (f a (m s).0).0 k ((h a).grown (m s).0));
  }

  module _ (config : IngestSettings) where
    pub run_merges-Grows :
        (t : Table) (batches : List (List Row)) (end : Result BatchError (Unit {0}))
        → Grows (run_merges w config t batches end)
    unfolding run_merges
    run_merges-Grows t [] (ok u) = pure-Grows tt
    run_merges-Grows t [] (raise e) = lift_result-Grows (raise (batch e))
    run_merges-Grows t (b ∷ batches) end =
        Grows-then (merge-Grows t b) (λ _. run_merges-Grows t batches end)

    pub merge_rows-Grows :
        (t : Table) (table : Text) (columns : List Text) (rows : List Row)
        → Grows (merge_rows w config t table columns rows)
    unfolding merge_rows
    merge_rows-Grows t table columns rows =
        let out =
          merge_batches config.max_query_bytes table columns config.insert_batch_size rows in
        run_merges-Grows t out.0 out.1

    pub write_prepared-Grows : (p : Prepared) → Grows (write_prepared w config p)
    unfolding write_prepared
    write_prepared-Grows p = Grows-then (merge_rows-Grows raw_events _ _ p.raw) (λ _.
        Grows-then (merge_rows-Grows application_logs _ _ p.normalized)
          (λ _. merge_rows-Grows quarantine_events _ _ p.rejected))

    pub close_run-Grows : (run : Run) → Grows (close_run w config run)
    unfolding close_run
    close_run-Grows run =
        let count = λ (t : Table).
          read-Grows (w.count_for_run t run.run_id) (laws.count_reads t run.run_id) in
        Grows-then (count application_logs) (λ committed.
          Grows-then (count quarantine_events) (λ quarantined.
            Grows-then (read-Grows w.last_snapshot laws.snapshot_reads) (λ snapshot_id.
              let run' = finished_run w config run committed quarantined snapshot_id in
              Grows-then (read-Grows (w.finish_run run') (laws.finish_run_reads run'))
                (λ _. pure-Grows (result_of w config run')))))

    module _ (lib : Library) (encoders : Encoders) where
      ingest_items-Grows :
          (run : Run) (items : List NormalizedEvent)
          → Grows (ingest_items w config lib encoders run items)
      unfolding ingest_items
      ingest_items-Grows run items =
          Grows-then (read-Grows (w.insert_run run) (laws.insert_run_reads run)) (λ _.
            Grows-then (lift_result-Grows (prepare config lib encoders items))
              (λ p. Grows-then (write_prepared-Grows p) (λ _. close_run-Grows run)))

      handled-IsGrown :
          (s : w.State) (run : Run) (message_of : IngestError → Text)
          (out : w.State × Result IngestError IngestionResult)
          → IsGrown s out.0
          → IsGrown s (handled w config run message_of out).0
      handled-IsGrown s run message_of (s', ok r) g = g
      handled-IsGrown s run message_of (s', raise e) g =
          let run' = failed_run w config run (message_of e) in
          IsGrown-then s s' (w.finish_run run' s').0 g
            (read-IsGrown (w.finish_run run') s' (laws.finish_run_reads run'))

      -- Whatever `ingest_events` answers or raises, each table of events begins with the rows that
      -- it had, and the rows after them have ids that it did not have.
      pub ingest_events-IsGrown :
          (message_of : IngestError → Text) (run_id : Text) (received : List NormalizedEvent)
          (s : w.State)
          → IsGrown s (ingest_events w config lib encoders message_of run_id received s).0
      unfolding ingest_events
      ingest_events-IsGrown message_of run_id received s =
          let items = unique_items run_id received in
          let run = initial_run run_id received items in
          elim (Bool-cases (is_nil received)) [
            | inl empty ↦ rw empty (IsGrown-same s)
            | inr some_ ↦
                rw some_
                  (elim (Bool-cases (any (λ e. is_nil (strip lib.chars e.event_id)) received)) [
                    | inl missing ↦ rw missing (IsGrown-same s)
                    | inr present ↦ rw present (
                        handled-IsGrown s run message_of
                          (ingest_items w config lib encoders run items s)
                          ((ingest_items-Grows run items).grown s))
                  ])
          ]
