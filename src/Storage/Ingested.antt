-- ===== src/Storage/Ingested.antt =====
-- ulpf/services/trino.py: what an answer of `ingest_events` says.
use mathlib.Core.Path.{subst}
use ocsf_forge.Prelude.{
  ℕ, ◌-◌, ◌≡◌, refl, ap, sym, ◌∙◌, inl, inr, false, List, any, keep, All-map, Result, ok, raise,
  count_if, is_nil, Bool-cases,
}
use ocsf_forge.Text.{Text, text_eq, strip}
use ocsf_forge.Models.{NormalizedEvent, IngestionResult}
use ocsf_forge.Normalizer.Fields.{Library}
use ocsf_forge.Storage.Actions.{lift_result, Ends, Ends-pure, Ends-then}
use ocsf_forge.Storage.Values.{Encoders}
use ocsf_forge.Storage.Warehouse.{
  Table, raw_events, application_logs, quarantine_events, Warehouse, IsWarehouse, Run, run_id_of,
}
use ocsf_forge.Storage.Ids.{ids, Has, Has-All}
use ocsf_forge.Storage.Prepare.{IngestError, IngestSettings, succeeded, failed, prepare}
use ocsf_forge.Storage.Ingest.{
  unique_items, initial_run, write_prepared, close_run, ingest_items, ingest_events, handled,
  stored, finished_run, result_of,
}
use ocsf_forge.Storage.Grown.{close_run-Grows}
use ocsf_forge.Storage.Named.{event_ids, prepare-IsPrepared}
use ocsf_forge.Storage.Unique.{unique_items-All}
use ocsf_forge.Storage.Stored.{HasAll, HasAll-later, lift_storage-ok, write_prepared-IsWritten}

module _ (w : Warehouse) (laws : IsWarehouse w) (config : IngestSettings) where
  abbrev pub count_in_run : Table → Text → w.State → ℕ
  count_in_run t run_id s = count_if (λ row. text_eq run_id (run_id_of row)) (w.rows t s)

  -- The counts of an answer are those of the tables.
  pub record IsCounted (run : Run) (s : w.State) (r : IngestionResult) : Type 0 where
    pub run_id : r.run_id ≡ run.run_id
    pub received : r.received ≡ run.received
    pub committed : r.committed ≡ count_in_run application_logs run.run_id s
    pub quarantined : r.quarantined ≡ count_in_run quarantine_events run.run_id s
    pub duplicates : r.duplicates ≡ run.received - r.committed - r.quarantined

  counted :
      (t : Table) (run_id : Text) (s s' : w.State) (n : ℕ)
      → (stored (w.count_for_run t run_id) s).1 ≡ ok n
      → w.rows t s' ≡ w.rows t s
      → n ≡ count_in_run t run_id s'
  counted t run_id s s' n h e =
      laws.counts t run_id s n (lift_storage-ok w laws (w.count_for_run t run_id s).1 n h)
      ∙ ap (count_if (λ row. text_eq run_id (run_id_of row))) (sym e)

  close_run-IsCounted : (run : Run) (s : w.State) → Ends (IsCounted run) (close_run w config run) s
  unfolding close_run
  close_run-IsCounted run s =
      let s1 = (w.count_for_run application_logs run.run_id s).0 in
      let s2 = (w.count_for_run quarantine_events run.run_id s1).0 in
      let s3 = (w.last_snapshot s2).0 in
      Ends-then (stored (w.count_for_run application_logs run.run_id)) (λ c h1.
        Ends-then (stored (w.count_for_run quarantine_events run.run_id)) (λ q h2.
          Ends-then (stored w.last_snapshot) (λ i h3.
            let run' = finished_run w config run c q i in
            let s4 = (w.finish_run run' s3).0 in
            let still = λ (t : Table). laws.finish_run_reads run' t s3 ∙ laws.snapshot_reads t s2 in
            Ends-then (stored (w.finish_run run')) (λ _ h4.
              Ends-pure (IsCounted run) (result_of w config run') s4 (record {
                run_id = refl;
                received = refl;
                committed = counted application_logs run.run_id s s4 c h1 (
                    still application_logs
                    ∙ laws.count_reads quarantine_events run.run_id application_logs s1
                    ∙ laws.count_reads application_logs run.run_id application_logs s);
                quarantined = counted quarantine_events run.run_id s1 s4 q h2 (
                    still quarantine_events
                    ∙ laws.count_reads quarantine_events run.run_id quarantine_events s1);
                duplicates = refl;
              })))))

  -- The event ids that an answer stands for are in the tables.
  pub record IsStored (items : List NormalizedEvent) (s : w.State) : Type 0 where
    pub raw : HasAll w laws raw_events s (event_ids items)
    pub normalized : HasAll w laws application_logs s (event_ids (keep succeeded items))
    pub rejected : HasAll w laws quarantine_events s (event_ids (keep failed items))

  module _ (lib : Library) (encoders : Encoders) where
    ingest_items-IsStored :
        (run : Run) (items : List NormalizedEvent) (s : w.State)
        → Ends
            (λ s' r. IsStored items s' × IsCounted run s' r)
            (ingest_items w config lib encoders run items)
            s
    unfolding ingest_items
    ingest_items-IsStored run items s =
        let s1 = (w.insert_run run s).0 in
        Ends-then (stored (w.insert_run run)) (λ _ _.
          Ends-then (lift_result (prepare config lib encoders items)) (λ p h.
            let s2 = (write_prepared w config p s1).0 in
            let s3 = (close_run w config run s2).0 in
            let g = (close_run-Grows w laws config run).grown s2 in
            let is = (prepare-IsPrepared lib encoders config items).yields p h in
            Ends-then (write_prepared w config p) (λ u k.
              let has = (write_prepared-IsWritten w laws config p s1).ends u k in
              record {
                ends = λ r e. (
                  record {
                    raw =
                        subst (HasAll w laws raw_events s3) is.raw
                          (HasAll-later w laws raw_events s2 s3 g (ids p.raw) has.raw);
                    normalized = subst (HasAll w laws application_logs s3) is.normalized (
                        HasAll-later w laws application_logs s2 s3 g (ids p.normalized)
                          has.normalized);
                    rejected = subst (HasAll w laws quarantine_events s3) is.rejected (
                        HasAll-later w laws quarantine_events s2 s3 g (ids p.rejected)
                          has.rejected);
                  },
                  (close_run-IsCounted run s2).ends r e,
                );
              })))

    handled-ok :
        (run : Run) (message_of : IngestError → Text)
        (out : w.State × Result IngestError IngestionResult) (r : IngestionResult)
        → (handled w config run message_of out).1 ≡ ok r
        → (out.1 ≡ ok r) × ((handled w config run message_of out).0 ≡ out.0)
    handled-ok run message_of (s, ok r') r h = (h, refl)
    handled-ok run message_of (s, raise e) r h = cc

    -- What an answer says of the items that `ingest_events` stores.
    pub ingest_events-IsKept :
        (message_of : IngestError → Text) (run_id : Text) (received : List NormalizedEvent)
        (s : w.State)
        → is_nil received ≡ false
        → Ends
            (λ s' r.
              HasAll w laws raw_events s' (event_ids received)
              × IsStored (unique_items run_id received) s'
              × IsCounted (initial_run run_id received (unique_items run_id received)) s' r)
            (ingest_events w config lib encoders message_of run_id received)
            s
    unfolding ingest_events
    ingest_events-IsKept message_of run_id received s some_ =
        let items = unique_items run_id received in
        let run = initial_run run_id received items in
        let out = ingest_items w config lib encoders run items s in
        let Q : w.State → IngestionResult → Type 0 = λ s' r.
          HasAll w laws raw_events s' (event_ids received)
          × IsStored items s'
          × IsCounted run s' r in
        let stored_items : (r : IngestionResult)
            → (handled w config run message_of out).1 ≡ ok r
            → Q (handled w config run message_of out).0 r =
          λ r h.
            let (answered, same) = handled-ok run message_of out r h in
            let (has, count) = (ingest_items-IsStored run items s).ends r answered in
            let raw =
              All-map (Has (event_ids items)) (Has (ids (w.rows raw_events out.0)))
                (Has-All (Has (ids (w.rows raw_events out.0))) (event_ids items) has.raw)
                (event_ids received) (unique_items-All run_id received) in
            subst (λ x. Q x r) (sym same) (raw, has, count) in
        rw some_ (elim (Bool-cases (any (λ e. is_nil (strip lib.chars e.event_id)) received)) [
          | inl missing ↦ rw missing (record { ends = λ r h. absurd cc })
          | inr present ↦ rw present (record { ends = stored_items })
        ])
