-- ===== src/Storage/Replayed.antt =====
-- `ingest_events` of ulpf/services/trino.py stores nothing twice.
use ocsf_forge.Prelude.{
  ◌≡◌, refl, ap, sym, ◌∙◌, inl, inr, Bool, false, List, [], ◌∷◌, map, any, keep, ok, is_nil,
  Bool-cases,
}
use mathlib.Core.Path.{subst}
use ocsf_forge.Text.{Text, strip}
use ocsf_forge.Models.{NormalizedEvent, IngestionResult}
use ocsf_forge.Normalizer.Fields.{Library}
use ocsf_forge.Storage.Values.{Encoders}
use ocsf_forge.Storage.Warehouse.{
  raw_events, application_logs, quarantine_events, Warehouse, IsWarehouse,
}
use ocsf_forge.Storage.Prepare.{IngestError, IngestSettings, succeeded, failed}
use ocsf_forge.Storage.Ingest.{
  ingest_items, ingest_events, in_run, unique_onto, unique_items, initial_run,
}
use ocsf_forge.Storage.Named.{event_ids}
use ocsf_forge.Storage.Unique.{event_ids-in_run}
use ocsf_forge.Storage.Stored.{HasAll}
use ocsf_forge.Storage.Ingested.{IsStored, ingest_events-IsKept}
use ocsf_forge.Storage.Settled.{IsSame, handled-IsSame, ingest_items-Settles}

-- The ids of a run's items, of those that parsed and of the others, do not depend on the run.
keep-in_run :
    (test : NormalizedEvent → Bool) (run_id : Text) (events : List NormalizedEvent)
    → ((e : NormalizedEvent) → test (in_run run_id e) ≡ test e)
    → event_ids (keep test (map (in_run run_id) events)) ≡ event_ids (keep test events)
keep-in_run test run_id [] h = refl
keep-in_run test run_id (e ∷ events) h = elim (Bool-cases (test e)) [
  | inl passes ↦
      rw (h e, passes) (ap (λ known. e.event_id ∷ known) (keep-in_run test run_id events h))
  | inr fails ↦ rw (h e, fails) (keep-in_run test run_id events h)
]

module _ (w : Warehouse) (laws : IsWarehouse w) (config : IngestSettings) where
  IsStored-again :
      (first second : Text) (received : List NormalizedEvent) (s : w.State)
      → IsStored w laws config (unique_items first received) s
      → IsStored w laws config (unique_items second received) s
  unfolding unique_items
  IsStored-again first second received s has =
      let items = unique_onto [] received in
      let again : (test : NormalizedEvent → Bool)
          → ((run_id : Text) (e : NormalizedEvent) → test (in_run run_id e) ≡ test e)
          → event_ids (keep test (map (in_run first) items))
            ≡ event_ids (keep test (map (in_run second) items)) =
        λ test h.
          keep-in_run test first items (h first) ∙ sym (keep-in_run test second items (h second)) in
      record {
        raw =
            subst (HasAll w laws raw_events s)
              (event_ids-in_run first items ∙ sym (event_ids-in_run second items)) has.raw;
        normalized =
            subst (HasAll w laws application_logs s) (again succeeded (λ r e. refl)) has.normalized;
        rejected =
            subst (HasAll w laws quarantine_events s) (again failed (λ r e. refl)) has.rejected;
      }

  module _ (lib : Library) (encoders : Encoders) where
    ingest_stored-IsSame :
        (message_of : IngestError → Text) (run_id : Text) (received : List NormalizedEvent)
        (s : w.State)
        → is_nil received ≡ false
        → IsStored w laws config (unique_items run_id received) s
        → IsSame w laws s (ingest_events w config lib encoders message_of run_id received s).0
    unfolding ingest_events
    ingest_stored-IsSame message_of run_id received s some_ has =
        let items = unique_items run_id received in
        let run = initial_run run_id received items in
        rw some_ (elim (Bool-cases (any (λ e. is_nil (strip lib.chars e.event_id)) received)) [
          | inl missing ↦ rw missing (λ t. refl)
          | inr present ↦ rw present (
              handled-IsSame w laws s config run message_of
                (ingest_items w config lib encoders run items s)
                ((ingest_items-Settles w laws s config lib encoders items has run).settles s
                  (λ t. refl)))
        ])

    -- If `ingest_events` has answered for a list with events, then ingesting the list again changes
    -- no table of events, whatever the second call answers or raises.
    pub ingest_events-IsSame :
        (message_of : IngestError → Text) (first second : Text) (received : List NormalizedEvent)
        (s : w.State) (r : IngestionResult)
        → is_nil received ≡ false
        → (ingest_events w config lib encoders message_of first received s).1 ≡ ok r
        → IsSame w laws
            (ingest_events w config lib encoders message_of first received s).0
            (ingest_events w config lib encoders message_of second received
              (ingest_events w config lib encoders message_of first received s).0).0
    ingest_events-IsSame message_of first second received s r some_ h =
        let s' = (ingest_events w config lib encoders message_of first received s).0 in
        let (raw, has, count) =
          (ingest_events-IsKept w laws config lib encoders message_of first received s some_).ends r
            h in
        ingest_stored-IsSame message_of second received s' some_
          (IsStored-again first second received s' has)
