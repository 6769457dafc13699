-- ===== src/Storage/Answered.antt =====
-- ulpf/services/trino.py: what an answer of `ingest_events` says of the events received.
use ocsf_forge.Prelude.{
  ◌-◌, ◌≡◌, refl, Bool, true, false, inl, inr, List, [], ◌∷◌, map, keep, length, All, All-map,
  Bool-cases, is_nil,
}
use ocsf_forge.Text.{Text}
use ocsf_forge.Models.{NormalizedEvent, IngestionResult}
use ocsf_forge.Normalizer.Fields.{Library}
use ocsf_forge.Storage.Actions.{Ends}
use ocsf_forge.Storage.Values.{Encoders}
use ocsf_forge.Storage.Warehouse.{
  raw_events, application_logs, quarantine_events, Warehouse, IsWarehouse,
}
use ocsf_forge.Storage.Ids.{ids, Has}
use ocsf_forge.Storage.Prepare.{IngestError, IngestSettings, succeeded, failed}
use ocsf_forge.Storage.Ingest.{in_run, unique_onto, unique_items, initial_run, ingest_events}
use ocsf_forge.Storage.Named.{event_ids}
use ocsf_forge.Storage.Unique.{AllLast, unique_onto-AllLast}
use ocsf_forge.Storage.Stored.{HasAll}
use ocsf_forge.Storage.Ingested.{count_in_run, IsStored, ingest_events-IsKept}

-- What holds of the ids of the events that pass a test holds of each event that passes it.
kept-All :
    (test : NormalizedEvent → Bool) (P : Text → Type 0) (run_id : Text)
    (events : List NormalizedEvent)
    → ((e : NormalizedEvent) → test (in_run run_id e) ≡ test e)
    → All P (event_ids (keep test (map (in_run run_id) events)))
    → All (λ e. test e ≡ true → P e.event_id) events
kept-All test P run_id [] h = λ all. tt
kept-All test P run_id (e ∷ events) h = elim (Bool-cases (test e)) [
  | inl passes ↦ rw (h e, passes) (λ (p, ps). ((λ _. p), kept-All test P run_id events h ps))
  | inr fails ↦ rw (h e, fails) (λ ps. ((λ passes. absurd cc), kept-All test P run_id events h ps))
]

All-both :
    (P Q : NormalizedEvent → Type 0) (events : List NormalizedEvent)
    → All P events
    → All Q events
    → All (λ e. P e × Q e) events
All-both P Q [] hp hq = tt
All-both P Q (e ∷ events) (p, ps) (q, qs) = ((p, q), All-both P Q events ps qs)

module _ (w : Warehouse) (laws : IsWarehouse w) (config : IngestSettings) where
  -- An event that parsed has its id in the table of events, another in `quarantine_events`.
  abbrev pub IsPlaced : w.State → NormalizedEvent → Type 0
  IsPlaced s e =
      (e.parse_success ≡ true → Has (ids (w.rows application_logs s)) e.event_id)
      × (e.parse_success ≡ false → Has (ids (w.rows quarantine_events s)) e.event_id)

  -- Where the events received are, and what the answer counts.
  pub record IsAnswered (run_id : Text) (received : List NormalizedEvent) (s : w.State)
      (r : IngestionResult) : Type 0 where
    pub raw : HasAll w laws raw_events s (event_ids received)
    pub placed : AllLast (IsPlaced s) received
    pub count : r.received ≡ length received
    pub committed : r.committed ≡ count_in_run w laws config application_logs run_id s
    pub quarantined : r.quarantined ≡ count_in_run w laws config quarantine_events run_id s
    pub duplicates : r.duplicates ≡ length received - r.committed - r.quarantined

  failed-false : (e : NormalizedEvent) → e.parse_success ≡ false → failed e ≡ true
  failed-false e h = rw h refl

  IsStored-IsPlaced :
      (run_id : Text) (received : List NormalizedEvent) (s : w.State)
      → IsStored w laws config (unique_items run_id received) s
      → AllLast (IsPlaced s) received
  unfolding unique_items
  IsStored-IsPlaced run_id received s has =
      let found = unique_onto [] received in
      let logs = Has (ids (w.rows application_logs s)) in
      let quarantined = Has (ids (w.rows quarantine_events s)) in
      unique_onto-AllLast (IsPlaced s) received [] (
        All-both (λ e. e.parse_success ≡ true → logs e.event_id)
          (λ e. e.parse_success ≡ false → quarantined e.event_id) found
          (kept-All succeeded logs run_id found (λ e. refl) has.normalized)
          (All-map (λ e. failed e ≡ true → quarantined e.event_id)
            (λ e. e.parse_success ≡ false → quarantined e.event_id) (λ e h f. h (failed-false e f))
            found (kept-All failed quarantined run_id found (λ e. refl) has.rejected)))

  module _ (lib : Library) (encoders : Encoders) where
    -- If `ingest_events` answers for a list with events, then every id received is in `raw_events`;
    -- each event received that no later one of its id follows has its id in the table of events if
    -- it parsed and in `quarantine_events` otherwise; and the answer counts the events received, the
    -- rows of its run in these two tables, and as duplicates what remains.
    pub ingest_events-IsAnswered :
        (message_of : IngestError → Text) (run_id : Text) (received : List NormalizedEvent)
        (s : w.State)
        → is_nil received ≡ false
        → Ends
            (IsAnswered run_id received)
            (ingest_events w config lib encoders message_of run_id received)
            s
    unfolding initial_run
    ingest_events-IsAnswered message_of run_id received s some_ =
        let out = ingest_events w config lib encoders message_of run_id received s in
        record {
          ends = λ r h.
              let (raw, has, count) =
                (ingest_events-IsKept w laws config lib encoders message_of run_id received s
                    some_).ends
                  r h in
              record {
                raw = raw;
                placed = IsStored-IsPlaced run_id received out.0 has;
                count = count.received;
                committed = count.committed;
                quarantined = count.quarantined;
                duplicates = count.duplicates;
              };
        }
