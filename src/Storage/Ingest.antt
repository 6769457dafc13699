-- ===== src/Storage/Ingest.antt =====
-- ulpf/services/trino.py: `TrinoService.ingest_events` over a warehouse.
use ocsf_forge.Prelude.{
  ℕ, Option, ◌-◌, Bool, true, false, none, List, [], ◌∷◌, map, length, count_if, any, take, is_nil,
  Result, ok, raise, ◌==◌, if◌then◌else◌,
}
use ocsf_forge.Text.{Text, codes, text_eq, strip}
use ocsf_forge.Models.{NormalizedEvent, IngestionResult}
use ocsf_forge.Normalizer.{fallback}
use ocsf_forge.Normalizer.Fields.{Library}
use ocsf_forge.Storage.Columns.{
  raw_table, quarantine_table, raw_columns, normalized_columns, quarantine_columns,
}
use ocsf_forge.Storage.Batches.{Row, BatchError, merge_batches}
use ocsf_forge.Storage.Prepare.{
  IngestError, missing_event_id, batch, storage, IngestSettings, succeeded, failed, Prepared,
  prepare,
}
use ocsf_forge.Storage.Actions.{Action, pure, fail, lift_result, ◌>>=◌, ◌>>◌}
use ocsf_forge.Storage.Values.{Encoders}
use ocsf_forge.Storage.Warehouse.{
  Table, raw_events, application_logs, quarantine_events, Run, Warehouse,
}

-- `d[event.event_id] = event`: the place of the first, the value of the last.
unfoldable pub put_by_id : NormalizedEvent → List NormalizedEvent → List NormalizedEvent
put_by_id e [] = e ∷ []
put_by_id e (f ∷ events) =
    if text_eq e.event_id f.event_id then e ∷ events else f ∷ put_by_id e events

unfoldable pub unique_onto : List NormalizedEvent → List NormalizedEvent → List NormalizedEvent
unfolding put_by_id
unique_onto found [] = found
unique_onto found (e ∷ events) = unique_onto (put_by_id e found) events

-- `replace(event, ingestion_run_id=run_id)`.
abbrev pub in_run : Text → NormalizedEvent → NormalizedEvent
in_run run_id e = record e { ingestion_run_id = run_id }

unfoldable pub unique_items : Text → List NormalizedEvent → List NormalizedEvent
unfolding unique_onto
unique_items run_id events = map (in_run run_id) (unique_onto [] events)

abbrev pub all_equal : Text → List Text → Bool
all_equal t [] = true
all_equal t (u ∷ us) = if text_eq t u then all_equal t us else false

-- The only member of the set of the texts, or what stands for several.
abbrev pub shared : Text → List Text → Text
shared several [] = several
shared several (t ∷ ts) = if all_equal t ts then t else several

-- The row `initial` of the run.
unfoldable pub initial_run : Text → List NormalizedEvent → List NormalizedEvent → Run
initial_run run_id received items = record {
  run_id = run_id;
  source_id = shared (codes "multiple") (map (λ e. e.source_id) items);
  source_name =
      shared (codes "multiple") (map (λ e. fallback e.source_name (codes "interactive")) items);
  source_type = shared (codes "mixed") (map (λ e. e.source_format) items);
  status = codes "RUNNING";
  received = length received;
  parsed = count_if succeeded received;
  quarantined = count_if failed received;
  committed = 0;
  duplicates = 0;
  snapshot_id = none;
  error_message = [];
}

abbrev pub completed : ℕ → Text
completed quarantined =
    if quarantined == 0 then codes "COMPLETED" else codes "COMPLETED_WITH_QUARANTINE"

-- A call of the warehouse, with its error among those of `ingest_events`.
abbrev pub lift_storage : {A : Type 0} → Result Text A → Result IngestError A
lift_storage (ok a) = ok a
lift_storage (raise message) = raise (storage message)

abbrev pub stored : {S A : Type 0} → (S → S × Result Text A) → Action S IngestError A
stored m s = ((m s).0, lift_storage (m s).1)

module _ (w : Warehouse) (config : IngestSettings) where
  -- The statements of `_merge_batches`, one after the other, and how its loop ends.
  unfoldable pub run_merges :
      Table → List (List Row) → Result BatchError (Unit {0}) → Action w.State IngestError (Unit {0})
  run_merges t [] (ok _) = pure tt
  run_merges t [] (raise e) = fail (batch e)
  run_merges t (b ∷ batches) end = do stored (w.merge t b); run_merges t batches end

  unfoldable pub merge_rows :
      Table → Text → List Text → List Row → Action w.State IngestError (Unit {0})
  unfolding run_merges
  merge_rows t table columns rows =
      let out = merge_batches config.max_query_bytes table columns config.insert_batch_size rows in
      run_merges t out.0 out.1

  abbrev pub failed_run : Run → Text → Run
  failed_run run message = record run {
    status = codes "FAILED";
    committed = 0;
    quarantined = 0;
    duplicates = 0;
    snapshot_id = none;
    error_message = take 2000 message;
  }

  -- The handler of the `try`: the run fails, and what the handler raises is only logged.
  abbrev pub handled :
      Run
      → (IngestError → Text)
      → w.State × Result IngestError IngestionResult
      → w.State × Result IngestError IngestionResult
  handled run message_of (s, ok r) = (s, ok r)
  handled run message_of (s, raise e) =
      ((w.finish_run (failed_run run (message_of e)) s).0, raise e)

  -- The three calls of `_merge_batches`.
  unfoldable pub write_prepared : Prepared → Action w.State IngestError (Unit {0})
  unfolding merge_rows
  write_prepared p = do
    merge_rows raw_events raw_table raw_columns p.raw
    merge_rows application_logs config.qualified_table normalized_columns p.normalized
    merge_rows quarantine_events quarantine_table quarantine_columns p.rejected

  -- The source subtracts integers; the difference could be negative there only if rows of another run
  -- had the run id, which is a new UUID.
  abbrev pub finished_run : Run → ℕ → ℕ → Option Text → Run
  finished_run run committed quarantined snapshot_id = record run {
    status = completed quarantined;
    committed = committed;
    quarantined = quarantined;
    duplicates = run.received - committed - quarantined;
    snapshot_id = snapshot_id;
  }

  abbrev pub result_of : Run → IngestionResult
  result_of run = record {
    run_id = run.run_id;
    received = run.received;
    committed = run.committed;
    quarantined = run.quarantined;
    duplicates = run.duplicates;
    status = run.status;
  }

  -- What follows them: the counts, the snapshot and the update of the run.
  unfoldable pub close_run : Run → Action w.State IngestError IngestionResult
  close_run run = do
    committed ← stored (w.count_for_run application_logs run.run_id)
    quarantined ← stored (w.count_for_run quarantine_events run.run_id)
    snapshot_id ← stored w.last_snapshot
    stored (w.finish_run (finished_run run committed quarantined snapshot_id))
    pure (result_of (finished_run run committed quarantined snapshot_id))

  module _ (lib : Library) (encoders : Encoders) where
    -- The body of the `try`, with the row `initial`.
    unfoldable pub ingest_items :
        Run → List NormalizedEvent → Action w.State IngestError IngestionResult
    unfolding prepare write_prepared close_run
    ingest_items run items = do
      stored (w.insert_run run)
      prepared ← lift_result (prepare config lib encoders items)
      write_prepared prepared
      close_run run

    -- `ingest_events`; `run_id` is the new UUID, and `message_of` the text of an exception.
    unfoldable pub ingest_events :
        (IngestError → Text)
        → Text
        → List NormalizedEvent
        → Action w.State IngestError IngestionResult
    unfolding ingest_items
    ingest_events message_of run_id received =
        let items = unique_items run_id received in
        let run = initial_run run_id received items in
        let kept = λ (s : w.State). handled run message_of (ingest_items run items s) in
        if is_nil received
        then pure (record {
          run_id = [];
          received = 0;
          committed = 0;
          quarantined = 0;
          duplicates = 0;
          status = codes "EMPTY";
        })
        else if any (λ e. is_nil (strip lib.chars e.event_id)) received
        then fail missing_event_id
        else kept
