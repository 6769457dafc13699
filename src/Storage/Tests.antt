-- ===== src/Storage/Tests.antt =====
-- Runs of the batch loop, and the theorems about it at concrete rows.
use ocsf_forge.Storage.Commits.{execute_write, IsSettled, execute_write-IsSettled}
use ocsf_forge.Prelude.{
  ℕ, true, false, some, ltb, if◌then◌else◌, Result, ◌+◌, ◌≡◌, refl, [], ◌∷◌, List, ok, raise, All,
  arith,
}
use ocsf_forge.Text.{Text, codes}
use ocsf_forge.Json.{int}
use ocsf_forge.Models.{NormalizedEvent, default_event, IngestionResult}
use ocsf_forge.Ocsf.Context.{project_class}
use ocsf_forge.Ocsf.Record.{shaped, to_ocsf_dict}
use ocsf_forge.Pipeline.Samples.{lib}
use ocsf_forge.Storage.Values.{Encoders, raw_values, event_values, quarantine_values}
use ocsf_forge.Storage.Prepare.{IngestError, IngestSettings, fitting_rows, prepare}
use ocsf_forge.Storage.Ingest.{
  put_by_id, unique_onto, unique_items, initial_run, run_merges, merge_rows, write_prepared,
  close_run, ingest_items, ingest_events,
}
use ocsf_forge.Storage.Grown.{IsGrown, ingest_events-IsGrown}
use ocsf_forge.Storage.Answered.{IsAnswered, ingest_events-IsAnswered}
use ocsf_forge.Storage.Replayed.{ingest_events-IsSame}
use ocsf_forge.Storage.Settled.{IsSame}
use ocsf_forge.Storage.Memory.{Tables, memory, memory-IsWarehouse}
use ocsf_forge.Storage.Columns.{raw_table, raw_columns, normalized_columns}
use ocsf_forge.Storage.Batches.{
  Row, text, null, event_too_large, assert_events_fit, merge_from, merge_batches, row_size,
  prepared_value_size,
}
use ocsf_forge.Storage.Partition.{concat, IsBatch, merge_batches-IsBatch}
use ocsf_forge.Storage.Preflight.{raw-Shortfall, preflight_suffices, preflight_misses}

abbrev row : Text → Row
row t = text t ∷ null ∷ []

abbrev rows : List Row
rows = row (codes "a") ∷ row (codes "it's") ∷ row (codes "c") ∷ []

abbrev pair : List Text
pair = codes "event_id" ∷ codes "note" ∷ []

two_batches :
    (merge_batches 400 (codes "t") pair 2 rows).0
    ≡ (row (codes "a") ∷ row (codes "it's") ∷ []) ∷ (row (codes "c") ∷ []) ∷ []
unfolding merge_batches row_size prepared_value_size
two_batches = refl

merge_batches-IsBatch_example :
    ((merge_batches 400 (codes "t") pair 2 rows).1 ≡ ok tt)
    × (concat (merge_batches 400 (codes "t") pair 2 rows).0 ≡ rows)
    × All (IsBatch 400 (codes "t") pair 2) (merge_batches 400 (codes "t") pair 2 rows).0
unfolding row_size prepared_value_size
merge_batches-IsBatch_example =
    merge_batches-IsBatch 400 (codes "t") pair 2 rows (omega arith) (omega arith)

preflight_suffices_example : (merge_batches (1000 + 21) raw_table raw_columns 2 rows).1 ≡ ok tt
unfolding assert_events_fit row_size prepared_value_size
preflight_suffices_example =
    preflight_suffices 1000 raw_table raw_columns 21 2 rows (raw-Shortfall 1000 raw_table)
      (omega arith) refl

preflight_misses_example :
    (assert_events_fit 2000 (codes "t") normalized_columns (row (codes "a") ∷ []) ≡ ok tt)
    × (merge_batches 2000 (codes "t") normalized_columns 5 (row (codes "a") ∷ [])
        ≡ ([], raise event_too_large))
unfolding row_size prepared_value_size
preflight_misses_example =
    preflight_misses 2000 (codes "t") 5 (row (codes "a")) (omega arith) (omega arith)

-- A commit conflict at each of the first two attempts.
abbrev flaky : ℕ → Result Text Text
flaky attempt =
    if ltb attempt 2 then raise (codes "TrinoError: ICEBERG_COMMIT_ERROR") else ok (codes "done")

third_time : execute_write flaky 5 ≡ (2 ∷ 4 ∷ [], ok (codes "done"))
unfolding execute_write
third_time = refl

given_up : (execute_write flaky 1).1 ≡ raise (codes "TrinoError: ICEBERG_COMMIT_ERROR")
unfolding execute_write
given_up = refl

execute_write-IsSettled_example : IsSettled flaky 0 5 (execute_write flaky 5)
execute_write-IsSettled_example = execute_write-IsSettled flaky 5

abbrev encoders : Encoders
encoders = record {
  dumps = λ v. codes "{}";
  float_of = λ v. some [];
  is_datetime = λ t. true;
  milliseconds = λ t. some (int 0);
}

-- Three events, of which the first and the last have the same id.
abbrev received : List NormalizedEvent
received =
    record default_event { event_id = codes "a"; parse_success = true }
    ∷ record default_event { event_id = codes "b"; parse_success = false }
    ∷ record default_event { event_id = codes "a"; parse_success = true }
    ∷ []

abbrev ingest_settings : IngestSettings
ingest_settings = record {
  max_query_bytes = 100000;
  insert_batch_size = 2;
  qualified_table = codes "iceberg.logging.application_logs";
}

abbrev nothing_stored : Tables
nothing_stored t = []

abbrev ingested : Tables × Result IngestError IngestionResult
ingested =
    ingest_events memory ingest_settings lib encoders (λ e. []) (codes "r") received nothing_stored

abbrev answer : IngestionResult
answer = record {
  run_id = codes "r";
  received = 3;
  committed = 1;
  quarantined = 1;
  duplicates = 1;
  status = codes "COMPLETED_WITH_QUARANTINE";
}

answered : ingested.1 ≡ ok answer
unfolding ingest_events ingest_items unique_items unique_onto put_by_id initial_run prepare
    fitting_rows write_prepared merge_rows run_merges close_run merge_batches merge_from raw_values
    event_values quarantine_values row_size prepared_value_size to_ocsf_dict shaped project_class
answered = refl

ingest_events-IsGrown_example : IsGrown memory memory-IsWarehouse nothing_stored ingested.0
ingest_events-IsGrown_example =
    ingest_events-IsGrown memory memory-IsWarehouse ingest_settings lib encoders (λ e. [])
      (codes "r") received nothing_stored

ingest_events-IsAnswered_example :
    IsAnswered memory memory-IsWarehouse ingest_settings (codes "r") received ingested.0 answer
ingest_events-IsAnswered_example =
    (ingest_events-IsAnswered memory memory-IsWarehouse ingest_settings lib encoders (λ e. [])
        (codes "r") received nothing_stored refl).ends
      answer answered

ingest_events-IsSame_example :
    IsSame memory memory-IsWarehouse ingested.0
      (ingest_events memory ingest_settings lib encoders
        (λ e. [])
        (codes "q")
        received
        ingested.0).0
ingest_events-IsSame_example =
    ingest_events-IsSame memory memory-IsWarehouse ingest_settings lib encoders (λ e. [])
      (codes "r") (codes "q") received nothing_stored answer refl answered
