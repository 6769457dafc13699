-- ===== src/Storage/Prepare.antt =====
-- ulpf/services/trino.py: the rows that `ingest_events` prepares before it writes any.
use ocsf_forge.Prelude.{
  ℕ, Bool, not, List, [], ◌∷◌, keep, Result, ok, raise, ◌>>=◌, ltb, if◌then◌else◌,
}
use ocsf_forge.Text.{Text}
use ocsf_forge.Models.{NormalizedEvent}
use ocsf_forge.Normalizer.Fields.{Library}
use ocsf_forge.Storage.Columns.{
  raw_table, quarantine_table, raw_columns, normalized_columns, quarantine_columns,
}
use ocsf_forge.Storage.Batches.{Row, BatchError, event_too_large, preflight_size}
use ocsf_forge.Storage.Values.{Encoders, ValueError, raw_values, event_values, quarantine_values}

pub data IngestError : Type 0 where
  missing_event_id : IngestError
  values : ValueError → IngestError
  batch : BatchError → IngestError
  storage : Text → IngestError

-- The settings that `ingest_events` reads.
pub record IngestSettings : Type 0 where
  pub max_query_bytes : ℕ
  pub insert_batch_size : ℕ
  pub qualified_table : Text

abbrev pub succeeded : NormalizedEvent → Bool
succeeded e = e.parse_success

abbrev pub failed : NormalizedEvent → Bool
failed e = not e.parse_success

-- `_assert_events_fit` with the rows that it prepares, which `_merge_batches` prepares again.
module _ (max_query_bytes : ℕ) (table : Text) (columns : List Text)
    (row_of : NormalizedEvent → Result ValueError Row) where
  abbrev pub fit :
      Result ValueError Row → Result IngestError (List Row) → Result IngestError (List Row)
  fit (raise e) rest = raise (values e)
  fit (ok row) (raise e) =
      if ltb max_query_bytes (preflight_size max_query_bytes table columns row)
      then raise (batch event_too_large)
      else raise e
  fit (ok row) (ok rows) =
      if ltb max_query_bytes (preflight_size max_query_bytes table columns row)
      then raise (batch event_too_large)
      else ok (row ∷ rows)

  unfoldable pub fitting_rows : List NormalizedEvent → Result IngestError (List Row)
  fitting_rows [] = ok []
  fitting_rows (e ∷ events) = fit (row_of e) (fitting_rows events)

-- The rows for the three tables.
pub record Prepared : Type 0 where
  pub raw : List Row
  pub normalized : List Row
  pub rejected : List Row

-- The three calls of `_assert_events_fit`, in their order.
unfoldable pub prepare :
    IngestSettings → Library → Encoders → List NormalizedEvent → Result IngestError Prepared
unfolding fitting_rows
prepare config lib encoders items = do
  raw ← fitting_rows config.max_query_bytes raw_table raw_columns (raw_values lib encoders) items
  normalized ←
      fitting_rows config.max_query_bytes config.qualified_table normalized_columns
        (event_values lib encoders) (keep succeeded items)
  rejected ←
      fitting_rows config.max_query_bytes quarantine_table quarantine_columns
        (quarantine_values lib encoders) (keep failed items)
  ok (record { raw = raw; normalized = normalized; rejected = rejected })
