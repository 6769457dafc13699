-- ===== src/Storage/Values.antt =====
-- ulpf/services/trino.py: the rows that an event becomes.
use ocsf_forge.Prelude.{
  ℕ, Bool, Option, none, some, [], ◌∷◌, Result, ok, raise, ◌>>=◌, if◌then◌else◌,
}
use ocsf_forge.Text.{Text, codes}
use ocsf_forge.Json.{Value, boolean, int, obj, get}
use ocsf_forge.Models.{NormalizedEvent}
use ocsf_forge.Normalizer.Fields.{Library, spell_zulu}
use ocsf_forge.Ocsf.Context.{metadata_of}
use ocsf_forge.Ocsf.Record.{offset_value, to_ocsf_dict}
use ocsf_forge.Storage.Batches.{Cell, null, text, instant, other, Row}

-- `json.dumps`, `float` of a value, and the reading of ISO texts by `datetime`; `none` is a
-- `ValueError`.
pub record Encoders : Type 0 where
  pub dumps : Value → Text
  pub float_of : Value → Option Text
  pub is_datetime : Text → Bool
  pub milliseconds : Text → Option Value

-- What the preparation of rows raises.
pub data ValueError : Type 0 where
  bad_value : ValueError

abbrev pub or_bad_value {ℓ} : {A : Type ℓ} → Option A → Result ValueError A
or_bad_value none = raise bad_value
or_bad_value (some a) = ok a

module _ (lib : Library) (encoders : Encoders) where
  abbrev pub number : Option Value → Cell
  number none = null
  number (some Value.null) = null
  number (some v) = other (lib.show v)

  -- `_datetime`.
  abbrev pub datetime_cell : Option Text → Result ValueError Cell
  datetime_cell none = ok null
  datetime_cell (some []) = ok null
  datetime_cell (some (c ∷ t)) =
      if encoders.is_datetime (spell_zulu (c ∷ t)) then ok instant else raise bad_value

  abbrev pub confidence : Option Value → Result ValueError Cell
  confidence none = ok (other (codes "0.0"))
  confidence (some v) = do t ← or_bad_value (encoders.float_of v); ok (other t)

  abbrev pub metadata_text : NormalizedEvent → Cell
  metadata_text e = text (encoders.dumps (obj (metadata_of e.metadata)))

  abbrev pub port_cell : Option ℕ → Cell
  port_cell none = null
  port_cell (some n) = other (lib.show (int n))

  unfoldable pub raw_values : NormalizedEvent → Result ValueError Row
  raw_values e = do
    detection_confidence ← confidence (get (metadata_of e.metadata) (codes "detection_confidence"))
    observed ← datetime_cell (some e.observed_at)
    ok (
        text e.event_id
        ∷ text e.ingestion_run_id
        ∷ text e.source_id
        ∷ text e.source_name
        ∷ text e.source_format
        ∷ other (lib.show (int e.source_offset))
        ∷ observed
        ∷ text e.original_raw_payload
        ∷ text e.raw_payload_hash
        ∷ text e.parser_name
        ∷ text e.parser_version
        ∷ detection_confidence
        ∷ other (lib.show (boolean e.parse_success))
        ∷ [])

  -- The cell after `observed_at` is the time of the call.
  unfoldable pub event_values : NormalizedEvent → Result ValueError Row
  event_values e = do
    timestamp ← datetime_cell e.timestamp
    observed ← datetime_cell (some e.observed_at)
    ocsf ← or_bad_value (to_ocsf_dict lib encoders.milliseconds e)
    ok (
        text e.event_id
        ∷ text e.ingestion_run_id
        ∷ timestamp
        ∷ observed
        ∷ instant
        ∷ text e.original_timestamp
        ∷ number (some (offset_value e.timezone_offset))
        ∷ text e.time_source
        ∷ text e.device_product
        ∷ text e.severity
        ∷ text e.message
        ∷ text e.user
        ∷ text e.src_endpoint_ip
        ∷ port_cell e.src_endpoint_port
        ∷ text e.dst_endpoint_ip
        ∷ port_cell e.dst_endpoint_port
        ∷ text e.source_format
        ∷ text e.source_id
        ∷ text e.source_name
        ∷ other (lib.show (int e.source_offset))
        ∷ text e.parser_name
        ∷ text e.parser_version
        ∷ text e.ocsf_version
        ∷ text e.category
        ∷ other (lib.show (int e.category_uid))
        ∷ text e.class_name
        ∷ other (lib.show (int e.class_uid))
        ∷ text e.activity_name
        ∷ other (lib.show (int e.activity_id))
        ∷ other (lib.show (int e.type_uid))
        ∷ other (lib.show (int e.severity_id))
        ∷ text e.action
        ∷ text e.disposition
        ∷ text e.status
        ∷ other (lib.show (int e.status_id))
        ∷ text e.hostname
        ∷ text e.device_vendor
        ∷ text e.raw_payload_hash
        ∷ metadata_text e
        ∷ text (encoders.dumps (obj ocsf))
        ∷ [])

  unfoldable pub quarantine_values : NormalizedEvent → Result ValueError Row
  quarantine_values e = do
    observed ← datetime_cell (some e.observed_at)
    ok (
        text e.event_id
        ∷ text e.ingestion_run_id
        ∷ text e.source_id
        ∷ text e.source_name
        ∷ text e.source_format
        ∷ other (lib.show (int e.source_offset))
        ∷ observed
        ∷ text e.original_timestamp
        ∷ text e.parser_name
        ∷ text e.parser_version
        ∷ text (codes "PARSE_OR_VALIDATION_ERROR")
        ∷ text e.parse_notes
        ∷ text e.original_raw_payload
        ∷ text e.raw_payload_hash
        ∷ metadata_text e
        ∷ [])
