-- ===== src/Models.antt =====
-- ulpf/models.py: the normalized event and the tables of OCSF identifiers.
use ocsf_forge.Prelude.{ℕ, Bool, true, Option, none, List, [], ◌∷◌}
use ocsf_forge.Text.{Text, codes}
use ocsf_forge.Json.{Fields}

-- A timestamp is an ISO text; `timezone_offset` is in minutes, by sign and size.
pub record Offset : Type 0 where
  pub west : Bool
  pub minutes : ℕ

pub record NormalizedEvent : Type 0 where
  pub ocsf_version : Text
  pub event_id : Text
  pub timestamp : Option Text
  pub original_timestamp : Text
  pub observed_at : Text
  pub timezone_offset : Option Offset
  pub time_source : Text
  pub category_uid : ℕ
  pub class_uid : ℕ
  pub activity_id : ℕ
  pub type_uid : ℕ
  pub category : Text
  pub class_name : Text
  pub activity_name : Text
  pub severity : Text
  pub severity_id : ℕ
  pub status : Text
  pub status_id : ℕ
  pub disposition : Text
  pub action : Text
  pub src_endpoint_ip : Text
  pub src_endpoint_port : Option ℕ
  pub dst_endpoint_ip : Text
  pub dst_endpoint_port : Option ℕ
  pub user : Text
  pub hostname : Text
  pub device_vendor : Text
  pub device_product : Text
  pub message : Text
  pub raw_payload_hash : Text
  pub original_raw_payload : Text
  pub source_format : Text
  pub source_id : Text
  pub source_offset : ℕ
  pub source_name : Text
  pub ingestion_run_id : Text
  pub parser_name : Text
  pub parser_version : Text
  pub parse_success : Bool
  pub parse_notes : Text
  pub metadata : Option Fields

-- The defaults of the dataclass.
abbrev pub default_event : NormalizedEvent
default_event = record {
  ocsf_version = codes "1.8.0";
  event_id = [];
  timestamp = none;
  original_timestamp = [];
  observed_at = [];
  timezone_offset = none;
  time_source = codes "source";
  category_uid = 0;
  class_uid = 0;
  activity_id = 0;
  type_uid = 0;
  category = codes "Other";
  class_name = codes "Base Event";
  activity_name = codes "Unknown";
  severity = codes "Informational";
  severity_id = 1;
  status = codes "Unknown";
  status_id = 0;
  disposition = codes "Unknown";
  action = codes "Unknown";
  src_endpoint_ip = [];
  src_endpoint_port = none;
  dst_endpoint_ip = [];
  dst_endpoint_port = none;
  user = [];
  hostname = [];
  device_vendor = [];
  device_product = [];
  message = [];
  raw_payload_hash = [];
  original_raw_payload = [];
  source_format = [];
  source_id = codes "interactive";
  source_offset = 0;
  source_name = [];
  ingestion_run_id = [];
  parser_name = [];
  parser_version = [];
  parse_success = true;
  parse_notes = [];
  metadata = none;
}

abbrev pub severity_ids : List (Text × ℕ)
severity_ids =
    (codes "Unknown", 0)
    ∷ (codes "Informational", 1)
    ∷ (codes "Low", 2)
    ∷ (codes "Medium", 3)
    ∷ (codes "High", 4)
    ∷ (codes "Critical", 5)
    ∷ (codes "Fatal", 6)
    ∷ []

abbrev pub status_ids : List (Text × ℕ)
status_ids = (codes "Unknown", 0) ∷ (codes "Success", 1) ∷ (codes "Failure", 2) ∷ []

pub record IngestionResult : Type 0 where
  pub run_id : Text
  pub received : ℕ
  pub committed : ℕ
  pub quarantined : ℕ
  pub duplicates : ℕ
  pub status : Text
