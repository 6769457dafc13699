-- ===== src/Parsing/Parsed.antt =====
-- What a parser of ulpf/parsing returns: the dict of the fields that it found, as a record.
use ocsf_forge.Prelude.{ℕ, Bool, false, Option, none, []}
use ocsf_forge.Text.{Text}
use ocsf_forge.Json.{Value, str, Fields, end}

-- `none` is a missing key; a field without `Option` has, where the key is missing, the value that
-- `OCSFNormalizer.normalize` takes then.
pub record Parsed : Type 0 where
  pub is_parsed : Bool
  pub parse_notes : Text
  pub timestamp : Text
  pub timestamp_missing_ok : Bool
  pub hostname : Text
  pub user : Text
  pub message : Value
  pub severity : Option Text
  pub action : Option Text
  pub disposition : Option Text
  pub status : Option Text
  pub src_endpoint_ip : Option Value
  pub src_endpoint_port : Option Value
  pub dst_endpoint_ip : Option Value
  pub dst_endpoint_port : Option Value
  pub device_vendor : Text
  pub device_product : Option Text
  pub metadata : Fields
  pub ocsf_class : Option Text
  pub class_uid : ℕ
  pub category : Option Text
  pub category_uid : ℕ
  pub activity_id : ℕ
  pub activity_name : Option Text
  pub parser_name : Option Text
  pub parser_version : Option Text
  pub detection_confidence : Option ℕ

-- `{"_parsed": False, "parse_notes": notes}`.
abbrev pub unparsed : Text → Parsed
unparsed notes = record {
  is_parsed = false;
  parse_notes = notes;
  timestamp = [];
  timestamp_missing_ok = false;
  hostname = [];
  user = [];
  message = str [];
  severity = none;
  action = none;
  disposition = none;
  status = none;
  src_endpoint_ip = none;
  src_endpoint_port = none;
  dst_endpoint_ip = none;
  dst_endpoint_port = none;
  device_vendor = [];
  device_product = none;
  metadata = end;
  ocsf_class = none;
  class_uid = 0;
  category = none;
  category_uid = 0;
  activity_id = 0;
  activity_name = none;
  parser_name = none;
  parser_version = none;
  detection_confidence = none;
}
