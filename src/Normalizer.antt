-- ===== src/Normalizer.antt =====
-- ulpf/normalizer.py: parsed records become validated events.
pub mod Fields
pub mod Accepted
pub mod Bounds
use ocsf_forge.Prelude.{
  ℕ, ◌+◌, ◌*◌, Bool, true, false, not, ◌&&◌, ◌||◌, Option, none, some, List, [], ◌∷◌, ◌++◌, take,
  ltb, is_nil, leb, ◌==◌, if◌then◌else◌,
}
use ocsf_forge.Text.{Text, CharClass, codes, text_eq}
use ocsf_forge.Json.{Value, str, int, put, float}
use ocsf_forge.Models.{NormalizedEvent, Offset, default_event, severity_ids, status_ids}
use ocsf_forge.Parsing.Parsed.{Parsed}
use ocsf_forge.Normalizer.Fields.{
  Library, Moment, TimeReading, port, ip, timestamp_of, show_value, is_nothing,
}

abbrev pub class_categories : List (ℕ × ℕ)
class_categories = (2004, 2) ∷ (3002, 3) ∷ (4001, 4) ∷ (4002, 4) ∷ (6003, 6) ∷ (6008, 6) ∷ []

abbrev pub finding_status_ids : List (Text × ℕ)
finding_status_ids =
    (codes "Unknown", 0)
    ∷ (codes "New", 1)
    ∷ (codes "In Progress", 2)
    ∷ (codes "Suppressed", 3)
    ∷ (codes "Resolved", 4)
    ∷ (codes "Archived", 5)
    ∷ (codes "Deleted", 6)
    ∷ []

abbrev pub get_id : List (Text × ℕ) → Text → Option ℕ
get_id [] key = none
get_id ((k, v) ∷ table) key = if text_eq key k then some v else get_id table key

abbrev pub category_of : List (ℕ × ℕ) → ℕ → Option ℕ
category_of [] uid = none
category_of ((k, v) ∷ table) uid = if uid == k then some v else category_of table uid

abbrev pub or_else {ℓ} : {A : Type ℓ} → Option A → A → A
or_else none a = a
or_else (some b) a = b

-- `"; ".join(filter(None, texts))`.
abbrev pub join_after : List Text → Text
join_after [] = []
join_after ([] ∷ ts) = join_after ts
join_after ((c ∷ t) ∷ ts) = codes "; " ++ ((c ∷ t) ++ join_after ts)

abbrev pub join_notes : List Text → Text
join_notes [] = []
join_notes ([] ∷ ts) = join_notes ts
join_notes ((c ∷ t) ∷ ts) = (c ∷ t) ++ join_after ts

-- `[error for error in errors if error]`.
abbrev pub nonempty : List Text → List Text
nonempty [] = []
nonempty ([] ∷ ts) = nonempty ts
nonempty ((c ∷ t) ∷ ts) = (c ∷ t) ∷ nonempty ts

-- What the caller of `normalize` says of the record's source; `observed` is aware.
pub record Source : Type 0 where
  pub observed : Moment
  pub source_id : Text
  pub source_offset : ℕ
  pub source_name : Text
  pub ingestion_run_id : Text

-- `first or second`, on texts.
abbrev pub fallback : Text → Text → Text
fallback [] t = t
fallback (c ∷ s) t = c ∷ s

abbrev pub severity_errors : Text → List Text
severity_errors severity = elim (get_id severity_ids severity) [
  | none ↦ (codes "Unknown OCSF severity: " ++ severity) ∷ []
  | some n ↦ []
]

abbrev pub severity_of : Parsed → Text
severity_of p = or_else p.severity (codes "Informational")

abbrev pub status_id_of : Parsed → Text → ℕ
status_id_of p status =
    or_else (get_id (if p.class_uid == 2004 then finding_status_ids else status_ids) status)
      (if is_nil status || text_eq status (codes "Unknown") then 0 else 99)

module _ (lib : Library) where
  abbrev pub category_errors : Parsed → List Text
  category_errors p =
      if p.is_parsed
      then elim (category_of class_categories p.class_uid) [
        | none ↦ (codes "Unsupported OCSF class UID: " ++ lib.show (int p.class_uid)) ∷ []
        | some expected ↦
            if p.category_uid == expected
            then []
            else (codes "OCSF class "
                ++ (lib.show (int p.class_uid)
                    ++ (codes " belongs to category "
                        ++ (lib.show (int expected)
                            ++ (codes ", not " ++ lib.show (int p.category_uid))))))
              ∷ []
      ]
      else []

  abbrev pub time_of : Parsed → Source → TimeReading
  time_of p source = timestamp_of lib p.timestamp source.observed p.timestamp_missing_ok

  -- `validation_errors`.
  unfoldable pub validation_errors : Parsed → Source → List Text
  validation_errors p source =
      nonempty (
        (time_of p source).error
        ∷ (ip lib p.src_endpoint_ip (codes "source")).1
        ∷ (ip lib p.dst_endpoint_ip (codes "destination")).1
        ∷ (port lib p.src_endpoint_port (codes "source")).1
        ∷ (port lib p.dst_endpoint_port (codes "destination")).1
        ∷ [])
      ++ (category_errors p ++ severity_errors (severity_of p))

  unfoldable pub succeeds : Parsed → Source → Bool
  unfolding validation_errors
  succeeds p source =
      p.is_parsed && is_nil (validation_errors p source) && ltb 0 p.class_uid && ltb 0 p.activity_id

  unfoldable pub notes : Parsed → Source → Text
  unfolding validation_errors
  notes p source =
      let errors = validation_errors p source in
      let checked = if is_nil errors then p.parse_notes else join_notes (p.parse_notes ∷ errors) in
      if p.is_parsed && (p.class_uid == 0 || p.activity_id == 0)
      then join_notes (checked ∷ codes "OCSF classification is incomplete" ∷ [])
      else checked

  abbrev pub status_of : Parsed → Source → Text
  status_of p source = lib.title (
      or_else p.status (
        if p.class_uid == 2004
        then codes "New"
        else if succeeds p source
        then codes "Success"
        else codes "Failure"))

  -- The id of an event, from the source, the offset and the hash of the payload.
  -- A source id with a lone surrogate, for which `.encode()` raises, is outside of the model.
  unfoldable pub event_id_of : Text → Source → Text
  event_id_of raw_line source =
      lib.sha256 (
        source.source_id
        ++ (0 ∷ (lib.show (int source.source_offset) ++ (0 ∷ lib.sha256 raw_line))))

  -- `OCSFNormalizer.normalize`.
  unfoldable pub normalize : Text → Text → Parsed → Source → NormalizedEvent
  unfolding succeeds notes event_id_of
  normalize raw_line fmt p source =
      let time = time_of p source in
      let severity = severity_of p in
      let status = status_of p source in
      let success = succeeds p source in
      record default_event {
        event_id = event_id_of raw_line source;
        timestamp = time.timestamp;
        original_timestamp = p.timestamp;
        observed_at = source.observed.iso;
        timezone_offset = time.offset;
        time_source = time.source;
        category = or_else p.category (codes "Other");
        category_uid = p.category_uid;
        class_name = or_else p.ocsf_class (codes "Base Event");
        class_uid = p.class_uid;
        activity_id = p.activity_id;
        activity_name = or_else p.activity_name (codes "Unknown");
        type_uid =
            if ltb 0 p.class_uid && ltb 0 p.activity_id
            then p.class_uid * 100 + p.activity_id
            else 0;
        severity = severity;
        severity_id = or_else (get_id severity_ids severity) 0;
        status = status;
        status_id = status_id_of p status;
        disposition = or_else p.disposition (codes "Unknown");
        action = or_else p.action (codes "Unknown");
        src_endpoint_ip = (ip lib p.src_endpoint_ip (codes "source")).0;
        src_endpoint_port = (port lib p.src_endpoint_port (codes "source")).0;
        dst_endpoint_ip = (ip lib p.dst_endpoint_ip (codes "destination")).0;
        dst_endpoint_port = (port lib p.dst_endpoint_port (codes "destination")).0;
        user = p.user;
        hostname = p.hostname;
        device_vendor = p.device_vendor;
        device_product = fallback (or_else p.device_product fmt) fmt;
        message = take 2000 (show_value lib p.message);
        raw_payload_hash = lib.sha256 raw_line;
        original_raw_payload = raw_line;
        source_format = fmt;
        source_id = source.source_id;
        source_offset = source.source_offset;
        source_name = source.source_name;
        ingestion_run_id = source.ingestion_run_id;
        parser_name = or_else p.parser_name fmt;
        parser_version = or_else p.parser_version (codes "1.0.0");
        parse_success = success;
        parse_notes =
            fallback (notes p source)
              (if success then [] else codes "Format not recognized or extraction incomplete");
        metadata = some (
            put p.metadata (codes "detection_confidence")
              (float (lib.hundredths (or_else p.detection_confidence 100))));
      }
