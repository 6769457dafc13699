-- ===== src/Streaming/Records.antt =====
-- `parse_record` of ulpf/streaming/records.py.
use ocsf_forge.Prelude.{
  ℕ, true, Option, none, some, List, [], ◌∷◌, ◌++◌, is_nil, Result, ok, raise, if◌then◌else◌,
}
use ocsf_forge.Text.{Text, codes}
use ocsf_forge.Json.{str, int, boolean, Fields, fields}
use ocsf_forge.Models.{NormalizedEvent}
use ocsf_forge.Normalizer.{Source, normalize}
use ocsf_forge.Normalizer.Fields.{Library, Moment}
use ocsf_forge.Parsing.Parsed.{unparsed}
use ocsf_forge.Pipeline.LogicalEvents.{is_blank}
use ocsf_forge.Pipeline.Run.{RunError, EventProcessor, Request, run}

-- The decoding of bytes, and the time of a record or, without one, of the call.
pub record Decoder : Type 1 where
  pub Bytes : Type 0
  pub utf_8 : Bytes → Option Text
  pub with_backslashes : Bytes → Text
  pub base64 : Bytes → Text
  pub at_milliseconds : Option ℕ → Moment

pub record KafkaRecord (decoder : Decoder) : Type 0 where
  pub topic : Text
  pub partition : ℕ
  pub offset : ℕ
  pub timestamp : Option ℕ
  pub value : Option decoder.Bytes

-- `payload`, `reason` and `metadata`.
pub record Opened : Type 0 where
  pub payload : Text
  pub reason : Text
  pub metadata : Fields

-- `run(...)[0]` of no events is an error too.
pub data RecordError : Type 0 where
  running : RunError → RecordError
  no_event : RecordError

abbrev pub first_of : Result RunError (List NormalizedEvent) → Result RecordError NormalizedEvent
first_of (ok []) = raise no_event
first_of (ok (e ∷ events)) = ok e
first_of (raise e) = raise (running e)

abbrev pub lift_run : Result RunError NormalizedEvent → Result RecordError NormalizedEvent
lift_run (ok e) = ok e
lift_run (raise e) = raise (running e)

module _ (lib : Library) (processor : EventProcessor) (decoder : Decoder) where
  abbrev pub checked : Text → Text → Fields → Opened
  checked payload reason metadata = record {
    payload = payload;
    reason = if is_blank lib.chars payload then codes "Empty Kafka log event" else reason;
    metadata = metadata;
  }

  abbrev pub opened_bytes : decoder.Bytes → Option Text → Opened
  opened_bytes bytes (some payload) = checked payload [] (fields [])
  opened_bytes bytes none =
      checked (decoder.with_backslashes bytes) (codes "Kafka event is not valid UTF-8")
        (fields ((codes "raw_bytes_base64", str (decoder.base64 bytes)) ∷ []))

  abbrev pub opened_record : Option decoder.Bytes → Opened
  opened_record none = record {
    payload = [];
    reason = codes "Kafka tombstone is not a log event";
    metadata = fields ((codes "kafka_tombstone", boolean true) ∷ []);
  }
  opened_record (some bytes) = opened_bytes bytes (decoder.utf_8 bytes)

  abbrev pub kafka_source_id : KafkaRecord decoder → Text
  kafka_source_id r = codes "kafka:" ++ (r.topic ++ (codes ":" ++ lib.show (int r.partition)))

  abbrev pub request_of : KafkaRecord decoder → Request
  request_of r = record {
    observed_at = decoder.at_milliseconds r.timestamp;
    source_id = kafka_source_id r;
    source_name = r.topic;
    source_offset_start = r.offset;
    ingestion_run_id = [];
    forced_format = none;
    max_events = none;
  }

  abbrev pub source_of : KafkaRecord decoder → Source
  source_of r = record {
    observed = decoder.at_milliseconds r.timestamp;
    source_id = kafka_source_id r;
    source_offset = r.offset;
    source_name = r.topic;
    ingestion_run_id = [];
  }

  abbrev pub rejected : KafkaRecord decoder → Opened → NormalizedEvent
  rejected r o =
      let parsed = unparsed o.reason in
      normalize lib o.payload (codes "unknown") (record parsed { metadata = o.metadata })
        (source_of r)

  unfoldable pub parse_record : KafkaRecord decoder → Result RecordError NormalizedEvent
  parse_record r =
      let o = opened_record r.value in
      if is_nil o.reason
      then first_of (run lib processor (request_of r) (o.payload ∷ []))
      else ok (rejected r o)
