-- ===== src/Streaming/Tests.antt =====
-- Runs of the worker, and the theorems about it at concrete records.
use ocsf_forge.Prelude.{
  ◌≡◌, refl, Bool, true, false, Option, none, some, List, [], ◌∷◌, Result, ok, raise,
}
use ocsf_forge.Text.{Text, codes}
use ocsf_forge.Models.{NormalizedEvent, IngestionResult, default_event}
use ocsf_forge.Parsing.Limits.{check_event_limit}
use ocsf_forge.Parsing.Registry.{other_error, error, parse}
use ocsf_forge.Pipeline.LogicalEvents.{logical_events}
use ocsf_forge.Pipeline.Run.{parsing, run}
use ocsf_forge.Pipeline.Samples.{utc, lib, application_log, processor}
use ocsf_forge.Streaming.Records.{
  Decoder, KafkaRecord, running, opened_record, rejected, parse_record,
}
use ocsf_forge.Streaming.Retry.{Round, answers, fails, retry}
use ocsf_forge.Streaming.Worker.{Turn, main}
use ocsf_forge.Streaming.Committed.{IsSafe, committed-IsSafe}

abbrev event : Text → Bool → NormalizedEvent
event id success = record default_event { event_id = id; parse_success = success }

abbrev result : Text → IngestionResult
result status = record {
  run_id = codes "r";
  received = 1;
  committed = 1;
  quarantined = 0;
  duplicates = 0;
  status = status;
}

abbrev turn_of : NormalizedEvent → List (Round IngestionResult) → Bool → Turn NormalizedEvent
turn_of e rounds acknowledged = record {
  records = e ∷ [];
  rounds = rounds;
  acknowledged = acknowledged;
}

-- One batch is stored at the third try and committed, one loses its dead letter.
abbrev turns : List (Turn NormalizedEvent)
turns =
    turn_of (event (codes "a") true)
      (fails false ∷ fails false ∷ answers (result (codes "COMPLETED")) ∷ []) true
    ∷ turn_of (event (codes "b") false) (answers (result (codes "COMPLETED_WITH_QUARANTINE")) ∷ [])
        false
    ∷ []

abbrev itself : NormalizedEvent → Result Text NormalizedEvent
itself e = ok e

one_committed : (main itself (fails false ∷ answers tt ∷ []) turns).committed ≡ 1
unfolding main retry
one_committed = refl

committed-IsSafe_example : IsSafe itself (main itself (fails false ∷ answers tt ∷ []) turns)
committed-IsSafe_example = committed-IsSafe itself (fails false ∷ answers tt ∷ []) turns

waits : (retry {A = Text} 30 16 (fails false ∷ fails false ∷ fails true ∷ [])).0 ≡ 16 ∷ 30 ∷ 30 ∷ []
unfolding retry
waits = refl

abbrev decoder : Decoder
decoder = record {
  Bytes = Text;
  utf_8 = λ b. some b;
  with_backslashes = λ b. b;
  base64 = λ b. b;
  at_milliseconds = λ t. utc (codes "now");
}

abbrev kafka_record : Option Text → KafkaRecord decoder
kafka_record value = record {
  topic = codes "logs";
  partition = 0;
  offset = 7;
  timestamp = none;
  value = value;
}

abbrev tombstone_event : NormalizedEvent
tombstone_event =
    rejected lib (processor (ok application_log)) decoder (kafka_record none)
      (opened_record lib (processor (ok application_log)) decoder none)

fatal :
    parse_record lib
      (processor (raise (error other_error (codes "MemoryError") [])))
      decoder
      (kafka_record (some (codes "ERROR x")))
    ≡ raise (running (parsing (error other_error (codes "MemoryError") [])))
unfolding parse_record run logical_events check_event_limit parse
fatal = refl
