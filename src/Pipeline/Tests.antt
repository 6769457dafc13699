-- ===== src/Pipeline/Tests.antt =====
-- Runs of the pipeline, and the theorems about it and the normalizer at concrete documents.
use ocsf_forge.Prelude.{
  ℕ, ◌+◌, ◌≤◌, ◌≡◌, ◌↔◌, refl, true, none, some, List, [], ◌∷◌, map, length, ok, raise, arith,
}
use ocsf_forge.Text.{Text, ascii, codes}
use ocsf_forge.Models.{NormalizedEvent}
use ocsf_forge.Normalizer.{Source, normalize, validation_errors, succeeds}
use ocsf_forge.Normalizer.Fields.{port, ip, timestamp_of}
use ocsf_forge.Normalizer.Accepted.{
  IsAcceptable, IsClassified, normalize-IsAcceptable, normalize-IsClassified,
}
use ocsf_forge.Normalizer.Bounds.{IsBounded, normalize-IsBounded}
use ocsf_forge.Parsing.Limits.{input_limit, check_event_limit}
use ocsf_forge.Parsing.Parsed.{unparsed}
use ocsf_forge.Parsing.Registry.{other_error, error, parse}
use ocsf_forge.Pipeline.Samples.{utc, lib, starts_error, application_log, processor}
use ocsf_forge.Pipeline.LogicalEvents.{logical_events}
use ocsf_forge.Pipeline.Grouped.{IsGrouping, logical_events-IsGrouping}
use ocsf_forge.Pipeline.Budget.{logical_events_iff}
use ocsf_forge.Pipeline.Run.{parsing, Request, run}
use ocsf_forge.Pipeline.Delivery.{IsDelivery, run-IsDelivery}

abbrev lines : List Text
lines =
    codes "ERROR first"
    ∷ codes "  at a.b"
    ∷ codes ""
    ∷ codes "Caused by: c"
    ∷ codes "ERROR second"
    ∷ []

abbrev two_events : List (ℕ × Text)
two_events = (0, codes "ERROR first\n  at a.b\nCaused by: c") ∷ (4, codes "ERROR second") ∷ []

two : logical_events ascii starts_error lines (some 2) ≡ ok two_events
unfolding logical_events check_event_limit
two = refl

too_many : logical_events ascii starts_error lines (some 1) ≡ raise input_limit
unfolding logical_events check_event_limit
too_many = refl

logical_events-IsGrouping_example : IsGrouping ascii lines two_events
logical_events-IsGrouping_example =
    logical_events-IsGrouping ascii lines starts_error (some 2) two_events two

logical_events_iff_example :
    (logical_events ascii starts_error lines (some 2) ≡ ok two_events)
    ↔ ((logical_events ascii starts_error lines none ≡ ok two_events) × (length two_events ≤ 2))
logical_events_iff_example = logical_events_iff ascii starts_error 2 (omega arith) lines two_events

abbrev request : Request
request = record {
  observed_at = utc (codes "now");
  source_id = codes "s";
  source_name = codes "app.log";
  source_offset_start = 10;
  ingestion_run_id = codes "r";
  forced_format = none;
  max_events = some 2;
}

abbrev source : Source
source = record {
  observed = utc (codes "now");
  source_id = codes "s";
  source_offset = 10;
  source_name = codes "app.log";
  ingestion_run_id = codes "r";
}

accepted : (normalize lib (codes "x") (codes "log4j") application_log source).parse_success ≡ true
unfolding normalize succeeds validation_errors port ip timestamp_of
accepted = refl

normalize-IsAcceptable_example :
    ((normalize lib (codes "x") (codes "log4j") application_log source).parse_success ≡ true)
    ↔ IsAcceptable lib application_log source
normalize-IsAcceptable_example =
    normalize-IsAcceptable lib (codes "x") (codes "log4j") application_log source

normalize-IsClassified_example :
    IsClassified (normalize lib (codes "x") (codes "log4j") application_log source)
normalize-IsClassified_example =
    normalize-IsClassified lib (codes "x") (codes "log4j") application_log source accepted

normalize-IsBounded_example :
    IsBounded lib (codes "x") (normalize lib (codes "x") (codes "unknown") (unparsed []) source)
normalize-IsBounded_example =
    normalize-IsBounded lib (codes "x") (codes "unknown") (unparsed []) source

abbrev delivered : List NormalizedEvent
delivered =
    map
      (λ l.
        normalize lib l.1 (codes "log4j")
          (record application_log {
            parser_name = some (codes "log4j");
            parser_version = some (codes "1.0.0");
            detection_confidence = some 90;
          })
          (record source { source_offset = 10 + l.0 }))
      two_events

runs : run lib (processor (ok application_log)) request lines ≡ ok delivered
unfolding run logical_events check_event_limit parse
runs = refl

run-IsDelivery_example : IsDelivery lib (processor (ok application_log)) request lines delivered
run-IsDelivery_example =
    run-IsDelivery lib (processor (ok application_log)) request lines delivered runs

fails :
    run lib (processor (raise (error other_error (codes "MemoryError") []))) request lines
    ≡ raise (parsing (error other_error (codes "MemoryError") []))
unfolding run logical_events check_event_limit parse
fails = refl
