-- ===== src/Pipeline/Run.antt =====
-- `EventProcessor` of ulpf/pipeline.py, and `LogParserEngine.parse_line` of ulpf/parsers.py.
use ocsf_forge.Prelude.{
  ℕ, ◌+◌, Bool, Option, none, some, List, [], ◌∷◌, Result, ok, raise, ◌>>=◌, ◌>>◌, map_ok, ltb,
  if◌then◌else◌,
}
use ocsf_forge.Text.{Text, codes, text_eq}
use ocsf_forge.Models.{NormalizedEvent}
use ocsf_forge.Normalizer.{Source, normalize}
use ocsf_forge.Normalizer.Fields.{Library, Moment}
use ocsf_forge.Parsing.Limits.{LimitError, check_event_limit}
use ocsf_forge.Parsing.Registry.{LogParser, ParseError, Reading, parse, tagged}
use ocsf_forge.Pipeline.LogicalEvents.{logical_events}

-- What `run` raises.
pub data RunError : Type 0 where
  limit : LimitError → RunError
  parsing : ParseError → RunError

abbrev pub lift_limit {ℓ} : {A : Type ℓ} → Result LimitError A → Result RunError A
lift_limit (ok a) = ok a
lift_limit (raise e) = raise (limit e)

abbrev pub lift_parsing {ℓ} : {A : Type ℓ} → Result ParseError A → Result RunError A
lift_parsing (ok a) = ok a
lift_parsing (raise e) = raise (parsing e)

pub record EventProcessor : Type 0 where
  pub parsers : List (LogParser Moment)
  pub log4j_parser : LogParser Moment

-- `next(parser for parser in parsers if parser.source_format == "log4j")`.
abbrev pub find_log4j : List (LogParser Moment) → Option (LogParser Moment)
find_log4j [] = none
find_log4j (p ∷ parsers) =
    if text_eq p.source_format (codes "log4j") then some p else find_log4j parsers

-- `EventProcessor()`; without a parser of log4j it raises.
abbrev pub new_processor : List (LogParser Moment) → Option EventProcessor
new_processor parsers = elim (find_log4j parsers) [
  | none ↦ none
  | some p ↦ some (record { parsers = parsers; log4j_parser = p })
]

-- The arguments of `run`; `observed_at` is aware, or the time of the call.
pub record Request : Type 0 where
  pub observed_at : Moment
  pub source_id : Text
  pub source_name : Text
  pub source_offset_start : ℕ
  pub ingestion_run_id : Text
  pub forced_format : Option Text
  pub max_events : Option ℕ

-- `if forced_format`: the empty text is none.
abbrev pub asked_format : Option Text → Option Text
asked_format none = none
asked_format (some []) = none
asked_format (some (c ∷ t)) = some (c ∷ t)

module _ (lib : Library) (processor : EventProcessor) (request : Request) where
  abbrev pub is_log4j : Text → Bool
  is_log4j value = ltb 0 (processor.log4j_parser.detect value)

  abbrev pub source_at : ℕ → Source
  source_at offset = record {
    observed = request.observed_at;
    source_id = request.source_id;
    source_offset = request.source_offset_start + offset;
    source_name = request.source_name;
    ingestion_run_id = request.ingestion_run_id;
  }

  abbrev pub normalized : ℕ → Text → Reading → NormalizedEvent
  normalized offset line r = normalize lib line r.source_format (tagged r) (source_at offset)

  -- One turn of the loop over the logical events.
  unfoldable pub event_of : ℕ → Text → Result RunError NormalizedEvent
  event_of offset line = map_ok (normalized offset line) (
      lift_parsing
        (parse processor.parsers line request.observed_at (asked_format request.forced_format)))

  unfoldable pub events_of : List (ℕ × Text) → Result RunError (List NormalizedEvent)
  unfolding event_of
  events_of [] = ok []
  events_of ((offset, line) ∷ rest) = do
    event ← event_of offset line
    events ← events_of rest
    ok (event ∷ events)

  -- `EventProcessor.run`, of a document split into lines.
  unfoldable pub run : List Text → Result RunError (List NormalizedEvent)
  unfolding events_of
  run lines = do
    lift_limit (check_event_limit 0 request.max_events)
    logical ← lift_limit (logical_events lib.chars is_log4j lines request.max_events)
    events_of logical
