-- ===== src/Parsing/Registry.antt =====
-- ulpf/parsing/registry.py and ulpf/parsers.py: the choice of a parser by its confidence.
use ocsf_forge.Prelude.{
  ℕ, Bool, true, false, ◌&&◌, Option, none, some, List, [], ◌∷◌, ◌++◌, take, keep, Result, ok,
  raise, ltb, leb, if◌then◌else◌,
}
use ocsf_forge.Text.{Text, codes, text_eq}
use ocsf_forge.Parsing.Parsed.{Parsed, unparsed}

-- The builtin class that an exception is an instance of, as far as an `except` of the parsers asks.
pub data ErrorKind : Type 0 where
  value_error type_error overflow_error recursion_error other_error : ErrorKind

-- What `parse` raises: the class above, the name of its own type, and its message.
pub data ParseError : Type 0 where
  error : ErrorKind → Text → Text → ParseError

abbrev pub kind_of : ParseError → ErrorKind
kind_of (error kind name message) = kind

-- `(ValueError, TypeError, OverflowError, RecursionError)`.
abbrev pub is_caught : ErrorKind → Bool
is_caught value_error = true
is_caught type_error = true
is_caught overflow_error = true
is_caught recursion_error = true
is_caught other_error = false

-- The protocol `LogParser`. A confidence is in hundredths; `T` is the type of datetimes.
pub record LogParser (T : Type 0) : Type 0 where
  pub name : Text
  pub source_format : Text
  pub version : Text
  pub detect : Text → ℕ
  pub parse : Text → T → Result ParseError Parsed

pub record Reading : Type 0 where
  pub source_format : Text
  pub name : Text
  pub version : Text
  pub confidence : ℕ
  pub parsed : Parsed

abbrev pub unknown_reading : Reading
unknown_reading = record {
  source_format = codes "unknown";
  name = codes "unknown";
  version = codes "1.0.0";
  confidence = 0;
  parsed = unparsed (codes "No parser recognized the event");
}

abbrev pub is_none : Option Text → Bool
is_none none = true
is_none (some t) = false

-- `LogParserEngine.parse_line`, and the same fields set by `EventProcessor.run`.
abbrev pub tagged : Reading → Parsed
tagged r =
    let parsed = r.parsed in
    record parsed {
      parser_name = some r.name;
      parser_version = some r.version;
      detection_confidence = some r.confidence;
    }

module _ {T : Type 0} where
  abbrev pub candidates : Option Text → List (LogParser T) → List (LogParser T)
  candidates none parsers = parsers
  candidates (some forced_format) parsers =
      keep (λ p. text_eq p.source_format forced_format) parsers

  -- `max(..., key=lambda item: item[0])`: the first of the largest.
  unfoldable pub best_from : Text → LogParser T → List (LogParser T) → LogParser T
  best_from value p [] = p
  best_from value p (q ∷ parsers) =
      best_from value (if ltb (p.detect value) (q.detect value) then q else p) parsers

  unfoldable pub best : Text → List (LogParser T) → Option (LogParser T)
  unfolding best_from
  best value [] = none
  best value (p ∷ parsers) = some (best_from value p parsers)

  abbrev pub invalid_event : LogParser T → Text → Text → Parsed
  invalid_event p kind message = unparsed (
      codes "Invalid "
      ++ (p.name ++ (codes " event: " ++ (kind ++ (codes ": " ++ take 200 message)))))

  -- The `try` around `parser.parse`.
  abbrev pub recovered : LogParser T → Result ParseError Parsed → Result ParseError Parsed
  recovered p (ok parsed) = ok parsed
  recovered p (raise (error kind name message)) =
      if is_caught kind then ok (invalid_event p name message) else raise (error kind name message)

  abbrev pub reading : LogParser T → ℕ → Result ParseError Parsed → Result ParseError Reading
  reading p confidence (ok parsed) = ok (record {
    source_format = p.source_format;
    name = p.name;
    version = p.version;
    confidence = confidence;
    parsed = parsed;
  })
  reading p confidence (raise e) = raise e

  abbrev pub read_by : Option (LogParser T) → Text → T → Option Text → Result ParseError Reading
  read_by none value observed forced_format = ok unknown_reading
  read_by (some p) value observed forced_format =
      if is_none forced_format && leb (p.detect value) 0
      then ok unknown_reading
      else reading p (p.detect value) (recovered p (p.parse value observed))

  -- `ParserRegistry.parse`.
  unfoldable pub parse : List (LogParser T) → Text → T → Option Text → Result ParseError Reading
  unfolding best
  parse parsers value observed forced_format =
      read_by (best value (candidates forced_format parsers)) value observed forced_format
