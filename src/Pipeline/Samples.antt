-- ===== src/Pipeline/Samples.antt =====
-- Test data: functions in place of the interpreter's, and a processor with one parser.
use ocsf_forge.Prelude.{Bool, true, false, none, some, [], ◌∷◌, length, Result, if◌then◌else◌}
use ocsf_forge.Text.{Text, ascii, codes, starts_with}
use ocsf_forge.Json.{int}
use ocsf_forge.Normalizer.Fields.{Library, Moment, refused, at_least_zero}
use ocsf_forge.Parsing.Parsed.{Parsed, unparsed}
use ocsf_forge.Parsing.Registry.{LogParser, ParseError}
use ocsf_forge.Pipeline.Run.{EventProcessor}

abbrev pub utc : Text → Moment
utc t = record { iso = t; offset = record { west = false; minutes = 0 } }

-- Functions in place of the interpreter's.
abbrev pub lib : Library
lib = record {
  chars = ascii;
  show = λ v. codes "value";
  int_of_text = λ t. some (at_least_zero (length t));
  int_of_float = λ t. none;
  ip_address = λ t. some t;
  from_timestamp = λ t. some (utc t);
  from_iso = λ t. refused;
  sha256 = λ t. t;
  title = λ t. t;
  hundredths = λ n. n ∷ [];
}

abbrev pub starts_error : Text → Bool
starts_error = starts_with (codes "ERROR")

abbrev pub application_log : Parsed
application_log = record (unparsed []) {
  is_parsed = true;
  timestamp = codes "1700000000";
  class_uid = 6008;
  category_uid = 6;
  activity_id = 1;
  severity = some (codes "High");
  src_endpoint_port = some (int 443);
}

abbrev pub log4j : Result ParseError Parsed → LogParser Moment
log4j result = record {
  name = codes "log4j";
  source_format = codes "log4j";
  version = codes "1.0.0";
  detect = λ value. if starts_error value then 90 else 0;
  parse = λ value observed. result;
}

abbrev pub processor : Result ParseError Parsed → EventProcessor
processor result = record { parsers = log4j result ∷ []; log4j_parser = log4j result }
