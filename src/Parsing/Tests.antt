-- ===== src/Parsing/Tests.antt =====
-- Runs of the escapes and of the registry, and the theorems about them at concrete inputs.
use ocsf_forge.Prelude.{
  ℕ, true, false, ◌+◌, ◌≤◌, ◌≡◌, refl, ◌&&◌, Option, none, some, List, [], ◌∷◌, ◌++◌, map, length,
  Result, ok, raise, leb, if◌then◌else◌,
}
use ocsf_forge.Text.{Text, ascii, codes, starts_with}
use ocsf_forge.Json.{Value, int, str, arr, Fields, end, field, fields, texts}
use ocsf_forge.Pipeline.Samples.{lib}
use ocsf_forge.Parsing.Authentication.{
  Authentication, auth_actions, outcomes, known_outcomes, agreed, authentication_action,
}
use ocsf_forge.Parsing.Agreed.{IsOutcome, entry_of, authentication_action-IsOutcome}
use ocsf_forge.Parsing.Structured.{mapped_fields, malformed, record_of, structured_record}
use ocsf_forge.Parsing.Mapped.{IsMapped, structured_record-IsMapped}
use ocsf_forge.Parsing.Documents.{leaves}
use ocsf_forge.Parsing.Extensions.{matches_from, collected, parse_extensions}
use ocsf_forge.Parsing.Security.{parse_cef}
use ocsf_forge.Parsing.Leef.{gathered, parse_leef}
use ocsf_forge.Parsing.Cef.{CefHeader, cef_line, IsRead, parse_cef-IsRead}
use ocsf_forge.Parsing.Parsed.{Parsed, unparsed}
use ocsf_forge.Parsing.Escapes.{unescape_cef, split_escaped}
use ocsf_forge.Parsing.RoundTrip.{
  escape, join, header, unescape_cef-escape, join-split_escaped, length-split_escaped,
  split_escaped-header,
}
use ocsf_forge.Parsing.Registry.{
  LogParser, value_error, other_error, ParseError, error, unknown_reading, candidates, recovered,
  reading, is_none, parse,
}
use ocsf_forge.Parsing.Choice.{IsFirstBest, parse-IsFirstBest, IsUncaught, parse-IsUncaught}

unescaped : unescape_cef (codes "a\\|b\\nc\\") ≡ codes "a|b\nc\\"
unfolding unescape_cef
unescaped = refl

parts :
    split_escaped (codes "CEF:0|a\\|b|c|d") (codes "|") (some 2)
    ≡ codes "CEF:0" ∷ codes "a\\|b" ∷ codes "c|d" ∷ []
unfolding split_escaped
parts = refl

unescape_cef-escape_example : unescape_cef (escape (codes "a|b\\c\n")) ≡ codes "a|b\\c\n"
unescape_cef-escape_example = unescape_cef-escape (codes "a|b\\c\n")

join-split_escaped_example :
    join b'|' (split_escaped (codes "a\\|b|c") (b'|' ∷ []) none) ≡ codes "a\\|b|c"
join-split_escaped_example = join-split_escaped b'|' none (codes "a\\|b|c")

length-split_escaped_example : length (split_escaped (codes "a|b|c|d") (codes "|") (some 2)) ≤ 2 + 1
length-split_escaped_example = length-split_escaped 2 (codes "a|b|c|d") (codes "|")

split_escaped-header_example :
    split_escaped (header (codes "a|b" ∷ codes "c\\" ∷ []) (codes "x|y")) (b'|' ∷ []) (some 2)
    ≡ map escape (codes "a|b" ∷ codes "c\\" ∷ []) ++ codes "x|y" ∷ []
split_escaped-header_example = split_escaped-header (codes "a|b" ∷ codes "c\\" ∷ []) (codes "x|y")

-- A parser that is sure of the lines that begin like its name, and how it ends.
abbrev parser : Text → ℕ → Result ParseError Parsed → LogParser ℕ
parser name confidence result = record {
  name = name;
  source_format = name;
  version = codes "1.0.0";
  detect = λ value. if starts_with name value then confidence else 0;
  parse = λ value observed. result;
}

abbrev parsers : List (LogParser ℕ)
parsers =
    parser (codes "a") 50 (ok (unparsed []))
    ∷ parser (codes "ab") 90 (raise (error value_error (codes "ValueError") (codes "bad")))
    ∷ parser (codes "abc") 90 (raise (error other_error (codes "MemoryError") []))
    ∷ []

abbrev forced : Option Text
forced = some (codes "abc")

fatal : parse parsers (codes "abc") 0 forced ≡ raise (error other_error (codes "MemoryError") [])
unfolding parse
fatal = refl

parse-IsFirstBest_example :
    (p : LogParser ℕ) × IsFirstBest (codes "abc") (candidates none parsers) p
    × (parse parsers (codes "abc") 0 none ≡ (
        if is_none none && leb (p.detect (codes "abc")) 0
        then ok unknown_reading
        else reading p (p.detect (codes "abc")) (recovered p (p.parse (codes "abc") 0))))
parse-IsFirstBest_example = parse-IsFirstBest (codes "abc") 0 parsers none (λ e. absurd cc)

parse-IsUncaught_example :
    IsUncaught (codes "abc") 0 parsers forced (error other_error (codes "MemoryError") [])
parse-IsUncaught_example =
    parse-IsUncaught (codes "abc") 0 parsers forced (error other_error (codes "MemoryError") [])
      fatal

abbrev login_item : Fields
login_item = fields (
    (codes "action", str (codes "Login"))
    ∷ (codes "status", str (codes "denied"))
    ∷ (codes "session", int 7)
    ∷ (codes "service", str (codes "vpn"))
    ∷ [])

abbrev plain_dumps : Value → Text
plain_dumps v = codes "{}"

abbrev denied_login : Authentication
denied_login = record { activity = 1; name = codes "Logon"; outcome = codes "Failure" }

denied : authentication_action lib (codes "Login") login_item ≡ ok (some denied_login)
unfolding authentication_action auth_actions outcomes known_outcomes agreed
denied = refl

conflicting :
    authentication_action lib
      (codes "login.failed")
      (fields ((codes "outcome", str (codes "success")) ∷ []))
    ≡ raise (error value_error (codes "ValueError") (codes "Conflicting authentication outcomes"))
unfolding authentication_action auth_actions outcomes known_outcomes agreed
conflicting = refl

authentication_action-IsOutcome_example :
    IsOutcome lib (entry_of lib (codes "Login")) login_item denied_login
authentication_action-IsOutcome_example =
    authentication_action-IsOutcome lib (codes "Login") login_item denied_login denied

structured_login :
    structured_record lib plain_dumps login_item
    ≡ ok (record_of lib plain_dumps login_item (some denied_login))
unfolding structured_record malformed mapped_fields authentication_action auth_actions outcomes
    known_outcomes agreed
structured_login = refl

structured_record-IsMapped_example :
    IsMapped login_item (record_of lib plain_dumps login_item (some denied_login))
unfolding record_of
structured_record-IsMapped_example =
    structured_record-IsMapped lib plain_dumps login_item
      (record_of lib plain_dumps login_item (some denied_login)) structured_login refl

nested_xml :
    leaves end (
      record {
        name_attribute = none;
        tag = codes "{urn:x}a";
        text = some (codes "1");
        is_leaf = true;
      }
      ∷ record {
        name_attribute = some (codes "a");
        tag = codes "Data";
        text = none;
        is_leaf = true;
      }
      ∷ record { name_attribute = none; tag = codes "b"; text = none; is_leaf = false }
      ∷ [])
    ≡ field (codes "a") (arr (texts (codes "1" ∷ [] ∷ []))) end
unfolding leaves
nested_xml = refl

extensions :
    parse_extensions ascii (codes "src=10.0.0.1 msg=a\\=b c spt=22")
    ≡ fields (
        (codes "src", str (codes "10.0.0.1"))
        ∷ (codes "msg", str (codes "a=b c"))
        ∷ (codes "spt", str (codes "22"))
        ∷ [])
unfolding parse_extensions matches_from collected unescape_cef
extensions = refl

-- The second backslash of the pair is read as one before the space.
swallowed_key :
    parse_extensions ascii (codes "path=C:\\\\ act=x")
    ≡ fields ((codes "path", str (codes "C:\\ act=x")) ∷ [])
unfolding parse_extensions matches_from collected unescape_cef
swallowed_key = refl

leef_user : (parse_leef lib (codes "LEEF:2.0|V|P|1|7|^|usrName=ann^cat=x")).user ≡ codes "ann"
unfolding parse_leef gathered split_escaped unescape_cef
leef_user = refl

abbrev firewall : CefHeader
firewall = record {
  vendor = codes "A|B";
  product = codes "wall\\";
  device_version = codes "1";
  signature_id = codes "7";
  name = codes "x = y";
  severity = codes "5";
}

parse_cef-IsRead_example :
    IsRead firewall
      (parse_extensions ascii (codes "src=10.0.0.1"))
      (parse_cef lib (cef_line firewall (codes "src=10.0.0.1")))
parse_cef-IsRead_example = parse_cef-IsRead lib firewall (codes "src=10.0.0.1") refl refl
