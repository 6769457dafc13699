-- ===== src/Parsing/Security.antt =====
-- ulpf/parsing/security.py: the parsers of CEF and LEEF.
use ocsf_forge.Prelude.{
  Bool, true, not, ◌&&◌, Option, none, some, List, [], ◌∷◌, all, drop, is_nil, leb, ok,
  if◌then◌else◌,
}
use ocsf_forge.Text.{Text, codes, strip, lstrip, starts_with}
use ocsf_forge.Json.{null, str, Fields, get, put}
use ocsf_forge.Normalizer.Fields.{Library, Moment, Number, at_least_zero, below_zero, show_value}
use ocsf_forge.Parsing.Authentication.{or_else}
use ocsf_forge.Parsing.Escapes.{unescape_cef, split_escaped}
use ocsf_forge.Parsing.Extensions.{parse_extensions}
use ocsf_forge.Parsing.Parsed.{Parsed, unparsed}
use ocsf_forge.Parsing.Registry.{LogParser}

abbrev pub level_name : Number → Text
level_name below_zero = codes "Low"
level_name (at_least_zero n) =
    if leb 9 n
    then codes "Critical"
    else if leb 7 n
    then codes "High"
    else if leb 4 n
    then codes "Medium"
    else codes "Low"

-- `t or u` on texts.
abbrev pub text_else : Text → Text → Text
text_else [] u = u
text_else (c ∷ t) u = c ∷ t

module _ (lib : Library) where
  -- `t.isdigit()`.
  abbrev pub is_number : Text → Bool
  is_number t = not (is_nil t) && all lib.chars.is_digit t

  -- `int(raw)` gives the level; otherwise `raw.title() or t`.
  abbrev pub severity_or : Option Number → Text → Text → Text
  severity_or none raw t = text_else (lib.title raw) t
  severity_or (some n) raw t = level_name n

  -- `ext.get(key, t)`; every value of `ext` is a text.
  abbrev pub ext_or : Fields → Text → Text → Text
  ext_or ext key t = show_value lib (or_else (str t) (get ext key))

  abbrev pub cef_time : Fields → Text
  cef_time ext =
      text_else (ext_or ext (codes "rt") [])
        (text_else (ext_or ext (codes "start") []) (ext_or ext (codes "end") []))

  -- The entries that CEF and LEEF records share.
  abbrev pub finding_record : Text → Fields → Parsed
  finding_record time ext = record (unparsed []) {
    is_parsed = true;
    timestamp = time;
    timestamp_missing_ok = is_nil time;
    status = some (codes "New");
    src_endpoint_ip = some (str (ext_or ext (codes "src") []));
    dst_endpoint_ip = some (str (ext_or ext (codes "dst") []));
    ocsf_class = some (codes "Detection Finding");
    class_uid = 2004;
    category = some (codes "Findings");
    category_uid = 2;
    activity_id = 1;
    activity_name = some (codes "Create");
  }

  -- The record of a header's parts: version, vendor, product, the device's version, the signature,
  -- the name, the severity, and the extensions.
  abbrev pub cef_record : Text → Text → Text → Text → Text → Text → Text → Fields → Parsed
  cef_record version vendor product device_version signature_id name raw_severity ext =
      record (finding_record (cef_time ext) ext) {
        hostname = ext_or ext (codes "dhost") (ext_or ext (codes "dvchost") []);
        device_vendor = unescape_cef vendor;
        device_product = some (unescape_cef product);
        message = str (text_else (ext_or ext (codes "msg") []) (unescape_cef name));
        severity = some (severity_or (lib.int_of_text raw_severity) raw_severity (codes "Unknown"));
        action = some (ext_or ext (codes "act") (codes "Detected"));
        disposition = some (ext_or ext (codes "outcome") (codes "Unknown"));
        src_endpoint_port = some (or_else null (get ext (codes "spt")));
        dst_endpoint_port = some (or_else null (get ext (codes "dpt")));
        user = ext_or ext (codes "suser") (ext_or ext (codes "duser") []);
        metadata =
            put
              (put (put ext (codes "cef_version") (str version)) (codes "device_version")
                (str device_version))
              (codes "signature_id") (str signature_id);
      }

  abbrev pub of_cef_parts : List Text → Parsed
  of_cef_parts
        (version ∷ vendor ∷ product ∷ device_version ∷ signature_id ∷ name ∷ severity ∷ extension
          ∷ []) =
      let ext = parse_extensions lib.chars extension in
      let parsed =
        cef_record version vendor product device_version signature_id name severity ext in
      if is_number version then parsed else unparsed (codes "Malformed CEF header")
  of_cef_parts _ = unparsed (codes "Malformed CEF header")

  unfoldable pub parse_cef : Text → Parsed
  parse_cef value =
      of_cef_parts (split_escaped (drop 4 (strip lib.chars value)) (codes "|") (some 7))

  abbrev pub cef_parser : LogParser Moment
  cef_parser = record {
    name = codes "cef";
    source_format = codes "cef";
    version = codes "2.0.0";
    detect = λ value. if starts_with (codes "CEF:") (lstrip lib.chars value) then 100 else 0;
    parse = λ value observed_at. ok (parse_cef value);
  }
