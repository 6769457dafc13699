-- ===== src/Parsing/Leef.antt =====
-- ulpf/parsing/security.py: the parser of LEEF.
use ocsf_forge.Prelude.{
  ℕ, Bool, true, false, not, ◌&&◌, none, some, List, [], ◌∷◌, drop, is_nil, ok, ◌==◌, if◌then◌else◌,
}
use ocsf_forge.Text.{Text, codes, strip, lstrip, starts_with}
use ocsf_forge.Json.{str, Fields, end, put}
use ocsf_forge.Normalizer.Fields.{Library, Moment}
use ocsf_forge.Parsing.Authentication.{lookup, or_else}
use ocsf_forge.Parsing.Escapes.{unescape_cef, split_escaped}
use ocsf_forge.Parsing.Parsed.{Parsed, unparsed}
use ocsf_forge.Parsing.Registry.{LogParser}
use ocsf_forge.Parsing.Security.{text_else, severity_or, ext_or, finding_record}

-- What `t.partition(mark)` returns, for a mark of one character.
pub record Partition : Type 0 where
  pub before : Text
  pub is_marked : Bool
  pub after : Text

abbrev pub with_first : ℕ → Partition → Partition
with_first c p = record p { before = c ∷ p.before }

abbrev pub partition : ℕ → Text → Partition
partition mark [] = record { before = []; is_marked = false; after = [] }
partition mark (c ∷ t) =
    let rest = partition mark t in
    if c == mark then record { before = []; is_marked = true; after = t } else with_first c rest

-- The text that separates the attributes, and the attributes.
pub record Attributes : Type 0 where
  pub separator : Text
  pub payload : Text

abbrev pub tab : Text
tab = 9 ∷ []

abbrev pub named_separator : Text → Text
named_separator t =
    or_else (text_else t tab) (lookup t ((codes "0x09", tab) ∷ (codes "^", codes "^") ∷ []))

abbrev pub attributes_of : Text → Text → Attributes
attributes_of version payload =
    let p = partition b'|' payload in
    if starts_with (codes "2") version && not (is_nil payload)
    then record { separator = named_separator p.before; payload = p.after }
    else record { separator = tab; payload = payload }

abbrev pub head_or_empty : List Text → Text
head_or_empty [] = []
head_or_empty (t ∷ ts) = t

module _ (lib : Library) where
  abbrev pub add_attribute : Fields → Partition → Fields
  add_attribute ext p =
      if p.is_marked
      then put ext (strip lib.chars p.before) (str (unescape_cef (strip lib.chars p.after)))
      else ext

  unfoldable pub gathered : Fields → List Text → Fields
  gathered ext [] = ext
  gathered ext (t ∷ ts) = gathered (add_attribute ext (partition b'=' t)) ts

  abbrev pub severity_text : Fields → Text
  severity_text ext =
      ext_or lib ext (codes "sev") (ext_or lib ext (codes "severity") (codes "Informational"))

  abbrev pub leef_record : Text → Text → Text → Text → Text → Fields → Parsed
  leef_record version vendor product device_version event_id ext =
      record (finding_record lib (ext_or lib ext (codes "devTime") []) ext) {
        hostname = ext_or lib ext (codes "devName") [];
        device_vendor = vendor;
        device_product = some product;
        message = str (ext_or lib ext (codes "msg") event_id);
        severity =
            some (severity_or lib (lib.int_of_text (severity_text ext)) (severity_text ext) []);
        action = some (ext_or lib ext (codes "cat") (codes "Detected"));
        user = ext_or lib ext (codes "usrName") [];
        metadata =
            put
              (put (put ext (codes "leef_version") (str version)) (codes "device_version")
                (str device_version))
              (codes "event_id") (str event_id);
      }

  abbrev pub of_leef_parts : List Text → Parsed
  of_leef_parts (version ∷ vendor ∷ product ∷ device_version ∷ event_id ∷ remaining) =
      let a = attributes_of version (head_or_empty remaining) in
      leef_record version vendor product device_version event_id
        (gathered end (split_escaped a.payload a.separator none))
  of_leef_parts _ = unparsed (codes "Malformed LEEF header")

  unfoldable pub parse_leef : Text → Parsed
  unfolding gathered
  parse_leef value =
      of_leef_parts (split_escaped (drop 5 (strip lib.chars value)) (codes "|") (some 5))

  abbrev pub leef_parser : LogParser Moment
  leef_parser = record {
    name = codes "leef";
    source_format = codes "leef";
    version = codes "1.1.0";
    detect = λ value. if starts_with (codes "LEEF:") (lstrip lib.chars value) then 100 else 0;
    parse = λ value observed_at. ok (parse_leef value);
  }
