-- ===== src/Parsing/Documents.antt =====
-- ulpf/parsing/structured.py: the parsers of JSON, CSV rows and XML.
use mathlib.Core.List.{reverse}
use ocsf_forge.Prelude.{
  true, Bool, false, ◌&&◌, ◌||◌, Option, none, some, List, [], ◌∷◌, ◌++◌, Result, ok, raise, ◌==◌,
  if◌then◌else◌,
}
use ocsf_forge.Text.{Text, codes, starts_with, lstrip, drop_while}
use ocsf_forge.Json.{Value, str, arr, obj, Items, nil, item, Fields, end, field, get, put}
use ocsf_forge.Normalizer.Fields.{Library, Moment}
use ocsf_forge.Parsing.Parsed.{Parsed, unparsed}
use ocsf_forge.Parsing.Registry.{ErrorKind, value_error, type_error, ParseError, error, LogParser}
use ocsf_forge.Parsing.Structured.{structured_record}

-- An element below the root, as `root.iter()` gives it.
pub record Element : Type 0 where
  pub name_attribute : Option Text
  pub tag : Text
  pub text : Option Text
  pub is_leaf : Bool

-- `decode_json`, `json.loads` and `decode_xml`, which gives the elements below the root in the
-- order of the document. An error is a `ValueError` (a `ParseError` of XML too), with its text.
pub record Decoders : Type 0 where
  pub dumps : Value → Text
  pub decode_json : Text → Result Text Value
  pub loads : Text → Result Text Value
  pub decode_xml : Text → Result Text (List Element)

abbrev has_brace : Text → Bool
has_brace [] = false
has_brace (c ∷ t) = c == b'}' || has_brace t

-- `tag.rsplit("}", 1)[-1]`.
abbrev pub local_name : Text → Text
local_name [] = []
local_name (c ∷ t) =
    let rest = local_name t in if has_brace t then rest else if c == b'}' then t else c ∷ t

-- `child.attrib.get("Name") or ...`.
abbrev pub name_or : Option Text → Text → Text
name_or none tag = local_name tag
name_or (some []) tag = local_name tag
name_or (some (c ∷ t)) tag = c ∷ t

abbrev pub text_or_empty : Option Text → Text
text_or_empty none = []
text_or_empty (some t) = t

abbrev pub appended : Items → Value → Items
appended nil w = item w nil
appended (item v vs) w = item v (appended vs w)

-- A key that comes again has the list of its values.
abbrev pub joined_value : Option Value → Value → Value
joined_value none w = w
joined_value (some (arr vs)) w = arr (appended vs w)
joined_value (some v) w = arr (item v (item w nil))

abbrev pub add_value : Fields → Text → Value → Fields
add_value found key value = put found key (joined_value (get found key) value)

abbrev pub add_element : Fields → Element → Fields
add_element found e =
    if e.is_leaf
    then add_value found (name_or e.name_attribute e.tag) (str (text_or_empty e.text))
    else found

unfoldable pub leaves : Fields → List Element → Fields
leaves found [] = found
leaves found (e ∷ elements) = leaves (add_element found e) elements

module _ (lib : Library) (decoders : Decoders) where
  abbrev pub begins_with : Text → Text → Bool
  begins_with mark value = starts_with mark (lstrip lib.chars value)

  -- `value.rstrip().endswith(c)` of one character.
  abbrev pub ends_with : Text → Text → Bool
  ends_with mark value = starts_with mark (drop_while lib.chars.is_space (reverse value))

  abbrev pub of_object : Text → Value → Result ParseError Parsed
  of_object notes (obj fs) = structured_record lib decoders.dumps fs
  of_object notes _ = ok (unparsed notes)

  abbrev pub of_json : Result Text Value → Result ParseError Parsed
  of_json (raise e) = ok (unparsed (codes "Invalid JSON: " ++ e))
  of_json (ok v) = of_object (codes "JSON event must be an object") v

  abbrev pub json_parser : LogParser Moment
  json_parser = record {
    name = codes "json";
    source_format = codes "json";
    version = codes "2.2.2";
    detect = λ value. if begins_with (codes "{") value then 95 else 0;
    parse = λ value observed_at. of_json (decoders.decode_json value);
  }

  -- `(TypeError, ValueError)`, of the row parser.
  abbrev pub is_row_error : ErrorKind → Bool
  is_row_error value_error = true
  is_row_error type_error = true
  is_row_error _ = false

  -- The `except` of the row parser, which takes the `ValueError` of `structured_record` too.
  abbrev pub row_handled : Result ParseError Parsed → Result ParseError Parsed
  row_handled (ok p) = ok p
  row_handled (raise (error kind name message)) =
      if is_row_error kind
      then ok (unparsed (codes "Invalid normalized CSV row"))
      else raise (error kind name message)

  abbrev pub of_row : Result Text Value → Result ParseError Parsed
  of_row (raise e) = ok (unparsed (codes "Invalid normalized CSV row"))
  of_row (ok v) = row_handled (of_object (codes "CSV row must be an object") v)

  abbrev pub csv_parser : LogParser Moment
  csv_parser = record {
    name = codes "csv";
    source_format = codes "csv";
    version = codes "1.1.1";
    detect = λ value. 0;
    parse = λ value observed_at. of_row (decoders.loads value);
  }

  abbrev pub of_fields : Fields → Result ParseError Parsed
  of_fields end = ok (unparsed (codes "XML event has no scalar fields"))
  of_fields (field k v fs) = structured_record lib decoders.dumps (field k v fs)

  abbrev pub of_xml : Result Text (List Element) → Result ParseError Parsed
  of_xml (raise e) = ok (unparsed (codes "Invalid XML: " ++ e))
  of_xml (ok elements) = of_fields (leaves end elements)

  abbrev pub xml_parser : LogParser Moment
  xml_parser = record {
    name = codes "xml";
    source_format = codes "xml";
    version = codes "1.2.2";
    detect =
        λ value. if begins_with (codes "<") value && ends_with (codes ">") value then 80 else 0;
    parse = λ value observed_at. of_xml (decoders.decode_xml value);
  }
