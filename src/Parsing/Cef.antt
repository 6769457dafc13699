-- ===== src/Parsing/Cef.antt =====
-- `CefParser.parse` of ulpf/parsing/security.py reads what the CEF format writes.
use mathlib.Core.Path.{subst}
use ocsf_forge.Prelude.{◌≡◌, refl, sym, ap, ◌∙◌, true, false, none, some, List, [], ◌∷◌, ◌++◌, drop}
use ocsf_forge.Text.{Text, codes, is_in, strip}
use ocsf_forge.Json.{Value, str, Fields, get, put}
use ocsf_forge.Json.Laws.{get-put}
use ocsf_forge.Normalizer.Fields.{Library}
use ocsf_forge.Parsing.Mapped.{differ}
use ocsf_forge.Parsing.Escapes.{split_escaped}
use ocsf_forge.Parsing.Headers.{
  header_field, cef_header, unescape_cef-header_field, split_escaped-cef_header,
}
use ocsf_forge.Parsing.Extensions.{parse_extensions}
use ocsf_forge.Parsing.Parsed.{Parsed}
use ocsf_forge.Parsing.Security.{cef_record, of_cef_parts, parse_cef}

-- The fields of a CEF header after its version.
pub record CefHeader : Type 0 where
  pub vendor : Text
  pub product : Text
  pub device_version : Text
  pub signature_id : Text
  pub name : Text
  pub severity : Text

abbrev cef_fields : CefHeader → List Text
cef_fields h =
    codes "0" ∷ h.vendor ∷ h.product ∷ h.device_version ∷ h.signature_id ∷ h.name ∷ h.severity ∷ []

-- An event as the format writes it: version 0, each field with its backslashes and bars escaped, then
-- the text of the extensions.
abbrev pub cef_line : CefHeader → Text → Text
cef_line h extension = codes "CEF:" ++ cef_header (cef_fields h) extension

abbrev pub header_keys : List Text
header_keys = codes "cef_version" ∷ codes "device_version" ∷ codes "signature_id" ∷ []

-- The record has the header's fields, and what `parse_extensions` reads. The device's version and the
-- signature stay as they are written.
pub record IsRead (h : CefHeader) (ext : Fields) (p : Parsed) : Type 0 where
  pub parsed : p.is_parsed ≡ true
  pub finding : (p.class_uid ≡ 2004) × (p.category_uid ≡ 2)
  pub vendor : p.device_vendor ≡ h.vendor
  pub product : p.device_product ≡ some h.product
  pub name : get ext (codes "msg") ≡ none → p.message ≡ str h.name
  pub cef_version : get p.metadata (codes "cef_version") ≡ some (str (codes "0"))
  pub device_version :
      get p.metadata (codes "device_version") ≡ some (str (header_field h.device_version))
  pub signature_id :
      get p.metadata (codes "signature_id") ≡ some (str (header_field h.signature_id))
  pub kept : (j : Text) → is_in j header_keys ≡ false → get p.metadata j ≡ get ext j

module _ (lib : Library) where
  get-header_keys :
      (ext : Fields) (a b c : Value) (j : Text)
      → is_in j header_keys ≡ false
      → get
          (put
            (put (put ext (codes "cef_version") a) (codes "device_version") b)
            (codes "signature_id")
            c)
          j
        ≡ get ext j
  get-header_keys ext a b c j h =
      get-put (put (put ext (codes "cef_version") a) (codes "device_version") b)
        (codes "signature_id") c j
      ∙ rw (differ j (codes "signature_id") header_keys h refl) (
          get-put (put ext (codes "cef_version") a) (codes "device_version") b j
          ∙ rw (differ j (codes "device_version") header_keys h refl) (
              get-put ext (codes "cef_version") a j
              ∙ rw (differ j (codes "cef_version") header_keys h refl) refl))

  abbrev with_version : Fields → Fields
  with_version ext = put ext (codes "cef_version") (str (codes "0"))

  abbrev with_device : CefHeader → Fields → Fields
  with_device h ext =
      put (with_version ext) (codes "device_version") (str (header_field h.device_version))

  abbrev read_record : CefHeader → Fields → Parsed
  read_record h ext =
      cef_record lib (codes "0") (header_field h.vendor) (header_field h.product)
        (header_field h.device_version) (header_field h.signature_id) (header_field h.name)
        (header_field h.severity) ext

  parse_cef-cef_line :
      (h : CefHeader) (extension : Text)
      → lib.chars.is_digit b'0' ≡ true
      → strip lib.chars (cef_line h extension) ≡ cef_line h extension
      → parse_cef lib (cef_line h extension) ≡ read_record h (parse_extensions lib.chars extension)
  unfolding parse_cef
  parse_cef-cef_line h extension digit stripped =
      ap (λ t. of_cef_parts lib (split_escaped (drop 4 t) (codes "|") (some 7))) stripped
      ∙ ap (of_cef_parts lib) (split_escaped-cef_header (cef_fields h) extension)
      ∙ rw digit refl

  -- An event that is written by the CEF format, with version 0, any texts in its header, and no
  -- space at its ends, is parsed to a finding with the vendor and the product of its header and, if
  -- `parse_extensions` reads no "msg" from the rest, its name as the message; the metadata has the
  -- version 0, the device's version and the signature as they are written, and under any other key
  -- what `parse_extensions` reads from the rest.
  pub parse_cef-IsRead :
      (h : CefHeader) (extension : Text)
      → lib.chars.is_digit b'0' ≡ true
      → strip lib.chars (cef_line h extension) ≡ cef_line h extension
      → IsRead h (parse_extensions lib.chars extension) (parse_cef lib (cef_line h extension))
  parse_cef-IsRead h extension digit stripped =
      let ext = parse_extensions lib.chars extension in
      subst (IsRead h ext) (sym (parse_cef-cef_line h extension digit stripped)) (record {
        parsed = refl;
        finding = (refl, refl);
        vendor = unescape_cef-header_field h.vendor;
        product = ap some (unescape_cef-header_field h.product);
        name = λ e. rw (e, unescape_cef-header_field h.name) refl;
        cef_version =
            get-put (with_device h ext) (codes "signature_id") (str (header_field h.signature_id))
              (codes "cef_version")
            ∙ get-put (with_version ext) (codes "device_version")
                (str (header_field h.device_version)) (codes "cef_version")
            ∙ get-put ext (codes "cef_version") (str (codes "0")) (codes "cef_version");
        device_version =
            get-put (with_device h ext) (codes "signature_id") (str (header_field h.signature_id))
              (codes "device_version")
            ∙ get-put (with_version ext) (codes "device_version")
                (str (header_field h.device_version)) (codes "device_version");
        signature_id =
            get-put (with_device h ext) (codes "signature_id") (str (header_field h.signature_id))
              (codes "signature_id");
        kept = get-header_keys ext _ _ _;
      })
