-- ===== src/Parsing/Headers.antt =====
-- `split_escaped` and `unescape_cef` of ulpf/parsing/base.py on the headers of CEF events.
use mathlib.Core.List.{append_assoc, append-nil}
use ocsf_forge.Prelude.{
  ℕ, ◌+◌, ◌≡◌, refl, sym, ap, ◌∙◌, false, ◌||◌, some, List, [], ◌∷◌, ◌++◌, map, length, arith, ◌==◌,
  Bool-cases, inl, inr, if◌then◌else◌,
}
use ocsf_forge.Text.{Text}
use ocsf_forge.Parsing.Escapes.{unescape_cef, split_escaped}
use ocsf_forge.Parsing.RoundTrip.{
  unescape-plain, unescape-pair, bars, bars-plain, bars-pair, bars-cut, bars-end,
}

-- How CEF writes a header field: a backslash before a backslash or a bar, and nothing else.
abbrev pub header_char : ℕ → Text
header_char c = if c == b'\\' || c == b'|' then b'\\' ∷ c ∷ [] else c ∷ []

abbrev pub header_field : Text → Text
header_field [] = []
header_field (c ∷ s) = header_char c ++ header_field s

-- The fields, each followed by a bar, and the text after them.
abbrev pub cef_header : List Text → Text → Text
cef_header [] rest = rest
cef_header (f ∷ fs) rest = header_field f ++ b'|' ∷ cef_header fs rest

-- Decoding a header field gives its text.
pub unescape_cef-header_field : (s : Text) → unescape_cef (header_field s) ≡ s
unescape_cef-header_field [] = unfold unescape_cef in refl
unescape_cef-header_field (c ∷ s) = ground (
  arith,
  unescape_cef-header_field s,
  unescape-plain c (header_field s),
  unescape-pair c (header_field s),
)

module _ (maxsplit : ℕ) where
  bars-header_char :
      (splits c : ℕ) (current s : Text)
      → bars maxsplit false splits current (header_char c ++ s)
        ≡ bars maxsplit false splits (current ++ header_char c) s
  bars-header_char splits c current s = elim (Bool-cases (c == b'\\' || c == b'|')) [
    | inl special ↦ rw special (bars-pair maxsplit splits c current s)
    | inr plain ↦ rw plain (bars-plain maxsplit splits c current s (ground arith) (ground arith))
  ]

  bars-header_field :
      (splits : ℕ) (f current s : Text)
      → bars maxsplit false splits current (header_field f ++ s)
        ≡ bars maxsplit false splits (current ++ header_field f) s
  bars-header_field splits [] current s =
      ap (λ x. bars maxsplit false splits x s) (sym (append-nil current))
  bars-header_field splits (c ∷ f) current s =
      ap (bars maxsplit false splits current) (append_assoc (header_char c) (header_field f) s)
      ∙ bars-header_char splits c current (header_field f ++ s)
      ∙ bars-header_field splits f (current ++ header_char c) s
      ∙ ap (λ x. bars maxsplit false splits x s)
          (append_assoc current (header_char c) (header_field f))

  bars-cef_header :
      (splits : ℕ) (fs : List Text) (rest : Text)
      → splits + length fs ≡ maxsplit
      → bars maxsplit false splits [] (cef_header fs rest) ≡ map header_field fs ++ rest ∷ []
  bars-cef_header splits [] rest h = bars-end maxsplit false splits [] rest (omega arith)
  bars-cef_header splits (f ∷ fs) rest h =
      bars-header_field splits f [] (b'|' ∷ cef_header fs rest)
      ∙ bars-cut maxsplit splits (header_field f) (cef_header fs rest) (omega arith)
      ∙ ap (λ x. header_field f ∷ x) (bars-cef_header (splits + 1) fs rest (omega arith))

-- A header splits into its fields as they are written, and the rest uncut.
pub split_escaped-cef_header :
    (fs : List Text) (rest : Text)
    → split_escaped (cef_header fs rest) (b'|' ∷ []) (some (length fs))
      ≡ map header_field fs ++ rest ∷ []
unfolding split_escaped
split_escaped-cef_header fs rest = bars-cef_header (length fs) 0 fs rest (omega arith)
