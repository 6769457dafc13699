-- ===== src/Parsing/RoundTrip.antt =====
-- What `unescape_cef` and `split_escaped` of ulpf/parsing/base.py undo.
use mathlib.Core.List.{append_assoc, append-nil}
use ocsf_forge.Prelude.{
  ℕ, ◌+◌, ◌≤◌, ◌<◌, ◌≡◌, refl, sym, ap, ◌∙◌, Bool, true, false, not, ◌&&◌, ◌||◌, Option, some, List,
  [], ◌∷◌, ◌++◌, map, length, arith, ltb, ◌==◌, Bool-cases, inl, inr, if◌then◌else◌,
}
use ocsf_forge.Text.{Text, text_eq}
use ocsf_forge.Parsing.Escapes.{replacement, unescape_cef, may_split, split_from, split_escaped}

-- The escapes that `unescape_cef` decodes: a backslash before a backslash, a bar or an equals sign,
-- and letters for line breaks and tabs.
abbrev pub escape_char : ℕ → Text
escape_char c =
    if c == b'\\' || c == b'|' || c == b'='
    then b'\\' ∷ c ∷ []
    else if c == 10
    then b'\\' ∷ b'n' ∷ []
    else if c == 13
    then b'\\' ∷ b'r' ∷ []
    else if c == 9
    then b'\\' ∷ b't' ∷ []
    else c ∷ []

abbrev pub escape : Text → Text
escape [] = []
escape (c ∷ s) = escape_char c ++ escape s

pub unescape-plain :
    (c : ℕ) (s : Text) → (c == b'\\') ≡ false → unescape_cef (c ∷ s) ≡ c ∷ unescape_cef s
unfolding unescape_cef
unescape-plain c [] h = refl
unescape-plain c (e ∷ s) h = rw h

pub unescape-pair :
    (e : ℕ) (s : Text) → unescape_cef (b'\\' ∷ e ∷ s) ≡ replacement e ∷ unescape_cef s
unfolding unescape_cef
unescape-pair e s = refl

-- Decoding an encoded text gives the text.
pub unescape_cef-escape : (s : Text) → unescape_cef (escape s) ≡ s
unescape_cef-escape [] = unfold unescape_cef in refl
unescape_cef-escape (c ∷ s) = ground (
  arith,
  unescape_cef-escape s,
  unescape-plain c (escape s),
  unescape-pair c (escape s),
  unescape-pair b'n' (escape s),
  unescape-pair b'r' (escape s),
  unescape-pair b't' (escape s),
)

-- The parts with the separator between them.
abbrev pub join_rest : ℕ → List Text → Text
join_rest separator [] = []
join_rest separator (p ∷ ps) = separator ∷ p ++ join_rest separator ps

abbrev pub join : ℕ → List Text → Text
join separator [] = []
join separator (p ∷ ps) = p ++ join_rest separator ps

module _ (separator : ℕ) (maxsplit : Option ℕ) where
  abbrev parts : Bool → ℕ → Text → Text → List Text
  parts = split_from (separator ∷ []) maxsplit

  abbrev cuts : ℕ → Bool → ℕ → Bool
  cuts c escaped splits =
      text_eq (c ∷ []) (separator ∷ []) && not escaped && may_split maxsplit splits

  cuts-eq : (c : ℕ) (escaped : Bool) (splits : ℕ) → cuts c escaped splits ≡ true → c ≡ separator
  cuts-eq c escaped splits h = ground arith

  join_rest-parts :
      (escaped : Bool) (splits : ℕ) (current s : Text)
      → join_rest separator (parts escaped splits current s) ≡ separator ∷ current ++ s
  unfolding split_from
  join_rest-parts escaped splits current [] = refl
  join_rest-parts escaped splits current (c ∷ s) = elim (Bool-cases (cuts c escaped splits)) [
    | inl cut ↦ rw cut (
        ap (λ x. separator ∷ current ++ x)
          (join_rest-parts escaped (splits + 1) [] s
            ∙ ap (λ x. x ∷ s) (sym (cuts-eq c escaped splits cut))))
    | inr longer ↦ rw longer (
        join_rest-parts (c == b'\\' && not escaped) splits (current ++ c ∷ []) s
        ∙ ap (λ x. separator ∷ x) (append_assoc current (c ∷ []) s))
  ]

  join-parts :
      (escaped : Bool) (splits : ℕ) (current s : Text)
      → join separator (parts escaped splits current s) ≡ current ++ s
  unfolding split_from
  join-parts escaped splits current [] = append-nil current ∙ sym (append-nil current)
  join-parts escaped splits current (c ∷ s) = elim (Bool-cases (cuts c escaped splits)) [
    | inl cut ↦ rw cut (
        ap (λ x. current ++ x)
          (join_rest-parts escaped (splits + 1) [] s
            ∙ ap (λ x. x ∷ s) (sym (cuts-eq c escaped splits cut))))
    | inr longer ↦ rw longer (
        join-parts (c == b'\\' && not escaped) splits (current ++ c ∷ []) s
        ∙ append_assoc current (c ∷ []) s)
  ]

  -- The parts of a text, joined by the separator, are the text.
  pub join-split_escaped :
      (s : Text) → join separator (split_escaped s (separator ∷ []) maxsplit) ≡ s
  unfolding split_escaped
  join-split_escaped s = join-parts false 0 [] s

module _ (maxsplit : ℕ) where
  length-split_from :
      (separator : Text) (escaped : Bool) (splits : ℕ) (current s : Text)
      → splits ≤ maxsplit
      → splits + length (split_from separator (some maxsplit) escaped splits current s)
        ≤ maxsplit + 1
  unfolding split_from
  length-split_from separator escaped splits current [] h = omega arith
  length-split_from separator escaped splits current (c ∷ s) h = ground (
    arith,
    length-split_from separator escaped (splits + 1) [] s,
    length-split_from separator (c == b'\\' && not escaped) splits (current ++ c ∷ []) s,
  )

  -- A limit on the splits bounds the parts.
  pub length-split_escaped :
      (s separator : Text) → length (split_escaped s separator (some maxsplit)) ≤ maxsplit + 1
  unfolding split_escaped
  length-split_escaped s separator = omega (arith, length-split_from separator false 0 [] s)

-- A header of encoded fields, each followed by a bar, and the text after it.
abbrev pub header : List Text → Text → Text
header [] rest = rest
header (f ∷ fs) rest = escape f ++ b'|' ∷ header fs rest

module _ (maxsplit : ℕ) where
  abbrev pub bars : Bool → ℕ → Text → Text → List Text
  bars = split_from (b'|' ∷ []) (some maxsplit)

  pub bars-plain :
      (splits c : ℕ) (current s : Text)
      → (c == b'\\') ≡ false
      → (c == b'|') ≡ false
      → bars false splits current (c ∷ s) ≡ bars false splits (current ++ c ∷ []) s
  unfolding split_from
  bars-plain splits c current s h k = rw (k, h)

  bars-escaped :
      (splits c : ℕ) (current s : Text)
      → bars true splits current (c ∷ s) ≡ bars false splits (current ++ c ∷ []) s
  unfolding split_from
  bars-escaped splits c current s =
      let kept : (text_eq (c ∷ []) (b'|' ∷ []) && not true && may_split (some maxsplit) splits)
          ≡ false =
        ground arith in
      let reset : (c == b'\\' && not true) ≡ false = ground arith in rw (kept, reset)

  bars-backslash :
      (splits : ℕ) (current s : Text)
      → bars false splits current (b'\\' ∷ s) ≡ bars true splits (current ++ b'\\' ∷ []) s
  unfolding split_from
  bars-backslash splits current s = refl

  pub bars-pair :
      (splits c : ℕ) (current s : Text)
      → bars false splits current (b'\\' ∷ c ∷ s) ≡ bars false splits (current ++ b'\\' ∷ c ∷ []) s
  bars-pair splits c current s =
      bars-backslash splits current (c ∷ s)
      ∙ bars-escaped splits c (current ++ b'\\' ∷ []) s
      ∙ ap (λ x. bars false splits x s) (append_assoc current (b'\\' ∷ []) (c ∷ []))

  bars-escape_char :
      (splits c : ℕ) (current s : Text)
      → bars false splits current (escape_char c ++ s)
        ≡ bars false splits (current ++ escape_char c) s
  bars-escape_char splits c current s = elim (Bool-cases (c == b'\\' || c == b'|' || c == b'=')) [
    | inl special ↦ rw special (bars-pair splits c current s)
    | inr usual ↦ elim (Bool-cases (c == 10)) [
      | inl newline ↦ rw (usual, newline) (bars-pair splits b'n' current s)
      | inr other ↦ elim (Bool-cases (c == 13)) [
        | inl return ↦ rw (usual, other, return) (bars-pair splits b'r' current s)
        | inr more ↦ elim (Bool-cases (c == 9)) [
          | inl tab ↦ rw (usual, other, more, tab) (bars-pair splits b't' current s)
          | inr plain ↦
              rw (usual, other, more, plain)
                (bars-plain splits c current s (ground arith) (ground arith))
        ]
      ]
    ]
  ]

  bars-escape :
      (splits : ℕ) (f current s : Text)
      → bars false splits current (escape f ++ s) ≡ bars false splits (current ++ escape f) s
  bars-escape splits [] current s = ap (λ x. bars false splits x s) (sym (append-nil current))
  bars-escape splits (c ∷ f) current s =
      ap (bars false splits current) (append_assoc (escape_char c) (escape f) s)
      ∙ bars-escape_char splits c current (escape f ++ s)
      ∙ bars-escape splits f (current ++ escape_char c) s
      ∙ ap (λ x. bars false splits x s) (append_assoc current (escape_char c) (escape f))

  pub bars-cut :
      (splits : ℕ) (current s : Text)
      → splits < maxsplit
      → bars false splits current (b'|' ∷ s) ≡ current ∷ bars false (splits + 1) [] s
  unfolding split_from
  bars-cut splits current s h = let below : ltb splits maxsplit ≡ true = ground arith in rw below

  pub bars-end :
      (escaped : Bool) (splits : ℕ) (current s : Text)
      → maxsplit ≤ splits
      → bars escaped splits current s ≡ (current ++ s) ∷ []
  unfolding split_from
  bars-end escaped splits current [] h = ap (λ x. x ∷ []) (sym (append-nil current))
  bars-end escaped splits current (c ∷ s) h =
      let spent : (text_eq (c ∷ []) (b'|' ∷ []) && not escaped && ltb splits maxsplit) ≡ false =
        ground arith in
      rw spent (
        bars-end (c == b'\\' && not escaped) splits (current ++ c ∷ []) s h
        ∙ ap (λ x. x ∷ []) (append_assoc current (c ∷ []) s))

  bars-header :
      (splits : ℕ) (fs : List Text) (rest : Text)
      → splits + length fs ≡ maxsplit
      → bars false splits [] (header fs rest) ≡ map escape fs ++ rest ∷ []
  bars-header splits [] rest h = bars-end false splits [] rest (omega arith)
  bars-header splits (f ∷ fs) rest h =
      bars-escape splits f [] (b'|' ∷ header fs rest)
      ∙ bars-cut splits (escape f) (header fs rest) (omega arith)
      ∙ ap (λ x. escape f ∷ x) (bars-header (splits + 1) fs rest (omega arith))

-- Splitting a header at as many bars as it has fields gives the encoded fields, whatever bars and
-- backslashes their texts hold, and then the rest of the text uncut.
pub split_escaped-header :
    (fs : List Text) (rest : Text)
    → split_escaped (header fs rest) (b'|' ∷ []) (some (length fs)) ≡ map escape fs ++ rest ∷ []
unfolding split_escaped
split_escaped-header fs rest = bars-header (length fs) 0 fs rest (omega arith)
