-- ===== src/Text.antt =====
-- Python's `str` as a list of code points, with the operations that the sources call.
use Prim.Native.Char.{code}
use mathlib.Core.List.{reverse}
use ocsf_forge.Prelude.{
  ℕ, ◌+◌, ◌-◌, String, ◌≡◌, refl, ◌↔◌, Bool, true, false, ◌&&◌, ◌||◌, List, [], ◌∷◌, ◌++◌, arith,
  leb, ◌==◌, if◌then◌else◌,
}

abbrev pub Text : Type 0
Text = List ℕ

-- The code points of a literal.
abbrev pub codes : String → Text
codes String.[] = []
codes (String.◌∷◌ c s) = code c ∷ codes s

-- `a == b` on texts.
abbrev pub text_eq : Text → Text → Bool
text_eq [] [] = true
text_eq (a ∷ s) (b ∷ t) = a == b && text_eq s t
text_eq _ _ = false

pub text_eq_iff : (s t : Text) → (text_eq s t ≡ true) ↔ (s ≡ t)
text_eq_iff [] [] = ground arith
text_eq_iff [] (b ∷ t) = ground arith
text_eq_iff (a ∷ s) [] = ground arith
text_eq_iff (a ∷ s) (b ∷ t) = ground (arith, text_eq_iff s t)

pub text_eq_refl : (t : Text) → text_eq t t ≡ true
text_eq_refl t = (text_eq_iff t t).1 refl

-- `t in set_of_texts`.
abbrev pub is_in : Text → List Text → Bool
is_in t [] = false
is_in t (u ∷ us) = text_eq t u || is_in t us

-- `s.startswith(p)`.
abbrev pub starts_with : Text → Text → Bool
starts_with [] s = true
starts_with (p ∷ ps) [] = false
starts_with (p ∷ ps) (c ∷ s) = p == c && starts_with ps s

-- The text without the leading characters that pass the test, and those characters.
abbrev pub drop_while : (ℕ → Bool) → Text → Text
drop_while p [] = []
drop_while p (c ∷ s) = let rest = drop_while p s in if p c then rest else c ∷ s

abbrev pub take_while : (ℕ → Bool) → Text → Text
take_while p [] = []
take_while p (c ∷ s) = let rest = take_while p s in if p c then c ∷ rest else []

-- `s.rstrip(chars)` and `s.strip(chars)`, for the characters that pass the test.
abbrev pub rstrip_by : (ℕ → Bool) → Text → Text
rstrip_by p s = reverse (drop_while p (reverse s))

abbrev pub strip_by : (ℕ → Bool) → Text → Text
strip_by p s = rstrip_by p (drop_while p s)

-- The Unicode tables of the interpreter: `str.isspace` (the class `\s` of `re` too), the class `\w`,
-- `str.isdigit`, the case maps of one code point, and the match of a letter of a pattern with
-- `re.IGNORECASE`.
pub record CharClass : Type 0 where
  pub is_space : ℕ → Bool
  pub is_word : ℕ → Bool
  pub is_digit : ℕ → Bool
  pub upper : ℕ → Text
  pub lower : ℕ → Text
  pub same_letter : ℕ → ℕ → Bool

module _ (u : CharClass) where
  -- `s.strip()`, `s.lstrip()`.
  abbrev pub strip : Text → Text
  strip = strip_by u.is_space

  abbrev pub lstrip : Text → Text
  lstrip = drop_while u.is_space

  abbrev pub to_upper : Text → Text
  to_upper [] = []
  to_upper (c ∷ s) = u.upper c ++ to_upper s

  abbrev pub to_lower : Text → Text
  to_lower [] = []
  to_lower (c ∷ s) = u.lower c ++ to_lower s

abbrev ascii_upper : ℕ → ℕ
ascii_upper c = if leb 97 c && leb c 122 then c - 32 else c

-- The tables on ASCII, for tests.
abbrev pub ascii : CharClass
ascii = record {
  is_space = λ c. c == 32 || (leb 9 c && leb c 13) || (leb 28 c && leb c 31);
  is_word =
      λ c. (leb 48 c && leb c 57) || (leb 65 c && leb c 90) || (leb 97 c && leb c 122) || c == 95;
  is_digit = λ c. leb 48 c && leb c 57;
  upper = λ c. ascii_upper c ∷ [];
  lower = λ c. (if leb 65 c && leb c 90 then c + 32 else c) ∷ [];
  same_letter = λ a b. ascii_upper a == ascii_upper b;
}
