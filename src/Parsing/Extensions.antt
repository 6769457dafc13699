-- ===== src/Parsing/Extensions.antt =====
-- ulpf/parsing/security.py: the extensions of CEF.
use ocsf_forge.Prelude.{
  ℕ, zero, suc, ◌+◌, ◌-◌, Bool, false, not, ◌||◌, Option, none, some, List, [], ◌∷◌, length, take,
  drop, is_nil, leb, ◌==◌, ◌&&◌, if◌then◌else◌,
}
use ocsf_forge.Text.{Text, CharClass, strip, take_while, drop_while}
use ocsf_forge.Json.{str, Fields, end, put}
use ocsf_forge.Parsing.Escapes.{unescape_cef}

-- A match of `EXTENSION_KEY`: its start, its end and its group.
pub record KeyMatch : Type 0 where
  pub start : ℕ
  pub stop : ℕ
  pub key : Text

-- `[A-Za-z0-9_.-]`.
abbrev pub is_key_char : ℕ → Bool
is_key_char c =
    (leb b'A' c && leb c b'Z')
    || (leb b'a' c && leb c b'z')
    || (leb b'0' c && leb c b'9')
    || c == b'_'
    || c == b'.'
    || c == b'-'

abbrev pub begins_value : Text → Bool
begins_value [] = false
begins_value (c ∷ s) = c == b'='

-- `([A-Za-z0-9_.-]+)=` at the head of a text.
abbrev pub key_at : Text → Option Text
key_at s =
    let key = take_while is_key_char s in
    if not (is_nil key) && begins_value (drop_while is_key_char s) then some key else none

abbrev pub is_backslash : Option ℕ → Bool
is_backslash none = false
is_backslash (some c) = c == b'\\'

abbrev pub or_match : Option (Text × ℕ) → Option (Text × ℕ) → Option (Text × ℕ)
or_match none m = m
or_match (some a) m = some a

-- A key with the length of its match, which begins after so many characters.
abbrev pub with_length : ℕ → Option Text → Option (Text × ℕ)
with_length before none = none
with_length before (some key) = some (key, before + length key + 1)

module _ (u : CharClass) where
  -- `^`, before the key.
  abbrev pub at_start : Option ℕ → Text → Option (Text × ℕ)
  at_start none s = with_length 0 (key_at s)
  at_start (some c) s = none

  -- `\s`, before the key.
  abbrev pub after_space : Text → Option (Text × ℕ)
  after_space [] = none
  after_space (c ∷ s) = if u.is_space c then with_length 1 (key_at s) else none

  -- The pattern at a position, with the character before it.
  abbrev pub match_at : Option ℕ → Text → Option (Text × ℕ)
  match_at before s =
      if is_backslash before then none else or_match (at_start before s) (after_space s)

  abbrev pub skipped : Option (Text × ℕ) → ℕ
  skipped none = 0
  skipped (some (key, n)) = n - 1

  abbrev pub found : ℕ → Option (Text × ℕ) → List KeyMatch → List KeyMatch
  found i none later = later
  found i (some (key, n)) later = record { start = i; stop = i + n; key = key } ∷ later

  -- `EXTENSION_KEY.finditer`: so many characters belong to the last match still.
  unfoldable pub matches_from : Option ℕ → ℕ → ℕ → Text → List KeyMatch
  matches_from before skip i [] = []
  matches_from before zero i (c ∷ s) =
      let m = match_at before (c ∷ s) in found i m (matches_from (some c) (skipped m) (suc i) s)
  matches_from before (suc skip) i (c ∷ s) = matches_from (some c) skip (suc i) s

  abbrev pub next_start : Text → List KeyMatch → ℕ
  next_start value [] = length value
  next_start value (m ∷ ms) = m.start

  -- `unescape_cef(value[match.end() : end].strip())`.
  abbrev pub value_of : Text → KeyMatch → List KeyMatch → Text
  value_of value m later =
      unescape_cef (strip u (take (next_start value later - m.stop) (drop m.stop value)))

  unfoldable pub collected : Text → Fields → List KeyMatch → Fields
  collected value result [] = result
  collected value result (m ∷ ms) =
      collected value (put result m.key (str (value_of value m ms))) ms

  unfoldable pub parse_extensions : Text → Fields
  unfolding matches_from collected
  parse_extensions value = collected value end (matches_from none 0 0 value)
