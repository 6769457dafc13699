-- ===== src/Parsing/Escapes.antt =====
-- ulpf/parsing/base.py: `unescape_cef` and `split_escaped`.
use ocsf_forge.Prelude.{
  ℕ, ◌+◌, Bool, true, false, not, ◌&&◌, Option, none, some, List, [], ◌∷◌, ◌++◌, ltb, ◌==◌,
  if◌then◌else◌,
}
use ocsf_forge.Text.{Text, text_eq}

abbrev pub replacement : ℕ → ℕ
replacement c = if c == b'n' then 10 else if c == b'r' then 13 else if c == b't' then 9 else c

unfoldable pub unescape_cef : Text → Text
unescape_cef [] = []
unescape_cef (c ∷ []) = c ∷ []
unescape_cef (c ∷ e ∷ s) =
    let pair = replacement e ∷ unescape_cef s in
    let plain = c ∷ unescape_cef (e ∷ s) in if c == b'\\' then pair else plain

-- `maxsplit < 0 or splits < maxsplit`; `none` is a negative `maxsplit`.
abbrev pub may_split : Option ℕ → ℕ → Bool
may_split none splits = true
may_split (some maxsplit) splits = ltb splits maxsplit

module _ (separator : Text) (maxsplit : Option ℕ) where
  -- The loop of `split_escaped`, from the parts that are still to come.
  unfoldable pub split_from : Bool → ℕ → Text → Text → List Text
  split_from escaped splits current [] = current ∷ []
  split_from escaped splits current (c ∷ s) =
      let cut = current ∷ split_from escaped (splits + 1) [] s in
      let longer = split_from (c == b'\\' && not escaped) splits (current ++ c ∷ []) s in
      if text_eq (c ∷ []) separator && not escaped && may_split maxsplit splits then cut else longer

-- The `escaped` flag after the last line of the loop is that of the line before: it is set only by a
-- backslash, which the last line leaves alone.
unfoldable pub split_escaped : Text → Text → Option ℕ → List Text
unfolding split_from
split_escaped value separator maxsplit = split_from separator maxsplit false 0 [] value
