-- ===== src/Sql/Scrub.antt =====
-- ulpf/services/sql_guard.py: `scrub_sql` replaces quoted values and comments by one space.
use ocsf_forge.Prelude.{
  ℕ, zero, suc, Bool, ◌&&◌, ◌||◌, [], ◌∷◌, Result, ok, raise, map_ok, ◌==◌, if◌then◌else◌,
}
use ocsf_forge.Text.{Text}

pub data ScrubError : Type 0 where
  unterminated_quote unterminated_comment : ScrubError

-- Where the scan stands: outside, in a value quoted by `q`, in a line comment, or in `d + 1` nested
-- block comments.
pub data Mode : Type 0 where
  code : Mode
  quoted : ℕ → Mode
  line : Mode
  block : ℕ → Mode

abbrev pub is_quote : ℕ → Bool
is_quote c = c == b'\'' || c == b'"'

-- `output.append(c)` before what the rest of the scan appends.
abbrev pub emit : ℕ → Result ScrubError Text → Result ScrubError Text
emit c = map_ok (λ t. c ∷ t)

-- `startswith("/*")` and `startswith("*/")` on the two characters at the index.
abbrev pub opens : ℕ → ℕ → Bool
opens c e = c == b'/' && e == b'*'

abbrev pub closes : ℕ → ℕ → Bool
closes c e = c == b'*' && e == b'/'

-- The loops of `scrub_sql`. Each round reads the character at the index and the one after it; the
-- `let`s name where the scan goes on.
unfoldable pub scan : Mode → Text → Result ScrubError Text
scan code [] = ok []
scan code (c ∷ []) = if is_quote c then raise unterminated_quote else ok (c ∷ [])
scan code (c ∷ e ∷ s) =
    let value = scan (quoted c) (e ∷ s) in
    let to_newline = scan line s in
    let comment = scan (block 0) s in
    let plain = emit c (scan code (e ∷ s)) in
    if is_quote c
    then value
    else if c == b'-' && e == b'-'
    then to_newline
    else if opens c e
    then comment
    else plain
scan (quoted q) [] = raise unterminated_quote
scan (quoted q) (c ∷ []) = if c == q then ok (32 ∷ []) else raise unterminated_quote
scan (quoted q) (c ∷ e ∷ s) =
    let doubled = scan (quoted q) s in
    let closed = emit 32 (scan code (e ∷ s)) in
    let inside = scan (quoted q) (e ∷ s) in
    if c == q then (if e == q then doubled else closed) else inside
scan line [] = ok (32 ∷ [])
scan line (c ∷ s) =
    let closed = emit 32 (scan code s) in
    let inside = scan line s in if c == 10 then closed else inside
scan (block d) [] = raise unterminated_comment
scan (block d) (c ∷ []) = raise unterminated_comment
scan (block zero) (c ∷ e ∷ s) =
    let deeper = scan (block 1) s in
    let closed = emit 32 (scan code s) in
    let inside = scan (block 0) (e ∷ s) in
    if opens c e then deeper else if closes c e then closed else inside
scan (block (suc d)) (c ∷ e ∷ s) =
    let deeper = scan (block (suc (suc d))) s in
    let closed = scan (block d) s in
    let inside = scan (block (suc d)) (e ∷ s) in
    if opens c e then deeper else if closes c e then closed else inside

unfoldable pub scrub_sql : Text → Result ScrubError Text
unfolding scan
scrub_sql statement = scan code statement
