-- ===== src/Sql/Tokens.antt =====
-- `scrub_sql` of services/sql_guard.py against the lexical grammar of SQL: a statement written from
-- plain characters, quoted values, line comments and nested block comments.
use ocsf_forge.Prelude.{
  ℕ, zero, suc, ◌≡◌, refl, true, false, ◌&&◌, List, [], ◌∷◌, ◌++◌, ok, arith, ◌==◌, Bool-cases,
  if◌then◌else◌, inl, inr, ◌∙◌, ap, All,
}
use mathlib.Core.List.{append_assoc}
use ocsf_forge.Text.{Text}
use ocsf_forge.Sql.Scrub.{code, quoted, line, block, is_quote, opens, closes, emit, scan, scrub_sql}

-- The inside of a block comment: characters, and comments in it.
pub data Comment : Type 0 where
  empty : Comment
  char : ℕ → Comment → Comment
  nested : Comment → Comment → Comment

pub data Piece : Type 0 where
  plain : ℕ → Piece
  value : ℕ → Text → Piece
  line_comment : Text → Piece
  block_comment : Comment → Piece

-- A quote character inside a value is written twice.
abbrev pub escape : ℕ → Text → Text
escape q [] = []
escape q (c ∷ s) = if c == q then q ∷ q ∷ escape q s else c ∷ escape q s

abbrev pub comment_text : Comment → Text
comment_text empty = []
comment_text (char c b) = c ∷ comment_text b
comment_text (nested b rest) = b'/' ∷ b'*' ∷ comment_text b ++ (b'*' ∷ b'/' ∷ comment_text rest)

abbrev pub piece_text : Piece → Text → Text
piece_text (plain c) rest = c ∷ rest
piece_text (value q s) rest = q ∷ escape q s ++ (q ∷ rest)
piece_text (line_comment s) rest = b'-' ∷ b'-' ∷ s ++ (10 ∷ rest)
piece_text (block_comment b) rest = b'/' ∷ b'*' ∷ comment_text b ++ (b'*' ∷ b'/' ∷ rest)

abbrev pub render : List Piece → Text
render [] = []
render (p ∷ ps) = piece_text p (render ps)

-- The plain characters, with one space for each value or comment.
abbrev pub visible : List Piece → Text
visible [] = []
visible (plain c ∷ ps) = c ∷ visible ps
visible (_ ∷ ps) = 32 ∷ visible ps

-- The text does not go on with the quote that has just ended a value.
abbrev pub Closes : ℕ → Text → Type 0
Closes q [] = Unit
Closes q (e ∷ s) = (e == q) ≡ false

-- The character does not begin a comment with the one after it.
abbrev pub Stands : ℕ → Text → Type 0
Stands c [] = Unit
Stands c (e ∷ s) = ((c == b'-' && e == b'-') ≡ false) × (opens c e ≡ false)

-- Inside a block comment, the character neither opens nor closes one with the character after it.
abbrev pub Stays : ℕ → Text → Type 0
Stays c [] = Unit
Stays c (e ∷ s) = (opens c e ≡ false) × (closes c e ≡ false)

-- The inside of a comment that stands before a text.
abbrev pub IsComment : Comment → Text → Type 0
IsComment empty after = Unit
IsComment (char c b) after = Stays c (comment_text b ++ after) × IsComment b after
IsComment (nested b rest) after =
    IsComment b (b'*' ∷ b'/' ∷ comment_text rest ++ after) × IsComment rest after

abbrev pub IsPiece : Piece → Text → Type 0
IsPiece (plain c) rest = (is_quote c ≡ false) × Stands c rest
IsPiece (value q s) rest = (is_quote q ≡ true) × Closes q rest
IsPiece (line_comment s) rest = All (λ c. (c == 10) ≡ false) s
IsPiece (block_comment b) rest = IsComment b (b'*' ∷ b'/' ∷ rest)

abbrev pub IsWritten : List Piece → Type 0
IsWritten [] = Unit
IsWritten (p ∷ ps) = IsPiece p (render ps) × IsWritten ps

scan-quoted-inside :
    (q c : ℕ) (s : Text) → (c == q) ≡ false → scan (quoted q) (c ∷ s) ≡ scan (quoted q) s
unfolding scan
scan-quoted-inside q c [] h = rw h
scan-quoted-inside q c (e ∷ s) h = rw h

scan-quoted-close :
    (q : ℕ) (s : Text) → Closes q s → scan (quoted q) (q ∷ s) ≡ emit 32 (scan code s)
unfolding scan
scan-quoted-close q [] h = ground arith
scan-quoted-close q (e ∷ s) h = ground arith

scan-quoted-double : (q : ℕ) (s : Text) → scan (quoted q) (q ∷ q ∷ s) ≡ scan (quoted q) s
unfolding scan
scan-quoted-double q s = ground arith

scan-escape :
    (q : ℕ) (s rest : Text)
    → Closes q rest
    → scan (quoted q) (escape q s ++ (q ∷ rest)) ≡ emit 32 (scan code rest)
scan-escape q [] rest h = scan-quoted-close q rest h
scan-escape q (c ∷ s) rest h = elim (Bool-cases (c == q)) [
  | inl same ↦ rw same (scan-quoted-double q (escape q s ++ (q ∷ rest)) ∙ scan-escape q s rest h)
  | inr other ↦
      rw other (scan-quoted-inside q c (escape q s ++ (q ∷ rest)) other ∙ scan-escape q s rest h)
]

scan-line :
    (s rest : Text)
    → All (λ c. (c == 10) ≡ false) s
    → scan line (s ++ (10 ∷ rest)) ≡ emit 32 (scan code rest)
unfolding scan
scan-line [] rest h = refl
scan-line (c ∷ s) rest (h, hs) = rw h (scan-line s rest hs)

scan-block-inside : (d c : ℕ) (s : Text) → Stays c s → scan (block d) (c ∷ s) ≡ scan (block d) s
unfolding scan
scan-block-inside zero c [] h = refl
scan-block-inside (suc d) c [] h = refl
scan-block-inside zero c (e ∷ s) (h, k) = rw (h, k)
scan-block-inside (suc d) c (e ∷ s) (h, k) = rw (h, k)

scan-block-open : (d : ℕ) (s : Text) → scan (block d) (b'/' ∷ b'*' ∷ s) ≡ scan (block (suc d)) s
unfolding scan
scan-block-open zero s = refl
scan-block-open (suc d) s = refl

scan-block-close : (d : ℕ) (s : Text) → scan (block (suc d)) (b'*' ∷ b'/' ∷ s) ≡ scan (block d) s
unfolding scan
scan-block-close d s = refl

scan-comment :
    (d : ℕ) (b : Comment) (rest : Text)
    → IsComment b rest
    → scan (block d) (comment_text b ++ rest) ≡ scan (block d) rest
scan-comment d empty rest h = refl
scan-comment d (char c b) rest (stays, h) =
    scan-block-inside d c (comment_text b ++ rest) stays ∙ scan-comment d b rest h
scan-comment d (nested b more) rest (h, k) =
    let inner = b'*' ∷ b'/' ∷ comment_text more in
    scan-block-open d ((comment_text b ++ inner) ++ rest)
    ∙ ap (scan (block (suc d))) (append_assoc (comment_text b) inner rest)
    ∙ scan-comment (suc d) b (inner ++ rest) h
    ∙ scan-block-close d (comment_text more ++ rest)
    ∙ scan-comment d more rest k

scan-plain :
    (c : ℕ) (s : Text) → is_quote c ≡ false → Stands c s → scan code (c ∷ s) ≡ emit c (scan code s)
unfolding scan
scan-plain c [] h k = rw h
scan-plain c (e ∷ s) h (d, o) = rw (h, d, o)

scan-value : (q : ℕ) (s : Text) → is_quote q ≡ true → scan code (q ∷ s) ≡ scan (quoted q) s
unfolding scan
scan-value q [] h = rw h
scan-value q (e ∷ s) h = rw h

scan-code-line : (s : Text) → scan code (b'-' ∷ b'-' ∷ s) ≡ scan line s
unfolding scan
scan-code-line s = refl

scan-code-block : (s : Text) → scan code (b'/' ∷ b'*' ∷ s) ≡ scan (block 0) s
unfolding scan
scan-code-block s = refl

scan-block-end : (s : Text) → scan (block 0) (b'*' ∷ b'/' ∷ s) ≡ emit 32 (scan code s)
unfolding scan
scan-block-end s = refl

scan-render : (ps : List Piece) → IsWritten ps → scan code (render ps) ≡ ok (visible ps)
unfolding scan
scan-render [] h = refl
scan-render (plain c ∷ ps) ((q, k), h) =
    scan-plain c (render ps) q k ∙ ap (emit c) (scan-render ps h)
scan-render (value q s ∷ ps) ((is, k), h) =
    scan-value q (escape q s ++ (q ∷ render ps)) is
    ∙ scan-escape q s (render ps) k
    ∙ ap (emit 32) (scan-render ps h)
scan-render (line_comment s ∷ ps) (k, h) =
    scan-code-line (s ++ (10 ∷ render ps))
    ∙ scan-line s (render ps) k
    ∙ ap (emit 32) (scan-render ps h)
scan-render (block_comment b ∷ ps) (k, h) =
    scan-code-block (comment_text b ++ (b'*' ∷ b'/' ∷ render ps))
    ∙ scan-comment 0 b (b'*' ∷ b'/' ∷ render ps) k
    ∙ scan-block-end (render ps)
    ∙ ap (emit 32) (scan-render ps h)

-- A statement written from plain characters that are no quotes and begin no comment, quoted values
-- with their quotes doubled and not followed by another such quote, line comments that end in a
-- newline, and block comments, nested or not, whose other characters neither open nor close one, is
-- scrubbed to its plain characters, with one space for each value and each comment.
pub scrub_sql-render : (ps : List Piece) → IsWritten ps → scrub_sql (render ps) ≡ ok (visible ps)
unfolding scrub_sql
scrub_sql-render ps h = scan-render ps h
