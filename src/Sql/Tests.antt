-- ===== src/Sql/Tests.antt =====
-- Runs of the console checks, and the theorems about them at concrete statements.
use ocsf_forge.Prelude.{◌≡◌, refl, true, false, arith, List, length, [], ◌∷◌, none, ok, raise}
use ocsf_forge.Text.{Text, ascii, codes}
use ocsf_forge.Sql.Scrub.{scrub_sql, unterminated_quote, unterminated_comment}
use ocsf_forge.Sql.Clean.{IsClean, scrub_sql-IsClean, scrub_sql_idempotent}
use ocsf_forge.Sql.Tokens.{
  Piece, plain, value, line_comment, block_comment, empty, char, nested, render, visible,
  scrub_sql-render,
}
use ocsf_forge.Sql.Console.{
  check_query, check_read, not_read_only, several_statements, bad_row_limit, StatementType, select,
}
use ocsf_forge.Sql.ReadOnly.{
  IsReadOnly, check_query-IsReadOnly, IsBoundedRead, check_read-IsBoundedRead,
}

scrub_mixed : scrub_sql (codes "a 'x;''y' -- z\n/* p /* q */ */b") ≡ ok (codes "a     b")
unfolding scrub_sql
scrub_mixed = refl

scrub_open : scrub_sql (codes "a 'x''") ≡ raise unterminated_quote
unfolding scrub_sql
scrub_open = refl

scrub_nested : scrub_sql (codes "/* /* */") ≡ raise unterminated_comment
unfolding scrub_sql
scrub_nested = refl

scrub_sql-IsClean_example : IsClean (codes "a     b")
scrub_sql-IsClean_example =
    scrub_sql-IsClean (codes "a 'x;''y' -- z\n/* p /* q */ */b") (codes "a     b") scrub_mixed

scrub_sql_idempotent_example : scrub_sql (codes "a     b") ≡ ok (codes "a     b")
scrub_sql_idempotent_example =
    scrub_sql_idempotent (codes "a 'x;''y' -- z\n/* p /* q */ */b") (codes "a     b") scrub_mixed

abbrev pieces : List Piece
pieces =
    plain b'-'
    ∷ value b'\'' (codes "it's --")
    ∷ line_comment (codes " 'open")
    ∷ block_comment (char b'a' (nested (char b'b' empty) empty))
    ∷ plain b'x'
    ∷ []

scrub_sql-render_example : scrub_sql (render pieces) ≡ ok (visible pieces)
scrub_sql-render_example = scrub_sql-render pieces (ground arith)

drop_hidden :
    check_query ascii false true (codes "WITH x AS (SELECT 1) DROP TABLE x") ≡ raise not_read_only
unfolding check_query scrub_sql
drop_hidden = refl

drop_quoted :
    check_query ascii false true (codes " select 'drop; x';") ≡ ok (codes "select 'drop; x';")
unfolding check_query scrub_sql
drop_quoted = refl

two_statements :
    check_query ascii false true (codes "select 1; select 2") ≡ raise several_statements
unfolding check_query scrub_sql
two_statements = refl

check_query-IsReadOnly_example :
    IsReadOnly ascii (codes " select 'drop; x';") (codes "select 'drop; x';")
check_query-IsReadOnly_example =
    check_query-IsReadOnly ascii (codes " select 'drop; x';") (codes "select 'drop; x';")
      drop_quoted

abbrev all_select : Text → List StatementType
all_select s = select ∷ []

read_ok :
    check_read ascii length all_select [] 100 5 (codes "select 1") none ≡ ok (codes "select 1", 5)
unfolding check_read scrub_sql
read_ok = refl

check_read-IsBoundedRead_example :
    IsBoundedRead ascii length all_select [] 100 5 (codes "select 1") (codes "select 1") 5
check_read-IsBoundedRead_example =
    check_read-IsBoundedRead ascii length all_select [] 100 5 (codes "select 1") none
      (codes "select 1") 5 read_ok

read_no_rows :
    check_read ascii length all_select [] 100 0 (codes "select 1") none ≡ raise bad_row_limit
unfolding check_read scrub_sql
read_no_rows = refl
