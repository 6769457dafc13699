-- ===== src/Sql/Console.antt =====
-- The checks before a statement of the console runs: `query` of ulpf/services/trino.py and `_read`
-- of ulpf/services/duckdb_backend.py.
use ocsf_forge.Prelude.{
  ℕ, Bool, true, false, not, ◌&&◌, ◌||◌, List, [], ◌∷◌, ◌++◌, Result, ok, raise, ◌>>=◌, ◌>>◌,
  raise_if, any, all, ltb, min, Option, none, some, ◌==◌, if◌then◌else◌,
}
use ocsf_forge.Text.{
  Text, CharClass, codes, is_in, text_eq, strip, strip_by, rstrip_by, take_while, to_upper,
}
use ocsf_forge.Normalizer.Fields.{Number, at_least_zero, below_zero}
use ocsf_forge.Sql.Scrub.{ScrubError, scrub_sql}

pub data QueryError : Type 0 where
  empty_statement : QueryError
  bad_syntax : ScrubError → QueryError
  several_statements : QueryError
  not_read_only : QueryError
  too_long : QueryError
  bad_row_limit : QueryError

abbrev pub read_only_prefixes : List Text
read_only_prefixes =
    codes "SELECT"
    ∷ codes "SHOW"
    ∷ codes "DESCRIBE"
    ∷ codes "DESC"
    ∷ codes "EXPLAIN"
    ∷ codes "WITH"
    ∷ codes "TABLE"
    ∷ codes "VALUES"
    ∷ []

abbrev pub mutating_keywords : List Text
mutating_keywords =
    codes "INSERT"
    ∷ codes "UPDATE"
    ∷ codes "DELETE"
    ∷ codes "MERGE"
    ∷ codes "CREATE"
    ∷ codes "DROP"
    ∷ codes "ALTER"
    ∷ codes "TRUNCATE"
    ∷ codes "CALL"
    ∷ codes "GRANT"
    ∷ codes "REVOKE"
    ∷ codes "SET"
    ∷ codes "RESET"
    ∷ codes "USE"
    ∷ []

abbrev pub duckdb_keywords : List Text
duckdb_keywords =
    mutating_keywords
    ++ codes "ATTACH"
      ∷ codes "DETACH"
      ∷ codes "COPY"
      ∷ codes "EXPORT"
      ∷ codes "IMPORT"
      ∷ codes "INSTALL"
      ∷ codes "LOAD"
      ∷ codes "PRAGMA"
      ∷ codes "VACUUM"
      ∷ codes "CHECKPOINT"
      ∷ []

abbrev pub lift : Result ScrubError Text → Result QueryError Text
lift (ok t) = ok t
lift (raise e) = raise (bad_syntax e)

abbrev pub is_semicolon : ℕ → Bool
is_semicolon c = c == b';'

abbrev pub is_empty : Text → Bool
is_empty [] = true
is_empty (c ∷ s) = false

module _ (u : CharClass) where
  -- The search of `;\s*\S`: a semicolon with a character other than space somewhere behind it.
  unfoldable pub multi_statement : Text → Bool
  multi_statement [] = false
  multi_statement (c ∷ s) = (is_semicolon c && not (all u.is_space s)) || multi_statement s

  -- A word of a pattern, matched letter by letter with `re.IGNORECASE`.
  abbrev pub same_word : Text → Text → Bool
  same_word [] [] = true
  same_word (a ∷ w) (b ∷ v) = u.same_letter a b && same_word w v
  same_word _ _ = false

  -- The search of `\b(K1|K2|...)\b`. The text is cut into its longest runs of word characters,
  -- and a keyword stands between two word boundaries exactly when it is such a run.
  unfoldable pub word_runs : Text → Text → List Text
  word_runs run [] = run ∷ []
  word_runs run (c ∷ s) =
      let longer = word_runs (run ++ c ∷ []) s in
      let next = run ∷ word_runs [] s in if u.is_word c then longer else next

  unfoldable pub mentions : List Text → Text → Bool
  unfolding word_runs
  mentions keywords s = any (λ run. any (λ k. same_word k run) keywords) (word_runs [] s)

  -- `not scrubbed or not scrubbed.strip(";").strip()`.
  abbrev pub says_nothing : Text → Bool
  says_nothing scrubbed = is_empty scrubbed || is_empty (strip u (strip_by is_semicolon scrubbed))

  abbrev pub first_keyword : Text → Text
  first_keyword scrubbed = to_upper u (take_while (λ c. not (u.is_space c)) scrubbed)

  abbrev pub is_read_only : Text → Bool
  is_read_only scrubbed =
      is_in (first_keyword scrubbed) read_only_prefixes && not (mentions mutating_keywords scrubbed)

  -- `TrinoService.query` up to `execute`: what it raises, or the statement that it runs.
  unfoldable pub check_query : Bool → Bool → Text → Result QueryError Text
  unfolding multi_statement mentions
  check_query allow_mutating_sql enforce_read_only statement = do
    let sql = strip u statement
    raise_if (is_empty sql) empty_statement
    text ← lift (scrub_sql sql)
    let scrubbed = strip u text
    raise_if (says_nothing scrubbed) empty_statement
    raise_if (multi_statement (rstrip_by is_semicolon scrubbed)) several_statements
    raise_if (enforce_read_only && not allow_mutating_sql && not (is_read_only scrubbed))
        not_read_only
    ok sql

-- What DuckDB's `extract_statements` says of a statement.
pub data StatementType : Type 0 where
  select explain other : StatementType

abbrev pub is_query_type : List StatementType → Bool
is_query_type (select ∷ []) = true
is_query_type (explain ∷ []) = true
is_query_type _ = false

-- `dict.get(key, default)`.
abbrev pub get_text : List (Text × Text) → Text → Text → Text
get_text [] key default = default
get_text ((k, v) ∷ entries) key default = if text_eq key k then v else get_text entries key default

-- The limit; one below zero counts as 0, since both are refused.
abbrev pub row_bound : Option Number → ℕ → ℕ
row_bound none query_row_limit = query_row_limit
row_bound (some (at_least_zero row_limit)) query_row_limit = min row_limit query_row_limit
row_bound (some below_zero) query_row_limit = 0

-- `DuckDBBackend._read` up to `execute`: the statement that it runs, with the rows to fetch. The
-- size is that of the UTF-8 encoding.
module _ (u : CharClass) (encoded_size : Text → ℕ) (extract_statements : Text → List StatementType)
    (read_adaptations : List (Text × Text)) where
  abbrev pub adapted : Text → Text
  adapted statement =
      get_text read_adaptations (rstrip_by is_semicolon (strip u statement)) statement

  unfoldable pub check_read : ℕ → ℕ → Text → Option Number → Result QueryError (Text × ℕ)
  unfolding mentions
  check_read max_query_bytes query_row_limit given row_limit = do
    let statement = adapted given
    raise_if (ltb max_query_bytes (encoded_size statement)) too_long
    text ← lift (scrub_sql statement)
    let scrubbed = strip u text
    raise_if (says_nothing u scrubbed) empty_statement
    raise_if (mentions u duckdb_keywords scrubbed) not_read_only
    raise_if (not (is_query_type (extract_statements statement))) several_statements
    let limit = row_bound row_limit query_row_limit
    raise_if (limit == 0) bad_row_limit
    ok (statement, limit)
