-- ===== src/Sql/ReadOnly.antt =====
-- What the checks of the console (services/trino.py, services/duckdb_backend.py) guarantee.
use ocsf_forge.Prelude.{
  ℕ, ◌≤◌, ◌<◌, ◌≡◌, refl, sym, ◌∙◌, ap, ◌⊎◌, inl, inr, Bool, true, false, not, ◌&&◌, ◌||◌, List, [],
  ◌∷◌, ◌++◌, Option, none, some, Result, ok, raise, raise_if-ok, ok-injective, >>=-ok, any, all,
  All, arith, Bool-cases, ltb, ◌==◌,
}
use mathlib.Core.Path.{subst}
use mathlib.Core.List.{append_assoc, append-nil}
use ocsf_forge.Text.{Text, CharClass, is_in, strip, rstrip_by}
use ocsf_forge.Normalizer.Fields.{Number, at_least_zero, below_zero}
use ocsf_forge.Sql.Scrub.{ScrubError, scrub_sql}
use ocsf_forge.Sql.Clean.{IsClean, scrub_sql-IsClean}
use ocsf_forge.Sql.Console.{
  read_only_prefixes, mutating_keywords, duckdb_keywords, lift, is_semicolon, multi_statement,
  same_word, word_runs, mentions, says_nothing, first_keyword, is_read_only, check_query,
  check_read, StatementType, select, explain, other, is_query_type, adapted, row_bound, is_empty,
  too_long, not_read_only, several_statements, bad_row_limit, empty_statement,
}

or-false : (a b : Bool) → (a || b) ≡ false → (a ≡ false) × (b ≡ false)
or-false a b h = ground arith

lift-ok : (r : Result ScrubError Text) {t : Text} → lift r ≡ ok t → r ≡ ok t
lift-ok (ok t) h = cc
lift-ok (raise e) h = cc

any-false {ℓ} :
    {A : Type ℓ} (p : A → Bool) (xs : List A) → any p xs ≡ false → All (λ x. p x ≡ false) xs
any-false p [] h = tt
any-false p (x ∷ xs) h =
    let (here, later) = or-false (p x) (any p xs) h in (here, any-false p xs later)

module _ (u : CharClass) where
  -- The text before a word ends, and the text after it begins, outside the word characters.
  abbrev pub EndsOutside : Text → Type 0
  EndsOutside pre =
      (pre ≡ []) ⊎ ((p : Text) × (c : ℕ) × (pre ≡ p ++ c ∷ []) × (u.is_word c ≡ false))

  abbrev pub BeginsOutside : Text → Type 0
  BeginsOutside [] = Unit
  BeginsOutside (c ∷ s) = u.is_word c ≡ false

  -- The word stands in the text between two word boundaries.
  pub record StandsIn (w s : Text) : Type 0 where
    pub pre : Text
    pub post : Text
    pub split : s ≡ pre ++ (w ++ post)
    pub word : All (λ c. u.is_word c ≡ true) w
    pub ends : EndsOutside pre
    pub begins : BeginsOutside post

  word_runs-here :
      (q : Text → Bool) (run w post : Text)
      → All (λ c. u.is_word c ≡ true) w
      → BeginsOutside post
      → any q (word_runs u run (w ++ post)) ≡ false
      → q (run ++ w) ≡ false
  unfolding word_runs
  word_runs-here q run [] [] hw hp h =
      subst (λ r. q r ≡ false) (sym (append-nil run)) (or-false (q run) false h).0
  word_runs-here q run [] (c ∷ post) hw hp h =
      subst (λ r. q r ≡ false) (sym (append-nil run)) (or-false (q run) _ (rw hp at h)).0
  word_runs-here q run (c ∷ w) post (hc, hw) hp h =
      subst (λ r. q r ≡ false) (append_assoc run (c ∷ []) w)
        (word_runs-here q (run ++ c ∷ []) w post hw hp (rw hc at h))

  word_runs-later :
      (q : Text → Bool) (run pre : Text) (c : ℕ) (s : Text)
      → u.is_word c ≡ false
      → any q (word_runs u run (pre ++ c ∷ s)) ≡ false
      → any q (word_runs u [] s) ≡ false
  unfolding word_runs
  word_runs-later q run [] c s hc h = (or-false (q run) _ (rw hc at h)).1
  word_runs-later q run (d ∷ pre) c s hc h = elim (Bool-cases (u.is_word d)) [
    | inl inside ↦ word_runs-later q (run ++ d ∷ []) pre c s hc (rw inside at h)
    | inr outside ↦ word_runs-later q [] pre c s hc (or-false (q run) _ (rw outside at h)).1
  ]

  StandsIn-runs :
      (q : Text → Bool) (w s : Text) → StandsIn w s → any q (word_runs u [] s) ≡ false → q w ≡ false
  StandsIn-runs q w s at h = elim at.ends [
    | inl first ↦ word_runs-here q [] w at.post at.word at.begins (moved first)
    | inr (p, c, e, outside) ↦
        word_runs-here q [] w at.post at.word at.begins
          (word_runs-later q [] p c (w ++ at.post) outside (after p c e))
  ]
    where
      moved : at.pre ≡ [] → any q (word_runs u [] (w ++ at.post)) ≡ false
      moved e =
          subst (λ x. any q (word_runs u [] x) ≡ false) (at.split ∙ ap (λ x. x ++ (w ++ at.post)) e)
            h

      after :
          (p : Text) (c : ℕ)
          → at.pre ≡ p ++ c ∷ []
          → any q (word_runs u [] (p ++ c ∷ (w ++ at.post))) ≡ false
      after p c e =
          subst (λ x. any q (word_runs u [] x) ≡ false)
            (at.split ∙ ap (λ x. x ++ (w ++ at.post)) e ∙ append_assoc p (c ∷ []) (w ++ at.post)) h

  -- No keyword that the text does not mention matches a word of it.
  mentions-StandsIn :
      (keywords : List Text) (s w : Text)
      → mentions u keywords s ≡ false
      → StandsIn w s
      → All (λ k. same_word u k w ≡ false) keywords
  unfolding mentions
  mentions-StandsIn keywords s w h at =
      any-false (λ k. same_word u k w) keywords
        (StandsIn-runs (λ run. any (λ k. same_word u k run) keywords) w s at h)

  multi_statement-append :
      (pre post : Text)
      → multi_statement u (pre ++ b';' ∷ post) ≡ false
      → all u.is_space post ≡ true
  unfolding multi_statement
  multi_statement-append [] post h = ground arith
  multi_statement-append (c ∷ pre) post h =
      multi_statement-append pre post (or-false _ (multi_statement u (pre ++ b';' ∷ post)) h).1

  -- What is known of the text of a statement that the read-only console of Trino runs.
  pub record IsReadOnly (statement sql : Text) : Type 0 where
    pub text : Text
    pub stripped : sql ≡ strip u statement
    pub scrubbed : scrub_sql (strip u statement) ≡ ok text
    pub clean : IsClean text
    pub reads : is_in (first_keyword u (strip u text)) read_only_prefixes ≡ true
    pub no_mutation :
        (w : Text)
        → StandsIn w (strip u text)
        → All (λ k. same_word u k w ≡ false) mutating_keywords
    pub single :
        (pre post : Text)
        → rstrip_by is_semicolon (strip u text) ≡ pre ++ b';' ∷ post
        → all u.is_space post ≡ true

  and-true : (a b : Bool) → not (a && not b) ≡ false → (a ≡ true) × (b ≡ false)
  and-true a b h = ground arith

  -- With the read-only check in force, a statement that `query` runs is the stripped input; outside
  -- its quoted values and comments it begins with a read-only keyword, no word of it is a mutating
  -- keyword, and nothing but space follows a semicolon that is not at its end.
  pub check_query-IsReadOnly :
      (statement sql : Text)
      → check_query u false true statement ≡ ok sql
      → IsReadOnly statement sql
  unfolding check_query
  check_query-IsReadOnly statement sql h =
      let (_, h1) = raise_if-ok (is_empty (strip u statement)) empty_statement _ h in
      let (text, lifted, h2) = >>=-ok (lift (scrub_sql (strip u statement))) _ h1 in
      let (_, h3) = raise_if-ok (says_nothing u (strip u text)) empty_statement _ h2 in
      let (single, h4) =
        raise_if-ok (multi_statement u (rstrip_by is_semicolon (strip u text))) several_statements _
          h3 in
      let (reads, h5) = raise_if-ok (not (is_read_only u (strip u text))) not_read_only _ h4 in
      let (starts, silent) =
        and-true (is_in (first_keyword u (strip u text)) read_only_prefixes)
          (mentions u mutating_keywords (strip u text)) reads in
      let scrubbed = lift-ok (scrub_sql (strip u statement)) lifted in
      record {
        text = text;
        stripped = sym (ok-injective h5);
        scrubbed = scrubbed;
        clean = scrub_sql-IsClean (strip u statement) text scrubbed;
        reads = starts;
        no_mutation = λ w at. mentions-StandsIn mutating_keywords (strip u text) w silent at;
        single = λ pre post e.
            multi_statement-append pre post (subst (λ x. multi_statement u x ≡ false) e single);
      }

-- What is known of a statement that the homelab console runs, and of the rows that it fetches.
module _ (u : CharClass) (encoded_size : Text → ℕ) (extract_statements : Text → List StatementType)
    (read_adaptations : List (Text × Text)) where
  pub record IsBoundedRead (max_query_bytes query_row_limit : ℕ) (given sql : Text) (limit : ℕ)
      : Type 0 where
    pub text : Text
    pub adapts : sql ≡ adapted u encoded_size extract_statements read_adaptations given
    pub fits : encoded_size sql ≤ max_query_bytes
    pub scrubbed : scrub_sql sql ≡ ok text
    pub no_mutation :
        (w : Text)
        → StandsIn u w (strip u text)
        → All (λ k. same_word u k w ≡ false) duckdb_keywords
    pub one_query : (extract_statements sql ≡ select ∷ []) ⊎ (extract_statements sql ≡ explain ∷ [])
    pub positive : 0 < limit
    pub bounded : limit ≤ query_row_limit

  is_query_type-cases :
      (xs : List StatementType)
      → not (is_query_type xs) ≡ false
      → (xs ≡ select ∷ []) ⊎ (xs ≡ explain ∷ [])
  is_query_type-cases [] h = cc
  is_query_type-cases (select ∷ []) h = inl refl
  is_query_type-cases (explain ∷ []) h = inr refl
  is_query_type-cases (other ∷ []) h = cc
  is_query_type-cases (select ∷ x ∷ xs) h = cc
  is_query_type-cases (explain ∷ x ∷ xs) h = cc
  is_query_type-cases (other ∷ x ∷ xs) h = cc

  row_bound-le : (row_limit : Option Number) (n : ℕ) → row_bound row_limit n ≤ n
  row_bound-le none n = omega arith
  row_bound-le (some (at_least_zero k)) n = omega arith
  row_bound-le (some below_zero) n = omega arith

  module _ (max_query_bytes query_row_limit : ℕ) (given : Text) (row_limit : Option Number) where
    -- A statement that the homelab console runs fits the size limit, is a single SELECT or EXPLAIN
    -- by DuckDB's own parse, and has no administrative or mutating keyword as a word outside its
    -- quoted values and comments; and the limit on the rows to fetch that goes with it is positive
    -- and at most the configured one.
    pub check_read-IsBoundedRead :
        (sql : Text) (limit : ℕ)
        → check_read u encoded_size extract_statements read_adaptations max_query_bytes
            query_row_limit given row_limit
          ≡ ok (sql, limit)
        → IsBoundedRead max_query_bytes query_row_limit given sql limit
    unfolding check_read
    check_read-IsBoundedRead sql limit h =
        let now : Text = adapted u encoded_size extract_statements read_adaptations given in
        let (fits, h1) = raise_if-ok (ltb max_query_bytes (encoded_size now)) too_long _ h in
        let (text, lifted, h2) = >>=-ok (lift (scrub_sql now)) _ h1 in
        let (_, h3) = raise_if-ok (says_nothing u (strip u text)) empty_statement _ h2 in
        let (silent, h4) =
          raise_if-ok (mentions u duckdb_keywords (strip u text)) not_read_only _ h3 in
        let (one, h5) =
          raise_if-ok (not (is_query_type (extract_statements now))) several_statements _ h4 in
        let (some_rows, h6) =
          raise_if-ok (row_bound row_limit query_row_limit == 0) bad_row_limit _ h5 in
        let same_sql : now ≡ sql = ap (λ p. p.0) (ok-injective h6) in
        let same_limit : row_bound row_limit query_row_limit ≡ limit =
          ap (λ p. p.1) (ok-injective h6) in
        record {
          text = text;
          adapts = sym same_sql;
          fits = rw (← same_sql) (ground arith);
          scrubbed = subst (λ x. scrub_sql x ≡ ok text) same_sql (lift-ok (scrub_sql now) lifted);
          no_mutation = λ w at. mentions-StandsIn u duckdb_keywords (strip u text) w silent at;
          one_query =
              subst
                (λ x. (extract_statements x ≡ select ∷ []) ⊎ (extract_statements x ≡ explain ∷ []))
                same_sql (is_query_type-cases (extract_statements now) one);
          positive = rw (← same_limit) (ground arith);
          bounded = rw (← same_limit) (row_bound-le row_limit query_row_limit);
        }
