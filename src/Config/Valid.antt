-- ===== src/Config/Valid.antt =====
-- What the checks of ulpf/config.py ensure.
use mathlib.Core.Path.{subst}
use ocsf_forge.Prelude.{
  ◌&&◌, ap, leb, ℕ, ◌≤◌, ◌<◌, ◌≡◌, ◌⊎◌, refl, sym, inl, inr, Bool, true, false, not, [], ◌∷◌, ◌++◌,
  all, is_nil, All, All-append, All-map, ok, Yields, Yields-ok, Yields-then, Yields-guard,
  Yields-check, Bool-cases, arith,
}
use ocsf_forge.Text.{take_while, drop_while, text_eq_iff, Text, codes, text_eq, is_in, strip}
use ocsf_forge.Normalizer.Fields.{Number, at_least_zero, below_zero}
use ocsf_forge.Config.{
  begins_identifier, is_decimal, Settings, empty_directory, bad_memory_limit, not_positive,
  unknown_backend, negative_retries, bad_timeout, bad_port, bad_scheme, bad_identifier, Environment,
  is_positive, is_negative, is_port, continues_identifier, is_identifier, is_memory_limit,
  is_timeout, from_environment, check_duckdb, check_backend, check, load_settings, qualified_table,
}

-- A number of at least one, and one of at most `high`.
abbrev pub IsPositive : Number → Type 0
IsPositive x = (n : ℕ) × (x ≡ at_least_zero n) × (0 < n)

abbrev pub IsPort : Number → Type 0
IsPort x = (n : ℕ) × (x ≡ at_least_zero n) × (1 ≤ n) × (n ≤ 65535)

-- A letter or an underscore of ASCII.
abbrev pub IsFirst : ℕ → Type 0
IsFirst c = ((65 ≤ c) × (c ≤ 90)) ⊎ ((97 ≤ c) × (c ≤ 122)) ⊎ (c ≡ 95)

-- A letter, a digit or an underscore of ASCII.
abbrev pub IsWord : ℕ → Type 0
IsWord c = IsFirst c ⊎ ((48 ≤ c) × (c ≤ 57))

-- A letter or an underscore, then letters, digits and underscores.
abbrev pub IsIdentifier : Text → Type 0
IsIdentifier t = (c : ℕ) × (rest : Text) × (t ≡ c ∷ rest) × IsFirst c × All IsWord (c ∷ rest)

-- A positive whole number without leading zeros, and MB or GB.
abbrev pub IsMemoryLimit : Text → Type 0
IsMemoryLimit t =
    (c : ℕ) × (digits : Text) × (unit : Text) × (t ≡ c ∷ digits ++ unit)
    × (49 ≤ c)
    × (c ≤ 57)
    × All (λ d. (48 ≤ d) × (d ≤ 57)) digits
    × ((unit ≡ codes "MB") ⊎ (unit ≡ codes "GB"))

module _ (env : Environment) where
  abbrev pub IsTimeout : Text → Type 0
  IsTimeout t = (env.is_finite t ≡ true) × (env.is_positive_float t ≡ true)

  pub record IsDuckdb (s : Settings) : Type 0 where
    pub directory : is_nil (strip env.chars s.homelab_directory) ≡ false
    pub memory : IsMemoryLimit s.duckdb_memory_limit
    pub threads : IsPositive s.duckdb_threads
    pub timeout : IsTimeout s.duckdb_query_timeout

  pub record IsValid (s : Settings) : Type 0 where
    pub backend : (s.backend ≡ codes "trino") ⊎ (s.backend ≡ codes "duckdb")
    pub duckdb : s.backend ≡ codes "duckdb" → IsDuckdb s
    pub query_row_limit : IsPositive s.query_row_limit
    pub insert_batch_size : IsPositive s.insert_batch_size
    pub trino_max_query_bytes : IsPositive s.trino_max_query_bytes
    pub max_upload_bytes : IsPositive s.max_upload_bytes
    pub max_upload_events : IsPositive s.max_upload_events
    pub retries : (n : ℕ) × (s.iceberg_commit_retries ≡ at_least_zero n)
    pub timeout : IsTimeout s.trino_request_timeout
    pub port : IsPort s.trino_port
    pub scheme : (s.trino_http_scheme ≡ codes "http") ⊎ (s.trino_http_scheme ≡ codes "https")
    pub catalog : IsIdentifier s.trino_catalog
    pub schema : IsIdentifier s.trino_schema
    pub table : IsIdentifier s.trino_table

positive : (x : Number) → not (is_positive x) ≡ false → IsPositive x
positive (at_least_zero n) h = (n, refl, ground (arith, h))
positive below_zero h = absurd cc

not_negative : (x : Number) → is_negative x ≡ false → (n : ℕ) × (x ≡ at_least_zero n)
not_negative (at_least_zero n) h = (n, refl)
not_negative below_zero h = absurd cc

in_range : (x : Number) → not (is_port x) ≡ false → IsPort x
in_range (at_least_zero n) h = (n, refl, ground (arith, h), ground (arith, h))
in_range below_zero h = absurd cc

holds : (b : Bool) → not b ≡ false → b ≡ true
holds true h = refl
holds false h = absurd cc

begins_identifier-IsFirst : (c : ℕ) → begins_identifier c ≡ true → IsFirst c
begins_identifier-IsFirst c h = elim (Bool-cases (leb 65 c && leb c 90)) [
  | inl upper ↦ inl (ground (arith, upper), ground (arith, upper))
  | inr not_upper ↦ elim (Bool-cases (leb 97 c && leb c 122)) [
    | inl lower ↦ inr (inl (ground (arith, lower), ground (arith, lower)))
    | inr not_lower ↦ inr (inr (ground (arith, h, not_upper, not_lower)))
  ]
]

continues_identifier-IsWord : (c : ℕ) → continues_identifier c ≡ true → IsWord c
continues_identifier-IsWord c h = elim (Bool-cases (begins_identifier c)) [
  | inl begins ↦ inl (begins_identifier-IsFirst c begins)
  | inr other ↦ inr (ground (arith, h, other), ground (arith, h, other))
]

words-All : (t : Text) → all continues_identifier t ≡ true → All IsWord t
words-All [] h = tt
words-All (c ∷ t) h =
    (continues_identifier-IsWord c (ground (arith, h)), words-All t (ground (arith, h)))

identifier : (t : Text) → not (is_identifier t) ≡ false → IsIdentifier t
identifier [] h = absurd cc
identifier (c ∷ t) h =
    let begins : begins_identifier c ≡ true = ground (arith, h) in
    let rest : all continues_identifier t ≡ true = ground (arith, h) in
    let first = begins_identifier-IsFirst c begins in
    (c, t, refl, first, (inl first, words-All t rest))

one_of : (t a b : Text) → is_in t (a ∷ b ∷ []) ≡ true → (t ≡ a) ⊎ (t ≡ b)
one_of t a b h = elim (Bool-cases (text_eq t a)) [
  | inl is ↦ inl ((text_eq_iff t a).0 is)
  | inr other ↦ inr ((text_eq_iff t b).0 (ground (arith, h, other)))
]

-- A text is its leading characters that pass a test, and the rest.
take_drop : (p : ℕ → Bool) (t : Text) → t ≡ take_while p t ++ drop_while p t
take_drop p [] = refl
take_drop p (c ∷ t) = elim (Bool-cases (p c)) [
  | inl passes ↦ rw passes (ap (λ x. c ∷ x) (take_drop p t))
  | inr fails ↦ rw fails refl
]

taken : (t : Text) → All (λ d. (48 ≤ d) × (d ≤ 57)) (take_while is_decimal t)
taken [] = tt
taken (c ∷ t) = elim (Bool-cases (is_decimal c)) [
  | inl digit ↦ rw digit ((ground (arith, digit), ground (arith, digit)), taken t)
  | inr other ↦ rw other tt
]

memory_limit : (t : Text) → not (is_memory_limit t) ≡ false → IsMemoryLimit t
memory_limit [] h = absurd cc
memory_limit (c ∷ t) h = (
  c,
  take_while is_decimal t,
  drop_while is_decimal t,
  ap (λ x. c ∷ x) (take_drop is_decimal t),
  ground (arith, h),
  ground (arith, h),
  taken t,
  one_of (drop_while is_decimal t) (codes "MB") (codes "GB") (ground (arith, h)),
)

module _ (env : Environment) where
  seconds : (t : Text) → not (is_timeout env t) ≡ false → IsTimeout env t
  seconds t h = (ground (arith, h), ground (arith, h))

  check_duckdb-IsDuckdb : (s : Settings) → Yields (λ _. IsDuckdb env s) (check_duckdb env s)
  check_duckdb-IsDuckdb s =
      Yields-guard (is_nil (strip env.chars s.homelab_directory)) empty_directory (λ a.
        Yields-guard (not (is_memory_limit s.duckdb_memory_limit)) bad_memory_limit (λ b.
          Yields-guard (not (is_positive s.duckdb_threads)) (not_positive (codes "duckdb_threads"))
            (λ c.
              Yields-check (not (is_timeout env s.duckdb_query_timeout))
                (bad_timeout (codes "duckdb_query_timeout"))
                (λ d. record {
                  directory = a;
                  memory = memory_limit s.duckdb_memory_limit b;
                  threads = positive s.duckdb_threads c;
                  timeout = seconds s.duckdb_query_timeout d;
                }))))

  check_backend-IsDuckdb :
      (s : Settings)
      → Yields (λ _. s.backend ≡ codes "duckdb" → IsDuckdb env s) (check_backend env s)
  check_backend-IsDuckdb s = elim (Bool-cases (text_eq s.backend (codes "duckdb"))) [
    | inl is ↦ rw is (record { yields = λ u h _. (check_duckdb-IsDuckdb s).yields u h })
    | inr not_ ↦ rw not_ (record { yields = λ u h e. absurd (other s.backend e not_) })
  ]
    where
      other : (t : Text) → t ≡ codes "duckdb" → text_eq t (codes "duckdb") ≡ false → ⊥
      other t e h =
          absurd (ground (arith, h, subst (λ u. text_eq u (codes "duckdb") ≡ true) (sym e) refl))

  check-IsValid : (s : Settings) → Yields (λ _. IsValid env s) (check env s)
  unfolding check
  check-IsValid s = Yields-guard _ unknown_backend (λ known.
      Yields-then (check_backend env s) (λ u ran.
        Yields-guard _ (not_positive (codes "query_row_limit")) (λ rows.
          Yields-guard _ (not_positive (codes "insert_batch_size")) (λ batch.
            Yields-guard _ (not_positive (codes "trino_max_query_bytes")) (λ bytes.
              Yields-guard _ (not_positive (codes "max_upload_bytes")) (λ upload.
                Yields-guard _ (not_positive (codes "max_upload_events")) (λ events.
                  Yields-guard _ negative_retries (λ retries.
                    Yields-guard _ (bad_timeout (codes "trino_request_timeout")) (λ timeout.
                      Yields-guard _ bad_port (λ port. Yields-guard _ bad_scheme (λ scheme.
                        Yields-guard _ (bad_identifier (codes "trino_catalog")) (λ catalog.
                          Yields-guard _ (bad_identifier (codes "trino_schema")) (λ schema.
                            Yields-check _ (bad_identifier (codes "trino_table")) (λ table. record {
                              backend =
                                  one_of s.backend (codes "trino") (codes "duckdb") (holds _ known);
                              duckdb = (check_backend-IsDuckdb s).yields u ran;
                              query_row_limit = positive s.query_row_limit rows;
                              insert_batch_size = positive s.insert_batch_size batch;
                              trino_max_query_bytes = positive s.trino_max_query_bytes bytes;
                              max_upload_bytes = positive s.max_upload_bytes upload;
                              max_upload_events = positive s.max_upload_events events;
                              retries = not_negative s.iceberg_commit_retries retries;
                              timeout = seconds s.trino_request_timeout timeout;
                              port = in_range s.trino_port port;
                              scheme =
                                  one_of s.trino_http_scheme (codes "http") (codes "https")
                                    (holds _ scheme);
                              catalog = identifier s.trino_catalog catalog;
                              schema = identifier s.trino_schema schema;
                              table = identifier s.trino_table table;
                            }))))))))))))))

  -- If the settings load, the limits are positive, the retries not negative, the timeout finite and
  -- positive, and the port one of 1 to 65535; the backend is trino or duckdb and the scheme http or
  -- https; the catalog, the schema and the table begin with a letter or an underscore and go on with
  -- letters, digits and underscores; and with the DuckDB backend, the directory is not blank, the
  -- memory limit is a positive whole number and MB or GB, the threads are positive, and the timeout
  -- is finite and positive.
  pub load_settings-IsValid : (s : Settings) → load_settings env ≡ ok s → IsValid env s
  unfolding load_settings
  load_settings-IsValid = loaded.yields
    where
      loaded : Yields (IsValid env) (load_settings env)
      loaded = Yields-then (from_environment env) (λ s _.
          Yields-then (check env s)
            (λ u h. Yields-ok (IsValid env) s ((check-IsValid s).yields u h)))

  abbrev pub IsNamed : Text → Type 0
  IsNamed = All (λ c. IsWord c ⊎ (c ≡ b'.'))

  words-IsNamed : (t : Text) → All IsWord t → IsNamed t
  words-IsNamed = All-map IsWord (λ c. IsWord c ⊎ (c ≡ b'.')) (λ c h. inl h)

  identifier-IsNamed : (t : Text) → IsIdentifier t → IsNamed t
  identifier-IsNamed t (c, rest, e, _, words) =
      subst IsNamed (sym e) (words-IsNamed (c ∷ rest) words)

  -- If the settings load, the table's name, which the statements contain as it is, has only
  -- letters, digits, underscores and dots.
  pub qualified_table-IsNamed :
      (s : Settings) → load_settings env ≡ ok s → IsNamed (qualified_table s)
  unfolding qualified_table
  qualified_table-IsNamed s h =
      let v = load_settings-IsValid s h in
      let dotted : (t u : Text) → IsNamed t → IsNamed u → IsNamed (t ++ (codes "." ++ u)) =
        λ t u a b. All-append (λ c. IsWord c ⊎ (c ≡ b'.')) t (codes "." ++ u) a (inr refl, b) in
      dotted s.trino_catalog (s.trino_schema ++ (codes "." ++ s.trino_table))
        (identifier-IsNamed s.trino_catalog v.catalog)
        (dotted s.trino_schema s.trino_table (identifier-IsNamed s.trino_schema v.schema)
          (identifier-IsNamed s.trino_table v.table))
