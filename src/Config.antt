-- ===== src/Config.antt =====
-- ulpf/config.py: the settings, read from the environment and checked.
pub mod Valid
mod Tests
use ocsf_forge.Prelude.{
  ℕ, Bool, true, false, not, ◌&&◌, ◌||◌, Option, none, some, List, [], ◌∷◌, ◌++◌, all, is_nil,
  Result, ok, raise, raise_if, ◌>>=◌, ◌>>◌, ltb, leb, ◌==◌, if◌then◌else◌,
}
use ocsf_forge.Text.{Text, CharClass, codes, text_eq, is_in, strip, to_lower, drop_while}
use ocsf_forge.Normalizer.Fields.{Number, at_least_zero, below_zero}

-- A float is the text of its `repr`.
pub record Settings : Type 0 where
  pub trino_host : Text
  pub trino_port : Number
  pub trino_user : Text
  pub trino_read_user : Text
  pub trino_dashboard_user : Text
  pub trino_catalog : Text
  pub trino_schema : Text
  pub trino_table : Text
  pub trino_request_timeout : Text
  pub trino_http_scheme : Text
  pub trino_password : Text
  pub minio_endpoint : Text
  pub minio_access_key : Text
  pub minio_secret_key : Text
  pub minio_bucket : Text
  pub allow_mutating_sql : Bool
  pub query_row_limit : Number
  pub insert_batch_size : Number
  pub trino_max_query_bytes : Number
  pub iceberg_commit_retries : Number
  pub max_upload_bytes : Number
  pub backend : Text
  pub homelab_directory : Text
  pub duckdb_memory_limit : Text
  pub duckdb_threads : Number
  pub duckdb_query_timeout : Text
  pub max_upload_events : Number

-- `int` and `float` refuse the text, or a check names the setting.
pub data SettingsError : Type 0 where
  not_a_number : Text → SettingsError
  unknown_backend : SettingsError
  empty_directory : SettingsError
  bad_memory_limit : SettingsError
  not_positive : Text → SettingsError
  negative_retries : SettingsError
  bad_timeout : Text → SettingsError
  bad_port : SettingsError
  bad_scheme : SettingsError
  bad_identifier : Text → SettingsError

-- The environment, the home directory's part of the default, and the interpreter's `int`, `float`,
-- and tests of a float.
pub record Environment : Type 0 where
  pub chars : CharClass
  pub getenv : Text → Option Text
  pub default_directory : Text
  pub int_of : Text → Option Number
  pub float_of : Text → Option Text
  pub is_finite : Text → Bool
  pub is_positive_float : Text → Bool

abbrev pub is_positive : Number → Bool
is_positive (at_least_zero n) = ltb 0 n
is_positive below_zero = false

abbrev pub is_negative : Number → Bool
is_negative (at_least_zero n) = false
is_negative below_zero = true

-- `1 <= port <= 65535`.
abbrev pub is_port : Number → Bool
is_port (at_least_zero n) = leb 1 n && leb n 65535
is_port below_zero = false

abbrev pub is_decimal : ℕ → Bool
is_decimal c = leb b'0' c && leb c b'9'

-- `[A-Za-z_]` and `[A-Za-z0-9_]`.
abbrev pub begins_identifier : ℕ → Bool
begins_identifier c = (leb b'A' c && leb c b'Z') || (leb b'a' c && leb c b'z') || c == b'_'

abbrev pub continues_identifier : ℕ → Bool
continues_identifier c = begins_identifier c || is_decimal c

-- `re.fullmatch(r"[A-Za-z_][A-Za-z0-9_]*", t)`.
abbrev pub is_identifier : Text → Bool
is_identifier [] = false
is_identifier (c ∷ t) = begins_identifier c && all continues_identifier t

-- `re.fullmatch(r"[1-9][0-9]*(MB|GB)", t)`.
abbrev pub is_memory_limit : Text → Bool
is_memory_limit [] = false
is_memory_limit (c ∷ t) =
    is_decimal c
    && not (c == b'0')
    && is_in (drop_while is_decimal t) (codes "MB" ∷ codes "GB" ∷ [])

abbrev pub or_default : Text → Option Text → Text
or_default t none = t
or_default t (some u) = u

abbrev pub number_or : Text → Option Number → Result SettingsError Number
number_or name none = raise (not_a_number name)
number_or name (some n) = ok n

abbrev pub float_or : Text → Option Text → Result SettingsError Text
float_or name none = raise (not_a_number name)
float_or name (some t) = ok t

module _ (env : Environment) where
  abbrev pub text_setting : Text → Text → Text
  text_setting name default = or_default default (env.getenv name)

  abbrev pub int_setting : Text → Text → Result SettingsError Number
  int_setting name default = number_or name (env.int_of (text_setting name default))

  abbrev pub float_setting : Text → Text → Result SettingsError Text
  float_setting name default = float_or name (env.float_of (text_setting name default))

  -- `_flag`, whose default is `False`.
  abbrev pub flag : Text → Bool
  flag name =
      is_in (to_lower env.chars (text_setting name (codes "False")))
        (codes "1" ∷ codes "true" ∷ codes "yes" ∷ codes "on" ∷ [])

  abbrev pub is_timeout : Text → Bool
  is_timeout t = env.is_finite t && env.is_positive_float t

  -- The defaults of the dataclass.
  unfoldable pub from_environment : Result SettingsError Settings
  from_environment = do
    trino_port ← int_setting (codes "TRINO_PORT") (codes "8080")
    trino_request_timeout ← float_setting (codes "TRINO_REQUEST_TIMEOUT") (codes "3")
    query_row_limit ← int_setting (codes "ULPF_QUERY_ROW_LIMIT") (codes "1000")
    insert_batch_size ← int_setting (codes "ULPF_INSERT_BATCH_SIZE") (codes "500")
    trino_max_query_bytes ← int_setting (codes "ULPF_TRINO_MAX_QUERY_BYTES") (codes "850000")
    iceberg_commit_retries ← int_setting (codes "ULPF_ICEBERG_COMMIT_RETRIES") (codes "6")
    max_upload_bytes ← int_setting (codes "ULPF_MAX_UPLOAD_BYTES") (codes "26214400")
    duckdb_threads ← int_setting (codes "ULPF_DUCKDB_THREADS") (codes "2")
    duckdb_query_timeout ← float_setting (codes "ULPF_DUCKDB_QUERY_TIMEOUT") (codes "10")
    max_upload_events ← int_setting (codes "ULPF_MAX_UPLOAD_EVENTS") (codes "50000")
    ok (record {
      trino_host = text_setting (codes "TRINO_HOST") (codes "trino");
      trino_port = trino_port;
      trino_user = text_setting (codes "TRINO_USER") (codes "ulpf");
      trino_read_user = text_setting (codes "TRINO_READ_USER") (codes "ulpf_reader");
      trino_dashboard_user = text_setting (codes "TRINO_DASHBOARD_USER") (codes "ulpf_dashboard");
      trino_catalog = text_setting (codes "TRINO_CATALOG") (codes "iceberg");
      trino_schema = text_setting (codes "TRINO_SCHEMA") (codes "logging");
      trino_table = text_setting (codes "TRINO_TABLE") (codes "application_logs");
      trino_request_timeout = trino_request_timeout;
      trino_http_scheme = text_setting (codes "TRINO_HTTP_SCHEME") (codes "http");
      trino_password = text_setting (codes "TRINO_PASSWORD") [];
      minio_endpoint = text_setting (codes "MINIO_ENDPOINT") (codes "minio:9000");
      minio_access_key = text_setting (codes "MINIO_ACCESS_KEY") (codes "minioadmin");
      minio_secret_key = text_setting (codes "MINIO_SECRET_KEY") (codes "minioadmin");
      minio_bucket = text_setting (codes "MINIO_BUCKET") (codes "lakehouse-warehouse");
      allow_mutating_sql = flag (codes "ULPF_ALLOW_MUTATING_SQL");
      query_row_limit = query_row_limit;
      insert_batch_size = insert_batch_size;
      trino_max_query_bytes = trino_max_query_bytes;
      iceberg_commit_retries = iceberg_commit_retries;
      max_upload_bytes = max_upload_bytes;
      backend = text_setting (codes "ULPF_BACKEND") (codes "trino");
      homelab_directory = text_setting (codes "ULPF_HOMELAB_DIRECTORY") env.default_directory;
      duckdb_memory_limit = text_setting (codes "ULPF_DUCKDB_MEMORY_LIMIT") (codes "256MB");
      duckdb_threads = duckdb_threads;
      duckdb_query_timeout = duckdb_query_timeout;
      max_upload_events = max_upload_events;
    })

  -- The checks of `__post_init__` for DuckDB.
  abbrev pub check_duckdb : Settings → Result SettingsError (Unit {0})
  check_duckdb s = do
    raise_if (is_nil (strip env.chars s.homelab_directory)) empty_directory
    raise_if (not (is_memory_limit s.duckdb_memory_limit)) bad_memory_limit
    raise_if (not (is_positive s.duckdb_threads)) (not_positive (codes "duckdb_threads"))
    raise_if (not (is_timeout s.duckdb_query_timeout)) (bad_timeout (codes "duckdb_query_timeout"))

  abbrev pub check_backend : Settings → Result SettingsError (Unit {0})
  check_backend s =
      let duckdb = check_duckdb s in if text_eq s.backend (codes "duckdb") then duckdb else ok tt

  unfoldable pub check : Settings → Result SettingsError (Unit {0})
  check s = do
    raise_if (not (is_in s.backend (codes "trino" ∷ codes "duckdb" ∷ []))) unknown_backend
    check_backend s
    raise_if (not (is_positive s.query_row_limit)) (not_positive (codes "query_row_limit"))
    raise_if (not (is_positive s.insert_batch_size)) (not_positive (codes "insert_batch_size"))
    raise_if (not (is_positive s.trino_max_query_bytes))
        (not_positive (codes "trino_max_query_bytes"))
    raise_if (not (is_positive s.max_upload_bytes)) (not_positive (codes "max_upload_bytes"))
    raise_if (not (is_positive s.max_upload_events)) (not_positive (codes "max_upload_events"))
    raise_if (is_negative s.iceberg_commit_retries) negative_retries
    raise_if (not (is_timeout s.trino_request_timeout))
        (bad_timeout (codes "trino_request_timeout"))
    raise_if (not (is_port s.trino_port)) bad_port
    raise_if (not (is_in s.trino_http_scheme (codes "http" ∷ codes "https" ∷ []))) bad_scheme
    raise_if (not (is_identifier s.trino_catalog)) (bad_identifier (codes "trino_catalog"))
    raise_if (not (is_identifier s.trino_schema)) (bad_identifier (codes "trino_schema"))
    raise_if (not (is_identifier s.trino_table)) (bad_identifier (codes "trino_table"))

  -- `Settings()`.
  unfoldable pub load_settings : Result SettingsError Settings
  unfolding from_environment check
  load_settings = do s ← from_environment; check s; ok s

unfoldable pub qualified_table : Settings → Text
qualified_table s =
    s.trino_catalog ++ (codes "." ++ (s.trino_schema ++ (codes "." ++ s.trino_table)))
