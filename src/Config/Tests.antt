-- ===== src/Config/Tests.antt =====
-- Settings from an environment in which nothing is set but the backend.
use ocsf_forge.Prelude.{◌≡◌, refl, true, false, none, some, length, ok, if◌then◌else◌}
use ocsf_forge.Text.{ascii, codes, text_eq}
use ocsf_forge.Normalizer.Fields.{at_least_zero}
use ocsf_forge.Config.{
  Settings, Environment, from_environment, check, load_settings, qualified_table,
}
use ocsf_forge.Config.Valid.{IsValid, IsNamed, load_settings-IsValid, qualified_table-IsNamed}

abbrev environment : Environment
environment = record {
  chars = ascii;
  getenv = λ name. if text_eq name (codes "ULPF_BACKEND") then some (codes "duckdb") else none;
  default_directory = codes "/data";
  int_of = λ t. some (at_least_zero (length t));
  float_of = λ t. some t;
  is_finite = λ t. true;
  is_positive_float = λ t. true;
}

abbrev loaded : Settings
loaded = record {
  trino_host = codes "trino";
  trino_port = at_least_zero 4;
  trino_user = codes "ulpf";
  trino_read_user = codes "ulpf_reader";
  trino_dashboard_user = codes "ulpf_dashboard";
  trino_catalog = codes "iceberg";
  trino_schema = codes "logging";
  trino_table = codes "application_logs";
  trino_request_timeout = codes "3";
  trino_http_scheme = codes "http";
  trino_password = codes "";
  minio_endpoint = codes "minio:9000";
  minio_access_key = codes "minioadmin";
  minio_secret_key = codes "minioadmin";
  minio_bucket = codes "lakehouse-warehouse";
  allow_mutating_sql = false;
  query_row_limit = at_least_zero 4;
  insert_batch_size = at_least_zero 3;
  trino_max_query_bytes = at_least_zero 6;
  iceberg_commit_retries = at_least_zero 1;
  max_upload_bytes = at_least_zero 8;
  backend = codes "duckdb";
  homelab_directory = codes "/data";
  duckdb_memory_limit = codes "256MB";
  duckdb_threads = at_least_zero 1;
  duckdb_query_timeout = codes "10";
  max_upload_events = at_least_zero 5;
}

loads : load_settings environment ≡ ok loaded
unfolding load_settings from_environment check
loads = refl

load_settings-IsValid_example : IsValid environment loaded
load_settings-IsValid_example = load_settings-IsValid environment loaded loads

qualified_table-IsNamed_example : IsNamed environment (qualified_table loaded)
qualified_table-IsNamed_example = qualified_table-IsNamed environment loaded loads
