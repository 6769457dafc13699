-- ===== src/Storage/Columns.antt =====
-- The tables of ulpf/services/trino.py and the columns of their rows.
use ocsf_forge.Prelude.{List, [], ◌∷◌, ◌++◌}
use ocsf_forge.Text.{Text, codes}

-- `", ".join(columns)`.
abbrev pub join_columns : List Text → Text
join_columns [] = []
join_columns (c ∷ []) = c
join_columns (c ∷ d ∷ cs) = c ++ (codes ", " ++ join_columns (d ∷ cs))

abbrev pub raw_table : Text
raw_table = codes "iceberg.logging.raw_events"

abbrev pub quarantine_table : Text
quarantine_table = codes "iceberg.logging.quarantine_events"

abbrev pub raw_columns : List Text
raw_columns =
    codes "event_id"
    ∷ codes "ingestion_run_id"
    ∷ codes "source_id"
    ∷ codes "source_name"
    ∷ codes "source_type"
    ∷ codes "source_offset"
    ∷ codes "observed_at"
    ∷ codes "raw_payload"
    ∷ codes "raw_payload_hash"
    ∷ codes "parser_name"
    ∷ codes "parser_version"
    ∷ codes "detection_confidence"
    ∷ codes "parse_success"
    ∷ []

abbrev pub normalized_columns : List Text
normalized_columns =
    codes "event_id"
    ∷ codes "ingestion_run_id"
    ∷ codes "event_timestamp"
    ∷ codes "observed_at"
    ∷ codes "ingested_at"
    ∷ codes "original_timestamp"
    ∷ codes "timezone_offset"
    ∷ codes "time_source"
    ∷ codes "service_name"
    ∷ codes "log_level"
    ∷ codes "message"
    ∷ codes "user_id"
    ∷ codes "ip_address"
    ∷ codes "src_port"
    ∷ codes "dst_ip_address"
    ∷ codes "dst_port"
    ∷ codes "source_format"
    ∷ codes "source_id"
    ∷ codes "source_name"
    ∷ codes "source_offset"
    ∷ codes "parser_name"
    ∷ codes "parser_version"
    ∷ codes "ocsf_version"
    ∷ codes "category"
    ∷ codes "category_uid"
    ∷ codes "class_name"
    ∷ codes "class_uid"
    ∷ codes "activity_name"
    ∷ codes "activity_id"
    ∷ codes "type_uid"
    ∷ codes "severity_id"
    ∷ codes "action"
    ∷ codes "disposition"
    ∷ codes "status"
    ∷ codes "status_id"
    ∷ codes "hostname"
    ∷ codes "device_vendor"
    ∷ codes "raw_payload_hash"
    ∷ codes "metadata_json"
    ∷ codes "ocsf_json"
    ∷ []

abbrev pub quarantine_columns : List Text
quarantine_columns =
    codes "event_id"
    ∷ codes "ingestion_run_id"
    ∷ codes "source_id"
    ∷ codes "source_name"
    ∷ codes "source_type"
    ∷ codes "source_offset"
    ∷ codes "observed_at"
    ∷ codes "original_timestamp"
    ∷ codes "parser_name"
    ∷ codes "parser_version"
    ∷ codes "error_code"
    ∷ codes "error_message"
    ∷ codes "raw_payload"
    ∷ codes "raw_payload_hash"
    ∷ codes "metadata_json"
    ∷ []
