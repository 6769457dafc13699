-- ===== src/Streaming/Delivered.antt =====
-- `parse_record` of ulpf/streaming/records.py never finds an empty list of events.
use ocsf_forge.Text.{Text}
