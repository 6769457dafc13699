-- ===== src/Lib.antt =====
-- A verification library of OCSF Forge: ulpf turns log lines into OCSF events, stores them and looks for
-- attacks in them. The modules follow the program's parts.
--
-- Prelude, Text, Json: shared lists, tests and results; `str` as a list of code points; JSON values.
-- Models (ulpf/models.py): NormalizedEvent and the tables of identifiers.
-- Parsing (ulpf/parsing/base.py, limits.py, registry.py; ulpf/parsers.py): `unescape_cef` and
--   `split_escaped`, the budget `check_event_limit`, and `ParserRegistry.parse`, which chooses among
--   parsers of the interface LogParser and turns the errors of four classes into notes. Choice says
--   which parser is used and which errors pass, RoundTrip and Headers what the escapes undo.
--   Authentication and Structured (ulpf/parsing/authentication.py, structured.py):
--   `authentication_action` and `structured_record`; Documents has the parsers of JSON, CSV rows and
--   XML, whose decoders are a parameter; Extensions, Security and Leef (ulpf/parsing/security.py) have
--   `parse_extensions` and the parsers of CEF and LEEF, and Cef what the parser of CEF undoes.
-- Config (ulpf/config.py): `load_settings` reads the environment and checks the settings.
-- Normalizer (ulpf/normalizer.py): `normalize` makes an event of a parser's record; Fields has
--   `_port`, `_ip` and `_timestamp`, Accepted and Bounds the theorems.
-- Pipeline (ulpf/pipeline.py): `_logical_events` groups lines into events and `EventProcessor.run`
--   sends each through the registry and the normalizer.
-- Sql (ulpf/services/sql_guard.py, trino.py, duckdb_backend.py): `scrub_sql`, and the checks before a
--   console statement is run: `check_query` for TrinoService.query, `check_read` for
--   DuckDBBackend._read.
-- Ocsf (ulpf/ocsf.py, models.py): `to_ocsf_dict` in Record, with `project_class` and `retain_context` in
--   Context.
-- Storage (ulpf/services/trino.py): `_merge_batches` with the batches that it merges as its value, and
--   the preflight `_assert_events_fit`; `_execute_write_on_connection` with its delays, in Commits; the
--   rows of an event in Values and Prepare; `ingest_events` in Ingest over the interface Warehouse, whose
--   laws are those of MERGE, UPDATE and SELECT count(*), and which Memory fills.
-- Streaming (ulpf/streaming/records.py, retry.py, worker.py): `parse_record`, the retries, and the loop
--   of `main`. A Turn is what the loop meets in one turn: the polled records, the rounds of
--   `ingest_with_retry` and the broker's answer; `work` runs any list of turns.
-- Detection (ulpf/detection/config.py, models.py, rules.py): `evaluate`, its loop over sliding windows
--   in Rules, its findings in Emit, and a specification without windows in Specification; Judged has
--   which events the loop goes through, Alerts and Findings what stands behind a finding. Worker has
--   `run_once` of detection/worker.py, with `read_authentication` and `write_findings` of store.py, over
--   a store that selects and merges.
--
-- Numbers are natural. Texts are lists of code points. A timestamp of the rules is a number of
-- microseconds, a confidence a number of hundredths. Every loop is a structural recursion over its
-- list, or over the retries that are left, so no fuel is used; the rounds of `ingest_with_retry`
-- are a list of what happens in them, and the loop still runs where the list ends. A call that may
-- raise has a Result; a loop that raises after it acted returns what it did with the error.
--
-- What the sources call and do not define is a parameter: the Unicode tables (CharClass), hashes,
-- datetimes, IP addresses and numbers of the interpreter (Normalizer.Fields.Library), the parsers
-- (LogParser), the decoders of documents (Parsing.Documents.Decoders), the environment
-- (Config.Environment), the tables of Trino with the laws of its statements
-- (Storage.Warehouse.IsWarehouse), `json.dumps` and the datetimes of rows (Storage.Values.Encoders), a
-- store of findings (Detection.Worker.Store), the statements of DuckDB. A parser's dict is the record
-- Parsed, whose class and activity numbers are natural; a missing key is its default or none. A source id has no lone surrogate,
-- for which the `.encode()` of its hash raises.
--
-- Not modelled: the regular expressions of the text parsers, the decoding of whole documents, the
-- connections to Trino, DuckDB, Kafka and MinIO with their transactions, the command line, the user
-- interface, and SQL text.
pub mod Config
pub mod Detection
pub mod Json
pub mod Models
pub mod Normalizer
pub mod Ocsf
pub mod Parsing
pub mod Pipeline
pub mod Prelude
pub mod Sql
pub mod Storage
pub mod Streaming
pub mod Text
