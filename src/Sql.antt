-- ===== src/Sql.antt =====
-- services/sql_guard.py and the console checks of services/trino.py and services/duckdb_backend.py.
pub mod Scrub
pub mod Clean
pub mod Tokens
pub mod Console
pub mod ReadOnly
mod Tests
