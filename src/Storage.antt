-- ===== src/Storage.antt =====
-- ulpf/services/trino.py: batches, retries and the ingestion of events.
pub mod Columns
pub mod Batches
pub mod Partition
pub mod Preflight
pub mod Commits
pub mod Actions
pub mod Values
pub mod Warehouse
pub mod Prepare
pub mod Ingest
pub mod Ids
pub mod Grown
pub mod Named
pub mod Unique
pub mod Stored
pub mod Ingested
pub mod Answered
pub mod Settled
pub mod Replayed
pub mod Memory
mod Tests
