-- ===== src/Streaming.antt =====
-- ulpf/streaming: records of Kafka become events, and offsets are committed.
pub mod Records
pub mod Delivered
pub mod Retry
pub mod Worker
pub mod Committed
mod Tests
