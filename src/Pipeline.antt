-- ===== src/Pipeline.antt =====
-- ulpf/pipeline.py: lines become events.
pub mod LogicalEvents
pub mod Grouped
pub mod Budget
pub mod Run
pub mod Delivery
pub mod Samples
mod Tests
