-- ===== src/Detection.antt =====
-- ulpf/detection: settings, events, the sliding-window rules and their proofs.
pub mod Settings
pub mod Events
pub mod Counter
pub mod Order
pub mod Emit
pub mod Rules
pub mod Sorted
pub mod Window
pub mod Keys
pub mod Specification
pub mod Refinement
pub mod Judged
pub mod Alerts
pub mod Findings
pub mod Worker
pub mod Scanned
mod Tests
