-- ===== src/Ocsf.antt =====
-- ulpf/ocsf.py and the OCSF records of ulpf/models.py.
pub mod Context
pub mod Record
pub mod Moved
pub mod Shape
pub mod Actor
mod Tests
