-- ===== src/Parsing.antt =====
-- ulpf/parsing: escapes, budgets and the parser registry.
pub mod Escapes
pub mod RoundTrip
pub mod Headers
pub mod Limits
pub mod Parsed
pub mod Registry
pub mod Choice
pub mod Authentication
pub mod Structured
pub mod Agreed
pub mod Mapped
pub mod Documents
pub mod Extensions
pub mod Security
pub mod Cef
pub mod Leef
mod Tests
