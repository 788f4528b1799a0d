-- ===== src/Source.antt =====
-- Interned texts and spans (crates/ontixa-source).
pub mod Columns
pub mod File
pub mod Interner
pub mod Lines
pub mod Position
pub mod Span
