-- ===== src/Types.antt =====
-- Semantic types (crates/ontixa-types).
pub mod Check
pub mod Scope
pub mod Ty
pub mod Compatible
pub mod Lowered
pub mod Typing
