-- ===== src/Interp.antt =====
-- The reference interpreter (crates/ontixa-interpreter).
pub mod Value
pub mod Arith
pub mod Exec
pub mod Outcomes
pub mod Oracle
pub mod Lent
