-- ===== src/Transactions.antt =====
-- Source transactions: crates/ontixa-db/src/patch.rs and crates/ontixa-db/src/rename.rs.
pub mod Candidate
pub mod Replaced
pub mod Shadow
pub mod Splice
pub mod Boundary
pub mod Weave
pub mod Apply
pub mod Atomic
