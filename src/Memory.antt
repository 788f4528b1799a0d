-- ===== src/Memory.antt =====
-- Places, and the inference of ownership contracts (crates/ontixa-memory).
pub mod Place
pub mod Facts
pub mod Order
pub mod Monotone
pub mod Arguments
pub mod Walk
pub mod Contracts
pub mod Locality
pub mod Derive
pub mod Worklist
pub mod Least
pub mod Rounds
pub mod Fixpoint
pub mod Enforce
pub mod Infer
pub mod Accepted
