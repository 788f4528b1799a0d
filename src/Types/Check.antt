-- ===== src/Types/Check.antt =====
-- The type checker: crates/ontixa-types/src/check.rs.
pub mod Access
pub mod Accesses
pub mod Arms
pub mod Body
pub mod Complete
pub mod Distinct
pub mod Coverage
pub mod Forms
pub mod Joins
pub mod Operators
pub mod Patterns
pub mod Proper
pub mod Result
pub mod Rules
pub mod Safe
pub mod Sound
pub mod State
pub mod Steps
pub mod Walk
