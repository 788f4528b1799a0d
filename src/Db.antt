-- ===== src/Db.antt =====
-- The incremental query engine (crates/ontixa-db).
pub mod Query
pub mod Task
pub mod Front
pub mod Rules
pub mod Discover
pub mod Engine
pub mod Spec
pub mod Insert
pub mod Moves
pub mod Sound
pub mod Contract
pub mod Total
pub mod Edits
pub mod FromScratch
pub mod Edited
pub mod Repeat
