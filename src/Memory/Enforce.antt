-- ===== src/Memory/Enforce.antt =====
-- The enforcement walk.
pub mod State
pub mod Walk
pub mod Paths
pub mod Sound
pub mod Uses
pub mod Joins
pub mod Arms
pub mod Safety
