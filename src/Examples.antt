-- ===== src/Examples.antt =====
-- Tests of the models, and the theorems at concrete inputs.
mod Database
mod Text
mod Machine
mod Names
mod Places
pub mod Ownership
mod Transactions
mod Typing
mod Lines
