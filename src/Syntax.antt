-- ===== src/Syntax.antt =====
-- The lexer and the syntax kinds (crates/ontixa-syntax).
pub mod Kinds
pub mod Lexer
pub mod Utf8
pub mod Scan
pub mod Quoted
pub mod Describe
pub mod Dispatch
pub mod Tiling
pub mod Raw
