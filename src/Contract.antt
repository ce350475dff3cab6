-- ===== src/Contract.antt =====
-- The token contracts: contract/parser and contract/exec.
pub mod Script
pub mod Operate
pub mod Lexer
pub mod Grammar
pub mod Exec
