-- ===== src/Sql.antt =====
-- The SQL front end of queryx/sql.
pub mod Tokens
pub mod Ast
pub mod Lexer
pub mod Parser
