-- ===== src/Sql.antt =====
-- src/sql: the lexer of SQL.
pub mod Token
pub mod Lexer
mod Tests
