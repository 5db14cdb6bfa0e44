-- ===== src/Workflows/Expr.antt =====
-- The package workflows/expr: values, tokens, the syntax tree, and the lexer and the parser.
pub mod Syntax
pub mod Lexer
pub mod Grammar
pub mod Parser
pub mod Printer
pub mod Value
pub mod Eval
pub mod Interpolation
pub mod Functions
