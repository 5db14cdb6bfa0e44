-- ===== src/Workflows.antt =====
-- The service of workflows/: the expressions of its runbooks.
pub mod Expr
pub mod Store
pub mod Executor
pub mod Runbook
pub mod Tests
pub mod EvalTests
pub mod StoreTests
pub mod RunbookTests
pub mod FunctionTests
