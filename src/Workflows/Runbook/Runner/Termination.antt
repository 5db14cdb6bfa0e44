-- ===== src/Workflows/Runbook/Runner/Termination.antt =====
-- The end of the runs of workflows/runbook/runner.go, where the context ends.
use sakumock.Workflows.Expr.Syntax.{Value}
