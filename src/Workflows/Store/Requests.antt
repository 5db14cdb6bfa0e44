-- ===== src/Workflows/Store/Requests.antt =====
-- The calls of MemoryStore in workflows/store_memory.go that change it, with the time and the UUIDs
-- that they draw.
use sakumock.Workflows.Store.Records.{
  Time, WorkflowUpdates, ExecutionStatusUpdate, ExecutionInput, HistoryRecord,
}
use sakumock.Workflows.Store
use sakumock.Workflows.Store.{MemoryStore}
use sakumock.Workflows.Store.Executions
use sakumock.Prelude.{ℕ, String, List, [], ◌∷◌, Bool}

pub data Request : Type 0 where
  create_workflow :
      Time
      → String
      → String
      → String
      → Bool
      → Bool
      → List String
      → String
      → String
      → String
      → Request
  update_workflow : Time → String → WorkflowUpdates → Request
  delete_workflow : String → Request
  create_revision : Time → String → String → String → Request
  update_revision_alias : Time → String → ℕ → String → Request
  delete_revision_alias : Time → String → ℕ → Request
  create_execution : Time → String → String → ExecutionInput → Request
  update_execution_status : Time → String → String → ExecutionStatusUpdate → Request
  cancel_execution : Time → String → String → Request
  delete_execution : String → String → Request
  append_history : String → HistoryRecord → Request
  create_subscription : Time → String → String → ℕ → Request
  delete_subscription : Request

unfoldable pub serve : MemoryStore → Request → MemoryStore
serve s
      (Request.create_workflow now name description runbook publish logging tags principal mode
        alias) =
    (Store.create_workflow s now name description runbook publish logging tags principal mode
      alias).0
serve s (Request.update_workflow now id updates) = (Store.update_workflow s now id updates).0
serve s (Request.delete_workflow id) = (Store.delete_workflow s id).0
serve s (Request.create_revision now id runbook alias) =
    (Store.create_revision s now id runbook alias).0
serve s (Request.update_revision_alias now id n alias) =
    (Store.update_revision_alias s now id n alias).0
serve s (Request.delete_revision_alias now id n) = (Store.delete_revision_alias s now id n).0
serve s (Request.create_execution now uuid id input) =
    (Executions.create_execution s now uuid id input).0
serve s (Request.update_execution_status now id exec update) =
    (Executions.update_execution_status s now id exec update).0
serve s (Request.cancel_execution now id exec) = (Executions.cancel_execution s now id exec).0
serve s (Request.delete_execution id exec) = (Executions.delete_execution s id exec).0
serve s (Request.append_history exec entry) = Executions.append_history s exec entry
serve s (Request.create_subscription now id contract plan) =
    (Executions.create_subscription s now id contract plan).0
serve s Request.delete_subscription = (Executions.delete_subscription s).0

unfoldable pub serve_all : MemoryStore → List Request → MemoryStore
serve_all s [] = s
serve_all s (r ∷ requests) = serve_all (serve s r) requests
