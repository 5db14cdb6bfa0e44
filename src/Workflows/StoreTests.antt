-- ===== src/Workflows/StoreTests.antt =====
-- The theorems on the store and the executor of workflows/ at concrete inputs.
use sakumock.Workflows.Store.Records.{
  WorkflowRecord, RevisionRecord, ExecutionRecord, ExecutionInput,
}
use sakumock.Workflows.Store.{
  MemoryStore, new_memory_store, listed, is_active, create_workflow, update_revision_alias,
  set_alias,
}
use sakumock.Workflows.Store.Executions.{
  get_execution, create_execution, target_revision, new_execution,
}
use sakumock.Workflows.Store.Requests.{Request, serve, serve_all}
use sakumock.Workflows.Store.WellFormed.{IsWellFormed, listed-put_self}
use sakumock.Workflows.Store.Preservation.{serve_all-IsWellFormed}
use sakumock.Workflows.Store.Active.{spares, serve_all-active}
use sakumock.Workflows.Store.Presence.{has_workflow, create_execution-has_workflow}
use sakumock.Workflows.Store.Aliases.{moved_alias-runs}
use sakumock.Workflows.Executor.{returned, start_call, finish_call}
use sakumock.Workflows.Executor.Outcomes.{
  canceled_runs, create_execution-queued, recorded, run-recorded,
}
use sakumock.Core.IdGenerator
use sakumock.Core.IdGenerator.{IdGenerator}
use sakumock.Dict
use sakumock.Dict.{get-put_self, get-empty}
use sakumock.Prelude.{
  ◌≡◌, refl, String, List, [], ◌∷◌, ◌++◌, true, false, none, some, ok, pos, string_eq, eq_refl,
}

abbrev generator : IdGenerator
generator = record { next = pos 100; reserved = Dict.empty }

abbrev workflow_call : Request
workflow_call = Request.create_workflow 5 "nightly" "" "steps: []" true false [] "" "" "v1"

-- The ID that the workflow gets
abbrev nightly : String
nightly = (IdGenerator.next_id generator).1

abbrev calls : List Request
calls =
    workflow_call
    ∷ Request.create_revision 6 nightly "steps: []" ""
    ∷ Request.delete_workflow "7"
    ∷ []

serve_all-IsWellFormed_example : IsWellFormed (serve_all (new_memory_store generator) calls)
serve_all-IsWellFormed_example = serve_all-IsWellFormed generator calls

abbrev started : MemoryStore
started = serve (new_memory_store generator) workflow_call

abbrev nightly_workflow : WorkflowRecord
nightly_workflow = record {
  id = nightly;
  name = "nightly";
  description = "";
  publish = true;
  logging = false;
  tags = [];
  service_principal_id = "";
  concurrency_mode = "parallel";
  created_at = 5;
  updated_at = 5;
}

started_workflow : Dict.get started.workflows nightly ≡ some nightly_workflow
unfolding serve create_workflow new_memory_store
started_workflow = get-put_self (new_memory_store generator).workflows nightly nightly_workflow

abbrev first_revision : RevisionRecord
first_revision = record {
  revision_id = 1;
  workflow_id = nightly;
  revision_alias = "v1";
  runbook = "steps: []";
  created_at = 5;
  updated_at = 5;
}

started_revisions : listed started.revisions nightly ≡ first_revision ∷ []
unfolding serve create_workflow new_memory_store
started_revisions =
    listed-put_self (new_memory_store generator).revisions nightly (first_revision ∷ [])

abbrev by_alias : String → ExecutionInput
by_alias alias = record {
  revision_id = none;
  revision_alias = alias;
  args = "";
  name = "";
  initial_status = "Queued";
}

-- The alias of the first revision becomes "live".
moved :
    (update_revision_alias started 9 nightly 1 "live").1
    ≡ ok (record first_revision { revision_alias = "live"; updated_at = 9 })
unfolding update_revision_alias set_alias
moved = rw (update_revision_alias, set_alias, started_workflow, started_revisions) refl

moved_alias-runs_example :
    (e : ExecutionRecord) × ((create_execution
        (update_revision_alias
          (serve_all (new_memory_store generator) (workflow_call ∷ []))
          9
          nightly
          1
          "live").0
        10
        "a-b"
        nightly
        (by_alias "live")).1
      ≡ ok e)
    × (e.revision ≡ 1)
    × (e.revision_alias ≡ "live")
unfolding serve_all
moved_alias-runs_example =
    moved_alias-runs generator (workflow_call ∷ []) 9 10 "a-b" nightly "live" (by_alias "live")
      nightly_workflow 1 (record first_revision { revision_alias = "live"; updated_at = 9 })
      started_workflow refl refl moved refl refl

abbrev execution : ExecutionRecord
execution = record {
  execution_id = "a-b";
  name = "nightly";
  workflow_id = nightly;
  status = "Queued";
  revision = 1;
  revision_alias = "v1";
  args = "null";
  step_count = 0;
  result = "null";
  error = "null";
  created_at = 10;
  updated_at = 10;
  run_at = none;
  failed_at = none;
  succeeded_at = none;
  cancel_requested_at = none;
  canceled_at = none;
}

created : (create_execution started 10 "a-b" nightly (by_alias "v1")).1 ≡ ok execution
unfolding create_execution target_revision new_execution
created = rw (create_execution, started_workflow, started_revisions) refl

no_executions : get_execution started nightly "a-b" ≡ none
unfolding serve create_workflow get_execution listed new_memory_store
no_executions = rw (listed, get-empty {K = String} {V = List ExecutionRecord} nightly) refl

-- The workflow is not deleted meanwhile, and another execution is canceled.
run-recorded_example :
    get_execution
      (serve_all (create_execution started 10 "a-b" nightly (by_alias "v1")).0 (
        (Request.delete_workflow nightly ∷ [])
        ++ start_call 11 12 nightly "a-b"
          ∷ ((Request.cancel_execution 13 nightly "c-d" ∷ [])
              ++ finish_call 14 15 nightly "a-b" (returned (some "3")) ∷ [])))
      nightly
      "a-b"
    ≡ some (recorded 11 14 15 (returned (some "3")) execution)
unfolding spares
run-recorded_example =
    run-recorded 10 11 12 14 15 "a-b" nightly (by_alias "v1") (returned (some "3"))
      (Request.delete_workflow nightly ∷ []) (Request.cancel_execution 13 nightly "c-d" ∷ [])
      started execution refl no_executions created (refl, tt) (rw (eq_refl nightly) refl, tt) refl

abbrev queued : MemoryStore
queued = (create_execution started 10 "a-b" nightly (by_alias "v1")).0

queued-execution :
    (get_execution queued nightly "a-b" ≡ some execution) × (is_active execution ≡ true)
queued-execution =
    create_execution-queued started 10 "a-b" nightly (by_alias "v1") execution refl no_executions
      created

started-has_workflow : has_workflow started nightly ≡ true
unfolding has_workflow
started-has_workflow = rw started_workflow refl

queued-has_workflow : has_workflow queued nightly ≡ true
queued-has_workflow =
    create_execution-has_workflow started nightly 10 "a-b" nightly (by_alias "v1")
      started-has_workflow

abbrev deletions : List Request
deletions = Request.delete_execution nightly "a-b" ∷ Request.delete_workflow nightly ∷ []

serve_all-active_example :
    (get_execution (serve_all queued deletions) nightly "a-b" ≡ some execution)
    × (has_workflow (serve_all queued deletions) nightly ≡ true)
unfolding spares has_workflow
serve_all-active_example =
    serve_all-active deletions queued nightly "a-b" execution queued-has_workflow queued-execution.0
      queued-execution.1 (refl, (refl, tt))

canceled_runs_example :
    get_execution
      (serve_all queued
        (Request.cancel_execution 11 nightly "a-b" ∷ start_call 12 13 nightly "a-b" ∷ []))
      nightly
      "a-b"
    ≡ some (record execution {
      status = "Running";
      run_at = some 12;
      updated_at = 13;
      cancel_requested_at = some 11;
      canceled_at = some 11;
    })
canceled_runs_example =
    canceled_runs queued 11 12 13 nightly "a-b" execution queued-execution.0 refl
