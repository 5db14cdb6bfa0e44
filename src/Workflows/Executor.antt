-- ===== src/Workflows/Executor.antt =====
-- The goroutine that submit of workflows/executor.go starts for an execution, as the calls of the store
-- that it makes; the calls of other goroutines come between them. How the runner ends is a parameter.
pub mod Outcomes
use sakumock.Workflows.Store.Records.{Time, HistoryRecord, ExecutionStatusUpdate}
use sakumock.Workflows.Store.Requests.{Request}
use sakumock.Prelude.{String, Bool, true, false, Option, none, some, str_eq, if◌then◌else◌}

-- The Result of the runner: an error, and whether the context of the execution has ended, or a value,
-- as JSON where json.Marshal can write it
pub data RunResult : Type 0 where
  failed : String → Bool → RunResult
  returned : Option String → RunResult

-- The update before the run
unfoldable pub running_update : Time → ExecutionStatusUpdate
running_update now = record {
  status = "Running";
  result = "";
  error = "";
  run_at = some now;
  succeeded_at = none;
  failed_at = none;
}

marshaled : Option String → String
marshaled none = "null"
marshaled (some json) = json

-- The update after the run
unfoldable pub finished_update : Time → RunResult → ExecutionStatusUpdate
unfolding marshaled
finished_update finished (failed error ended) = record {
  status = if ended then "Canceled" else "Failed";
  result = "";
  error = error;
  run_at = none;
  succeeded_at = none;
  failed_at = if ended then none else some finished;
}
finished_update finished (returned json) = record {
  status = "Succeeded";
  result = marshaled json;
  error = "";
  run_at = none;
  succeeded_at = some finished;
  failed_at = none;
}

-- An Event of the runner
pub record Event : Type 0 where
  pub typ : String
  pub step_name : String
  pub meta : String
  pub variables : String

or_default : String → String → String
or_default default s = if str_eq s "" then default else s

-- OnEvent of newRunner
unfoldable pub on_event : Time → String → Event → Request
unfolding or_default
on_event now exec ev = Request.append_history exec (record {
  workflow_execution_id = exec;
  job_id = exec;
  thread_id = "main";
  typ = ev.typ;
  created_at = now;
  meta = or_default "{}" ev.meta;
  stack_trace = or_default "-" ev.step_name;
  variables = or_default "{}" ev.variables;
})

-- The calls around the run; the store reads the time again for UpdatedAt.
unfoldable pub start_call : Time → Time → String → String → Request
start_call now later id exec = Request.update_execution_status later id exec (running_update now)

unfoldable pub finish_call : Time → Time → String → String → RunResult → Request
finish_call finished later id exec result =
    Request.update_execution_status later id exec (finished_update finished result)
