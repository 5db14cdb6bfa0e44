-- ===== src/Workflows/Store/Executions.antt =====
-- The executions, their histories and the subscription of MemoryStore in workflows/store_memory.go.
use sakumock.Workflows.Store.Records.{
  Time, WorkflowRecord, RevisionRecord, ExecutionRecord, SubscriptionRecord, HistoryRecord,
  ExecutionStatusUpdate, ExecutionInput, PlanDef, static_plans, StoreError, workflow_not_found,
  alias_not_found, execution_not_found, revision_not_found, plan_not_found, not_executable,
  no_revisions, not_cancelable, not_deletable,
}
use sakumock.Workflows.Store.{MemoryStore, listed, numbered, aliased, is_active}
use sakumock.Dict
use sakumock.Dict.{Dict}
use sakumock.Prelude.{
  ℕ, String, List, [], ◌∷◌, ◌++◌, Bool, true, false, not, ◌&&◌, Option, none, some, Result, ok, err,
  ◌==◌, str_eq, is_some, find, change_first, remove_first, last, string_eq, if◌then◌else◌,
}

found_or : {A : Type 0} → Option A → StoreError → Result StoreError A
found_or none e = err e
found_or (some a) e = ok a

-- The revision that an execution runs
unfoldable pub target_revision :
    ExecutionInput → List RevisionRecord → Result StoreError RevisionRecord
unfolding found_or
target_revision input revs = elim input.revision_id [
  | some n ↦ found_or (find (numbered n) revs) (revision_not_found n)
  | none ↦
      if str_eq input.revision_alias ""
      then found_or (last revs) no_revisions
      else found_or (find (aliased input.revision_alias) revs)
          (alias_not_found input.revision_alias)
]

-- The record of a new execution
unfoldable pub new_execution :
    Time → String → WorkflowRecord → ExecutionInput → String → RevisionRecord → ExecutionRecord
new_execution now uuid w input workflow_id rev =
    let status = if str_eq input.initial_status "" then "Succeeded" else input.initial_status in
    let done : Option Time = if str_eq status "Succeeded" then some now else none in
    record {
      execution_id = uuid;
      name = if str_eq input.name "" then w.name else input.name;
      workflow_id = workflow_id;
      status = status;
      revision = rev.revision_id;
      revision_alias = rev.revision_alias;
      args = if str_eq input.args "" then "null" else input.args;
      step_count = 0;
      result = "null";
      error = "null";
      created_at = now;
      updated_at = now;
      run_at = done;
      failed_at = none;
      succeeded_at = done;
      cancel_requested_at = none;
      canceled_at = none;
    }

abbrev pub is_empty : {A : Type 0} → List A → Bool
is_empty [] = true
is_empty (x ∷ xs) = false

-- CreateExecution
unfoldable pub create_execution :
    MemoryStore
    → Time
    → String
    → String
    → ExecutionInput
    → MemoryStore × Result StoreError ExecutionRecord
create_execution s now uuid workflow_id input = elim (Dict.get s.workflows workflow_id) [
  | none ↦ (s, err (workflow_not_found workflow_id))
  | some w ↦
      if not w.publish
      then (s, err not_executable)
      else if is_empty (listed s.revisions workflow_id)
      then (s, err no_revisions)
      else elim (target_revision input (listed s.revisions workflow_id)) [
        | err e ↦ (s, err e)
        | ok rev ↦
            let exec = new_execution now uuid w input workflow_id rev in
            (
              record s {
                executions =
                    Dict.put s.executions workflow_id
                      (listed s.executions workflow_id ++ exec ∷ []);
              },
              ok exec,
            )
      ]
]

abbrev pub identified : String → ExecutionRecord → Bool
identified id e = str_eq e.execution_id id

-- GetExecution
unfoldable pub get_execution : MemoryStore → String → String → Option ExecutionRecord
get_execution s workflow_id id = find (identified id) (listed s.executions workflow_id)

-- ListExecutions
unfoldable pub list_executions : MemoryStore → String → List ExecutionRecord
list_executions s workflow_id = listed s.executions workflow_id

-- The change of the execution that a loop over s.executions[workflowID] has found
unfoldable pub change_execution :
    MemoryStore → String → String → (ExecutionRecord → ExecutionRecord) → MemoryStore
change_execution s workflow_id id change = record s {
  executions =
      Dict.put s.executions workflow_id
        (change_first (identified id) change (listed s.executions workflow_id));
}

-- if update.Field != "" { e.Field = update.Field }, and the same of a pointer
abbrev pub text_or_old : String → String → String
text_or_old new old = if str_eq new "" then old else new

abbrev pub time_or_old : Option Time → Option Time → Option Time
time_or_old none old = old
time_or_old (some new) old = some new

unfoldable pub updated : Time → ExecutionStatusUpdate → ExecutionRecord → ExecutionRecord
updated now update e = record e {
  status = text_or_old update.status e.status;
  result = text_or_old update.result e.result;
  error = text_or_old update.error e.error;
  run_at = time_or_old update.run_at e.run_at;
  succeeded_at = time_or_old update.succeeded_at e.succeeded_at;
  failed_at = time_or_old update.failed_at e.failed_at;
  updated_at = now;
}

-- UpdateExecutionStatus
unfoldable pub update_execution_status :
    MemoryStore → Time → String → String → ExecutionStatusUpdate → MemoryStore × Option StoreError
update_execution_status s now workflow_id id update = elim (get_execution s workflow_id id) [
  | none ↦ (s, some (execution_not_found id))
  | some e ↦ (change_execution s workflow_id id (updated now update), none)
]

unfoldable pub canceled : Time → ExecutionRecord → ExecutionRecord
canceled now e = record e {
  status = "Canceled";
  cancel_requested_at = some now;
  canceled_at = some now;
  updated_at = now;
}

-- CancelExecution
unfoldable pub cancel_execution :
    MemoryStore → Time → String → String → MemoryStore × Result StoreError ExecutionRecord
cancel_execution s now workflow_id id = elim (get_execution s workflow_id id) [
  | none ↦ (s, err (execution_not_found id))
  | some e ↦
      if not (str_eq e.status "Queued") && not (str_eq e.status "Running")
      then (s, err (not_cancelable e.status))
      else (change_execution s workflow_id id (canceled now), ok (canceled now e))
]

-- DeleteExecution
unfoldable pub delete_execution : MemoryStore → String → String → MemoryStore × Option StoreError
delete_execution s workflow_id id = elim (get_execution s workflow_id id) [
  | none ↦ (s, some (execution_not_found id))
  | some e ↦ if is_active e then (s, some (not_deletable e.status)) else (
    record s {
      executions =
          Dict.put s.executions workflow_id
            (remove_first (identified id) (listed s.executions workflow_id));
      histories = Dict.remove s.histories id;
    },
    none,
  )
]

-- AppendHistory
unfoldable pub append_history : MemoryStore → String → HistoryRecord → MemoryStore
append_history s id entry = record s {
  histories = Dict.put s.histories id (listed s.histories id ++ entry ∷ []);
}

-- ListExecutionHistory
unfoldable pub list_execution_history :
    MemoryStore → String → String → Result StoreError (List HistoryRecord)
list_execution_history s workflow_id id =
    if is_some (get_execution s workflow_id id)
    then ok (listed s.histories id)
    else err (execution_not_found id)

-- CreateSubscription, with the two UUIDs that it draws
unfoldable pub create_subscription :
    MemoryStore → Time → String → String → ℕ → MemoryStore × Option StoreError
create_subscription s now id contract_id plan_id =
    elim (find (λ (plan : PlanDef). plan.id == plan_id) static_plans) [
      | none ↦ (s, some (plan_not_found plan_id))
      | some plan ↦
          let subscription : SubscriptionRecord = record {
            id = id;
            account_id = "100000000001";
            contract_id = contract_id;
            plan_id = plan_id;
            plan_name = plan.name;
            activate_from = now;
            activate_until = none;
            created_at = now;
            updated_at = now;
          } in
          (record s { subscription = some subscription }, none)
    ]

-- DeleteSubscription
unfoldable pub delete_subscription : MemoryStore → MemoryStore × Bool
delete_subscription s = (record s { subscription = none }, is_some s.subscription)
