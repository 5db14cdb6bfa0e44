-- ===== src/Workflows/Store/Presence.antt =====
-- What the calls of the store in workflows/store_memory.go leave of the workflow of an active execution.
use sakumock.Workflows.Store.Records.{
  Time, WorkflowRecord, ExecutionRecord, ExecutionInput, ExecutionStatusUpdate, WorkflowUpdates,
}
use sakumock.Workflows.Store.{
  MemoryStore, listed, is_active, aliased, set_alias, create_workflow, update_workflow,
  delete_workflow, create_revision, update_revision_alias, delete_revision_alias,
}
use sakumock.Workflows.Store.Executions.{
  get_execution, change_execution, identified, create_execution, update_execution_status,
  cancel_execution, delete_execution, append_history, create_subscription, delete_subscription,
}
use sakumock.Workflows.Store.Cases.{create_execution-cases}
use sakumock.Workflows.Store.Requests.{Request, serve}
use sakumock.Dict
use sakumock.Dict.{get-put_self, get-put_ne, get-remove_ne}
use sakumock.Prelude.{
  ℕ, ◌≡◌, refl, String, Bool, true, not, ◌&&◌, some, arith, str_eq, eq_iff, str_ne, any, any-find,
  inl, inr, Bool-cases, Option-cases, string_eq, is_some,
}

-- The workflow is in the store.
unfoldable pub has_workflow : MemoryStore → String → Bool
has_workflow s id = is_some (Dict.get s.workflows id)

kept_workflows :
    (s s' : MemoryStore) (id : String)
    → has_workflow s id ≡ true
    → s'.workflows ≡ s.workflows
    → has_workflow s' id ≡ true
unfolding has_workflow
kept_workflows s s' id there same = rw same there

put-has_workflow :
    (s s' : MemoryStore) (id j : String) (w : WorkflowRecord)
    → has_workflow s id ≡ true
    → s'.workflows ≡ Dict.put s.workflows j w
    → has_workflow s' id ≡ true
unfolding has_workflow
put-has_workflow s s' id j w there put = elim (Bool-cases (str_eq j id)) [
  | inl here ↦ rw (put, (eq_iff j id).0 here, get-put_self s.workflows id w) refl
  | inr apart ↦ rw (put, get-put_ne s.workflows j id w (str_ne j id apart)) there
]

delete_workflow-has_workflow :
    (s : MemoryStore) (id exec j : String) (e : ExecutionRecord)
    → get_execution s id exec ≡ some e
    → is_active e ≡ true
    → has_workflow s id ≡ true
    → has_workflow (delete_workflow s j).0 id ≡ true
unfolding delete_workflow get_execution has_workflow
delete_workflow-has_workflow s id exec j e h active here =
    elim (Option-cases (Dict.get s.workflows j)) [
      | inl gone ↦ rw (delete_workflow, gone) here
      | inr (w, there) ↦ elim (Bool-cases (any is_active (listed s.executions j))) [
        | inl busy ↦ rw (delete_workflow, there, busy) here
        | inr idle ↦ elim (Bool-cases (str_eq j id)) [
          | inl same ↦ absurd (
              cc (
                any-find (identified exec) is_active (listed s.executions id) e h active,
                rw ((eq_iff j id).0 same) at idle,
              ))
          | inr apart ↦
              rw (delete_workflow, there, idle, get-remove_ne s.workflows j id (str_ne j id apart))
                here
        ]
      ]
    ]

update_workflow-has_workflow :
    (s : MemoryStore) (now : Time) (id j : String) (updates : WorkflowUpdates)
    → has_workflow s id ≡ true
    → has_workflow (update_workflow s now j updates).0 id ≡ true
unfolding update_workflow
update_workflow-has_workflow s now id j updates here =
    elim (Option-cases (Dict.get s.workflows j)) [
      | inl gone ↦ rw (update_workflow, gone) here
      | inr (w, there) ↦ rw (update_workflow, there) (put-has_workflow s _ id j _ here refl)
    ]

create_revision-has_workflow :
    (s : MemoryStore) (now : Time) (id j runbook alias : String)
    → has_workflow s id ≡ true
    → has_workflow (create_revision s now j runbook alias).0 id ≡ true
unfolding create_revision
create_revision-has_workflow s now id j runbook alias here =
    elim (Option-cases (Dict.get s.workflows j)) [
      | inl gone ↦ rw (create_revision, gone) here
      | inr (w, there) ↦
          elim (Bool-cases (not (str_eq alias "") && any (aliased alias) (listed s.revisions j))) [
            | inl taken ↦ rw (create_revision, there, taken) here
            | inr free ↦ rw (create_revision, there, free) (put-has_workflow s _ id j _ here refl)
          ]
    ]

set_alias-workflows :
    (s : MemoryStore) (now : Time) (j : String) (n : ℕ) (alias : String)
    → (set_alias s now j n alias).0.workflows ≡ s.workflows
unfolding set_alias
set_alias-workflows s now j n alias = ground arith

update_revision_alias-workflows :
    (s : MemoryStore) (now : Time) (j : String) (n : ℕ) (alias : String)
    → (update_revision_alias s now j n alias).0.workflows ≡ s.workflows
unfolding update_revision_alias
update_revision_alias-workflows s now j n alias =
    ground (arith, set_alias-workflows s now j n alias)

pub create_execution-has_workflow :
    (s : MemoryStore) (id : String) (now : Time) (uuid j : String) (input : ExecutionInput)
    → has_workflow s id ≡ true
    → has_workflow (create_execution s now uuid j input).0 id ≡ true
create_execution-has_workflow s id now uuid j input here =
    elim (create_execution-cases s now uuid j input) [
      | inl (wrong, refused) ↦ rw refused here
      | inr (w, rev, there, publish, target, created) ↦ rw created (kept_workflows s _ id here refl)
    ]

update_execution_status-workflows :
    (s : MemoryStore) (now : Time) (j x : String) (update : ExecutionStatusUpdate)
    → (update_execution_status s now j x update).0.workflows ≡ s.workflows
unfolding update_execution_status change_execution
update_execution_status-workflows s now j x update = ground arith

cancel_execution-workflows :
    (s : MemoryStore) (now : Time) (j x : String)
    → (cancel_execution s now j x).0.workflows ≡ s.workflows
unfolding cancel_execution change_execution
cancel_execution-workflows s now j x = ground arith

delete_execution-workflows :
    (s : MemoryStore) (j x : String) → (delete_execution s j x).0.workflows ≡ s.workflows
unfolding delete_execution
delete_execution-workflows s j x = ground arith

create_subscription-workflows :
    (s : MemoryStore) (now : Time) (x contract : String) (plan : ℕ)
    → (create_subscription s now x contract plan).0.workflows ≡ s.workflows
unfolding create_subscription
create_subscription-workflows s now x contract plan = ground arith

-- Any one call
pub serve-has_workflow :
    (s : MemoryStore) (id exec : String) (r : Request) (e : ExecutionRecord)
    → get_execution s id exec ≡ some e
    → is_active e ≡ true
    → has_workflow s id ≡ true
    → has_workflow (serve s r) id ≡ true
unfolding serve create_workflow delete_revision_alias append_history delete_subscription
serve-has_workflow s id exec
      (Request.create_workflow now name description runbook publish logging tags principal mode
        alias)
      e h active here =
    put-has_workflow s _ id _ _ here refl
serve-has_workflow s id exec (Request.update_workflow now j updates) e h active here =
    update_workflow-has_workflow s now id j updates here
serve-has_workflow s id exec (Request.delete_workflow j) e h active here =
    delete_workflow-has_workflow s id exec j e h active here
serve-has_workflow s id exec (Request.create_revision now j runbook alias) e h active here =
    create_revision-has_workflow s now id j runbook alias here
serve-has_workflow s id exec (Request.update_revision_alias now j n alias) e h active here =
    kept_workflows s _ id here (update_revision_alias-workflows s now j n alias)
serve-has_workflow s id exec (Request.delete_revision_alias now j n) e h active here =
    kept_workflows s _ id here (set_alias-workflows s now j n "")
serve-has_workflow s id exec (Request.create_execution now uuid j input) e h active here =
    create_execution-has_workflow s id now uuid j input here
serve-has_workflow s id exec (Request.update_execution_status now j x update) e h active here =
    kept_workflows s _ id here (update_execution_status-workflows s now j x update)
serve-has_workflow s id exec (Request.cancel_execution now j x) e h active here =
    kept_workflows s _ id here (cancel_execution-workflows s now j x)
serve-has_workflow s id exec (Request.delete_execution j x) e h active here =
    kept_workflows s _ id here (delete_execution-workflows s j x)
serve-has_workflow s id exec (Request.append_history x entry) e h active here =
    kept_workflows s (append_history s x entry) id here refl
serve-has_workflow s id exec (Request.create_subscription now x contract plan) e h active here =
    kept_workflows s _ id here (create_subscription-workflows s now x contract plan)
serve-has_workflow s id exec Request.delete_subscription e h active here =
    kept_workflows s (delete_subscription s).0 id here refl
