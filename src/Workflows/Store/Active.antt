-- ===== src/Workflows/Store/Active.antt =====
-- What the calls of the store in workflows/store_memory.go leave of an active execution.
use sakumock.Workflows.Store.Records.{
  Time, ExecutionRecord, ExecutionInput, ExecutionStatusUpdate, WorkflowUpdates,
}
use sakumock.Workflows.Store.{
  MemoryStore, listed, is_active, set_alias, create_workflow, update_workflow, delete_workflow,
  create_revision, update_revision_alias, delete_revision_alias,
}
use sakumock.Workflows.Store.Executions.{
  get_execution, change_execution, identified, updated, canceled, create_execution,
  update_execution_status, cancel_execution, delete_execution, append_history, create_subscription,
  delete_subscription,
}
use sakumock.Workflows.Store.Cases.{create_execution-cases}
use sakumock.Workflows.Store.WellFormed.{listed-put_self, listed-put_ne, listed-remove_ne}
use sakumock.Workflows.Store.Presence.{has_workflow, serve-has_workflow}
use sakumock.Workflows.Store.Requests.{Request, serve, serve_all}
use sakumock.Dict
use sakumock.Dict.{get-put_self, get-put_ne, get-remove_ne}
use sakumock.Prelude.{
  ℕ, ◌≡◌, refl, ◌∙◌, sym, String, List, [], ◌∷◌, ◌++◌, Bool, true, false, not, ◌&&◌, some, arith,
  All, str_eq, eq_iff, str_ne, any, find-append, change_first, remove_first,
  find-change_first_other, find-remove_first_other, any-find, inl, inr, Bool-cases, Option-cases,
  string_eq,
}

-- The call does not set the status of the execution.
unfoldable pub spares : String → String → Request → Bool
spares id exec (Request.update_execution_status now j x update) = not (str_eq j id && str_eq x exec)
spares id exec (Request.cancel_execution now j x) = not (str_eq j id && str_eq x exec)
spares id exec _ = true

ids_differ : (a x exec : String) → str_eq a x ≡ true → str_eq x exec ≡ false → str_eq a exec ≡ false
ids_differ a x exec e ne = rw ((eq_iff a x).0 e) ne

-- Another execution changes.
change_execution-other :
    (s : MemoryStore) (id exec j x : String) (change : ExecutionRecord → ExecutionRecord)
    → ((e : ExecutionRecord) → (change e).execution_id ≡ e.execution_id)
    → not (str_eq j id && str_eq x exec) ≡ true
    → get_execution (change_execution s j x change) id exec ≡ get_execution s id exec
unfolding get_execution change_execution
change_execution-other s id exec j x change same other = elim (Bool-cases (str_eq j id)) [
  | inr apart ↦
      rw
        (listed-put_ne s.executions j id
          (change_first (identified x) change (listed s.executions j)) (str_ne j id apart))
        refl
  | inl here ↦
      rw
        (
          (eq_iff j id).0 here,
          listed-put_self s.executions id
              (change_first (identified x) change (listed s.executions id)),
        )
        (find-change_first_other (identified exec) (identified x) change (listed s.executions id)
          (λ e found.
            let apart : str_eq x exec ≡ false = ground arith in
            (
              ids_differ e.execution_id x exec found apart,
              rw (same e) (ids_differ e.execution_id x exec found apart),
            )))
]

update_execution_status-other :
    (s : MemoryStore) (id exec : String) (now : Time) (j x : String)
    (update : ExecutionStatusUpdate)
    → not (str_eq j id && str_eq x exec) ≡ true
    → get_execution (update_execution_status s now j x update).0 id exec ≡ get_execution s id exec
unfolding update_execution_status updated
update_execution_status-other s id exec now j x update other =
    elim (Option-cases (get_execution s j x)) [
      | inl gone ↦ rw (update_execution_status, gone) refl
      | inr (e, there) ↦
          rw (update_execution_status, there)
            (change_execution-other s id exec j x (updated now update) (λ e. refl) other)
    ]

cancel_execution-other :
    (s : MemoryStore) (id exec : String) (now : Time) (j x : String)
    → not (str_eq j id && str_eq x exec) ≡ true
    → get_execution (cancel_execution s now j x).0 id exec ≡ get_execution s id exec
unfolding cancel_execution canceled
cancel_execution-other s id exec now j x other = elim (Option-cases (get_execution s j x)) [
  | inl gone ↦ rw (cancel_execution, gone) refl
  | inr (e, there) ↦
      elim (Bool-cases (not (str_eq e.status "Queued") && not (str_eq e.status "Running"))) [
        | inl past ↦ rw (cancel_execution, there, past) refl
        | inr live ↦
            rw (cancel_execution, there, live)
              (change_execution-other s id exec j x (canceled now) (λ e. refl) other)
      ]
]

create_execution-kept :
    (s : MemoryStore) (id exec : String) (now : Time) (uuid j : String) (input : ExecutionInput)
    (e : ExecutionRecord)
    → get_execution s id exec ≡ some e
    → get_execution (create_execution s now uuid j input).0 id exec ≡ some e
unfolding get_execution
create_execution-kept s id exec now uuid j input e h =
    elim (create_execution-cases s now uuid j input) [
      | inl (wrong, refused) ↦ rw refused h
      | inr (w, rev, there, publish, target, created) ↦ elim (Bool-cases (str_eq j id)) [
        | inl here ↦
            rw
              (
                created,
                (eq_iff j id).0 here,
                listed-put_self s.executions id (listed s.executions id ++ _ ∷ []),
              )
              (find-append (identified exec) (listed s.executions id) _ e h)
        | inr apart ↦
            rw
              (
                created,
                listed-put_ne s.executions j id (listed s.executions j ++ _ ∷ [])
                    (str_ne j id apart),
              )
              h
      ]
    ]

delete_execution-kept :
    (s : MemoryStore) (id exec j x : String) (e : ExecutionRecord)
    → get_execution s id exec ≡ some e
    → is_active e ≡ true
    → get_execution (delete_execution s j x).0 id exec ≡ some e
unfolding delete_execution get_execution
delete_execution-kept s id exec j x e h active = elim (Option-cases (get_execution s j x)) [
  | inl gone ↦ rw (delete_execution, gone) h
  | inr (e', there) ↦ elim (Bool-cases (is_active e')) [
    | inl active' ↦ rw (delete_execution, there, active') h
    | inr idle ↦ elim (Bool-cases (str_eq j id)) [
      | inr apart ↦
          rw
            (
              delete_execution,
              there,
              idle,
              get_execution,
              listed-put_ne s.executions j id (remove_first (identified x) (listed s.executions j))
                  (str_ne j id apart),
            )
            h
      | inl here ↦ elim (Bool-cases (str_eq x exec)) [
        | inl same ↦
            let found : some e' ≡ some e =
              sym (rw ((eq_iff j id).0 here, (eq_iff x exec).0 same) at there) ∙ h in
            absurd (grind (arith, found))
        | inr differs ↦
            rw
              (
                delete_execution,
                there,
                idle,
                get_execution,
                (eq_iff j id).0 here,
                listed-put_self s.executions id
                    (remove_first (identified x) (listed s.executions id)),
              )
              (find-remove_first_other (identified exec) (identified x) (listed s.executions id)
                  (λ e found. ids_differ e.execution_id x exec found differs)
                ∙ h)
      ]
    ]
  ]
]

delete_workflow-kept :
    (s : MemoryStore) (id exec j : String) (e : ExecutionRecord)
    → get_execution s id exec ≡ some e
    → is_active e ≡ true
    → get_execution (delete_workflow s j).0 id exec ≡ some e
unfolding delete_workflow get_execution
delete_workflow-kept s id exec j e h active = elim (Option-cases (Dict.get s.workflows j)) [
  | inl gone ↦ rw (delete_workflow, gone) h
  | inr (w, there) ↦ elim (Bool-cases (any is_active (listed s.executions j))) [
    | inl busy ↦ rw (delete_workflow, there, busy) h
    | inr idle ↦ elim (Bool-cases (str_eq j id)) [
      | inl here ↦ absurd (
          cc (
            any-find (identified exec) is_active (listed s.executions id) e h active,
            rw ((eq_iff j id).0 here) at idle,
          ))
      | inr apart ↦
          rw (delete_workflow, there, idle, listed-remove_ne s.executions j id (str_ne j id apart))
            h
    ]
  ]
]

-- The calls on workflows and revisions, and the subscription, leave the executions.
update_workflow-executions :
    (s : MemoryStore) (now : Time) (j : String) (updates : WorkflowUpdates)
    → (update_workflow s now j updates).0.executions ≡ s.executions
unfolding update_workflow
update_workflow-executions s now j updates = ground arith

create_revision-executions :
    (s : MemoryStore) (now : Time) (j runbook alias : String)
    → (create_revision s now j runbook alias).0.executions ≡ s.executions
unfolding create_revision
create_revision-executions s now j runbook alias = ground arith

set_alias-executions :
    (s : MemoryStore) (now : Time) (j : String) (n : ℕ) (alias : String)
    → (set_alias s now j n alias).0.executions ≡ s.executions
unfolding set_alias
set_alias-executions s now j n alias = ground arith

update_revision_alias-executions :
    (s : MemoryStore) (now : Time) (j : String) (n : ℕ) (alias : String)
    → (update_revision_alias s now j n alias).0.executions ≡ s.executions
unfolding update_revision_alias
update_revision_alias-executions s now j n alias =
    ground (arith, set_alias-executions s now j n alias)

create_subscription-executions :
    (s : MemoryStore) (now : Time) (x contract : String) (plan : ℕ)
    → (create_subscription s now x contract plan).0.executions ≡ s.executions
unfolding create_subscription
create_subscription-executions s now x contract plan = ground arith

kept_executions :
    (s s' : MemoryStore) (id exec : String) (e : ExecutionRecord)
    → get_execution s id exec ≡ some e
    → s'.executions ≡ s.executions
    → get_execution s' id exec ≡ some e
unfolding get_execution
kept_executions s s' id exec e h same = rw same h

-- Any one call
serve-kept :
    (s : MemoryStore) (id exec : String) (r : Request) (e : ExecutionRecord)
    → get_execution s id exec ≡ some e
    → is_active e ≡ true
    → spares id exec r ≡ true
    → get_execution (serve s r) id exec ≡ some e
unfolding serve spares create_workflow delete_revision_alias append_history delete_subscription
serve-kept s id exec
      (Request.create_workflow now name description runbook publish logging tags principal mode
        alias)
      e h active other =
    kept_executions s _ id exec e h refl
serve-kept s id exec (Request.update_workflow now j updates) e h active other =
    kept_executions s _ id exec e h (update_workflow-executions s now j updates)
serve-kept s id exec (Request.delete_workflow j) e h active other =
    delete_workflow-kept s id exec j e h active
serve-kept s id exec (Request.create_revision now j runbook alias) e h active other =
    kept_executions s _ id exec e h (create_revision-executions s now j runbook alias)
serve-kept s id exec (Request.update_revision_alias now j n alias) e h active other =
    kept_executions s _ id exec e h (update_revision_alias-executions s now j n alias)
serve-kept s id exec (Request.delete_revision_alias now j n) e h active other =
    kept_executions s _ id exec e h (set_alias-executions s now j n "")
serve-kept s id exec (Request.create_execution now uuid j input) e h active other =
    create_execution-kept s id exec now uuid j input e h
serve-kept s id exec (Request.update_execution_status now j x update) e h active other =
    update_execution_status-other s id exec now j x update other ∙ h
serve-kept s id exec (Request.cancel_execution now j x) e h active other =
    cancel_execution-other s id exec now j x other ∙ h
serve-kept s id exec (Request.delete_execution j x) e h active other =
    delete_execution-kept s id exec j x e h active
serve-kept s id exec (Request.append_history x entry) e h active other =
    kept_executions s (append_history s x entry) id exec e h refl
serve-kept s id exec (Request.create_subscription now x contract plan) e h active other =
    kept_executions s _ id exec e h (create_subscription-executions s now x contract plan)
serve-kept s id exec Request.delete_subscription e h active other =
    kept_executions s (delete_subscription s).0 id exec e h refl

-- Any calls
pub serve_all-kept :
    (requests : List Request) (s : MemoryStore) (id exec : String) (e : ExecutionRecord)
    → get_execution s id exec ≡ some e
    → is_active e ≡ true
    → All (λ r. spares id exec r ≡ true) requests
    → get_execution (serve_all s requests) id exec ≡ some e
unfolding serve_all
serve_all-kept [] s id exec e h active others = h
serve_all-kept (r ∷ requests) s id exec e h active others =
    serve_all-kept requests (serve s r) id exec e (serve-kept s id exec r e h active others.0)
      active others.1

-- Calls that do not set the status of an active execution leave it as it is and where it is, and its
-- workflow in the store: no other call changes the execution or deletes it, and nothing deletes its
-- workflow.
pub serve_all-active :
    (requests : List Request) (s : MemoryStore) (id exec : String) (e : ExecutionRecord)
    → has_workflow s id ≡ true
    → get_execution s id exec ≡ some e
    → is_active e ≡ true
    → All (λ r. spares id exec r ≡ true) requests
    → (get_execution (serve_all s requests) id exec ≡ some e)
      × (has_workflow (serve_all s requests) id ≡ true)
unfolding serve_all
serve_all-active [] s id exec e there h active others = (h, there)
serve_all-active (r ∷ requests) s id exec e there h active others =
    serve_all-active requests (serve s r) id exec e
      (serve-has_workflow s id exec r e h active there) (serve-kept s id exec r e h active others.0)
      active others.1
