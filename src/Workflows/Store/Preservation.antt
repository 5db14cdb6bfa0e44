-- ===== src/Workflows/Store/Preservation.antt =====
-- Each method of MemoryStore in workflows/store_memory.go keeps the invariant.
use sakumock.Workflows.Store.WellFormed.{
  IsConsistent, IsWellFormed, IsWellFormed-at, IsWellFormed-same, IsConsistent-some,
  executions-IsWellFormed, revisions-IsWellFormed, workflow-IsWellFormed, listed-remove_self,
  listed-remove_ne, revisions_of_missing,
}
use sakumock.Workflows.Store.Records.{
  PlanDef, static_plans, Time, WorkflowRecord, RevisionRecord, ExecutionRecord, WorkflowUpdates,
  ExecutionStatusUpdate, ExecutionInput,
}
use sakumock.Workflows.Store.{
  MemoryStore, listed, numbered, set_alias, create_workflow, update_workflow, delete_workflow,
  create_revision, update_revision_alias, delete_revision_alias, new_memory_store, is_active,
  aliased, taken, realiased,
}
use sakumock.Workflows.Store.Executions.{
  create_execution, update_execution_status, cancel_execution, delete_execution, append_history,
  create_subscription, delete_subscription, get_execution, change_execution, new_execution,
  identified, updated, canceled,
}
use sakumock.Workflows.Store.Cases.{create_execution-cases, new_execution-workflow_id}
use sakumock.Workflows.Store.Requests.{Request, serve, serve_all}
use sakumock.Workflows.Store.Revisions.{
  CountUp-append, next_revision_id-CountUp, AliasesDistinct-append, CountUp-change_first,
  AliasesDistinct-change_first, length-change_first,
}
use sakumock.Core.IdGenerator
use sakumock.Core.IdGenerator.{IdGenerator}
use sakumock.Dict
use sakumock.Dict.{Dict, get-put_self, get-put_ne, get-remove_self, get-remove_ne, get-empty}
use sakumock.Prelude.{
  ◌==◌, ℕ, ◌≡◌, refl, ◌∙◌, String, List, [], ◌∷◌, any, not, ◌&&◌, Bool, false, arith, length-append,
  All-append, All-change_first, All-remove_first, str_eq, inl, inr, Bool-cases, Option-cases,
  string_eq, find,
}

create_workflow-IsWellFormed :
    (s : MemoryStore) (now : Time) (name description runbook : String) (publish logging : Bool)
    (tags : List String) (principal mode alias : String)
    → IsWellFormed s
    → IsWellFormed
        (create_workflow s now name description runbook publish logging tags principal mode alias).0
unfolding create_workflow
create_workflow-IsWellFormed s now name description runbook publish logging tags principal mode
      alias h =
    revisions-IsWellFormed s _ (IdGenerator.next_id s.ids).1
      (create_workflow s now name description runbook publish logging tags principal mode alias).1 _
      h refl (get-put_self s.workflows _ _) (λ j ne. get-put_ne s.workflows _ j _ ne) refl refl
      (omega arith, (refl, tt), (tt, tt))

update_workflow-IsWellFormed :
    (s : MemoryStore) (now : Time) (id : String) (updates : WorkflowUpdates)
    → IsWellFormed s
    → IsWellFormed (update_workflow s now id updates).0
unfolding update_workflow
update_workflow-IsWellFormed s now id updates h = elim (Option-cases (Dict.get s.workflows id)) [
  | inl gone ↦ rw (update_workflow, gone) h
  | inr (w, there) ↦
      rw (update_workflow, there) (workflow-IsWellFormed s _ id w _ h there refl refl refl refl)
]

delete_workflow-IsWellFormed :
    (s : MemoryStore) (id : String) → IsWellFormed s → IsWellFormed (delete_workflow s id).0
unfolding delete_workflow IsConsistent
delete_workflow-IsWellFormed s id h = elim (Option-cases (Dict.get s.workflows id)) [
  | inl gone ↦ rw (delete_workflow, gone) h
  | inr (w, there) ↦ elim (Bool-cases (any is_active (listed s.executions id))) [
    | inl active ↦ rw (delete_workflow, there, active) h
    | inr idle ↦
        rw (delete_workflow, there, idle)
          (IsWellFormed-at s _ id h
            (λ j ne. (
              get-remove_ne s.workflows id j ne,
              listed-remove_ne s.revisions id j ne,
              listed-remove_ne s.executions id j ne,
            ))
            (rw (get-remove_self s.workflows id)
              (listed-remove_self s.revisions id, listed-remove_self s.executions id)))
  ]
]

create_revision-IsWellFormed :
    (s : MemoryStore) (now : Time) (id runbook alias : String)
    → IsWellFormed s
    → IsWellFormed (create_revision s now id runbook alias).0
unfolding create_revision IsConsistent
create_revision-IsWellFormed s now id runbook alias h =
    elim (Option-cases (Dict.get s.workflows id)) [
      | inl gone ↦ rw (create_revision, gone) h
      | inr (w, there) ↦
          elim (Bool-cases (not (str_eq alias "") && any (aliased alias) (listed s.revisions id))) [
            | inl clash ↦ rw (create_revision, there, clash) h
            | inr free ↦
                let (own, some_rev, count, aliases, names) = IsConsistent-some s id w h there in
                rw (create_revision, there, free)
                  (revisions-IsWellFormed s _ id (record w { updated_at = now }) _ h own
                    (get-put_self s.workflows id _) (λ j ne. get-put_ne s.workflows id j _ ne) refl
                    refl
                    (
                      omega (arith, length-append (listed s.revisions id) (_ ∷ [])),
                      CountUp-append 1 (listed s.revisions id) _ count
                          (next_revision_id-CountUp 1 (listed s.revisions id) count some_rev),
                      AliasesDistinct-append (listed s.revisions id) _ aliases free,
                    ))
          ]
    ]

set_alias-IsWellFormed :
    (s : MemoryStore) (now : Time) (id : String) (n : ℕ) (alias : String)
    → IsWellFormed s
    → not (str_eq alias "") && any (taken n alias) (listed s.revisions id) ≡ false
    → IsWellFormed (set_alias s now id n alias).0
unfolding set_alias IsConsistent
set_alias-IsWellFormed s now id n alias h free =
    elim (Option-cases (find (numbered n) (listed s.revisions id))) [
      | inl missing ↦ rw (set_alias, missing) h
      | inr (r, there) ↦ elim (Option-cases (Dict.get s.workflows id)) [
        | inl gone ↦ absurd (grind (arith, rw (revisions_of_missing s id h gone) at there))
        | inr (w, known) ↦
            let (own, some_rev, count, aliases, names) = IsConsistent-some s id w h known in
            rw (set_alias, there)
              (revisions-IsWellFormed s _ id w _ h own known (λ j ne. refl) refl refl
                (
                  rw
                      (length-change_first n alias (realiased now alias) (λ r. refl) (λ r. refl)
                        (listed s.revisions id))
                      some_rev,
                  CountUp-change_first n alias (realiased now alias) (λ r. refl) (λ r. refl) 1
                      (listed s.revisions id) count,
                  AliasesDistinct-change_first n alias (realiased now alias) (λ r. refl) (λ r. refl)
                      1 (listed s.revisions id) count aliases free,
                ))
      ]
    ]

pub update_revision_alias-IsWellFormed :
    (s : MemoryStore) (now : Time) (id : String) (n : ℕ) (alias : String)
    → IsWellFormed s
    → IsWellFormed (update_revision_alias s now id n alias).0
unfolding update_revision_alias
update_revision_alias-IsWellFormed s now id n alias h =
    elim (Option-cases (Dict.get s.workflows id)) [
      | inl gone ↦ rw (update_revision_alias, gone) h
      | inr (w, there) ↦
          elim (Bool-cases (not (str_eq alias "") && any (taken n alias) (listed s.revisions id))) [
            | inl clash ↦ rw (update_revision_alias, there, clash) h
            | inr free ↦
                let kept = set_alias-IsWellFormed s now id n alias h free in
                elim (Option-cases (set_alias s now id n alias).1) [
                  | inl missing ↦ rw (update_revision_alias, there, free, missing) kept
                  | inr (r, changed) ↦ rw (update_revision_alias, there, free, changed) kept
                ]
          ]
    ]

delete_revision_alias-IsWellFormed :
    (s : MemoryStore) (now : Time) (id : String) (n : ℕ)
    → IsWellFormed s
    → IsWellFormed (delete_revision_alias s now id n).0
unfolding delete_revision_alias
delete_revision_alias-IsWellFormed s now id n h = set_alias-IsWellFormed s now id n "" h refl

create_execution-IsWellFormed :
    (s : MemoryStore) (now : Time) (uuid id : String) (input : ExecutionInput)
    → IsWellFormed s
    → IsWellFormed (create_execution s now uuid id input).0
create_execution-IsWellFormed s now uuid id input h =
    elim (create_execution-cases s now uuid id input) [
      | inl (e, refused) ↦ rw refused h
      | inr (w, rev, there, publish, target, created) ↦ rw created (
          executions-IsWellFormed s _ id _ h refl refl refl (λ gone empty. absurd (cc))
            (λ own.
              All-append (λ e. e.workflow_id ≡ id) (listed s.executions id)
                (new_execution now uuid w input id rev ∷ []) own
                (new_execution-workflow_id now uuid w input id rev, tt)))
    ]

change_execution-IsWellFormed :
    (s : MemoryStore) (id exec : String) (change : ExecutionRecord → ExecutionRecord)
    → IsWellFormed s
    → ((e : ExecutionRecord) → (change e).workflow_id ≡ e.workflow_id)
    → IsWellFormed (change_execution s id exec change)
unfolding change_execution
change_execution-IsWellFormed s id exec change h same =
    executions-IsWellFormed s _ id _ h refl refl refl (λ gone empty. rw empty refl)
      (All-change_first _ (identified exec) change (listed s.executions id) (λ e own. same e ∙ own))

update_execution_status-IsWellFormed :
    (s : MemoryStore) (now : Time) (id exec : String) (update : ExecutionStatusUpdate)
    → IsWellFormed s
    → IsWellFormed (update_execution_status s now id exec update).0
unfolding update_execution_status updated
update_execution_status-IsWellFormed s now id exec update h =
    elim (Option-cases (get_execution s id exec)) [
      | inl gone ↦ rw (update_execution_status, gone) h
      | inr (e, there) ↦
          rw (update_execution_status, there)
            (change_execution-IsWellFormed s id exec (updated now update) h (λ e. refl))
    ]

cancel_execution-IsWellFormed :
    (s : MemoryStore) (now : Time) (id exec : String)
    → IsWellFormed s
    → IsWellFormed (cancel_execution s now id exec).0
unfolding cancel_execution canceled
cancel_execution-IsWellFormed s now id exec h = elim (Option-cases (get_execution s id exec)) [
  | inl gone ↦ rw (cancel_execution, gone) h
  | inr (e, there) ↦
      elim (Bool-cases (not (str_eq e.status "Queued") && not (str_eq e.status "Running"))) [
        | inl past ↦ rw (cancel_execution, there, past) h
        | inr live ↦
            rw (cancel_execution, there, live)
              (change_execution-IsWellFormed s id exec (canceled now) h (λ e. refl))
      ]
]

delete_execution-IsWellFormed :
    (s : MemoryStore) (id exec : String)
    → IsWellFormed s
    → IsWellFormed (delete_execution s id exec).0
unfolding delete_execution
delete_execution-IsWellFormed s id exec h = elim (Option-cases (get_execution s id exec)) [
  | inl gone ↦ rw (delete_execution, gone) h
  | inr (e, there) ↦ elim (Bool-cases (is_active e)) [
    | inl active ↦ rw (delete_execution, there, active) h
    | inr idle ↦
        rw (delete_execution, there, idle)
          (executions-IsWellFormed s _ id _ h refl refl refl (λ gone empty. rw empty refl)
            (All-remove_first (λ e. e.workflow_id ≡ id) (identified exec) (listed s.executions id)))
  ]
]

create_subscription-IsWellFormed :
    (s : MemoryStore) (now : Time) (id contract : String) (plan : ℕ)
    → IsWellFormed s
    → IsWellFormed (create_subscription s now id contract plan).0
unfolding create_subscription
create_subscription-IsWellFormed s now id contract plan h =
    elim (Option-cases (find (λ (p : PlanDef). p.id == plan) static_plans)) [
      | inl gone ↦ rw (create_subscription, gone) h
      | inr (p, there) ↦ rw (create_subscription, there) (IsWellFormed-same s _ h refl refl refl)
    ]

serve-IsWellFormed : (s : MemoryStore) (r : Request) → IsWellFormed s → IsWellFormed (serve s r)
unfolding serve append_history delete_subscription
serve-IsWellFormed s
      (Request.create_workflow now name description runbook publish logging tags principal mode
        alias)
      h =
    create_workflow-IsWellFormed s now name description runbook publish logging tags principal mode
      alias h
serve-IsWellFormed s (Request.update_workflow now id updates) h =
    update_workflow-IsWellFormed s now id updates h
serve-IsWellFormed s (Request.delete_workflow id) h = delete_workflow-IsWellFormed s id h
serve-IsWellFormed s (Request.create_revision now id runbook alias) h =
    create_revision-IsWellFormed s now id runbook alias h
serve-IsWellFormed s (Request.update_revision_alias now id n alias) h =
    update_revision_alias-IsWellFormed s now id n alias h
serve-IsWellFormed s (Request.delete_revision_alias now id n) h =
    delete_revision_alias-IsWellFormed s now id n h
serve-IsWellFormed s (Request.create_execution now uuid id input) h =
    create_execution-IsWellFormed s now uuid id input h
serve-IsWellFormed s (Request.update_execution_status now id exec update) h =
    update_execution_status-IsWellFormed s now id exec update h
serve-IsWellFormed s (Request.cancel_execution now id exec) h =
    cancel_execution-IsWellFormed s now id exec h
serve-IsWellFormed s (Request.delete_execution id exec) h =
    delete_execution-IsWellFormed s id exec h
serve-IsWellFormed s (Request.append_history exec entry) h = IsWellFormed-same s _ h refl refl refl
serve-IsWellFormed s (Request.create_subscription now id contract plan) h =
    create_subscription-IsWellFormed s now id contract plan h
serve-IsWellFormed s Request.delete_subscription h = IsWellFormed-same s _ h refl refl refl

new_memory_store-IsWellFormed : (ids : IdGenerator) → IsWellFormed (new_memory_store ids)
unfolding new_memory_store IsWellFormed listed IsConsistent
new_memory_store-IsWellFormed ids id =
    rw
      (
        get-empty {K = String} {V = WorkflowRecord} id,
        listed,
        get-empty {K = String} {V = List RevisionRecord} id,
        get-empty {K = String} {V = List ExecutionRecord} id,
      )
      (refl, refl)

serve_all-keeps :
    (requests : List Request) (s : MemoryStore)
    → IsWellFormed s
    → IsWellFormed (serve_all s requests)
unfolding serve_all
serve_all-keeps [] s h = h
serve_all-keeps (r ∷ requests) s h = serve_all-keeps requests (serve s r) (serve-IsWellFormed s r h)

-- Whatever calls a new store takes: the revisions of each workflow that it has are numbered from 1 on
-- in their order, and there is one at least; no two of them have one alias, unless it is empty; the
-- executions that it has of a workflow name it; and it has no revisions and no executions of a
-- workflow that it does not have.
pub serve_all-IsWellFormed :
    (ids : IdGenerator) (requests : List Request)
    → IsWellFormed (serve_all (new_memory_store ids) requests)
serve_all-IsWellFormed ids requests =
    serve_all-keeps requests (new_memory_store ids) (new_memory_store-IsWellFormed ids)
