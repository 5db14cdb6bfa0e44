-- ===== src/Workflows/Store/Cases.antt =====
-- The outcomes of CreateExecution in workflows/store_memory.go.
use sakumock.Workflows.Store.Records.{
  Time, WorkflowRecord, RevisionRecord, ExecutionInput, StoreError, workflow_not_found,
  not_executable, no_revisions,
}
use sakumock.Workflows.Store.{MemoryStore, listed}
use sakumock.Workflows.Store.Executions.{create_execution, target_revision, new_execution, is_empty}
use sakumock.Dict
use sakumock.Prelude.{
  ◌≡◌, refl, String, [], ◌∷◌, ◌++◌, true, some, ok, err, ◌⊎◌, inl, inr, Bool-cases, Option-cases,
  Result-cases, string_eq,
}

pub create_execution-cases :
    (s : MemoryStore) (now : Time) (uuid id : String) (input : ExecutionInput)
    → ((e : StoreError) × (create_execution s now uuid id input ≡ (s, err e)))
      ⊎ ((w : WorkflowRecord) × (rev : RevisionRecord) × (Dict.get s.workflows id ≡ some w)
          × (w.publish ≡ true)
          × (target_revision input (listed s.revisions id) ≡ ok rev)
          × (create_execution s now uuid id input ≡ (
            record s {
              executions =
                  Dict.put s.executions id
                    (listed s.executions id ++ new_execution now uuid w input id rev ∷ []);
            },
            ok (new_execution now uuid w input id rev),
          )))
unfolding create_execution new_execution
create_execution-cases s now uuid id input = elim (Option-cases (Dict.get s.workflows id)) [
  | inl gone ↦ inl (workflow_not_found id, rw (create_execution, gone) refl)
  | inr (w, there) ↦ elim (Bool-cases w.publish) [
    | inr off ↦ inl (not_executable, rw (create_execution, there, off) refl)
    | inl on ↦ elim (Bool-cases (is_empty (listed s.revisions id))) [
      | inl bare ↦ inl (no_revisions, rw (create_execution, there, on, bare) refl)
      | inr some_rev ↦ elim (Result-cases (target_revision input (listed s.revisions id))) [
        | inl (e, wrong) ↦ inl (e, rw (create_execution, there, on, some_rev, wrong) refl)
        | inr (rev, target) ↦
            inr (w, rev, there, on, target, rw (create_execution, there, on, some_rev, target) refl)
      ]
    ]
  ]
]

pub new_execution-workflow_id :
    (now : Time) (uuid : String) (w : WorkflowRecord) (input : ExecutionInput) (id : String)
    (rev : RevisionRecord)
    → (new_execution now uuid w input id rev).workflow_id ≡ id
unfolding new_execution
new_execution-workflow_id now uuid w input id rev = refl
