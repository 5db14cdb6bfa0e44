-- ===== src/Workflows/Store/WellFormed.antt =====
-- The invariant of MemoryStore in workflows/store_memory.go.
use sakumock.Workflows.Store.Records.{WorkflowRecord, RevisionRecord, ExecutionRecord}
use sakumock.Workflows.Store.{MemoryStore, listed}
use sakumock.Workflows.Store.Revisions.{CountUp, AliasesDistinct}
use sakumock.Dict
use sakumock.Dict.{Dict, get-put_self, get-put_ne, get-remove_self, get-remove_ne, get-empty}
use mathlib.Core.Path.{subst}
use sakumock.Prelude.{
  ◌≤◌, ◌≡◌, refl, ◌∙◌, String, List, [], Option, none, some, length, All, str_eq, eq_iff, str_ne,
  inl, inr, Bool-cases, string_eq,
}

-- What the store has of one workflow: its revisions are numbered from 1, with distinct aliases, and
-- there is one at least; its executions name it. Of a workflow that it does not have it has neither.
unfoldable pub IsConsistent :
    String → Option WorkflowRecord → List RevisionRecord → List ExecutionRecord → Type 0
IsConsistent id none revs execs = (revs ≡ []) × (execs ≡ [])
IsConsistent id (some w) revs execs =
    (w.id ≡ id)
    × (1 ≤ length revs)
    × CountUp 1 revs
    × AliasesDistinct revs
    × All (λ e. e.workflow_id ≡ id) execs

unfoldable pub IsWellFormed : MemoryStore → Type 0
IsWellFormed s =
    (id : String)
    → IsConsistent id (Dict.get s.workflows id) (listed s.revisions id) (listed s.executions id)

module _ {A : Type 0} where
  pub listed-put_self :
      (d : Dict String (List A)) (k : String) (l : List A) → listed (Dict.put d k l) k ≡ l
  unfolding listed
  listed-put_self d k l = rw (listed, get-put_self d k l) refl

  pub listed-put_ne :
      (d : Dict String (List A)) (k j : String) (l : List A)
      → ¬ (k ≡ j)
      → listed (Dict.put d k l) j ≡ listed d j
  unfolding listed
  listed-put_ne d k j l ne = rw (listed, get-put_ne d k j l ne) refl

  pub listed-remove_self : (d : Dict String (List A)) (k : String) → listed (Dict.remove d k) k ≡ []
  unfolding listed
  listed-remove_self d k = rw (listed, get-remove_self d k) refl

  pub listed-remove_ne :
      (d : Dict String (List A)) (k j : String)
      → ¬ (k ≡ j)
      → listed (Dict.remove d k) j ≡ listed d j
  unfolding listed
  listed-remove_ne d k j ne = rw (listed, get-remove_ne d k j ne) refl

-- A change of what the store has of one workflow
pub IsWellFormed-at :
    (s s' : MemoryStore) (id : String)
    → IsWellFormed s
    → ((j : String)
        → ¬ (id ≡ j)
        → (Dict.get s'.workflows j ≡ Dict.get s.workflows j)
          × (listed s'.revisions j ≡ listed s.revisions j)
          × (listed s'.executions j ≡ listed s.executions j))
    → IsConsistent id (Dict.get s'.workflows id) (listed s'.revisions id) (listed s'.executions id)
    → IsWellFormed s'
unfolding IsWellFormed
IsWellFormed-at s s' id h others here j = elim (Bool-cases (str_eq id j)) [
  | inl same ↦
      subst
        (λ k.
          IsConsistent k (Dict.get s'.workflows k) (listed s'.revisions k) (listed s'.executions k))
        ((eq_iff id j).0 same) here
  | inr other ↦ let (w, revs, execs) = others j (str_ne id j other) in rw (w, revs, execs) (h j)
]

-- A change of neither
pub IsWellFormed-same :
    (s s' : MemoryStore)
    → IsWellFormed s
    → s'.workflows ≡ s.workflows
    → s'.revisions ≡ s.revisions
    → s'.executions ≡ s.executions
    → IsWellFormed s'
unfolding IsWellFormed
IsWellFormed-same s s' h w revs execs id = rw (w, revs, execs) (h id)

-- What the store has of a workflow that it has
pub IsConsistent-some :
    (s : MemoryStore) (id : String) (w : WorkflowRecord)
    → IsWellFormed s
    → Dict.get s.workflows id ≡ some w
    → IsConsistent id (some w) (listed s.revisions id) (listed s.executions id)
unfolding IsWellFormed
IsConsistent-some s id w h e =
    subst (λ o. IsConsistent id o (listed s.revisions id) (listed s.executions id)) e (h id)

IsConsistent-names :
    (id : String) (o : Option WorkflowRecord) (revs : List RevisionRecord)
    (execs : List ExecutionRecord)
    → IsConsistent id o revs execs
    → All (λ e. e.workflow_id ≡ id) execs
unfolding IsConsistent
IsConsistent-names id none revs execs h = rw h.1 tt
IsConsistent-names id (some w) revs execs h = h.4

pub executions_name :
    (s : MemoryStore) (id : String)
    → IsWellFormed s
    → All (λ e. e.workflow_id ≡ id) (listed s.executions id)
unfolding IsWellFormed
executions_name s id h = IsConsistent-names id _ _ _ (h id)

pub revisions_of_missing :
    (s : MemoryStore) (id : String)
    → IsWellFormed s
    → Dict.get s.workflows id ≡ none
    → listed s.revisions id ≡ []
unfolding IsWellFormed IsConsistent
revisions_of_missing s id h gone =
    (subst (λ o. IsConsistent id o (listed s.revisions id) (listed s.executions id)) gone (h id)).0

IsConsistent-executions :
    (id : String) (o : Option WorkflowRecord) (revs : List RevisionRecord)
    (execs execs' : List ExecutionRecord)
    → IsConsistent id o revs execs
    → (o ≡ none → execs ≡ [] → execs' ≡ [])
    → (All (λ e. e.workflow_id ≡ id) execs → All (λ e. e.workflow_id ≡ id) execs')
    → IsConsistent id o revs execs'
unfolding IsConsistent
IsConsistent-executions id none revs execs execs' h empty keeps = (h.0, empty refl h.1)
IsConsistent-executions id (some w) revs execs execs' h empty keeps =
    (h.0, h.1, h.2, h.3, keeps h.4)

-- The executions of a workflow change.
pub executions-IsWellFormed :
    (s s' : MemoryStore) (id : String) (execs : List ExecutionRecord)
    → IsWellFormed s
    → s'.workflows ≡ s.workflows
    → s'.revisions ≡ s.revisions
    → s'.executions ≡ Dict.put s.executions id execs
    → (Dict.get s.workflows id ≡ none → listed s.executions id ≡ [] → execs ≡ [])
    → (All (λ e. e.workflow_id ≡ id) (listed s.executions id) → All (λ e. e.workflow_id ≡ id) execs)
    → IsWellFormed s'
unfolding IsWellFormed
executions-IsWellFormed s s' id execs h w revs changed empty keeps =
    IsWellFormed-at s s' id h
      (λ j ne. (rw w refl, rw revs refl, rw changed (listed-put_ne s.executions id j execs ne)))
      (rw (w, revs, changed, listed-put_self s.executions id execs)
        (IsConsistent-executions id (Dict.get s.workflows id) (listed s.revisions id)
          (listed s.executions id) execs (h id) empty keeps))

-- The revisions of a workflow change, and the workflow with its name kept.
pub revisions-IsWellFormed :
    (s s' : MemoryStore) (id : String) (w : WorkflowRecord) (revs : List RevisionRecord)
    → IsWellFormed s
    → w.id ≡ id
    → Dict.get s'.workflows id ≡ some w
    → ((j : String) → ¬ (id ≡ j) → Dict.get s'.workflows j ≡ Dict.get s.workflows j)
    → s'.revisions ≡ Dict.put s.revisions id revs
    → s'.executions ≡ s.executions
    → (1 ≤ length revs) × CountUp 1 revs × AliasesDistinct revs
    → IsWellFormed s'
unfolding IsConsistent
revisions-IsWellFormed s s' id w revs h own workflow others revisions execs kept =
    IsWellFormed-at s s' id h
      (λ j ne. (others j ne, rw revisions (listed-put_ne s.revisions id j revs ne), rw execs refl))
      (rw (workflow, revisions, execs, listed-put_self s.revisions id revs)
        (own, kept.0, kept.1, kept.2, executions_name s id h))

-- A workflow changes, with its name kept.
pub workflow-IsWellFormed :
    (s s' : MemoryStore) (id : String) (w w' : WorkflowRecord)
    → IsWellFormed s
    → Dict.get s.workflows id ≡ some w
    → w'.id ≡ w.id
    → s'.workflows ≡ Dict.put s.workflows id w'
    → s'.revisions ≡ s.revisions
    → s'.executions ≡ s.executions
    → IsWellFormed s'
unfolding IsConsistent
workflow-IsWellFormed s s' id w w' h there same workflows revs execs =
    let (own, some_rev, count, aliases, names) = IsConsistent-some s id w h there in
    IsWellFormed-at s s' id h
      (λ j ne. (rw workflows (get-put_ne s.workflows id j w' ne), rw revs refl, rw execs refl))
      (rw (workflows, revs, execs, get-put_self s.workflows id w')
        (same ∙ own, some_rev, count, aliases, names))
