-- ===== src/Workflows/Store/Aliases.antt =====
-- The aliases of revisions in workflows/store_memory.go, as CreateExecution uses them.
use sakumock.Workflows.Store.Records.{
  Time, WorkflowRecord, RevisionRecord, ExecutionRecord, ExecutionInput,
}
use sakumock.Workflows.Store.{
  MemoryStore, new_memory_store, listed, numbered, taken, realiased, set_alias,
  update_revision_alias, get_revision,
}
use sakumock.Workflows.Store.Executions.{create_execution, target_revision, new_execution, is_empty}
use sakumock.Workflows.Store.Revisions.{find-aliased}
use sakumock.Workflows.Store.WellFormed.{
  IsConsistent, IsWellFormed, IsConsistent-some, listed-put_self,
}
use sakumock.Workflows.Store.Requests.{Request, serve_all}
use sakumock.Workflows.Store.Preservation.{
  update_revision_alias-IsWellFormed, serve_all-IsWellFormed,
}
use sakumock.Core.IdGenerator.{IdGenerator}
use sakumock.Dict
use sakumock.Prelude.{
  ℕ, ◌≡◌, refl, ap, ◌∙◌, String, List, [], ◌∷◌, true, false, not, ◌&&◌, none, some, ok, arith,
  str_eq, find, any, length, ◌≤◌, change_first, find-change_first, find-passes, ==_iff, is_some,
  inl, inr, Bool-cases, Option-cases, string_eq,
}

not-is_empty : {A : Type 0} (l : List A) → 1 ≤ length l → is_empty l ≡ false
not-is_empty [] h = absurd (omega arith)
not-is_empty (x ∷ l) h = refl

-- A workflow that is published runs the revision that its alias names.
create_execution-aliased :
    (s : MemoryStore) (now : Time) (uuid id alias : String) (input : ExecutionInput)
    (w : WorkflowRecord) (n : ℕ) (r : RevisionRecord)
    → IsWellFormed s
    → Dict.get s.workflows id ≡ some w
    → w.publish ≡ true
    → get_revision s id n ≡ some r
    → r.revision_alias ≡ alias
    → str_eq alias "" ≡ false
    → input.revision_id ≡ none
    → input.revision_alias ≡ alias
    → (create_execution s now uuid id input).1 ≡ ok (new_execution now uuid w input id r)
unfolding create_execution target_revision get_revision new_execution IsConsistent
create_execution-aliased s now uuid id alias input w n r h there publish found name named by_id
      by_alias =
    let (own, some_rev, count, aliases, names) = IsConsistent-some s id w h there in
    let target = find-aliased alias (listed s.revisions id) r n aliases found name named in
    rw
      (
        create_execution,
        there,
        publish,
        not-is_empty (listed s.revisions id) some_rev,
        target_revision,
        by_id,
        by_alias,
        named,
        target,
      )
      refl

-- A success of UpdateRevisionAlias is that of its last loop.
update_revision_alias-set_alias :
    (s : MemoryStore) (now : Time) (id : String) (n : ℕ) (alias : String) (r : RevisionRecord)
    → (update_revision_alias s now id n alias).1 ≡ ok r
    → ((update_revision_alias s now id n alias).0 ≡ (set_alias s now id n alias).0)
      × ((set_alias s now id n alias).1 ≡ some r)
unfolding update_revision_alias
update_revision_alias-set_alias s now id n alias r moved =
    elim (Bool-cases (is_some (Dict.get s.workflows id))) [
      | inr gone ↦ absurd (grind (arith, rw (update_revision_alias, gone) at moved))
      | inl there ↦
          elim (Bool-cases (not (str_eq alias "") && any (taken n alias) (listed s.revisions id))) [
            | inl clash ↦ absurd (grind (arith, rw (update_revision_alias, there, clash) at moved))
            | inr free ↦ elim (Option-cases (set_alias s now id n alias).1) [
              | inl missing ↦
                  absurd (grind (arith, rw (update_revision_alias, there, free, missing) at moved))
              | inr (q, changed) ↦
                  let same : q ≡ r =
                    grind (arith, rw (update_revision_alias, there, free, changed) at moved) in
                  (rw (update_revision_alias, there, free, changed) refl, changed ∙ ap some same)
            ]
          ]
    ]

-- It gives the revision with the number the alias, and leaves the workflows.
set_alias-moved :
    (s : MemoryStore) (now : Time) (id : String) (n : ℕ) (alias : String) (r : RevisionRecord)
    → (set_alias s now id n alias).1 ≡ some r
    → ((set_alias s now id n alias).0.workflows ≡ s.workflows)
      × (get_revision (set_alias s now id n alias).0 id n ≡ some r)
      × (r.revision_id ≡ n)
      × (r.revision_alias ≡ alias)
unfolding set_alias get_revision
set_alias-moved s now id n alias r changed =
    elim (Option-cases (find (numbered n) (listed s.revisions id))) [
      | inl missing ↦ absurd (grind (arith, rw (set_alias, missing) at changed))
      | inr (old, found) ↦
          let same : realiased now alias old ≡ r =
            grind (arith, rw (set_alias, found) at changed) in
          let number = find-passes (numbered n) (listed s.revisions id) old found in
          rw
            (
              ← same,
              set_alias,
              found,
              get_revision,
              listed-put_self s.revisions id
                  (change_first (numbered n) (realiased now alias) (listed s.revisions id)),
            )
            (
              refl,
              find-change_first (numbered n) (realiased now alias) (listed s.revisions id) old found
                  number,
              (==_iff old.revision_id n).0 number,
              refl,
            )
    ]

-- In a store that calls have made from a new one: where UpdateRevisionAlias moves an alias, which is
-- not empty, to a revision, CreateExecution with that alias, of a workflow that is published, starts
-- an execution of this revision, under this alias.
pub moved_alias-runs :
    (ids : IdGenerator) (requests : List Request) (moved now : Time) (uuid id alias : String)
    (input : ExecutionInput) (w : WorkflowRecord) (n : ℕ) (r : RevisionRecord)
    → Dict.get (serve_all (new_memory_store ids) requests).workflows id ≡ some w
    → w.publish ≡ true
    → str_eq alias "" ≡ false
    → (update_revision_alias (serve_all (new_memory_store ids) requests) moved id n alias).1 ≡ ok r
    → input.revision_id ≡ none
    → input.revision_alias ≡ alias
    → (e : ExecutionRecord) × ((create_execution
          (update_revision_alias (serve_all (new_memory_store ids) requests) moved id n alias).0
          now
          uuid
          id
          input).1
        ≡ ok e)
      × (e.revision ≡ n)
      × (e.revision_alias ≡ alias)
unfolding new_execution
moved_alias-runs ids requests moved now uuid id alias input w n r there publish named success by_id
      by_alias =
    let s = serve_all (new_memory_store ids) requests in
    let (same, set) = update_revision_alias-set_alias s moved id n alias r success in
    let (workflows, found, number, name) = set_alias-moved s moved id n alias r set in
    let h =
      update_revision_alias-IsWellFormed s moved id n alias (serve_all-IsWellFormed ids requests) in
    (
      new_execution now uuid w input id r,
      create_execution-aliased (update_revision_alias s moved id n alias).0 now uuid id alias input
          w n r h (rw (same, workflows) there) publish (rw same found) name named by_id by_alias,
      number,
      name,
    )
