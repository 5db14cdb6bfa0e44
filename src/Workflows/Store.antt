-- ===== src/Workflows/Store.antt =====
-- MemoryStore of workflows/store_memory.go: the store, its workflows and their revisions. The mutex
-- makes each method one step. The time and the UUIDs that a method draws are arguments. A record is a
-- value, so that the copies of records are the records.
pub mod Records
pub mod Executions
pub mod Revisions
pub mod Requests
pub mod Cases
pub mod WellFormed
pub mod Preservation
pub mod Presence
pub mod Active
pub mod Aliases
use Records.{
  Time, WorkflowRecord, RevisionRecord, ExecutionRecord, SubscriptionRecord, HistoryRecord,
  WorkflowUpdates, StoreError, workflow_not_found, alias_exists, revision_not_found,
  active_executions,
}
use sakumock.Core.IdGenerator
use sakumock.Core.IdGenerator.{IdGenerator}
use sakumock.Dict
use sakumock.Dict.{Dict}
use sakumock.Prelude.{
  ℕ, ◌+◌, String, List, [], ◌∷◌, ◌++◌, Bool, true, false, not, ◌&&◌, ◌||◌, Option, none, some,
  Result, ok, err, leb, ◌==◌, str_eq, is_some, find, any, change_first, last, string_eq,
  if◌then◌else◌,
}

pub record MemoryStore : Type 0 where
  pub workflows : Dict String WorkflowRecord
  pub revisions : Dict String (List RevisionRecord)
  pub executions : Dict String (List ExecutionRecord)
  pub histories : Dict String (List HistoryRecord)
  pub subscription : Option SubscriptionRecord
  pub ids : IdGenerator

-- NewMemoryStore, with the generator that it makes
unfoldable pub new_memory_store : IdGenerator → MemoryStore
new_memory_store ids = record {
  workflows = Dict.empty;
  revisions = Dict.empty;
  executions = Dict.empty;
  histories = Dict.empty;
  subscription = none;
  ids = ids;
}

-- m[k] of a map to slices: nil where the key is missing
unfoldable pub listed : {A : Type 0} → Dict String (List A) → String → List A
listed d k = elim (Dict.get d k) [ none ↦ [] | some l ↦ l ]

-- CreateWorkflow
unfoldable pub create_workflow :
    MemoryStore
    → Time
    → String
    → String
    → String
    → Bool
    → Bool
    → List String
    → String
    → String
    → String
    → MemoryStore × WorkflowRecord
create_workflow s now name description runbook publish logging tags principal mode alias =
    let (ids, id) = IdGenerator.next_id s.ids in
    let w : WorkflowRecord = record {
      id = id;
      name = name;
      description = description;
      publish = publish;
      logging = logging;
      tags = tags;
      service_principal_id = principal;
      concurrency_mode = if str_eq mode "" then "parallel" else mode;
      created_at = now;
      updated_at = now;
    } in
    let rev : RevisionRecord = record {
      revision_id = 1;
      workflow_id = id;
      revision_alias = alias;
      runbook = runbook;
      created_at = now;
      updated_at = now;
    } in
    (
      record s {
        workflows = Dict.put s.workflows id w;
        revisions = Dict.put s.revisions id (rev ∷ []);
        ids = ids;
      },
      w,
    )

-- GetWorkflow: `none` for false
unfoldable pub get_workflow : MemoryStore → String → Option WorkflowRecord
get_workflow s id = Dict.get s.workflows id

insert_by_time : WorkflowRecord → List WorkflowRecord → List WorkflowRecord
insert_by_time w [] = w ∷ []
insert_by_time w (v ∷ ws) =
    let rest = insert_by_time w ws in if leb w.created_at v.created_at then w ∷ v ∷ ws else v ∷ rest

sort_by_time : List WorkflowRecord → List WorkflowRecord
unfolding insert_by_time
sort_by_time [] = []
sort_by_time (w ∷ ws) = insert_by_time w (sort_by_time ws)

-- ListWorkflows. Go does not fix the order of workflows that are created at the same time.
unfoldable pub list_workflows : MemoryStore → List WorkflowRecord
unfolding sort_by_time
list_workflows s = sort_by_time (Dict.values s.workflows)

-- if update != nil { field = *update }
abbrev pub or_old : {A : Type 0} → Option A → A → A
or_old none old = old
or_old (some new) old = new

-- UpdateWorkflow
unfoldable pub update_workflow :
    MemoryStore → Time → String → WorkflowUpdates → MemoryStore × Option WorkflowRecord
update_workflow s now id updates = elim (Dict.get s.workflows id) [
  | none ↦ (s, none)
  | some w ↦
      let w' : WorkflowRecord = record w {
        name = or_old updates.name w.name;
        description = or_old updates.description w.description;
        publish = or_old updates.publish w.publish;
        logging = or_old updates.logging w.logging;
        tags = or_old updates.tags w.tags;
        concurrency_mode = or_old updates.concurrency_mode w.concurrency_mode;
        updated_at = now;
      } in
      (record s { workflows = Dict.put s.workflows id w' }, some w')
]

-- e.Status == "Queued" || e.Status == "Running" || e.Status == "Canceling"
unfoldable pub is_active : ExecutionRecord → Bool
is_active e = str_eq e.status "Queued" || str_eq e.status "Running" || str_eq e.status "Canceling"

remove_histories :
    Dict String (List HistoryRecord) → List ExecutionRecord → Dict String (List HistoryRecord)
remove_histories histories [] = histories
remove_histories histories (e ∷ execs) =
    remove_histories (Dict.remove histories e.execution_id) execs

-- DeleteWorkflow
unfoldable pub delete_workflow : MemoryStore → String → MemoryStore × Option StoreError
unfolding remove_histories
delete_workflow s id =
    if not (is_some (Dict.get s.workflows id))
    then (s, some (workflow_not_found id))
    else if any is_active (listed s.executions id)
    then (s, some active_executions)
    else (
      record s {
        workflows = Dict.remove s.workflows id;
        revisions = Dict.remove s.revisions id;
        executions = Dict.remove s.executions id;
        histories = remove_histories s.histories (listed s.executions id);
      },
      none,
    )

-- The revision with a number, and with an alias
abbrev pub numbered : ℕ → RevisionRecord → Bool
numbered n r = r.revision_id == n

abbrev pub aliased : String → RevisionRecord → Bool
aliased alias r = str_eq r.revision_alias alias

unfoldable pub next_revision_id : Option RevisionRecord → ℕ
next_revision_id none = 1
next_revision_id (some r) = r.revision_id + 1

-- CreateRevision
unfoldable pub create_revision :
    MemoryStore → Time → String → String → String → MemoryStore × Result StoreError RevisionRecord
unfolding next_revision_id
create_revision s now workflow_id runbook alias = elim (Dict.get s.workflows workflow_id) [
  | none ↦ (s, err (workflow_not_found workflow_id))
  | some w ↦
      let revs = listed s.revisions workflow_id in
      if not (str_eq alias "") && any (aliased alias) revs
      then (s, err (alias_exists alias))
      else let rev : RevisionRecord = record {
        revision_id = next_revision_id (last revs);
        workflow_id = workflow_id;
        revision_alias = alias;
        runbook = runbook;
        created_at = now;
        updated_at = now;
      } in
        (
          record s {
            revisions = Dict.put s.revisions workflow_id (revs ++ rev ∷ []);
            workflows = Dict.put s.workflows workflow_id (record w { updated_at = now });
          },
          ok rev,
        )
]

-- GetRevision
unfoldable pub get_revision : MemoryStore → String → ℕ → Option RevisionRecord
get_revision s workflow_id revision_id =
    find (numbered revision_id) (listed s.revisions workflow_id)

-- ListRevisions
unfoldable pub list_revisions : MemoryStore → String → List RevisionRecord
list_revisions s workflow_id = listed s.revisions workflow_id

-- r.RevisionAlias = alias; r.UpdatedAt = now
abbrev pub realiased : Time → String → RevisionRecord → RevisionRecord
realiased now alias r = record r { revision_alias = alias; updated_at = now }

-- The loop of UpdateRevisionAlias and of DeleteRevisionAlias, which gives the revision a new alias
unfoldable pub set_alias :
    MemoryStore → Time → String → ℕ → String → MemoryStore × Option RevisionRecord
set_alias s now workflow_id revision_id alias =
    let revs = listed s.revisions workflow_id in
    elim (find (numbered revision_id) revs) [
      | none ↦ (s, none)
      | some r ↦ (
        record s {
          revisions =
              Dict.put s.revisions workflow_id
                (change_first (numbered revision_id) (realiased now alias) revs);
        },
        some (realiased now alias r),
      )
    ]

-- The test of UpdateRevisionAlias on the other revisions
abbrev pub taken : ℕ → String → RevisionRecord → Bool
taken revision_id alias r = str_eq r.revision_alias alias && not (r.revision_id == revision_id)

-- UpdateRevisionAlias
unfoldable pub update_revision_alias :
    MemoryStore → Time → String → ℕ → String → MemoryStore × Result StoreError RevisionRecord
update_revision_alias s now workflow_id revision_id alias =
    let (s', changed) = set_alias s now workflow_id revision_id alias in
    if not (is_some (Dict.get s.workflows workflow_id))
    then (s, err (workflow_not_found workflow_id))
    else if not (str_eq alias "") && any (taken revision_id alias) (listed s.revisions workflow_id)
    then (s, err (alias_exists alias))
    else elim changed [ none ↦ (s', err (revision_not_found revision_id)) | some r ↦ (s', ok r) ]

-- DeleteRevisionAlias
unfoldable pub delete_revision_alias :
    MemoryStore → Time → String → ℕ → MemoryStore × Option RevisionRecord
delete_revision_alias s now workflow_id revision_id = set_alias s now workflow_id revision_id ""
