-- ===== src/Workflows/Executor/Outcomes.antt =====
-- What the store of workflows/ has of an execution after its goroutine of executor.go, among the calls
-- that other goroutines make meanwhile.
use sakumock.Workflows.Executor.{
  RunResult, failed, returned, running_update, finished_update, start_call, finish_call,
}
use sakumock.Workflows.Store.Records.{
  Time, ExecutionRecord, ExecutionInput, ExecutionStatusUpdate, WorkflowRecord, RevisionRecord,
}
use sakumock.Workflows.Store.{MemoryStore, listed, is_active}
use sakumock.Workflows.Store.Executions.{
  get_execution, create_execution, cancel_execution, canceled, update_execution_status,
  change_execution, updated, identified, new_execution,
}
use sakumock.Workflows.Store.Requests.{Request, serve, serve_all}
use sakumock.Workflows.Store.Active.{spares, serve_all-kept}
use sakumock.Workflows.Store.Cases.{create_execution-cases}
use sakumock.Workflows.Store.WellFormed.{listed-put_self}
use sakumock.Prelude.{
  ◌≡◌, refl, ap, ◌∙◌, String, List, [], ◌∷◌, ◌++◌, true, false, none, some, ok, arith, All, str_eq,
  change_first, find-change_first, find-passes, find-append_none, eq_refl, inl, inr, string_eq,
}

update-get :
    (s : MemoryStore) (now : Time) (id exec : String) (update : ExecutionStatusUpdate)
    (e : ExecutionRecord)
    → get_execution s id exec ≡ some e
    → get_execution (update_execution_status s now id exec update).0 id exec
      ≡ some (updated now update e)
unfolding update_execution_status get_execution change_execution updated
update-get s now id exec update e h =
    rw
      (
        update_execution_status,
        h,
        listed-put_self s.executions id
            (change_first (identified exec) (updated now update) (listed s.executions id)),
      )
      (find-change_first (identified exec) (updated now update) (listed s.executions id) e h
        (find-passes (identified exec) (listed s.executions id) e h))

serve_all-append :
    (xs ys : List Request) (s : MemoryStore)
    → serve_all s (xs ++ ys) ≡ serve_all (serve_all s xs) ys
unfolding serve_all
serve_all-append [] ys s = refl
serve_all-append (x ∷ xs) ys s = serve_all-append xs ys (serve s x)

cancel-get :
    (s : MemoryStore) (now : Time) (id exec : String) (e : ExecutionRecord)
    → get_execution s id exec ≡ some e
    → e.status ≡ "Queued"
    → get_execution (cancel_execution s now id exec).0 id exec ≡ some (canceled now e)
unfolding cancel_execution get_execution change_execution canceled
cancel-get s now id exec e h queued =
    rw
      (
        cancel_execution,
        h,
        queued,
        listed-put_self s.executions id
            (change_first (identified exec) (canceled now) (listed s.executions id)),
      )
      (find-change_first (identified exec) (canceled now) (listed s.executions id) e h
        (find-passes (identified exec) (listed s.executions id) e h))

-- A cancellation does not hold: an execution that is canceled while its goroutine has not made its
-- first call has the status Running after this call, with the time of its cancellation.
pub canceled_runs :
    (s : MemoryStore) (now started later : Time) (id exec : String) (e : ExecutionRecord)
    → get_execution s id exec ≡ some e
    → e.status ≡ "Queued"
    → get_execution
        (serve_all s (Request.cancel_execution now id exec ∷ start_call started later id exec ∷ []))
        id
        exec
      ≡ some (record e {
        status = "Running";
        run_at = some started;
        updated_at = later;
        cancel_requested_at = some now;
        canceled_at = some now;
      })
unfolding serve_all serve start_call updated running_update canceled
canceled_runs s now started later id exec e h queued =
    update-get (cancel_execution s now id exec).0 later id exec (running_update started)
      (canceled now e) (cancel-get s now id exec e h queued)

queued-active :
    (now : Time) (uuid : String) (w : WorkflowRecord) (input : ExecutionInput) (id : String)
    (rev : RevisionRecord)
    → input.initial_status ≡ "Queued"
    → is_active (new_execution now uuid w input id rev) ≡ true
unfolding new_execution is_active
queued-active now uuid w input id rev queued = rw queued refl

new_execution-identified :
    (now : Time) (uuid : String) (w : WorkflowRecord) (input : ExecutionInput) (id : String)
    (rev : RevisionRecord)
    → identified uuid (new_execution now uuid w input id rev) ≡ true
unfolding new_execution
new_execution-identified now uuid w input id rev = eq_refl uuid

-- A new execution is found, and is active, where it is created as Queued under a new UUID.
pub create_execution-queued :
    (s : MemoryStore) (now : Time) (uuid id : String) (input : ExecutionInput) (e : ExecutionRecord)
    → input.initial_status ≡ "Queued"
    → get_execution s id uuid ≡ none
    → (create_execution s now uuid id input).1 ≡ ok e
    → (get_execution (create_execution s now uuid id input).0 id uuid ≡ some e)
      × (is_active e ≡ true)
unfolding get_execution
create_execution-queued s now uuid id input e queued fresh created =
    elim (create_execution-cases s now uuid id input) [
      | inl (wrong, refused) ↦ absurd (grind (arith, rw refused at created))
      | inr (w, rev, there, publish, target, made) ↦
          let exec = new_execution now uuid w input id rev in
          let same : exec ≡ e = grind (arith, rw made at created) in
          rw
            (
              made,
              ← same,
              listed-put_self s.executions id (listed s.executions id ++ exec ∷ []),
              find-append_none (identified uuid) (listed s.executions id) (exec ∷ []) fresh,
              new_execution-identified now uuid w input id rev,
            )
            (refl, queued-active now uuid w input id rev queued)
    ]

running-active :
    (later started : Time) (e : ExecutionRecord)
    → is_active (updated later (running_update started) e) ≡ true
unfolding updated running_update is_active
running-active later started e = refl

-- The text that the runner gives is not empty, as the errors of Go and the texts of json.Marshal are.
abbrev pub IsSpoken : RunResult → Type 0
IsSpoken (failed error ended) = str_eq error "" ≡ false
IsSpoken (returned none) = Unit
IsSpoken (returned (some json)) = str_eq json "" ≡ false

-- The record of an execution after its run
pub recorded : Time → Time → Time → RunResult → ExecutionRecord → ExecutionRecord
recorded started finished later (failed error true) e = record e {
  status = "Canceled";
  error = error;
  run_at = some started;
  updated_at = later;
}
recorded started finished later (failed error false) e = record e {
  status = "Failed";
  error = error;
  run_at = some started;
  failed_at = some finished;
  updated_at = later;
}
recorded started finished later (returned none) e = record e {
  status = "Succeeded";
  result = "null";
  run_at = some started;
  succeeded_at = some finished;
  updated_at = later;
}
recorded started finished later (returned (some json)) e = record e {
  status = "Succeeded";
  result = json;
  run_at = some started;
  succeeded_at = some finished;
  updated_at = later;
}

updated-recorded :
    (started started' finished later : Time) (result : RunResult) (e : ExecutionRecord)
    → IsSpoken result
    → updated later (finished_update finished result) (updated started' (running_update started) e)
      ≡ recorded started finished later result e
unfolding updated finished_update running_update recorded
updated-recorded started started' finished later (failed error true) e spoken = rw spoken refl
updated-recorded started started' finished later (failed error false) e spoken = rw spoken refl
updated-recorded started started' finished later (returned none) e spoken = refl
updated-recorded started started' finished later (returned (some json)) e spoken = rw spoken refl

module _ (created started started' finished later : Time) (uuid id : String)
    (input : ExecutionInput) (result : RunResult) where
  -- An execution that is created as Queued, under a new UUID, and run by its goroutine: the store has
  -- it in the end with the outcome of the runner and the times of the run, whatever calls come in
  -- between, as long as they do not set its status; and it is not lost before. The texts of the
  -- runner are not empty.
  pub run-recorded :
      (waiting running : List Request) (s : MemoryStore) (e : ExecutionRecord)
      → input.initial_status ≡ "Queued"
      → get_execution s id uuid ≡ none
      → (create_execution s created uuid id input).1 ≡ ok e
      → All (λ r. spares id uuid r ≡ true) waiting
      → All (λ r. spares id uuid r ≡ true) running
      → IsSpoken result
      → get_execution
          (serve_all (create_execution s created uuid id input).0 (
            waiting
            ++ start_call started started' id uuid
              ∷ (running ++ finish_call finished later id uuid result ∷ [])))
          id
          uuid
        ≡ some (recorded started finished later result e)
  unfolding serve_all serve start_call finish_call
  run-recorded waiting running s e queued fresh made spare_waiting spare_running spoken =
      let (found, active) = create_execution-queued s created uuid id input e queued fresh made in
      let s1 = (create_execution s created uuid id input).0 in
      let s2 = serve_all s1 waiting in
      let waited = serve_all-kept waiting s1 id uuid e found active spare_waiting in
      let began = update-get s2 started' id uuid (running_update started) e waited in
      let s3 = (update_execution_status s2 started' id uuid (running_update started)).0 in
      let s4 = serve_all s3 running in
      let ran =
        serve_all-kept running s3 id uuid (updated started' (running_update started) e) began
          (running-active started' started e) spare_running in
      let ended =
        update-get s4 later id uuid (finished_update finished result)
          (updated started' (running_update started) e) ran in
      ap (λ t. get_execution t id uuid)
        (serve_all-append waiting
          (start_call started started' id uuid
            ∷ (running ++ finish_call finished later id uuid result ∷ []))
          s1)
      ∙ ap (λ t. get_execution t id uuid)
          (serve_all-append running (finish_call finished later id uuid result ∷ []) s3)
      ∙ ended
      ∙ ap some (updated-recorded started started' finished later result e spoken)
