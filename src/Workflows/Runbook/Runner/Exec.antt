-- ===== src/Workflows/Runbook/Runner/Exec.antt =====
-- execSteps and execStep of workflows/runbook/runner.go, with the steps that hold steps, and Run. The
-- steps that a step holds are run by an argument, `exec`; each turn of the loop of execSteps takes one
-- of the fuel, and the steps below it run on what is left.
use sakumock.Workflows.Expr.Syntax.{Value, Values, null, no_values, value, no_entries, entry}
use sakumock.Workflows.Expr.Value.{Floats, truthy, type_name}
use sakumock.Workflows.Runbook.{
  Steps, Step, Cases, Branches, no_steps, named, step, no_switch, switch, no_cases, switch_case,
  no_for, for_step, no_parallel, parallel_step, no_branches, branch, no_try, try_step,
}
use sakumock.Workflows.Runbook.Runner.{
  Surroundings, EventType, Signal, return_signal, next_signal, failure, out_of_fuel, Run, Ran,
  next_or_nil, emit, from_step, unless_ended, evaluated, set_var, exec_assigns, exec_return,
  exec_call, exec_shared, joined, signal_text, set_results,
}
use sakumock.Prelude.{
  ℕ, zero, suc, String, [], ◌∷◌, Option, none, some, is_some, str_eq, concat, if◌then◌else◌,
}

module _ {Env : Type 0} (F : Floats) (x : Surroundings Env) where
  module _ (exec : Steps → Run Env → Ran Env) where
    -- if len(steps) > 0 { _, err := r.execSteps(ctx, env, steps); return err }; return nil
    unfoldable pub exec_inner : Steps → Run Env → Ran Env
    exec_inner no_steps st = (st, none)
    exec_inner (named name s steps) st = exec (named name s steps) st

    -- A case whose condition holds
    unfoldable pub exec_case : Steps → String → Option String → Run Env → Ran Env
    unfolding exec_inner
    exec_case steps next (some text) st = exec_return F x "switch return: " text st
    exec_case steps next none st =
        if str_eq next "" then exec_inner steps st else (st, some (next_signal next))

    -- execSwitch
    unfoldable pub exec_cases : Cases → String → Run Env → Ran Env
    unfolding exec_case
    exec_cases no_cases next st = next_or_nil next st
    exec_cases (switch_case condition steps case_next ret cases) next st =
        evaluated F x "switch condition: " condition st
          λ st v. if truthy F v then exec_case steps case_next ret st else exec_cases cases next st

    -- execFor, of the items of In
    unfoldable pub exec_items : Values → String → Steps → String → Run Env → Ran Env
    exec_items no_values as_ steps next st = next_or_nil next st
    exec_items (value item items) as_ steps next st = unless_ended F x st λ st.
        let (st', signal) = exec steps (set_var F x as_ item st) in
        elim signal [
          | none ↦ exec_items items as_ steps next st'
          | some signal ↦ (st', some signal)
        ]

    unfoldable pub exec_for : Value → String → Steps → String → Run Env → Ran Env
    unfolding exec_items
    exec_for (Value.array items) as_ steps next st = exec_items items as_ steps next st
    exec_for v as_ steps next st =
        (st, some (failure (concat "for in: expected array, got " (type_name v))))

    -- execParallelBranches
    unfoldable pub exec_branches : Branches → String → Run Env → Values → Ran Env
    exec_branches no_branches next st results = set_results F x next st results
    exec_branches (branch name steps branches) next st results =
        joined F x st.env results (exec steps (record st { env = x.clone st.env }))
          λ st results. exec_branches branches next st results

    -- execParallelIteration, of the items of In
    unfoldable pub exec_each : Values → String → Steps → String → Run Env → Values → Ran Env
    exec_each no_values as_ steps next st results = set_results F x next st results
    exec_each (value item items) as_ steps next st results =
        joined F x st.env results (exec steps (record st { env = x.set as_ item (x.clone st.env) }))
          λ st results. exec_each items as_ steps next st results

    unfoldable pub exec_iteration : Value → String → Steps → String → Run Env → Ran Env
    unfolding exec_each
    exec_iteration (Value.array items) as_ steps next st =
        exec_each items as_ steps next st no_values
    exec_iteration v as_ steps next st =
        (st, some (failure (concat "parallel in: expected array, got " (type_name v))))

    -- execParallel, past the shared variables
    unfoldable pub exec_parallel : Branches → String → String → Steps → String → Run Env → Ran Env
    unfolding exec_branches exec_iteration
    exec_parallel (branch name steps branches) in_ as_ each next st =
        exec_branches (branch name steps branches) next st no_values
    exec_parallel no_branches in_ as_ steps next st =
        if str_eq in_ ""
        then (st, none)
        else evaluated F x "parallel in: " in_ st λ st v. exec_iteration v as_ steps next st

    unfoldable pub exec_except : Steps → Option String → Run Env → Ran Env
    unfolding exec_inner
    exec_except steps (some text) st = exec_return F x "except return: " text st
    exec_except steps none st = exec_inner steps st

    unfoldable pub caught : String → Steps → Option String → Signal → Run Env → Ran Env
    unfolding exec_except
    caught as_ steps ret signal st =
        let message = entry "message" (Value.string (signal_text F x signal)) no_entries in
        exec_except steps ret
          (if str_eq as_ "" then st else set_var F x as_ (Value.object message) st)

    -- execTry, past the steps. Fuel that runs out is no error of the program.
    unfoldable pub after_try : String → Steps → Option String → String → Ran Env → Ran Env
    unfolding caught
    after_try as_ steps ret next (st, none) = next_or_nil next st
    after_try as_ steps ret next (st, some (return_signal v)) = (st, some (return_signal v))
    after_try as_ steps ret next (st, some out_of_fuel) = (st, some out_of_fuel)
    after_try as_ steps ret next (st, some signal) = caught as_ steps ret signal st

    -- execStep: the first part that is there
    unfoldable pub exec_step : Step → Run Env → Ran Env
    unfolding exec_cases exec_for exec_parallel after_try
    exec_step (step (a ∷ assigns) ret call sw loop par attempt next) st =
        exec_assigns F x (a ∷ assigns) next st
    exec_step (step [] (some text) call sw loop par attempt next) st =
        exec_return F x "return: " text st
    exec_step (step [] none (some call) sw loop par attempt next) st = exec_call F x call next st
    exec_step (step [] none none (switch cases) loop par attempt next) st = exec_cases cases next st
    exec_step (step [] none none no_switch (for_step in_ as_ steps) par attempt next) st =
        evaluated F x "for in: " in_ st λ st v. exec_for v as_ steps next st
    exec_step
          (step [] none none no_switch no_for
            (parallel_step shared limit branches in_ as_ steps)
            attempt
            next)
          st =
        exec_shared F x shared st λ st. exec_parallel branches in_ as_ steps next st
    exec_step
          (step [] none none no_switch no_for no_parallel
            (try_step steps as_ except_steps except_return)
            next)
          st =
        after_try as_ except_steps except_return next (exec steps st)
    exec_step (step [] none none no_switch no_for no_parallel no_try next) st = next_or_nil next st

  -- The rest of a turn of the loop of execSteps; `again` goes on from a step.
  unfoldable pub after_step :
      (Steps → Run Env → Ran Env) → Steps → String → Steps → Ran Env → Ran Env
  after_step again steps name rest (st, none) =
      again rest (emit EventType.step_did_execute name "" st)
  after_step again steps name rest (st, some (next_signal target)) = elim (from_step target steps) [
    | some there ↦ again there st
    | none ↦ (
      st,
      some (
          failure (
            concat "step " (
              concat (x.quote target)
                (concat " not found (next from " (concat (x.quote name) ")"))))),
    )
  ]
  after_step again steps name rest (st, some signal) = (st, some signal)

  -- The loop, over all the steps, from the i-th on
  unfoldable pub exec_loop : ℕ → Steps → Steps → Run Env → Ran Env
  exec_loop zero steps rest st = (st, some out_of_fuel)
  exec_loop (suc fuel) steps no_steps st = (st, none)
  exec_loop (suc fuel) steps (named name s rest) st =
      let exec =
        λ (steps : Steps) (st : Run Env). unless_ended F x st (exec_loop fuel steps steps) in
      unless_ended F x st λ st.
        after_step (exec_loop fuel steps) steps name rest
          (exec_step exec s (emit EventType.step_will_execute name "" st))

  -- execSteps
  unfoldable pub exec_steps : ℕ → Steps → Run Env → Ran Env
  exec_steps fuel steps st = unless_ended F x st (exec_loop fuel steps steps)

  -- The Result of Run: the error, or the value; `none` where the fuel runs out
  unfoldable pub result_of : Ran Env → Run Env × Option (Option String × Value)
  unfolding signal_text
  result_of (st, none) = (emit EventType.workflow_did_complete "" "" st, some (none, null))
  result_of (st, some (return_signal v)) =
      (emit EventType.workflow_did_complete "" "" st, some (none, v))
  result_of (st, some out_of_fuel) = (st, none)
  result_of (st, some signal) =
      let text = signal_text F x signal in
      let st' = record st { looks = suc st.looks } in
      if is_some (x.context_error st.looks)
      then (emit EventType.workflow_did_cancel "" text st', some (some text, null))
      else (emit EventType.workflow_did_fail "" text st', some (some text, null))

  -- Run, with the value of args; the event of a return leaves out the text of the value.
  unfoldable pub run : ℕ → Steps → Value → Env → Run Env × Option (Option String × Value)
  unfolding result_of
  run fuel steps args env = result_of (
      exec_steps fuel steps (
        emit EventType.workflow_will_start "" ""
          (record { env = x.set "args" args env; looks = 0; events = [] })))
