-- ===== src/Workflows/Runbook/Runner.antt =====
-- The Runner of workflows/runbook/runner.go. What it needs of an expr.Env, of the call functions and of
-- the context is the record Surroundings; the branches and the items of a parallel step run in their
-- order, which is one of the orders that its goroutines may take, and its own timeout is left out.
pub mod Exec
pub mod Signals
pub mod Traces
pub mod Looks
pub mod Termination
use sakumock.Workflows.Expr.Syntax
use sakumock.Workflows.Expr.Syntax.{
  Value, Values, Entries, null, no_values, value, no_entries, entry,
}
use sakumock.Workflows.Expr.Value.{Floats, truthy}
use sakumock.Workflows.Runbook.{
  Assignment, CallStep, Steps, Step, Switch, Cases, For, Parallel, Branches, Try, no_steps, named,
  step, no_switch, switch, no_cases, switch_case, no_for, for_step, no_parallel, parallel_step,
  no_branches, branch, no_try, try_step,
}
use sakumock.Prelude.{
  ℕ, zero, suc, ◌+◌, String, List, [], ◌∷◌, Bool, true, false, Option, none, some, Result, ok, err,
  str_eq, concat, if◌then◌else◌,
}

-- The operations of another part: on an Env, the call functions by name, the error of the context at
-- the n-th look at it, and what fmt.Errorf prints for %q. An evaluation and a call function give `none`
-- where they do not return.
pub record Surroundings (Env : Type 0) : Type 0 where
  pub eval_interpolated : String → Env → Env × Option (Result String Value)
  pub set : String → Value → Env → Env
  pub clone : Env → Env
  pub call_func : String → Option (CallStep → Env → Env × Option (Result String Value))
  pub context_error : ℕ → Option String
  pub quote : String → String

pub data EventType : Type 0 where
  workflow_will_start workflow_did_complete workflow_did_fail workflow_did_cancel : EventType
  step_will_execute step_did_execute : EventType
  function_will_call function_did_run function_did_fail : EventType

pub record Event : Type 0 where
  pub typ : EventType
  pub step_name : String
  pub meta : String

-- An error: a returnSignal, a nextSignal or another, by its text. One more stands
-- for a run that goes on: the fuel runs out, or an evaluation or a call does not return.
pub data Signal : Type 0 where
  return_signal : Value → Signal
  next_signal failure : String → Signal
  out_of_fuel : Signal

-- The events come latest first; `looks` counts the calls of ctx.Err().
pub record Run (Env : Type 0) : Type 0 where
  pub env : Env
  pub looks : ℕ
  pub events : List Event

abbrev pub Ran : Type 0 → Type 0
Ran Env = Run Env × Option Signal

-- if step.Next != "" { return &nextSignal{target: step.Next} }; return nil
abbrev pub next_or_nil : {Env : Type 0} → String → Run Env → Ran Env
next_or_nil next st = (st, if str_eq next "" then none else some (next_signal next))

abbrev pub emit : {Env : Type 0} → EventType → String → String → Run Env → Run Env
emit typ name meta st = record st {
  events = record { typ = typ; step_name = name; meta = meta } ∷ st.events;
}

-- The steps from the first with a name
unfoldable pub from_step : String → Steps → Option Steps
from_step target no_steps = none
from_step target (named name s steps) =
    let rest = from_step target steps in
    if str_eq name target then some (named name s steps) else rest

module _ {Env : Type 0} (F : Floats) (x : Surroundings Env) where
  -- ctx.Err(), and the rest of a function, where it is nil
  unfoldable pub unless_ended : Run Env → (Run Env → Ran Env) → Ran Env
  unless_ended st go_on =
      let st' = record st { looks = st.looks + 1 } in
      elim (x.context_error st.looks) [ none ↦ go_on st' | some e ↦ (st', some (failure e)) ]

  -- expr.EvalInterpolated, and the rest of a function, where it gives no error
  unfoldable pub evaluated : String → String → Run Env → (Run Env → Value → Ran Env) → Ran Env
  evaluated what text st go_on =
      let (env, result) = x.eval_interpolated text st.env in
      elim result [
        | none ↦ (record st { env = env }, some out_of_fuel)
        | some (ok v) ↦ go_on (record st { env = env }) v
        | some (err e) ↦ (record st { env = env }, some (failure (concat what e)))
      ]

  unfoldable pub set_var : String → Value → Run Env → Run Env
  set_var name v st = record st { env = x.set name v st.env }

  -- execAssign
  unfoldable pub exec_assigns : List Assignment → String → Run Env → Ran Env
  unfolding set_var
  exec_assigns [] next st = next_or_nil next st
  exec_assigns (a ∷ assigns) next st =
      evaluated (concat "assign " (concat a.name ": ")) a.expression st
        λ st v. exec_assigns assigns next (set_var a.name v st)

  -- execReturn, and the return of a case and of an except, whose errors have other prefixes
  unfoldable pub exec_return : String → String → Run Env → Ran Env
  exec_return what text st = evaluated what text st λ st v. (st, some (return_signal v))

  -- execCall
  unfoldable pub exec_call : CallStep → String → Run Env → Ran Env
  unfolding set_var
  exec_call call next st =
      let st' = emit EventType.function_will_call "" call.func st in
      elim (x.call_func call.func) [
        | none ↦ (st', some (failure (concat "unknown call function: " call.func)))
        | some fn ↦
            let (env, result) = fn call st'.env in
            let st'' = record st' { env = env } in
            elim result [
              | none ↦ (st'', some out_of_fuel)
              | some (err e) ↦ (
                emit EventType.function_did_fail "" (concat call.func (concat ": " e)) st'',
                some (failure (concat "call " (concat call.func (concat ": " e)))),
              )
              | some (ok v) ↦
                  let ran = emit EventType.function_did_run "" call.func st'' in
                  next_or_nil next
                    (if str_eq call.result "" then ran else set_var call.result v ran)
            ]
      ]

  -- The loop over p.Shared, and the rest of execParallel
  unfoldable pub exec_shared : List (String × String) → Run Env → (Run Env → Ran Env) → Ran Env
  unfolding set_var
  exec_shared [] st go_on = go_on st
  exec_shared ((k, text) ∷ shared) st go_on =
      evaluated (concat "parallel shared " (concat k ": ")) text st
        λ st v. exec_shared shared (set_var k v st) go_on

  unfoldable pub append_value : Values → Value → Values
  append_value no_values v = value v no_values
  append_value (value w vs) v = value w (append_value vs v)

  -- The end of a goroutine of a parallel step: its value, or the signal that ends the step
  unfoldable pub joined : Env → Values → Ran Env → (Run Env → Values → Ran Env) → Ran Env
  unfolding append_value
  joined env results (st, none) go_on = go_on (record st { env = env }) (append_value results null)
  joined env results (st, some (return_signal v)) go_on =
      go_on (record st { env = env }) (append_value results v)
  joined env results (st, some signal) go_on = (record st { env = env }, some signal)

  -- err.Error()
  unfoldable pub signal_text : Signal → String
  signal_text (return_signal v) = "return"
  signal_text (next_signal target) = concat "next: " target
  signal_text (failure e) = e
  signal_text out_of_fuel = ""

  -- env.Set("results", expr.Array(results...)), and the end of a parallel step
  unfoldable pub set_results : String → Run Env → Values → Ran Env
  unfolding set_var
  set_results next st results = next_or_nil next (set_var "results" (Value.array results) st)
