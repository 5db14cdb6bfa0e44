-- ===== src/Workflows/Runbook/Runner/Traces.antt =====
-- The order in which execSteps of workflows/runbook/runner.go takes its steps, as a relation.
use mathlib.Core.Option.{some-injective}
use mathlib.Core.Path.{subst}
use sakumock.Workflows.Expr.Value.{Floats}
use sakumock.Workflows.Runbook.{Steps, Step, no_steps, named}
use sakumock.Workflows.Runbook.Runner.{
  Surroundings, EventType, Signal, return_signal, next_signal, failure, out_of_fuel, Run, Ran, emit,
  from_step, unless_ended,
}
use sakumock.Workflows.Runbook.Runner.Exec.{after_step, exec_loop, exec_step, exec_steps}
use sakumock.Workflows.Runbook.Runner.Signals.{is_next, exec_steps-is_next}
use sakumock.Prelude.{
  ℕ, zero, suc, ◌+◌, ◌≡◌, ◌≢◌, refl, String, false, none, some, str_eq, eq_iff, str_ne, Bool-cases,
  Option-cases, inl, inr,
}

-- The steps from the first one that has a name
pub data First (target : String) : Steps → Steps → Type 0 where
  here : {s : Step} {rest : Steps} → First target (named target s rest) (named target s rest)
  past :
      {name : String} {s : Step} {rest there : Steps}
      → name ≢ target
      → First target rest there
      → First target (named name s rest) there

unfoldable pub IsNowhere : String → Steps → Type 0
IsNowhere target no_steps = Unit
IsNowhere target (named name s rest) = (name ≢ target) × IsNowhere target rest

module _ {Env : Type 0} (F : Floats) (x : Surroundings Env) where
  -- A step runs, the steps in it with a fuel, after a look at the context.
  abbrev pub turn : ℕ → String → Step → Run Env → Ran Env
  turn fuel name s st =
      exec_step F x (exec_steps F x fuel) s
        (emit EventType.step_will_execute name "" (record st { looks = st.looks + 1 }))

-- The loop of execSteps over `steps`, from some of them on, with a fuel: what comes of it
pub data Trace {Env : Type 0} (F : Floats) (x : Surroundings Env) (steps : Steps)
    : ℕ → Steps → Run Env → Ran Env → Type 0 where
  no_fuel : {rest : Steps} {st : Run Env} → Trace F x steps zero rest st (st, some out_of_fuel)
  at_end : {fuel : ℕ} {st : Run Env} → Trace F x steps (suc fuel) no_steps st (st, none)
  -- The context has ended.
  ended :
      {fuel : ℕ} {name : String} {s : Step} {rest : Steps} {st : Run Env} {e : String}
      → x.context_error st.looks ≡ some e
      → Trace F x steps
          (suc fuel)
          (named name s rest)
          st
          (record st { looks = st.looks + 1 }, some (failure e))
  -- The step ends the loop, by a return or an error.
  stopped :
      {fuel : ℕ} {name : String} {s : Step} {rest : Steps} {st st' : Run Env} {signal : Signal}
      → x.context_error st.looks ≡ none
      → turn F x fuel name s st ≡ (st', some signal)
      → is_next (some signal) ≡ false
      → Trace F x steps (suc fuel) (named name s rest) st (st', some signal)
  -- The loop goes on with the step after it.
  went_on :
      {fuel : ℕ} {name : String} {s : Step} {rest : Steps} {st st' : Run Env} {ran : Ran Env}
      → x.context_error st.looks ≡ none
      → turn F x fuel name s st ≡ (st', none)
      → Trace F x steps fuel rest (emit EventType.step_did_execute name "" st') ran
      → Trace F x steps (suc fuel) (named name s rest) st ran
  -- The step jumps: the loop goes on with the first of all its steps that has the name.
  jumped :
      {fuel : ℕ} {name target : String} {s : Step} {rest there : Steps} {st st' : Run Env}
      {ran : Ran Env}
      → x.context_error st.looks ≡ none
      → turn F x fuel name s st ≡ (st', some (next_signal target))
      → First target steps there
      → Trace F x steps fuel there st' ran
      → Trace F x steps (suc fuel) (named name s rest) st ran
  -- No step of the loop has the name.
  lost :
      {fuel : ℕ} {name target text : String} {s : Step} {rest : Steps} {st st' : Run Env}
      → x.context_error st.looks ≡ none
      → turn F x fuel name s st ≡ (st', some (next_signal target))
      → IsNowhere target steps
      → Trace F x steps (suc fuel) (named name s rest) st (st', some (failure text))

-- execSteps looks at the context first.
pub data Runs {Env : Type 0} (F : Floats) (x : Surroundings Env) (fuel : ℕ) (steps : Steps)
    (st : Run Env) : Ran Env → Type 0 where
  not_begun :
      {e : String}
      → x.context_error st.looks ≡ some e
      → Runs F x fuel steps st (record st { looks = st.looks + 1 }, some (failure e))
  begun :
      {ran : Ran Env}
      → x.context_error st.looks ≡ none
      → Trace F x steps fuel steps (record st { looks = st.looks + 1 }) ran
      → Runs F x fuel steps st ran

from_step-First :
    (target : String) (steps there : Steps)
    → from_step target steps ≡ some there
    → First target steps there
unfolding from_step
from_step-First target no_steps there e = absurd (cc e)
from_step-First target (named name s rest) there e = elim (Bool-cases (str_eq name target)) [
  | inl same ↦
      subst (First target (named name s rest))
        (some-injective (named name s rest) there (rw same at e))
        (rw ((eq_iff name target).0 same) here)
  | inr other ↦ past (str_ne name target other) (from_step-First target rest there (rw other at e))
]

from_step-IsNowhere :
    (target : String) (steps : Steps) → from_step target steps ≡ none → IsNowhere target steps
unfolding from_step IsNowhere
from_step-IsNowhere target no_steps e = tt
from_step-IsNowhere target (named name s rest) e = elim (Bool-cases (str_eq name target)) [
  | inl same ↦ absurd (cc (rw same at e))
  | inr other ↦ (str_ne name target other, from_step-IsNowhere target rest (rw other at e))
]

module _ {Env : Type 0} (F : Floats) (x : Surroundings Env) where
  after_step-Trace :
      (fuel : ℕ) (steps : Steps) (name : String) (s : Step) (rest : Steps) (st : Run Env)
      (ran : Ran Env)
      → x.context_error st.looks ≡ none
      → turn F x fuel name s st ≡ ran
      → ((there : Steps) (st : Run Env)
          → Trace F x steps fuel there st (exec_loop F x fuel steps there st))
      → Trace F x steps
          (suc fuel)
          (named name s rest)
          st
          (after_step F x (exec_loop F x fuel steps) steps name rest ran)
  unfolding after_step
  after_step-Trace fuel steps name s rest st (st', none) live e more = went_on live e (more rest _)
  after_step-Trace fuel steps name s rest st (st', some (next_signal target)) live e more =
      elim (Option-cases (from_step target steps)) [
        | inl missing ↦
            rw (after_step, missing) (lost live e (from_step-IsNowhere target steps missing))
        | inr (there, found) ↦
            rw (after_step, found)
              (jumped live e (from_step-First target steps there found) (more there st'))
      ]
  after_step-Trace fuel steps name s rest st (st', some (return_signal v)) live e more =
      stopped live e refl
  after_step-Trace fuel steps name s rest st (st', some (failure text)) live e more =
      stopped live e refl
  after_step-Trace fuel steps name s rest st (st', some out_of_fuel) live e more =
      stopped live e refl

  exec_loop-Trace :
      (fuel : ℕ) (steps rest : Steps) (st : Run Env)
      → Trace F x steps fuel rest st (exec_loop F x fuel steps rest st)
  unfolding exec_loop unless_ended exec_steps
  exec_loop-Trace zero steps rest st = no_fuel
  exec_loop-Trace (suc fuel) steps no_steps st = at_end
  exec_loop-Trace (suc fuel) steps (named name s rest) st =
      elim (Option-cases (x.context_error st.looks)) [
        | inl live ↦
            rw (exec_loop, unless_ended, live)
              (after_step-Trace fuel steps name s rest st _ live refl (exec_loop-Trace fuel steps))
        | inr (e, over) ↦ rw (exec_loop, unless_ended, over) (ended over)
      ]

  -- execSteps takes its steps in order. A step that jumps is followed by the first step of the same
  -- list that has the name, wherever it stands, and the loop fails where none has; a return or an
  -- error of a step, or the end of the context, ends the loop. So no jump leaves the list that it
  -- stands in.
  pub exec_steps-Runs :
      (fuel : ℕ) (steps : Steps) (st : Run Env)
      → Runs F x fuel steps st (exec_steps F x fuel steps st)
        × (is_next (exec_steps F x fuel steps st).1 ≡ false)
  unfolding exec_steps unless_ended
  exec_steps-Runs fuel steps st = (
    elim (Option-cases (x.context_error st.looks)) [
      | inl live ↦
          rw (exec_steps, unless_ended, live)
            (begun live (exec_loop-Trace fuel steps steps (record st { looks = st.looks + 1 })))
      | inr (e, over) ↦ rw (exec_steps, unless_ended, over) (not_begun over)
    ],
    exec_steps-is_next F x fuel steps st,
  )
