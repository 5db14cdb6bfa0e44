-- ===== src/Workflows/Runbook/Runner/Signals.antt =====
-- The signals that execSteps of workflows/runbook/runner.go gives.
use sakumock.Workflows.Expr.Value.{Floats}
use sakumock.Workflows.Runbook.{Steps, no_steps, named}
use sakumock.Workflows.Runbook.Runner.{
  Surroundings, Signal, return_signal, next_signal, failure, out_of_fuel, Run, Ran, from_step,
  unless_ended,
}
use sakumock.Workflows.Runbook.Runner.Exec.{after_step, exec_loop, exec_steps}
use sakumock.Prelude.{
  ℕ, zero, suc, ◌+◌, ◌≡◌, refl, String, Bool, true, false, Option, none, some, Option-cases, inl,
  inr,
}

-- A nextSignal that is left
abbrev pub is_next : Option Signal → Bool
is_next (some (next_signal target)) = true
is_next signal = false

module _ {Env : Type 0} (F : Floats) (x : Surroundings Env) where
  unless_ended-is_next :
      (st : Run Env) (go_on : Run Env → Ran Env)
      → ((st' : Run Env) → is_next (go_on st').1 ≡ false)
      → is_next (unless_ended F x st go_on).1 ≡ false
  unfolding unless_ended
  unless_ended-is_next st go_on h = elim (Option-cases (x.context_error st.looks)) [
    | inl live ↦ rw (unless_ended, live) (h (record st { looks = st.looks + 1 }))
    | inr (e, ended) ↦ rw (unless_ended, ended) refl
  ]

  after_step-is_next :
      (again : Steps → Run Env → Ran Env) (steps : Steps) (name : String) (rest : Steps)
      (ran : Ran Env)
      → ((there : Steps) (st : Run Env) → is_next (again there st).1 ≡ false)
      → is_next (after_step F x again steps name rest ran).1 ≡ false
  unfolding after_step
  after_step-is_next again steps name rest (st, none) h = h rest _
  after_step-is_next again steps name rest (st, some (next_signal target)) h =
      elim (Option-cases (from_step target steps)) [
        | inl missing ↦ rw (after_step, missing) refl
        | inr (there, found) ↦ rw (after_step, found) (h there st)
      ]
  after_step-is_next again steps name rest (st, some (return_signal v)) h = refl
  after_step-is_next again steps name rest (st, some (failure e)) h = refl
  after_step-is_next again steps name rest (st, some out_of_fuel) h = refl

  exec_loop-is_next :
      (fuel : ℕ) (steps rest : Steps) (st : Run Env)
      → is_next (exec_loop F x fuel steps rest st).1 ≡ false
  unfolding exec_loop
  exec_loop-is_next zero steps rest st = refl
  exec_loop-is_next (suc fuel) steps no_steps st = refl
  exec_loop-is_next (suc fuel) steps (named name s rest) st = unless_ended-is_next st _ λ st'.
      after_step-is_next (exec_loop F x fuel steps) steps name rest _ (exec_loop-is_next fuel steps)

  -- execSteps gives no nextSignal.
  pub exec_steps-is_next :
      (fuel : ℕ) (steps : Steps) (st : Run Env) → is_next (exec_steps F x fuel steps st).1 ≡ false
  unfolding exec_steps
  exec_steps-is_next fuel steps st = unless_ended-is_next st _ (exec_loop-is_next fuel steps steps)
