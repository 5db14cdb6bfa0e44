-- ===== src/Workflows/RunbookTests.antt =====
-- The theorems on the runbooks of workflows/ at concrete inputs.
use sakumock.Workflows.Expr.Syntax.{null}
use sakumock.Workflows.EvalTests.{floats}
use sakumock.Workflows.Runbook.{
  Steps, Step, no_steps, named, step, no_switch, no_for, no_parallel, no_try, try_step,
}
use sakumock.Workflows.Runbook.Validate.{validate, max_steps, max_switches_per_runbook}
use sakumock.Workflows.Runbook.Counts.{all_steps, all_switches, fits}
use sakumock.Workflows.Runbook.Limits.{validate-fits}
use sakumock.Workflows.Runbook.Runner.{Surroundings, Run}
use sakumock.Workflows.Runbook.Runner.Exec.{exec_steps}
use sakumock.Workflows.Runbook.Runner.Signals.{is_next}
use sakumock.Workflows.Runbook.Runner.Traces.{Runs, exec_steps-Runs}
use sakumock.Prelude.{
  ℕ, ◌+◌, ◌≤◌, ◌≡◌, ◌↔◌, refl, String, [], true, false, none, some, ok, is_some, leb, if◌then◌else◌,
}

abbrev jump : String → Step
jump next = step [] none none no_switch no_for no_parallel no_try next

-- A runbook that jumps back for ever, in a try step whose except steps are one more jump
abbrev forever : Steps
forever =
    named "first"
      (step [] none none no_switch no_for no_parallel
        (try_step (named "a" (jump "a") no_steps) "" (named "b" (jump "first") no_steps) none) "")
      (named "second" (jump "first") no_steps)

-- An Env that counts its variables, and a context that ends at the third look
abbrev surroundings : Surroundings ℕ
surroundings = record {
  eval_interpolated = λ text env. (env, some (ok null));
  set = λ name v env. env + 1;
  clone = λ env. env;
  call_func = λ name. none;
  context_error = λ n. if leb 3 n then some "context canceled" else none;
  quote = λ text. text;
}

abbrev at_start : Run ℕ
at_start = record { env = 0; looks = 0; events = [] }

exec_steps-Runs_example :
    Runs floats surroundings 9 forever at_start (exec_steps floats surroundings 9 forever at_start)
    × (is_next (exec_steps floats surroundings 9 forever at_start).1 ≡ false)
exec_steps-Runs_example = exec_steps-Runs floats surroundings 9 forever at_start

validate-fits_example : (validate forever ≡ none) ↔ (
    (fits forever 0 ≡ true)
    × (all_steps forever ≤ max_steps)
    × (all_switches forever ≤ max_switches_per_runbook))
validate-fits_example = validate-fits forever

accepted : validate forever ≡ none
unfolding validate
accepted = refl

-- A name of 11 characters, of three bytes each
many_bytes : is_some (validate (named "あいうえおかきくけこさ" (jump "") no_steps)) ≡ true
unfolding validate
many_bytes = refl
