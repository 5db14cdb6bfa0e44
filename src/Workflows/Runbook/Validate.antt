-- ===== src/Workflows/Runbook/Validate.antt =====
-- The validator of workflows/runbook/validate.go.
use sakumock.Workflows.Runbook.{
  Steps, Step, Switch, Cases, For, Parallel, Branches, Try, no_steps, named, step, no_switch,
  switch, no_cases, switch_case, no_for, for_step, no_parallel, parallel_step, no_branches, branch,
  no_try, try_step, steps_length, cases_length,
}
use sakumock.Prelude.{
  ℕ, ◌+◌, String, Bool, Option, none, some, ltb, is_some, codes, byte_length, if◌then◌else◌,
}

abbrev pub max_steps : ℕ
max_steps = 5000

abbrev pub max_step_name_len : ℕ
max_step_name_len = 31

abbrev pub max_switch_branches : ℕ
max_switch_branches = 50

abbrev pub max_switches_per_runbook : ℕ
max_switches_per_runbook = 10

abbrev pub max_parallel_steps : ℕ
max_parallel_steps = 100

abbrev pub max_parallel_depth : ℕ
max_parallel_depth = 2

-- The errors, with what they print but the limit
pub data LimitError : Type 0 where
  long_name : String → ℕ → LimitError
  many_branches too_deep many_steps many_switches : ℕ → LimitError
  long_branch : String → ℕ → LimitError

pub record Validator : Type 0 where
  pub step_count : ℕ
  pub switch_count : ℕ
  pub failure : Option LimitError

-- v.err != nil
abbrev pub failed : Validator → Bool
failed v = is_some v.failure

abbrev pub fail : Validator → LimitError → Validator
fail v e = record v { failure = some e }

-- len(name)
abbrev pub name_length : String → ℕ
name_length name = byte_length (codes name)

unfoldable mutual
  -- walkSteps, whose last argument is the validator
  pub walk_steps : Steps → ℕ → Validator → Validator
  walk_steps no_steps depth v = v
  walk_steps (named name s steps) depth v =
      let counted = record v { step_count = v.step_count + 1 } in
      let rest = walk_steps steps depth (walk_step s depth counted) in
      if failed v
      then v
      else if ltb max_step_name_len (name_length name)
      then fail counted (long_name name (name_length name))
      else rest

  -- walkStep: the parts of a step one after the other. A return in a part leaves the function, so that
  -- the parts past it are the argument `rest`.
  pub walk_step : Step → ℕ → Validator → Validator
  walk_step (step assign value call sw loop par attempt next) depth v =
      if failed v
      then v
      else walk_switch sw depth v
          λ v. walk_parallel par depth (walk_for loop depth v) λ v. walk_try attempt depth v

  pub walk_switch : Switch → ℕ → Validator → (Validator → Validator) → Validator
  walk_switch no_switch depth v rest = rest v
  walk_switch (switch cases) depth v rest =
      let counted = record v { switch_count = v.switch_count + 1 } in
      if ltb max_switch_branches (cases_length cases)
      then fail counted (many_branches (cases_length cases))
      else rest (walk_cases cases depth counted)

  pub walk_cases : Cases → ℕ → Validator → Validator
  walk_cases no_cases depth v = v
  walk_cases (switch_case condition steps next value cases) depth v =
      walk_cases cases depth (walk_steps steps depth v)

  pub walk_for : For → ℕ → Validator → Validator
  walk_for no_for depth v = v
  walk_for (for_step in_ as_ steps) depth v = walk_steps steps depth v

  pub walk_parallel : Parallel → ℕ → Validator → (Validator → Validator) → Validator
  walk_parallel no_parallel depth v rest = rest v
  walk_parallel (parallel_step shared limit branches in_ as_ steps) depth v rest =
      if ltb max_parallel_depth (depth + 1)
      then fail v (too_deep (depth + 1))
      else walk_branches branches (depth + 1) v λ v. rest (walk_steps steps (depth + 1) v)

  pub walk_branches : Branches → ℕ → Validator → (Validator → Validator) → Validator
  walk_branches no_branches depth v rest = rest v
  walk_branches (branch name steps branches) depth v rest =
      if ltb max_parallel_steps (steps_length steps)
      then fail v (long_branch name (steps_length steps))
      else walk_branches branches depth (walk_steps steps depth v) rest

  pub walk_try : Try → ℕ → Validator → Validator
  walk_try no_try depth v = v
  walk_try (try_step steps as_ except_steps value) depth v =
      walk_steps except_steps depth (walk_steps steps depth v)

-- Validate, of rb.Steps
unfoldable pub validate : Steps → Option LimitError
unfolding walk_steps
validate steps =
    let v = walk_steps steps 0 (record { step_count = 0; switch_count = 0; failure = none }) in
    if failed v
    then v.failure
    else if ltb max_steps v.step_count
    then some (many_steps v.step_count)
    else if ltb max_switches_per_runbook v.switch_count
    then some (many_switches v.switch_count)
    else none
