-- ===== src/Workflows/Runbook/Counts.antt =====
-- The sizes of a runbook that workflows/runbook/validate.go limits, by recursion over the steps of
-- workflows/runbook/step.go, without a state.
use sakumock.Workflows.Runbook.{
  Steps, Step, Switch, Cases, For, Parallel, Branches, Try, no_steps, named, step, no_switch,
  switch, no_cases, switch_case, no_for, for_step, no_parallel, parallel_step, no_branches, branch,
  no_try, try_step, steps_length, cases_length,
}
use sakumock.Workflows.Runbook.Validate.{
  name_length, max_step_name_len, max_switch_branches, max_parallel_steps, max_parallel_depth,
}
use sakumock.Prelude.{ℕ, ◌+◌, Bool, true, ◌&&◌, leb}

-- The steps in a runbook, at every depth
unfoldable mutual
  pub all_steps : Steps → ℕ
  all_steps no_steps = 0
  all_steps (named name s steps) = 1 + (inner_steps s + all_steps steps)

  pub inner_steps : Step → ℕ
  inner_steps (step assign value call sw loop par attempt next) =
      switch_steps sw + (for_steps loop + (parallel_steps par + try_steps attempt))

  pub switch_steps : Switch → ℕ
  switch_steps no_switch = 0
  switch_steps (switch cases) = case_steps cases

  pub case_steps : Cases → ℕ
  case_steps no_cases = 0
  case_steps (switch_case condition steps next value cases) = all_steps steps + case_steps cases

  pub for_steps : For → ℕ
  for_steps no_for = 0
  for_steps (for_step in_ as_ steps) = all_steps steps

  pub parallel_steps : Parallel → ℕ
  parallel_steps no_parallel = 0
  parallel_steps (parallel_step shared limit branches in_ as_ steps) =
      branch_steps branches + all_steps steps

  pub branch_steps : Branches → ℕ
  branch_steps no_branches = 0
  branch_steps (branch name steps branches) = all_steps steps + branch_steps branches

  pub try_steps : Try → ℕ
  try_steps no_try = 0
  try_steps (try_step steps as_ except_steps value) = all_steps steps + all_steps except_steps

-- The switches in it
unfoldable mutual
  pub all_switches : Steps → ℕ
  all_switches no_steps = 0
  all_switches (named name s steps) = inner_switches s + all_switches steps

  pub inner_switches : Step → ℕ
  inner_switches (step assign value call sw loop par attempt next) =
      switch_switches sw + (for_switches loop + (parallel_switches par + try_switches attempt))

  pub switch_switches : Switch → ℕ
  switch_switches no_switch = 0
  switch_switches (switch cases) = 1 + case_switches cases

  pub case_switches : Cases → ℕ
  case_switches no_cases = 0
  case_switches (switch_case condition steps next value cases) =
      all_switches steps + case_switches cases

  pub for_switches : For → ℕ
  for_switches no_for = 0
  for_switches (for_step in_ as_ steps) = all_switches steps

  pub parallel_switches : Parallel → ℕ
  parallel_switches no_parallel = 0
  parallel_switches (parallel_step shared limit branches in_ as_ steps) =
      branch_switches branches + all_switches steps

  pub branch_switches : Branches → ℕ
  branch_switches no_branches = 0
  branch_switches (branch name steps branches) = all_switches steps + branch_switches branches

  pub try_switches : Try → ℕ
  try_switches no_try = 0
  try_switches (try_step steps as_ except_steps value) =
      all_switches steps + all_switches except_steps

-- Each name, each switch, each branch and the depth of parallel steps is within its limit, under
-- `depth` parallel steps.
unfoldable mutual
  pub fits : Steps → ℕ → Bool
  fits no_steps depth = true
  fits (named name s steps) depth =
      leb (name_length name) max_step_name_len && (fits_step s depth && fits steps depth)

  pub fits_step : Step → ℕ → Bool
  fits_step (step assign value call sw loop par attempt next) depth =
      fits_switch sw depth
      && (fits_for loop depth && (fits_parallel par depth && fits_try attempt depth))

  pub fits_switch : Switch → ℕ → Bool
  fits_switch no_switch depth = true
  fits_switch (switch cases) depth =
      leb (cases_length cases) max_switch_branches && fits_cases cases depth

  pub fits_cases : Cases → ℕ → Bool
  fits_cases no_cases depth = true
  fits_cases (switch_case condition steps next value cases) depth =
      fits steps depth && fits_cases cases depth

  pub fits_for : For → ℕ → Bool
  fits_for no_for depth = true
  fits_for (for_step in_ as_ steps) depth = fits steps depth

  pub fits_parallel : Parallel → ℕ → Bool
  fits_parallel no_parallel depth = true
  fits_parallel (parallel_step shared limit branches in_ as_ steps) depth =
      leb (depth + 1) max_parallel_depth
      && (fits_branches branches (depth + 1) && fits steps (depth + 1))

  pub fits_branches : Branches → ℕ → Bool
  fits_branches no_branches depth = true
  fits_branches (branch name steps branches) depth =
      leb (steps_length steps) max_parallel_steps
      && (fits steps depth && fits_branches branches depth)

  pub fits_try : Try → ℕ → Bool
  fits_try no_try depth = true
  fits_try (try_step steps as_ except_steps value) depth =
      fits steps depth && fits except_steps depth
