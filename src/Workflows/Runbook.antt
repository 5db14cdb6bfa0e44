-- ===== src/Workflows/Runbook.antt =====
-- The types of workflows/runbook/step.go. A pointer and a slice that may be nil have a constructor
-- for nil; the slices of steps, cases and branches are types of their own, since they hold steps.
pub mod Validate
pub mod Counts
pub mod Limits
pub mod Runner
use sakumock.Prelude.{ℕ, suc, String, List, Option}

pub record Assignment : Type 0 where
  pub name : String
  pub expression : String

pub record CallStep : Type 0 where
  pub func : String
  pub args : List (String × String)
  pub result : String

mutual
  -- A []NamedStep
  pub data Steps : Type 0 where
    no_steps : Steps
    named : String → Step → Steps → Steps

  -- Assign, Return, Call, Switch, For, Parallel, Try and Next
  pub data Step : Type 0 where
    step :
        List Assignment
        → Option String
        → Option CallStep
        → Switch
        → For
        → Parallel
        → Try
        → String
        → Step

  pub data Switch : Type 0 where
    no_switch : Switch
    switch : Cases → Switch

  -- Condition, Steps, Next and Return of a SwitchCase
  pub data Cases : Type 0 where
    no_cases : Cases
    switch_case : String → Steps → String → Option String → Cases → Cases

  -- In, As and Steps of a ForStep
  pub data For : Type 0 where
    no_for : For
    for_step : String → String → Steps → For

  -- Shared, ConcurrencyLimit, Branches, In, As and Steps of a ParallelStep
  pub data Parallel : Type 0 where
    no_parallel : Parallel
    parallel_step : List (String × String) → ℕ → Branches → String → String → Steps → Parallel

  -- Name and Steps of a Branch
  pub data Branches : Type 0 where
    no_branches : Branches
    branch : String → Steps → Branches → Branches

  -- Steps, ExceptAs, ExceptSteps and ExceptReturn of a TryStep
  pub data Try : Type 0 where
    no_try : Try
    try_step : Steps → String → Steps → Option String → Try

-- len(steps), and len(s.Switch)
abbrev pub steps_length : Steps → ℕ
steps_length no_steps = 0
steps_length (named name s steps) = suc (steps_length steps)

abbrev pub cases_length : Cases → ℕ
cases_length no_cases = 0
cases_length (switch_case condition steps next value cases) = suc (cases_length cases)
