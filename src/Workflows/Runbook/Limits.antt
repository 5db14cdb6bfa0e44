-- ===== src/Workflows/Runbook/Limits.antt =====
-- The limits of runbooks that Validate of workflows/runbook/validate.go checks, as counts over the
-- steps.
use sakumock.Workflows.Runbook.{
  Steps, Step, Switch, Cases, For, Parallel, Branches, Try, no_steps, named, step, no_switch,
  switch, no_cases, switch_case, no_for, for_step, no_parallel, parallel_step, no_branches, branch,
  no_try, try_step, steps_length, cases_length,
}
use sakumock.Workflows.Runbook.Validate.{
  Validator, failed, fail, name_length, walk_steps, walk_step, walk_switch, walk_cases, walk_for,
  walk_parallel, walk_branches, walk_try, validate, max_steps, max_step_name_len,
  max_switch_branches, max_switches_per_runbook, max_parallel_steps, max_parallel_depth, long_name,
  many_branches, too_deep, long_branch, LimitError,
}
use sakumock.Workflows.Runbook.Counts.{
  all_steps, inner_steps, switch_steps, case_steps, for_steps, parallel_steps, branch_steps,
  try_steps, all_switches, inner_switches, switch_switches, case_switches, for_switches,
  parallel_switches, branch_switches, try_switches, fits, fits_step, fits_switch, fits_cases,
  fits_for, fits_parallel, fits_branches, fits_try,
}
use sakumock.Prelude.{
  ℕ, ◌+◌, ◌≤◌, ◌≡◌, refl, String, Bool, true, false, not, ◌&&◌, ◌||◌, none, ltb, leb, arith, ◌↔◌,
  if◌then◌else◌,
}

-- A part of the validator fails in the end if it has failed before or something does not fit, and
-- otherwise counts steps and switches.
Walks : (Validator → Validator) → Bool → ℕ → ℕ → Type 0
Walks f fit n m =
    (v : Validator)
    → (failed (f v) ≡ failed v || not fit)
      × (failed (f v) ≡ false
          → ((f v).step_count ≡ v.step_count + n) × ((f v).switch_count ≡ v.switch_count + m))

Walks-id : Walks (λ v. v) true 0 0
unfolding Walks
Walks-id v = ground arith

Walks-then :
    (f g : Validator → Validator) (a b : Bool) (n m k l : ℕ)
    → Walks f a n m
    → Walks g b k l
    → Walks (λ v. g (f v)) (a && b) (n + k) (m + l)
unfolding Walks
Walks-then f g a b n m k l h j v = ground (arith, h v, j (f v))

Walks-step :
    (f g : Validator → Validator) (name : String) (a b : Bool) (n m k l : ℕ)
    → Walks f a n m
    → Walks g b k l
    → Walks
        (λ v.
          let counted = record v { step_count = v.step_count + 1 } in
          if failed v
          then v
          else if ltb max_step_name_len (name_length name)
          then fail counted (long_name name (name_length name))
          else g (f counted))
        (leb (name_length name) max_step_name_len && (a && b))
        (1 + (n + k))
        (m + l)
unfolding Walks
Walks-step f g name a b n m k l h j v =
    let counted = record v { step_count = v.step_count + 1 } in
    ground (arith, h counted, j (f counted))

-- A limit
Walks-limit :
    (f : Validator → Validator) (e : LimitError) (bound size : ℕ) (b : Bool) (n m : ℕ)
    → Walks f b n m
    → Walks (λ v. if ltb bound size then fail v e else f v) (leb size bound && b) n m
unfolding Walks
Walks-limit f e bound size b n m h v = ground (arith, h v)

-- A limit, after a switch is counted
Walks-switch :
    (f : Validator → Validator) (e : LimitError) (bound size : ℕ) (b : Bool) (n m : ℕ)
    → Walks f b n m
    → Walks
        (λ v.
          let counted = record v { switch_count = v.switch_count + 1 } in
          if ltb bound size then fail counted e else f counted)
        (leb size bound && b)
        n
        (1 + m)
unfolding Walks
Walks-switch f e bound size b n m h v =
    let counted = record v { switch_count = v.switch_count + 1 } in ground (arith, h counted)

and_assoc : (a b c : Bool) → a && (b && c) ≡ (a && b) && c
and_assoc true b c = refl
and_assoc false b c = refl

and_assoc4 : (a b c d : Bool) → a && (b && (c && d)) ≡ (a && (b && c)) && d
and_assoc4 true b c d = and_assoc b c d
and_assoc4 false b c d = refl

-- What comes after a failure is left out.
Walks-unless :
    (f : Validator → Validator) (b : Bool) (n m : ℕ)
    → Walks f b n m
    → Walks (λ v. if failed v then v else f v) b n m
unfolding Walks
Walks-unless f b n m h v = ground (arith, h v)

Walks-as :
    (f : Validator → Validator) (a b : Bool) (n k m l : ℕ)
    → Walks f a n m
    → a ≡ b
    → n ≡ k
    → m ≡ l
    → Walks f b k l
Walks-as f a b n k m l h fit steps switches = rw (← fit, ← steps, ← switches) h

mutual
  unfolding walk_steps all_steps all_switches fits

  walk_steps-Walks :
      (steps : Steps) (depth : ℕ)
      → Walks (walk_steps steps depth) (fits steps depth) (all_steps steps) (all_switches steps)
  walk_steps-Walks no_steps depth = Walks-id
  walk_steps-Walks (named name s steps) depth =
      Walks-step (walk_step s depth) (walk_steps steps depth) name (fits_step s depth)
        (fits steps depth) (inner_steps s) (inner_switches s) (all_steps steps) (all_switches steps)
        (walk_step-Walks s depth) (walk_steps-Walks steps depth)

  walk_step-Walks :
      (s : Step) (depth : ℕ)
      → Walks (walk_step s depth) (fits_step s depth) (inner_steps s) (inner_switches s)
  walk_step-Walks (step assign value call sw loop par attempt next) depth = Walks-unless _ _ _ _ (
      walk_switch-Walks sw depth
        (λ v. walk_parallel par depth (walk_for loop depth v) λ v. walk_try attempt depth v) _ _ _
        (Walks-then (walk_for loop depth)
          (λ v. walk_parallel par depth v λ v. walk_try attempt depth v) _ _ _ _ _ _
          (walk_for-Walks loop depth)
          (walk_parallel-Walks par depth (λ v. walk_try attempt depth v) _ _ _
            (walk_try-Walks attempt depth))))

  walk_switch-Walks :
      (sw : Switch) (depth : ℕ) (rest : Validator → Validator) (b : Bool) (n m : ℕ)
      → Walks rest b n m
      → Walks
          (λ v. walk_switch sw depth v rest)
          (fits_switch sw depth && b)
          (switch_steps sw + n)
          (switch_switches sw + m)
  walk_switch-Walks no_switch depth rest b n m h =
      Walks-as rest b b n _ m _ h refl (omega arith) (omega arith)
  walk_switch-Walks (switch cases) depth rest b n m h =
      Walks-as _ (leb (cases_length cases) max_switch_branches && (fits_cases cases depth && b)) _
        (case_steps cases + n) _ (1 + (case_switches cases + m)) _
        (Walks-switch (λ v. rest (walk_cases cases depth v)) (many_branches (cases_length cases))
          max_switch_branches (cases_length cases) (fits_cases cases depth && b) _ _
          (Walks-then (walk_cases cases depth) rest _ _ _ _ _ _ (walk_cases-Walks cases depth) h))
        (and_assoc (leb (cases_length cases) max_switch_branches) (fits_cases cases depth) b) refl
        (omega arith)

  walk_cases-Walks :
      (cases : Cases) (depth : ℕ)
      → Walks
          (walk_cases cases depth)
          (fits_cases cases depth)
          (case_steps cases)
          (case_switches cases)
  walk_cases-Walks no_cases depth = Walks-id
  walk_cases-Walks (switch_case condition steps next value cases) depth =
      Walks-then (walk_steps steps depth) (walk_cases cases depth) _ _ _ _ _ _
        (walk_steps-Walks steps depth) (walk_cases-Walks cases depth)

  walk_for-Walks :
      (loop : For) (depth : ℕ)
      → Walks (walk_for loop depth) (fits_for loop depth) (for_steps loop) (for_switches loop)
  walk_for-Walks no_for depth = Walks-id
  walk_for-Walks (for_step in_ as_ steps) depth = walk_steps-Walks steps depth

  walk_parallel-Walks :
      (par : Parallel) (depth : ℕ) (rest : Validator → Validator) (b : Bool) (n m : ℕ)
      → Walks rest b n m
      → Walks
          (λ v. walk_parallel par depth v rest)
          (fits_parallel par depth && b)
          (parallel_steps par + n)
          (parallel_switches par + m)
  walk_parallel-Walks no_parallel depth rest b n m h =
      Walks-as rest b b n _ m _ h refl (omega arith) (omega arith)
  walk_parallel-Walks (parallel_step shared limit branches in_ as_ steps) depth rest b n m h =
      Walks-as _
        (leb (depth + 1) max_parallel_depth
          && (fits_branches branches (depth + 1) && (fits steps (depth + 1) && b)))
        _ (branch_steps branches + (all_steps steps + n)) _
        (branch_switches branches + (all_switches steps + m)) _
        (Walks-limit
          (λ v. walk_branches branches (depth + 1) v λ v. rest (walk_steps steps (depth + 1) v))
          (too_deep (depth + 1)) max_parallel_depth (depth + 1) _ _ _
          (walk_branches-Walks branches (depth + 1) (λ v. rest (walk_steps steps (depth + 1) v)) _ _
            _
            (Walks-then (walk_steps steps (depth + 1)) rest _ _ _ _ _ _
              (walk_steps-Walks steps (depth + 1)) h)))
        (and_assoc4 (leb (depth + 1) max_parallel_depth) (fits_branches branches (depth + 1))
          (fits steps (depth + 1)) b)
        (omega arith) (omega arith)

  walk_branches-Walks :
      (branches : Branches) (depth : ℕ) (rest : Validator → Validator) (b : Bool) (n m : ℕ)
      → Walks rest b n m
      → Walks
          (λ v. walk_branches branches depth v rest)
          (fits_branches branches depth && b)
          (branch_steps branches + n)
          (branch_switches branches + m)
  walk_branches-Walks no_branches depth rest b n m h =
      Walks-as rest b b n _ m _ h refl (omega arith) (omega arith)
  walk_branches-Walks (branch name steps branches) depth rest b n m h =
      Walks-as _
        (leb (steps_length steps) max_parallel_steps
          && (fits steps depth && (fits_branches branches depth && b)))
        _ (all_steps steps + (branch_steps branches + n)) _
        (all_switches steps + (branch_switches branches + m)) _
        (Walks-limit (λ v. walk_branches branches depth (walk_steps steps depth v) rest)
          (long_branch name (steps_length steps)) max_parallel_steps (steps_length steps) _ _ _
          (Walks-then (walk_steps steps depth) (λ v. walk_branches branches depth v rest) _ _ _ _ _
            _ (walk_steps-Walks steps depth) (walk_branches-Walks branches depth rest b n m h)))
        (and_assoc4 (leb (steps_length steps) max_parallel_steps) (fits steps depth)
          (fits_branches branches depth) b)
        (omega arith) (omega arith)

  walk_try-Walks :
      (attempt : Try) (depth : ℕ)
      → Walks
          (walk_try attempt depth)
          (fits_try attempt depth)
          (try_steps attempt)
          (try_switches attempt)
  walk_try-Walks no_try depth = Walks-id
  walk_try-Walks (try_step steps as_ except_steps value) depth =
      Walks-then (walk_steps steps depth) (walk_steps except_steps depth) _ _ _ _ _ _
        (walk_steps-Walks steps depth) (walk_steps-Walks except_steps depth)

-- Validate accepts a runbook if and only if every name has at most 31 bytes in UTF-8 (bytes, not
-- characters), every switch at most 50 branches and every parallel branch at most 100 steps, parallel steps are nested at most twice, and
-- the runbook has at most 5000 steps and 10 switches, at every depth.
pub validate-fits :
    (steps : Steps)
    → (validate steps ≡ none) ↔ (
        (fits steps 0 ≡ true)
        × (all_steps steps ≤ max_steps)
        × (all_switches steps ≤ max_switches_per_runbook))
unfolding validate Walks
validate-fits steps =
    let v : Validator = record { step_count = 0; switch_count = 0; failure = none } in
    let h = walk_steps-Walks steps 0 v in (λ accepted. ground (arith, h), λ good. ground (arith, h))
