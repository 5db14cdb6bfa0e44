-- ===== src/Workflows/Runbook/Runner/Looks.antt =====
-- A step of workflows/runbook/runner.go runs to an end, where the steps in it do and the context ends.
use sakumock.Workflows.Expr.Syntax.{Value, Values, no_values, value, null}
use sakumock.Workflows.Expr.Value.{Floats, truthy}
use sakumock.Workflows.Runbook.{
  Assignment, CallStep, Steps, Step, Cases, Branches, no_steps, named, step, no_switch, switch,
  no_cases, switch_case, no_for, for_step, no_parallel, parallel_step, no_branches, branch, no_try,
  try_step,
}
use sakumock.Workflows.Runbook.Runner.{
  Surroundings, Signal, return_signal, next_signal, failure, out_of_fuel, Run, Ran, next_or_nil,
  set_var, unless_ended, evaluated, exec_assigns, exec_return, exec_call, exec_shared, joined,
  set_results,
}
use sakumock.Workflows.Runbook.Runner.Exec.{
  exec_step, exec_inner, exec_case, exec_cases, exec_items, exec_for, exec_branches, exec_each,
  exec_iteration, exec_parallel, exec_except, caught, after_try,
}
use sakumock.Prelude.{
  ℕ, ◌+◌, ◌≤◌, ◌<◌, ◌≡◌, refl, sym, ◌∙◌, String, List, [], ◌∷◌, Bool, true, false, Option, none,
  some, Result, is_some, ltb, ltb→lt, arith, Option-cases, Bool-cases, Result-cases, inl, inr,
  str_eq,
}

abbrev pub runs_out : Option Signal → Bool
runs_out (some out_of_fuel) = true
runs_out signal = false

-- The fuel has not run out, and the context has been looked at `n` times at least.
pub record Fine {Env : Type 0} (n : ℕ) (ran : Ran Env) : Type 0 where
  pub looked : n ≤ ran.0.looks
  pub alive : runs_out ran.1 ≡ false

pub fine :
    {Env : Type 0} {n : ℕ} {st : Run Env} {signal : Option Signal}
    → n ≤ st.looks
    → runs_out signal ≡ false
    → Fine n (st, signal)
fine looked alive = record { looked = looked; alive = alive }

-- Every evaluation and every call function returns.
pub record Returns {Env : Type 0} (x : Surroundings Env) : Type 0 where
  pub evaluates : (text : String) (env : Env) → is_some (x.eval_interpolated text env).1 ≡ true
  pub calls :
      (name : String) (fn : CallStep → Env → Env × Option (Result String Value)) (call : CallStep)
      (env : Env)
      → x.call_func name ≡ some fn
      → is_some (fn call env).1 ≡ true

module _ {Env : Type 0} (F : Floats) (x : Surroundings Env) (returns : Returns x) where
  Fine-at : {ran : Ran Env} {n m : ℕ} → n ≡ m → Fine n ran → Fine m ran
  Fine-at e h = rw (← e) h

  evaluated-Fine :
      (what text : String) (st : Run Env) (go_on : Run Env → Value → Ran Env)
      → ((st' : Run Env) (v : Value) → st'.looks ≡ st.looks → Fine st.looks (go_on st' v))
      → Fine st.looks (evaluated F x what text st go_on)
  unfolding evaluated
  evaluated-Fine what text st go_on h = elim (Option-cases (x.eval_interpolated text st.env).1) [
    | inl endless ↦ absurd (grind (arith, endless, returns.evaluates text st.env))
    | inr (r, ended) ↦ elim (Result-cases r) [
      | inl (e, wrong) ↦ rw (evaluated, ended, wrong) (fine (omega arith) refl)
      | inr (v, right) ↦ rw (evaluated, ended, right) (h _ v refl)
    ]
  ]

  next_or_nil-Fine :
      (n : ℕ) (next : String) (st : Run Env) → n ≤ st.looks → Fine n (next_or_nil next st)
  next_or_nil-Fine n next st h = record { looked = h; alive = ground arith }

  exec_return-Fine :
      (what text : String) (st : Run Env) → Fine st.looks (exec_return F x what text st)
  unfolding exec_return
  exec_return-Fine what text st =
      evaluated-Fine what text st _ λ st' v e. fine (omega (arith, e)) refl

  exec_assigns-Fine :
      (assigns : List Assignment) (next : String) (st : Run Env)
      → Fine st.looks (exec_assigns F x assigns next st)
  unfolding exec_assigns set_var
  exec_assigns-Fine [] next st = next_or_nil-Fine st.looks next st (omega arith)
  exec_assigns-Fine (a ∷ assigns) next st =
      evaluated-Fine _ a.expression st _
        λ st' v e. Fine-at e (exec_assigns-Fine assigns next (set_var F x a.name v st'))

  exec_call-Fine :
      (call : CallStep) (next : String) (st : Run Env) → Fine st.looks (exec_call F x call next st)
  unfolding exec_call set_var
  exec_call-Fine call next st = record {
    looked = ground arith;
    alive = elim (Option-cases (x.call_func call.func)) [
      | inl gone ↦ ground arith
      | inr (fn, there) ↦
          let ended = returns.calls call.func fn call st.env there in
          elim (Option-cases (fn call st.env).1) [
            | inl endless ↦ absurd (cc (ended, endless))
            | inr (r, result) ↦ ground arith
          ]
    ];
  }

  exec_shared-Fine :
      (shared : List (String × String)) (st : Run Env) (go_on : Run Env → Ran Env)
      → ((st' : Run Env) → st'.looks ≡ st.looks → Fine st.looks (go_on st'))
      → Fine st.looks (exec_shared F x shared st go_on)
  unfolding exec_shared set_var
  exec_shared-Fine [] st go_on h = h st refl
  exec_shared-Fine ((k, text) ∷ shared) st go_on h = evaluated-Fine _ text st _ λ st' v e.
      Fine-at e (
        exec_shared-Fine shared (set_var F x k v st') go_on
          λ st'' e'. Fine-at (sym e) (h st'' (e' ∙ e)))

  pub Fine-weaken : (n m : ℕ) (ran : Ran Env) → n ≤ m → Fine m ran → Fine n ran
  Fine-weaken n m ran le h = record { looked = omega (arith, h.looked); alive = h.alive }

  set_results-Fine :
      (n : ℕ) (next : String) (st : Run Env) (results : Values)
      → n ≤ st.looks
      → Fine n (set_results F x next st results)
  unfolding set_results set_var
  set_results-Fine n next st results h =
      next_or_nil-Fine n next (set_var F x "results" (Value.array results) st) h

  joined-Fine :
      {n : ℕ} (env : Env) (results : Values) (ran : Ran Env) (go_on : Run Env → Values → Ran Env)
      → Fine n ran
      → ((st : Run Env) (results : Values) → n ≤ st.looks → Fine n (go_on st results))
      → Fine n (joined F x env results ran go_on)
  unfolding joined
  joined-Fine env results (st, none) go_on h k = k _ _ h.looked
  joined-Fine env results (st, some (return_signal v)) go_on h k = k _ _ h.looked
  joined-Fine env results (st, some (next_signal target)) go_on h k = fine h.looked refl
  joined-Fine env results (st, some (failure e)) go_on h k = fine h.looked refl
  joined-Fine env results (st, some out_of_fuel) go_on h k = fine h.looked h.alive

  -- `if err != nil { return err }`, and the rest
  ended-or :
      {n : ℕ} (ran : Ran Env) (go_on : Run Env → Ran Env)
      → Fine n ran
      → ((st : Run Env) → n ≤ st.looks → Fine n (go_on st))
      → Fine n (elim ran.1 as (λ signal. Ran Env) [
        | none ↦ go_on ran.0
        | some signal ↦ (ran.0, some signal)
      ])
  ended-or (st, none) go_on h k = k st h.looked
  ended-or (st, some signal) go_on h k = h

  -- The context has ended from the look `last` on.
  module _ (last : ℕ) (ends : (n : ℕ) → last ≤ n → is_some (x.context_error n) ≡ true) where
    not_ended : (st : Run Env) → x.context_error st.looks ≡ none → st.looks < last
    not_ended st live = elim (Bool-cases (ltb st.looks last)) [
      | inl before ↦ ltb→lt st.looks last before
      | inr past ↦ absurd (grind (arith, live, ends st.looks (ground arith)))
    ]

    pub unless_ended-Fine :
        (st : Run Env) (go_on : Run Env → Ran Env)
        → ((st' : Run Env) → st'.looks ≡ st.looks + 1 → st.looks < last → Fine st.looks (go_on st'))
        → Fine st.looks (unless_ended F x st go_on)
    unfolding unless_ended
    unless_ended-Fine st go_on h = elim (Option-cases (x.context_error st.looks)) [
      | inl live ↦
          rw (unless_ended, live) (h (record st { looks = st.looks + 1 }) refl (not_ended st live))
      | inr (e, ended) ↦ rw (unless_ended, ended) (fine (omega arith) refl)
    ]

    -- `exec` runs steps to an end with `k` of the fuel.
    unfoldable pub Ends : ℕ → (Steps → Run Env → Ran Env) → Type 0
    Ends k exec =
        (steps : Steps) (st : Run Env) → last ≤ st.looks + k → Fine st.looks (exec steps st)

    module _ (k : ℕ) (exec : Steps → Run Env → Ran Env) (ending : Ends k exec) where
      exec_inner-Fine :
          (steps : Steps) (st : Run Env)
          → last ≤ st.looks + k
          → Fine st.looks (exec_inner F x exec steps st)
      unfolding exec_inner Ends
      exec_inner-Fine no_steps st enough = (fine (omega arith) refl)
      exec_inner-Fine (named name s steps) st enough = ending (named name s steps) st enough

      exec_case-Fine :
          (steps : Steps) (next : String) (ret : Option String) (st : Run Env)
          → last ≤ st.looks + k
          → Fine st.looks (exec_case F x exec steps next ret st)
      unfolding exec_case
      exec_case-Fine steps next (some text) st enough = exec_return-Fine "switch return: " text st
      exec_case-Fine steps next none st enough = elim (Bool-cases (str_eq next "")) [
        | inl empty ↦ rw empty (exec_inner-Fine steps st enough)
        | inr jump ↦ rw jump (fine (omega arith) refl)
      ]

      exec_cases-Fine :
          (cases : Cases) (next : String) (st : Run Env)
          → last ≤ st.looks + k
          → Fine st.looks (exec_cases F x exec cases next st)
      unfolding exec_cases
      exec_cases-Fine no_cases next st enough = next_or_nil-Fine st.looks next st (omega arith)
      exec_cases-Fine (switch_case condition steps case_next ret cases) next st enough =
          evaluated-Fine _ condition st _ λ st' v e. elim (Bool-cases (truthy F v)) [
            | inl holds ↦
                rw holds (Fine-at e (exec_case-Fine steps case_next ret st' (omega (arith, e))))
            | inr fails ↦ rw fails (Fine-at e (exec_cases-Fine cases next st' (omega (arith, e))))
          ]

      exec_items-Fine :
          (items : Values) (as_ : String) (steps : Steps) (next : String) (st : Run Env)
          → last ≤ st.looks + k
          → Fine st.looks (exec_items F x exec items as_ steps next st)
      unfolding exec_items Ends set_var
      exec_items-Fine no_values as_ steps next st enough =
          next_or_nil-Fine st.looks next st (omega arith)
      exec_items-Fine (value item items) as_ steps next st enough =
          unless_ended-Fine st _ λ st' e before.
            ended-or (exec steps (set_var F x as_ item st'))
              (exec_items F x exec items as_ steps next)
              (Fine-weaken _ _ _ (omega (arith, e))
                (ending steps (set_var F x as_ item st') (omega (arith, e))))
              λ st'' later.
                Fine-weaken _ _ _ later
                  (exec_items-Fine items as_ steps next st'' (omega (arith, later)))

      exec_for-Fine :
          (v : Value) (as_ : String) (steps : Steps) (next : String) (st : Run Env)
          → last ≤ st.looks + k
          → Fine st.looks (exec_for F x exec v as_ steps next st)
      unfolding exec_for
      exec_for-Fine (Value.array items) as_ steps next st enough =
          exec_items-Fine items as_ steps next st enough
      exec_for-Fine null as_ steps next st enough = fine (omega arith) refl
      exec_for-Fine (Value.boolean b) as_ steps next st enough = fine (omega arith) refl
      exec_for-Fine (Value.number n) as_ steps next st enough = fine (omega arith) refl
      exec_for-Fine (Value.string s) as_ steps next st enough = fine (omega arith) refl
      exec_for-Fine (Value.object es) as_ steps next st enough = fine (omega arith) refl

      exec_branches-Fine :
          (branches : Branches) (next : String) (st : Run Env) (results : Values)
          → last ≤ st.looks + k
          → Fine st.looks (exec_branches F x exec branches next st results)
      unfolding exec_branches Ends
      exec_branches-Fine no_branches next st results enough =
          set_results-Fine st.looks next st results (omega arith)
      exec_branches-Fine (branch name steps branches) next st results enough =
          joined-Fine st.env results (exec steps (record st { env = x.clone st.env }))
            (exec_branches F x exec branches next)
            (ending steps (record st { env = x.clone st.env }) enough)
            λ st' results' later.
              Fine-weaken _ _ _ later
                (exec_branches-Fine branches next st' results' (omega (arith, later)))

      exec_each-Fine :
          (items : Values) (as_ : String) (steps : Steps) (next : String) (st : Run Env)
          (results : Values)
          → last ≤ st.looks + k
          → Fine st.looks (exec_each F x exec items as_ steps next st results)
      unfolding exec_each Ends
      exec_each-Fine no_values as_ steps next st results enough =
          set_results-Fine st.looks next st results (omega arith)
      exec_each-Fine (value item items) as_ steps next st results enough =
          joined-Fine st.env results
            (exec steps (record st { env = x.set as_ item (x.clone st.env) }))
            (exec_each F x exec items as_ steps next)
            (ending steps (record st { env = x.set as_ item (x.clone st.env) }) enough)
            λ st' results' later.
              Fine-weaken _ _ _ later
                (exec_each-Fine items as_ steps next st' results' (omega (arith, later)))

      exec_iteration-Fine :
          (v : Value) (as_ : String) (steps : Steps) (next : String) (st : Run Env)
          → last ≤ st.looks + k
          → Fine st.looks (exec_iteration F x exec v as_ steps next st)
      unfolding exec_iteration
      exec_iteration-Fine (Value.array items) as_ steps next st enough =
          exec_each-Fine items as_ steps next st no_values enough
      exec_iteration-Fine null as_ steps next st enough = fine (omega arith) refl
      exec_iteration-Fine (Value.boolean b) as_ steps next st enough = fine (omega arith) refl
      exec_iteration-Fine (Value.number n) as_ steps next st enough = fine (omega arith) refl
      exec_iteration-Fine (Value.string s) as_ steps next st enough = fine (omega arith) refl
      exec_iteration-Fine (Value.object es) as_ steps next st enough = fine (omega arith) refl

      exec_parallel-Fine :
          (branches : Branches) (in_ as_ : String) (steps : Steps) (next : String) (st : Run Env)
          → last ≤ st.looks + k
          → Fine st.looks (exec_parallel F x exec branches in_ as_ steps next st)
      unfolding exec_parallel
      exec_parallel-Fine (branch name steps branches) in_ as_ each next st enough =
          exec_branches-Fine (branch name steps branches) next st no_values enough
      exec_parallel-Fine no_branches in_ as_ steps next st enough =
          elim (Bool-cases (str_eq in_ "")) [
            | inl empty ↦ rw empty (fine (omega arith) refl)
            | inr given ↦ rw given (
                evaluated-Fine "parallel in: " in_ st _ λ st' v e.
                  Fine-at e (exec_iteration-Fine v as_ steps next st' (omega (arith, e))))
          ]

      exec_except-Fine :
          (steps : Steps) (ret : Option String) (st : Run Env)
          → last ≤ st.looks + k
          → Fine st.looks (exec_except F x exec steps ret st)
      unfolding exec_except
      exec_except-Fine steps (some text) st enough = exec_return-Fine "except return: " text st
      exec_except-Fine steps none st enough = exec_inner-Fine steps st enough

      caught-Fine :
          (as_ : String) (steps : Steps) (ret : Option String) (signal : Signal) (st : Run Env)
          → last ≤ st.looks + k
          → Fine st.looks (caught F x exec as_ steps ret signal st)
      unfolding caught set_var
      caught-Fine as_ steps ret signal st enough = elim (Bool-cases (str_eq as_ "")) [
        | inl empty ↦ rw empty (exec_except-Fine steps ret st enough)
        | inr given ↦ rw given (exec_except-Fine steps ret _ enough)
      ]

      after_try-Fine :
          {n : ℕ} (as_ : String) (steps : Steps) (ret : Option String) (next : String)
          (ran : Ran Env)
          → last ≤ n + k
          → Fine n ran
          → Fine n (after_try F x exec as_ steps ret next ran)
      unfolding after_try
      after_try-Fine as_ steps ret next (st, none) enough h = next_or_nil-Fine _ next st h.looked
      after_try-Fine as_ steps ret next (st, some (return_signal v)) enough h = fine h.looked refl
      after_try-Fine as_ steps ret next (st, some out_of_fuel) enough h = fine h.looked h.alive
      after_try-Fine as_ steps ret next (st, some (next_signal target)) enough h =
          Fine-weaken _ _ _ h.looked
            (caught-Fine as_ steps ret (next_signal target) st (omega (arith, h.looked)))
      after_try-Fine as_ steps ret next (st, some (failure e)) enough h =
          Fine-weaken _ _ _ h.looked
            (caught-Fine as_ steps ret (failure e) st (omega (arith, h.looked)))

      pub exec_step-Fine :
          (s : Step) (st : Run Env) → last ≤ st.looks + k → Fine st.looks (exec_step F x exec s st)
      unfolding exec_step Ends
      exec_step-Fine (step (a ∷ assigns) ret call sw loop par attempt next) st enough =
          exec_assigns-Fine (a ∷ assigns) next st
      exec_step-Fine (step [] (some text) call sw loop par attempt next) st enough =
          exec_return-Fine "return: " text st
      exec_step-Fine (step [] none (some call) sw loop par attempt next) st enough =
          exec_call-Fine call next st
      exec_step-Fine (step [] none none (switch cases) loop par attempt next) st enough =
          exec_cases-Fine cases next st enough
      exec_step-Fine (step [] none none no_switch (for_step in_ as_ steps) par attempt next) st
            enough =
          evaluated-Fine "for in: " in_ st _
            λ st' v e. Fine-at e (exec_for-Fine v as_ steps next st' (omega (arith, e)))
      exec_step-Fine
            (step [] none none no_switch no_for
              (parallel_step shared limit branches in_ as_ steps)
              attempt
              next)
            st enough =
          exec_shared-Fine shared st _ λ st' e.
            Fine-at e (exec_parallel-Fine branches in_ as_ steps next st' (omega (arith, e)))
      exec_step-Fine
            (step [] none none no_switch no_for no_parallel
              (try_step steps as_ except_steps except_return)
              next)
            st enough =
          after_try-Fine as_ except_steps except_return next (exec steps st) enough
            (ending steps st enough)
      exec_step-Fine (step [] none none no_switch no_for no_parallel no_try next) st enough =
          next_or_nil-Fine st.looks next st (omega arith)
