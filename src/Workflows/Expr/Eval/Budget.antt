-- ===== src/Workflows/Expr/Eval/Budget.antt =====
-- The steps that eval of workflows/expr/eval.go counts.
use mathlib.Core.Path.{subst}
use sakumock.Workflows.Expr.Syntax.{
  Value, Values, Entries, no_entries, Node, Nodes, Properties, literal, unary, binary, ternary,
  member, index, call, no_nodes, node, no_properties, property,
}
use sakumock.Workflows.Expr.Value.{Floats, truthy}
use sakumock.Workflows.Expr.Eval.{
  Counters, EvalError, too_many_steps, failed, endless, not_a_function, undefined_function,
  binary_value, Func, Evaluated, run, counted, apply, eval, eval_nodes, eval_properties,
  resolve_func_name, set_entry,
}
use sakumock.Prelude.{
  ℕ, ◌+◌, ◌≤◌, ◌≡◌, refl, sym, String, Bool, true, false, Option, none, some, Result, ok, err, ltb,
  str_eq, if◌then◌else◌, arith, Bool-cases, inl, inr,
}

module _ (max_steps : ℕ) where
  -- The count has grown by `least` at least from `before` on, and is within the limit. At an error it
  -- may be the step past the limit.
  abbrev pub Within : {A : Type 0} → ℕ → ℕ → Evaluated A → Type 0
  Within before least (s, ok a) = (before + least ≤ s.steps) × (s.steps ≤ max_steps)
  Within before least (s, err e) = (before + least ≤ s.steps) × (s.steps ≤ max_steps + 1)

  Within-run :
      {A B : Type 0} (before least : ℕ) (e : Evaluated A) (go_on : Counters → A → Evaluated B)
      → Within before least e
      → ((s : Counters) (a : A)
          → before + least ≤ s.steps
          → s.steps ≤ max_steps
          → Within before least (go_on s a))
      → Within before least (run e go_on)
  Within-run before least (s, ok a) go_on h k = k s a h.0 h.1
  Within-run before least (s, err e) go_on h k = h

  counted-over :
      {A : Type 0} (s : Counters) (go_on : Counters → Evaluated A)
      → ltb max_steps (s.steps + 1) ≡ true
      → counted max_steps s go_on ≡ (record s { steps = s.steps + 1 }, err too_many_steps)
  unfolding counted
  counted-over s go_on over = rw (counted, over) refl

  counted-under :
      {A : Type 0} (s : Counters) (go_on : Counters → Evaluated A)
      → ltb max_steps (s.steps + 1) ≡ false
      → counted max_steps s go_on ≡ go_on (record s { steps = s.steps + 1 })
  unfolding counted
  counted-under s go_on under = rw (counted, under) refl

  Within-counted :
      {A : Type 0} (s : Counters) (go_on : Counters → Evaluated A)
      → s.steps ≤ max_steps
      → ((s' : Counters)
          → s'.steps ≡ s.steps + 1
          → s'.steps ≤ max_steps
          → Within s.steps 1 (go_on s'))
      → Within s.steps 1 (counted max_steps s go_on)
  Within-counted s go_on h k = elim (Bool-cases (ltb max_steps (s.steps + 1))) [
    | inl over ↦
        subst (λ e. Within s.steps 1 e) (sym (counted-over s go_on over))
          (omega arith, omega (arith, h))
    | inr under ↦
        subst (λ e. Within s.steps 1 e) (sym (counted-under s go_on under))
          (k (record s { steps = s.steps + 1 }) refl (ground arith))
  ]

  -- What starts later has grown as much.
  Within-later :
      {A : Type 0} (before before' least least' : ℕ) (e : Evaluated A)
      → before + least ≤ before' + least'
      → Within before' least' e
      → Within before least e
  Within-later before before' least least' (s, ok a) le h = (omega (arith, le, h.0), h.1)
  Within-later before before' least least' (s, err e) le h = (omega (arith, le, h.0), h.1)

  Within-result :
      {A : Type 0} (before least : ℕ) (s : Counters) (r : Result EvalError A)
      → before + least ≤ s.steps
      → s.steps ≤ max_steps
      → Within before least (s, r)
  Within-result before least s (ok a) h k = (h, k)
  Within-result before least s (err e) h k = (h, omega (arith, k))

  Within-answer :
      (before least : ℕ) (s : Counters) (result : Option (Option Value))
      → before + least ≤ s.steps
      → s.steps ≤ max_steps
      → Within before least (elim result as (λ _. Evaluated Value) [
        | none ↦ (s, err endless)
        | some none ↦ (s, err failed)
        | some (some v) ↦ (s, ok v)
      ])
  Within-answer before least s none h k = (h, omega (arith, k))
  Within-answer before least s (some none) h k = (h, omega (arith, k))
  Within-answer before least s (some (some v)) h k = (h, k)

  Within-apply :
      (before least : ℕ) (f : Func) (s : Counters) (args : Values)
      → before + least ≤ s.steps
      → s.steps ≤ max_steps
      → Within before least (apply f s args)
  unfolding apply
  Within-apply before least f s args h k =
      Within-answer before least (record s { test_counter = (f s.test_counter args).0 })
        (f s.test_counter args).1 h k

module _ (F : Floats) (to_json : Value → String) (vars : String → Option Value)
    (funcs : String → Option Func) (max_steps : ℕ) where
  abbrev value_of : Node → Counters → Evaluated Value
  value_of n s = eval F to_json vars funcs max_steps n s

  -- An evaluation that starts from a count of `before` at least, and what follows it
  then-Within :
      {A : Type 0} (before least : ℕ) (n : Node) (s : Counters)
      (go_on : Counters → Value → Evaluated A)
      → before + least ≤ s.steps + 1
      → Within max_steps s.steps 1 (value_of n s)
      → ((s₁ : Counters) (v : Value)
          → before + least ≤ s₁.steps
          → s₁.steps ≤ max_steps
          → Within max_steps before least (go_on s₁ v))
      → Within max_steps before least (run (value_of n s) go_on)
  then-Within before least n s go_on le h k =
      Within-run max_steps before least (value_of n s) go_on
        (Within-later max_steps before s.steps least 1 (value_of n s) le h) k

  either-Within :
      (before : ℕ) (test : Bool) (x y : Evaluated Value)
      → Within max_steps before 1 x
      → Within max_steps before 1 y
      → Within max_steps before 1 (elim test [ true ↦ x | false ↦ y ])
  either-Within before true x y h k = h
  either-Within before false x y h k = k

  if-Within :
      (before : ℕ) (test : Bool) (x y : Evaluated Value)
      → Within max_steps before 1 x
      → Within max_steps before 1 y
      → Within max_steps before 1 (if test then x else y)
  if-Within before true x y h k = h
  if-Within before false x y h k = k

  -- The right operand, or none of it
  binary-Within :
      (op : String) (r : Node) (before : ℕ) (s₁ : Counters) (left : Value)
      → before + 1 ≤ s₁.steps
      → s₁.steps ≤ max_steps
      → Within max_steps s₁.steps 1 (value_of r s₁)
      → Within max_steps before 1 (
          if str_eq op "&&"
          then (elim (truthy F left) [ false ↦ (s₁, ok left) | true ↦ value_of r s₁ ])
          else if str_eq op "||"
          then (elim (truthy F left) [ true ↦ (s₁, ok left) | false ↦ value_of r s₁ ])
          else (run (value_of r s₁) λ s₂ right. (s₂, binary_value F to_json op left right)))
  binary-Within op r before s₁ left g k h =
      let later = Within-later max_steps before s₁.steps 1 1 (value_of r s₁) (omega (arith, g)) h in
      if-Within before (str_eq op "&&") _ _
        (either-Within before (truthy F left) (value_of r s₁) (s₁, ok left) later (g, k))
        (if-Within before (str_eq op "||") _ _
          (either-Within before (truthy F left) (s₁, ok left) (value_of r s₁) (g, k) later)
          (then-Within before 1 r s₁ _ (omega (arith, g)) h
            λ s₂ right g₂ k₂. Within-result max_steps before 1 s₂ _ g₂ k₂))

  call-Within :
      (callee : Node) (before : ℕ) (s : Counters) (args : Evaluated Values)
      → before + 1 ≤ s.steps
      → s.steps ≤ max_steps
      → Within max_steps before 1 args
      → Within max_steps before 1 (
          if str_eq (resolve_func_name callee) ""
          then (s, err not_a_function)
          else (elim (funcs (resolve_func_name callee)) [
            | none ↦ (s, err undefined_function)
            | some f ↦ run args λ s₁ vs. apply f s₁ vs
          ]))
  call-Within callee before s args g k h =
      if-Within before (str_eq (resolve_func_name callee) "") _ _ (g, omega (arith, k))
        (found (funcs (resolve_func_name callee)))
    where
      found :
          (o : Option Func)
          → Within max_steps before 1 (elim o [
            | none ↦ (s, err undefined_function)
            | some f ↦ run args λ s₁ vs. apply f s₁ vs
          ])
      found none = (g, omega (arith, k))
      found (some f) =
          Within-run max_steps before 1 args _ h
            λ s₁ vs g₁ k₁. Within-apply max_steps before 1 f s₁ vs g₁ k₁

  mutual
    unfolding eval

    node-Within :
        (n : Node) (s : Counters) → s.steps ≤ max_steps → Within max_steps s.steps 1 (value_of n s)
    node-Within (literal v) s h = Within-counted max_steps s _ h λ s' e k. (omega (arith, e), k)
    node-Within (Node.ident name) s h =
        Within-counted max_steps s _ h λ s' e k. (omega (arith, e), k)
    node-Within (unary op n) s h = Within-counted max_steps s _ h λ s' e k.
        then-Within s.steps 1 n s' _ (omega (arith, e)) (node-Within n s' k)
          λ s₁ v g k₁. Within-result max_steps s.steps 1 s₁ _ g k₁
    node-Within (binary op l r) s h = Within-counted max_steps s _ h λ s' e k.
        then-Within s.steps 1 l s' _ (omega (arith, e)) (node-Within l s' k)
          λ s₁ v g k₁. binary-Within op r s.steps s₁ v g k₁ (node-Within r s₁ k₁)
    node-Within (ternary c a b) s h = Within-counted max_steps s _ h λ s' e k.
        then-Within s.steps 1 c s' _ (omega (arith, e)) (node-Within c s' k) λ s₁ v g k₁.
          either-Within s.steps (truthy F v) (value_of a s₁) (value_of b s₁)
            (Within-later max_steps s.steps s₁.steps 1 1 (value_of a s₁) (omega (arith, g))
              (node-Within a s₁ k₁))
            (Within-later max_steps s.steps s₁.steps 1 1 (value_of b s₁) (omega (arith, g))
              (node-Within b s₁ k₁))
    node-Within (member n name) s h = Within-counted max_steps s _ h λ s' e k.
        then-Within s.steps 1 n s' _ (omega (arith, e)) (node-Within n s' k) λ s₁ v g k₁. (g, k₁)
    node-Within (index n i) s h = Within-counted max_steps s _ h λ s' e k.
        then-Within s.steps 1 n s' _ (omega (arith, e)) (node-Within n s' k) λ s₁ v g k₁.
          then-Within s.steps 1 i s₁ _ (omega (arith, g)) (node-Within i s₁ k₁)
            λ s₂ w g₂ k₂. (g₂, k₂)
    node-Within (call callee args) s h = Within-counted max_steps s _ h λ s' e k.
        call-Within callee s.steps s' (eval_nodes F to_json vars funcs max_steps args s')
          (omega (arith, e)) k (eval_nodes-Within args s.steps s' (omega (arith, e)) k)
    node-Within (Node.array elements) s h = Within-counted max_steps s _ h λ s' e k.
        Within-run max_steps s.steps 1 (eval_nodes F to_json vars funcs max_steps elements s') _
          (eval_nodes-Within elements s.steps s' (omega (arith, e)) k) λ s₁ vs g k₁. (g, k₁)
    node-Within (Node.object ps) s h = Within-counted max_steps s _ h λ s' e k.
        Within-run max_steps s.steps 1
          (eval_properties F to_json vars funcs max_steps ps no_entries s') _
          (eval_properties-Within ps no_entries s.steps s' (omega (arith, e)) k)
          λ s₁ es g k₁. (g, k₁)

    eval_nodes-Within :
        (ns : Nodes) (before : ℕ) (s : Counters)
        → before + 1 ≤ s.steps
        → s.steps ≤ max_steps
        → Within max_steps before 1 (eval_nodes F to_json vars funcs max_steps ns s)
    eval_nodes-Within no_nodes before s g h = (g, h)
    eval_nodes-Within (node n ns) before s g h =
        then-Within before 1 n s _ (omega (arith, g)) (node-Within n s h) λ s₁ v g₁ k₁.
          Within-run max_steps before 1 (eval_nodes F to_json vars funcs max_steps ns s₁) _
            (eval_nodes-Within ns before s₁ g₁ k₁) λ s₂ vs g₂ k₂. (g₂, k₂)

    eval_properties-Within :
        (ps : Properties) (m : Entries) (before : ℕ) (s : Counters)
        → before + 1 ≤ s.steps
        → s.steps ≤ max_steps
        → Within max_steps before 1 (eval_properties F to_json vars funcs max_steps ps m s)
    eval_properties-Within no_properties m before s g h = (g, h)
    eval_properties-Within (property key n ps) m before s g h =
        then-Within before 1 n s _ (omega (arith, g)) (node-Within n s h)
          λ s₁ v g₁ k₁. eval_properties-Within ps (set_entry m key v) before s₁ g₁ k₁

  -- eval counts a step at least, and returns a value only within maxSteps: of every node, variables and
  -- functions, when it starts within maxSteps. At an error it has counted one step past it at most.
  pub eval-Within :
      (n : Node) (s : Counters)
      → s.steps ≤ max_steps
      → Within max_steps s.steps 1 (eval F to_json vars funcs max_steps n s)
  eval-Within n s h = node-Within n s h
