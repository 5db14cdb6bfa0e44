-- ===== src/Workflows/Expr/Eval.antt =====
-- eval of workflows/expr/eval.go. Of the Env an evaluation changes the count of steps, and a function of
-- the environment changes testCounter at most, as those of builtinFuncs do; the rest of it, the
-- variables, the functions and maxSteps, are parameters.
pub mod Budget
use sakumock.Workflows.Expr.Syntax
use sakumock.Workflows.Expr.Syntax.{
  Float, Value, Values, Entries, null, boolean, no_values, value, no_entries, entry, Node, Nodes,
  Properties, literal, unary, binary, ternary, member, index, call, no_nodes, node, no_properties,
  property,
}
use sakumock.Workflows.Expr.Value.{
  Floats, truthy, to_number, to_string, equal, strict_equal, less, get_member, get_index,
}
use sakumock.Prelude.{
  ℕ, suc, ◌+◌, String, Bool, true, false, not, ◌||◌, Option, none, some, Result, ok, err, ltb,
  str_eq, concat, if◌then◌else◌,
}

-- What an evaluation changes of the Env
pub record Counters : Type 0 where
  pub steps : ℕ
  pub test_counter : ℕ

pub data EvalError : Type 0 where
  too_many_steps unknown_unary unknown_binary not_a_function undefined_function : EvalError
  -- The error of a function
  failed : EvalError
  -- A function does not return.
  endless : EvalError

-- Func: testCounter in and out, and `none` where it does not return, and `some none` for an error
abbrev pub Func : Type 0
Func = ℕ → Values → ℕ × Option (Option Value)

abbrev pub Evaluated : Type 0 → Type 0
Evaluated A = Counters × Result EvalError A

-- The rest of a function, past `if err != nil { return Null, err }`
abbrev pub run : {A B : Type 0} → Evaluated A → (Counters → A → Evaluated B) → Evaluated B
run (s, ok a) go_on = go_on s a
run (s, err e) go_on = (s, err e)

-- env.step(), and the rest of eval
unfoldable pub counted : {A : Type 0} → ℕ → Counters → (Counters → Evaluated A) → Evaluated A
counted max_steps s go_on =
    let s' = record s { steps = s.steps + 1 } in
    elim (ltb max_steps s'.steps) [ true ↦ (s', err too_many_steps) | false ↦ go_on s' ]

abbrev or_null : Option Value → Value
or_null none = null
or_null (some v) = v

-- m[key] = v
unfoldable pub set_entry : Entries → String → Value → Entries
set_entry no_entries key v = entry key v no_entries
set_entry (entry k w es) key v =
    let rest = set_entry es key v in if str_eq k key then entry k v es else entry k w rest

-- resolveFuncName
unfoldable pub resolve_func_name : Node → String
resolve_func_name (Node.ident name) = name
resolve_func_name (member n name) =
    let parent = resolve_func_name n in
    if str_eq parent "" then "" else concat parent (concat "." name)
resolve_func_name _ = ""

unfoldable pub is_string : Value → Bool
is_string (Value.string s) = true
is_string v = false

module _ (F : Floats) where
  -- evalUnary, of the operand's value
  unfoldable pub unary_value : String → Value → Result EvalError Value
  unfolding truthy to_number
  unary_value op v =
      if str_eq op "-"
      then ok (Value.number (F.neg (to_number F v)))
      else if str_eq op "+"
      then ok (Value.number (to_number F v))
      else if str_eq op "!"
      then ok (boolean (not (truthy F v)))
      else err unknown_unary

  divide : Float → Float → Float
  divide l r = if F.eq r F.zero then (if F.eq l F.zero then F.nan else F.infinity) else F.div l r

module _ (F : Floats) (to_json : Value → String) where
  plus_value : Value → Value → Value
  unfolding is_string to_string to_number
  plus_value l r =
      if is_string l || is_string r
      then Value.string (concat (to_string F to_json l) (to_string F to_json r))
      else Value.number (F.add (to_number F l) (to_number F r))

  -- The end of evalBinary, of the values of both operands
  unfoldable pub binary_value : String → Value → Value → Result EvalError Value
  unfolding plus_value divide to_number equal strict_equal less
  binary_value op l r =
      if str_eq op "+"
      then ok (plus_value l r)
      else if str_eq op "-"
      then ok (Value.number (F.sub (to_number F l) (to_number F r)))
      else if str_eq op "*"
      then ok (Value.number (F.mul (to_number F l) (to_number F r)))
      else if str_eq op "/"
      then ok (Value.number (divide F (to_number F l) (to_number F r)))
      else if str_eq op "%"
      then ok (Value.number (F.modulo (to_number F l) (to_number F r)))
      else if str_eq op "**"
      then ok (Value.number (F.pow (to_number F l) (to_number F r)))
      else if str_eq op "=="
      then ok (boolean (equal F l r))
      else if str_eq op "!="
      then ok (boolean (not (equal F l r)))
      else if str_eq op "==="
      then ok (boolean (strict_equal F l r))
      else if str_eq op "!=="
      then ok (boolean (not (strict_equal F l r)))
      else if str_eq op "<"
      then ok (boolean (less F l r))
      else if str_eq op ">"
      then ok (boolean (less F r l))
      else if str_eq op "<="
      then ok (boolean (not (less F r l)))
      else if str_eq op ">="
      then ok (boolean (not (less F l r)))
      else err unknown_binary

-- The end of evalCall, of the arguments' values
unfoldable pub apply : Func → Counters → Values → Evaluated Value
apply f s args =
    let (test_counter, result) = f s.test_counter args in
    let s' = record s { test_counter = test_counter } in
    elim result [
      | none ↦ (s', err endless)
      | some none ↦ (s', err failed)
      | some (some v) ↦ (s', ok v)
    ]

module _ (F : Floats) (to_json : Value → String) (vars : String → Option Value)
    (funcs : String → Option Func) (max_steps : ℕ) where
  unfoldable mutual
    -- eval, with evalUnary, evalBinary and evalCall
    pub eval : Node → Counters → Evaluated Value
    eval (literal v) s = counted max_steps s λ s'. (s', ok v)
    eval (Node.ident name) s = counted max_steps s λ s'. (s', ok (or_null (vars name)))
    eval (unary op n) s = counted max_steps s λ s'. run (eval n s') λ s₁ v. (s₁, unary_value F op v)
    eval (binary op l r) s = counted max_steps s λ s'. run (eval l s') λ s₁ left.
        if str_eq op "&&"
        then (elim (truthy F left) [ false ↦ (s₁, ok left) | true ↦ eval r s₁ ])
        else if str_eq op "||"
        then (elim (truthy F left) [ true ↦ (s₁, ok left) | false ↦ eval r s₁ ])
        else (run (eval r s₁) λ s₂ right. (s₂, binary_value F to_json op left right))
    eval (ternary c a b) s = counted max_steps s λ s'.
        run (eval c s') λ s₁ cond. elim (truthy F cond) [ true ↦ eval a s₁ | false ↦ eval b s₁ ]
    eval (member n name) s =
        counted max_steps s λ s'. run (eval n s') λ s₁ v. (s₁, ok (or_null (get_member F v name)))
    eval (index n i) s = counted max_steps s λ s'.
        run (eval n s') λ s₁ v. run (eval i s₁) λ s₂ w. (s₂, ok (or_null (get_index F to_json v w)))
    eval (call callee args) s = counted max_steps s λ s'.
        if str_eq (resolve_func_name callee) ""
        then (s', err not_a_function)
        else (elim (funcs (resolve_func_name callee)) [
          | none ↦ (s', err undefined_function)
          | some f ↦ run (eval_nodes args s') λ s₁ vs. apply f s₁ vs
        ])
    eval (Node.array elements) s =
        counted max_steps s λ s'. run (eval_nodes elements s') λ s₁ vs. (s₁, ok (Value.array vs))
    eval (Node.object properties) s =
        counted max_steps s
          λ s'. run (eval_properties properties no_entries s') λ s₁ es. (s₁, ok (Value.object es))

    -- The loops of arrayNode and of evalCall
    pub eval_nodes : Nodes → Counters → Evaluated Values
    eval_nodes no_nodes s = (s, ok no_values)
    eval_nodes (node n ns) s =
        run (eval n s) λ s₁ v. run (eval_nodes ns s₁) λ s₂ vs. (s₂, ok (value v vs))

    -- The loop of objectNode, with the entries of m
    pub eval_properties : Properties → Entries → Counters → Evaluated Entries
    eval_properties no_properties m s = (s, ok m)
    eval_properties (property key n ps) m s =
        run (eval n s) λ s₁ v. eval_properties ps (set_entry m key v) s₁
