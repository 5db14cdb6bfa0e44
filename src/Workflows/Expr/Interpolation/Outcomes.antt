-- ===== src/Workflows/Expr/Interpolation/Outcomes.antt =====
-- What Eval and EvalInterpolated of workflows/expr/expr.go come to.
use sakumock.Workflows.Expr.Syntax.{Value, Tokens, Node}
use sakumock.Workflows.Expr.Lexer
use sakumock.Workflows.Expr.Lexer.{Runes, runes, text, tokenize, LexError}
use sakumock.Workflows.Expr.Lexer.Spans.{Lexed, tokenize-Lexed}
use sakumock.Workflows.Expr.Grammar
use sakumock.Workflows.Expr.Grammar.{ParseError}
use sakumock.Workflows.Expr.Parser.{parse}
use sakumock.Workflows.Expr.Parser.Termination.{parse-terminates}
use sakumock.Workflows.Expr.Value.{Floats, to_string}
use sakumock.Workflows.Expr.Eval.{Counters, Func, Evaluated, eval}
use sakumock.Workflows.Expr.Eval.Budget.{Within, eval-Within}
use sakumock.Workflows.Expr.Interpolation.{
  ExprError, too_long, unterminated, lexer, parser, evaluation, out_of_fuel, Expressed, and_then,
  as_expr_error, prepend, opens, count_opens, ends_in_brace, matching_brace, max_expression_len,
  eval_tokens, eval_expression, interpolate, eval_interpolated,
}
use sakumock.Prelude.{
  ℕ, zero, suc, ◌+◌, ◌-◌, ◌≤◌, ◌<◌, ◌≡◌, ◌≢◌, refl, ap, ◌∙◌, String, [], ◌∷◌, Bool, ◌&&◌, Option,
  Result, ok, err, ltb, ◌==◌, codes, byte_length, length, take, drop, length-drop, arith,
  Bool-cases, Option-cases, inl, inr,
}

-- An error that the code has, or a function that does not return, but no loop that is out of fuel
abbrev pub IsReal : ExprError → Type 0
IsReal too_long = Unit
IsReal unterminated = Unit
IsReal (lexer e) = e ≢ Lexer.out_of_fuel
IsReal (parser e) = e ≢ Grammar.out_of_fuel
IsReal (evaluation e) = Unit
IsReal out_of_fuel = ⊥

-- The count of steps that is left is one past the limit at most, and no loop is out of fuel.
abbrev pub Outcome : {A : Type 0} → ℕ → Expressed A → Type 0
Outcome max_steps (s, ok a) = s.steps ≤ max_steps + 1
Outcome max_steps (s, err e) = (s.steps ≤ max_steps + 1) × IsReal e

module _ (wide_letter : ℕ → Bool) (F : Floats) (to_json : Value → String)
    (vars : String → Option Value) (funcs : String → Option Func) (max_steps : ℕ) where
  evaluated-Outcome :
      (before : ℕ) (r : Evaluated Value)
      → Within max_steps before 1 r
      → Outcome max_steps (as_expr_error r)
  evaluated-Outcome before (s', ok v) h = omega (arith, h.1)
  evaluated-Outcome before (s', err e) h = (h.1, tt)

  eval_tokens-Outcome :
      (input : Runes) (r : Result LexError Tokens) (s : Counters)
      → Lexed wide_letter 0 input r
      → s.steps ≤ max_steps + 1
      → Outcome max_steps (eval_tokens wide_letter F to_json vars funcs max_steps r s)
  unfolding eval_tokens
  eval_tokens-Outcome input (err e) s lexed h = (h, lexed)
  eval_tokens-Outcome input (ok tokens) s lexed h = parsed (parse F.parse_float tokens) refl
    where
      parsed :
          (p : Result ParseError Node)
          → parse F.parse_float tokens ≡ p
          → Outcome max_steps (eval_tokens wide_letter F to_json vars funcs max_steps (ok tokens) s)
      parsed (err e) q =
          rw (eval_tokens, q) (h, λ same. parse-terminates F.parse_float tokens (q ∙ ap err same))
      parsed (ok n) q =
          rw (eval_tokens, q)
            (evaluated-Outcome 0 (eval F to_json vars funcs max_steps n (record s { steps = 0 }))
              (eval-Within F to_json vars funcs max_steps n (record s { steps = 0 }) (omega arith)))

  eval_expression-Outcome :
      (expression : Runes) (s : Counters)
      → s.steps ≤ max_steps + 1
      → Outcome max_steps (eval_expression wide_letter F to_json vars funcs max_steps expression s)
  unfolding eval_expression
  eval_expression-Outcome expression s h =
      elim (Bool-cases (ltb max_expression_len (byte_length (codes (text expression))))) [
        | inl long ↦ rw (eval_expression, long) (h, tt)
        | inr short ↦
            rw (eval_expression, short)
              (eval_tokens-Outcome (runes (text expression))
                (tokenize wide_letter (text expression)) s
                (tokenize-Lexed wide_letter (text expression)) h)
      ]

  and_then-Outcome :
      {A B : Type 0} (e : Expressed A) (go_on : Counters → A → Expressed B)
      → Outcome max_steps e
      → ((s : Counters) (a : A) → s.steps ≤ max_steps + 1 → Outcome max_steps (go_on s a))
      → Outcome max_steps (and_then e go_on)
  and_then-Outcome (s, ok a) go_on h k = k s a h
  and_then-Outcome (s, err e) go_on h k = h

  prepend-Outcome :
      (front : Runes) (e : Expressed Runes)
      → Outcome max_steps e
      → Outcome max_steps (prepend front e)
  prepend-Outcome front (s, ok rest) h = h
  prepend-Outcome front (s, err e) h = h

  interpolate-Outcome :
      (fuel : ℕ) (s : Runes) (env : Counters)
      → length s < fuel
      → env.steps ≤ max_steps + 1
      → Outcome max_steps (interpolate wide_letter F to_json vars funcs max_steps fuel s env)
  unfolding interpolate
  interpolate-Outcome zero s env lt h = absurd (omega (arith, lt))
  interpolate-Outcome (suc fuel) [] env lt h = h
  interpolate-Outcome (suc fuel) (c ∷ s) env lt h = elim (Bool-cases (opens (c ∷ s))) [
    | inr text ↦
        rw (interpolate, text)
          (prepend-Outcome (c ∷ []) _ (interpolate-Outcome fuel s env (omega (arith, lt)) h))
    | inl opened ↦ elim (Option-cases (matching_brace 1 0 (drop 1 s))) [
      | inl e ↦ rw (interpolate, opened, e) (h, tt)
      | inr (n, e) ↦
          rw (interpolate, opened, e)
            (and_then-Outcome
              (eval_expression wide_letter F to_json vars funcs max_steps (take n (drop 1 s)) env) _
              (eval_expression-Outcome (take n (drop 1 s)) env h)
              λ env₁ v h₁. prepend-Outcome (runes (to_string F to_json v)) _ (
                interpolate-Outcome fuel (drop (2 + n) s) env₁
                  (omega (arith, lt, length-drop (2 + n) s)) h₁))
    ]
  ]

  -- EvalInterpolated, of any text, from a count of steps that is at most one past maxSteps, comes to a
  -- value, or to one of the errors of the lexer, the parser, the evaluation or its own, or to a function
  -- of the environment that does not return: no loop of the lexer, of the parser or of the
  -- interpolation goes on for ever. The count of steps that is left, that of the last expression, is at
  -- most one past maxSteps.
  pub eval_interpolated-Outcome :
      (s : Runes) (env : Counters)
      → env.steps ≤ max_steps + 1
      → Outcome max_steps (eval_interpolated wide_letter F to_json vars funcs max_steps s env)
  unfolding eval_interpolated
  eval_interpolated-Outcome s env h = elim (Bool-cases (count_opens s == 0)) [
    | inl plain ↦ rw (eval_interpolated, plain) h
    | inr marked ↦ elim (Bool-cases (opens s && ends_in_brace s && (count_opens s == 1))) [
      | inl whole ↦
          rw (eval_interpolated, marked, whole)
            (eval_expression-Outcome (take (length s - 3) (drop 2 s)) env h)
      | inr parts ↦
          rw (eval_interpolated, marked, parts)
            (and_then-Outcome
              (interpolate wide_letter F to_json vars funcs max_steps (suc (length s)) s env) _
              (interpolate-Outcome (suc (length s)) s env (omega arith) h) λ env' t h'. h')
    ]
  ]
