-- ===== src/Workflows/Expr/Interpolation.antt =====
-- Eval and EvalInterpolated of workflows/expr/expr.go. A text is its runes here; every test of the code
-- is on an ASCII byte, which is no part of another rune.
pub mod Outcomes
use Prim.Native.Char.{Char, code}
use sakumock.Workflows.Expr.Syntax.{Value, Tokens}
use sakumock.Workflows.Expr.Lexer.{Runes, runes, text, tokenize, LexError}
use sakumock.Workflows.Expr.Grammar.{ParseError}
use sakumock.Workflows.Expr.Parser.{parse}
use sakumock.Workflows.Expr.Value.{Floats, to_string}
use sakumock.Workflows.Expr.Eval.{Counters, EvalError, Func, Evaluated, eval}
use sakumock.Prelude.{
  ℕ, zero, suc, ◌+◌, ◌-◌, String, List, [], ◌∷◌, ◌++◌, Bool, true, false, ◌&&◌, Option, none, some,
  Result, ok, err, ltb, ◌==◌, codes, byte_length, length, take, drop, if◌then◌else◌,
}

pub data ExprError : Type 0 where
  too_long unterminated : ExprError
  lexer : LexError → ExprError
  parser : ParseError → ExprError
  evaluation : EvalError → ExprError
  -- The fuel of the loop of EvalInterpolated has run out.
  out_of_fuel : ExprError

-- MaxExpressionLen
abbrev pub max_expression_len : ℕ
max_expression_len = 512

-- s[i] == '$' && s[i+1] == '{'
abbrev pub opens : Runes → Bool
opens [] = false
opens (c ∷ []) = false
opens (c ∷ d ∷ s) = (code c == b'$') && (code d == b'{')

-- strings.Count(s, "${")
unfoldable pub count_opens : Runes → ℕ
count_opens [] = 0
count_opens (c ∷ s) = let rest = count_opens s in if opens (c ∷ s) then suc rest else rest

-- strings.HasSuffix(s, "}")
unfoldable pub ends_in_brace : Runes → Bool
ends_in_brace [] = false
ends_in_brace (c ∷ []) = code c == b'}'
ends_in_brace (c ∷ d ∷ s) = ends_in_brace (d ∷ s)

-- findMatchingBrace: how many runes are before the brace. `quote` is inStr, 0 outside of a string.
unfoldable pub matching_brace : ℕ → ℕ → Runes → Option ℕ
matching_brace depth quote [] = none
matching_brace depth (suc quote) (c ∷ []) = none
matching_brace depth (suc quote) (c ∷ d ∷ s) = elim (code c == b'\\') [
  | true ↦ elim (matching_brace depth (suc quote) s) [ none ↦ none | some n ↦ some (2 + n) ]
  | false ↦ elim (matching_brace depth (if code c == suc quote then 0 else suc quote) (d ∷ s)) [
    | none ↦ none
    | some n ↦ some (1 + n)
  ]
]
matching_brace zero zero (c ∷ s) = none
matching_brace (suc depth) zero (c ∷ s) = elim (code c == b'}') [
  | true ↦ elim depth [
    | zero ↦ some 0
    | suc less ↦ elim (matching_brace (suc less) 0 s) [ none ↦ none | some n ↦ some (1 + n) ]
  ]
  | false ↦
      elim (matching_brace (if code c == b'{' then suc (suc depth) else suc depth)
        (if code c == 34 then 34 else if code c == 39 then 39 else 0) s) [
          | none ↦ none
          | some n ↦ some (1 + n)
        ]
]

abbrev pub Expressed : Type 0 → Type 0
Expressed A = Counters × Result ExprError A

-- The rest of a function, past `if err != nil { return Null, err }`
abbrev pub and_then : {A B : Type 0} → Expressed A → (Counters → A → Expressed B) → Expressed B
and_then (s, ok a) go_on = go_on s a
and_then (s, err e) go_on = (s, err e)

abbrev pub as_expr_error : Evaluated Value → Expressed Value
as_expr_error (s, ok v) = (s, ok v)
as_expr_error (s, err e) = (s, err (evaluation e))

-- A part of the result, in front of the rest
abbrev pub prepend : Runes → Expressed Runes → Expressed Runes
prepend front (s, ok rest) = (s, ok (front ++ rest))
prepend front (s, err e) = (s, err e)

module _ (wide_letter : ℕ → Bool) (F : Floats) (to_json : Value → String)
    (vars : String → Option Value) (funcs : String → Option Func) (max_steps : ℕ) where
  -- The evaluation of a parsed expression
  unfoldable pub eval_tokens : Result LexError Tokens → Counters → Expressed Value
  eval_tokens (err e) s = (s, err (lexer e))
  eval_tokens (ok tokens) s = elim (parse F.parse_float tokens) [
    | err e ↦ (s, err (parser e))
    | ok n ↦ as_expr_error (eval F to_json vars funcs max_steps n (record s { steps = 0 }))
  ]

  -- Eval
  unfoldable pub eval_expression : Runes → Counters → Expressed Value
  eval_expression expression s =
      if ltb max_expression_len (byte_length (codes (text expression)))
      then (s, err too_long)
      else eval_tokens (tokenize wide_letter (text expression)) s

  -- The loop of EvalInterpolated: the runes of the result
  unfoldable pub interpolate : ℕ → Runes → Counters → Expressed Runes
  interpolate zero s env = (env, err out_of_fuel)
  interpolate (suc fuel) [] env = (env, ok [])
  interpolate (suc fuel) (c ∷ s) env = elim (opens (c ∷ s)) [
    | true ↦ elim (matching_brace 1 0 (drop 1 s)) [
      | none ↦ (env, err unterminated)
      | some n ↦
          and_then (eval_expression (take n (drop 1 s)) env) λ env₁ v.
            prepend (runes (to_string F to_json v)) (interpolate fuel (drop (2 + n) s) env₁)
    ]
    | false ↦ prepend (c ∷ []) (interpolate fuel s env)
  ]

  -- EvalInterpolated
  unfoldable pub eval_interpolated : Runes → Counters → Expressed Value
  eval_interpolated s env =
      if count_opens s == 0
      then (env, ok (Value.string (text s)))
      else if opens s && ends_in_brace s && (count_opens s == 1)
      then eval_expression (take (length s - 3) (drop 2 s)) env
      else (and_then (interpolate (suc (length s)) s env)
          λ env' t. (env', ok (Value.string (text t))))
