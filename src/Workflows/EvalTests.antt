-- ===== src/Workflows/EvalTests.antt =====
-- The theorems on the evaluation of workflows/expr/ at concrete inputs.
use sakumock.Core.Decimal.{format_int, parse_int}
use sakumock.Workflows.Expr.Syntax.{
  Float, Value, Values, Node, no_values, value, binary, call, no_nodes, node,
}
use sakumock.Workflows.Expr.Lexer.{
  runes, tokenize, tokenize_from, next_token, symbol, count_while, number_token, read_ident,
}
use sakumock.Workflows.Expr.Grammar
use sakumock.Workflows.Expr.Grammar.{infix_precedence}
use sakumock.Workflows.Expr.Parser.{parse, parse_infix, parse_binary}
use sakumock.Workflows.Expr.Value.{Floats, truthy, to_string}
use sakumock.Workflows.Expr.Eval.{
  Counters, Func, eval, counted, binary_value, apply, resolve_func_name, too_many_steps,
}
use sakumock.Workflows.Expr.Eval.Budget.{Within, eval-Within}
use sakumock.Workflows.Expr.Interpolation.{
  eval_interpolated, interpolate, eval_expression, eval_tokens, matching_brace, count_opens,
  ends_in_brace, parser,
}
use sakumock.Workflows.Expr.Interpolation.Outcomes.{Outcome, eval_interpolated-Outcome}
use sakumock.Prelude.{
  ◌+◌, ◌-◌, ◌*◌, ◌/◌, ◌%◌, ◌^◌, ◌≡◌, refl, String, false, Option, none, some, ok, err, ltb, ◌==◌,
  str_eq, ℤ, pos, is_space, arith, if◌then◌else◌,
}

abbrev as_number : Option ℤ → Option Float
as_number (some (pos n)) = some n
as_number _ = none

-- Numbers for tests: a natural number for its bits
abbrev pub floats : Floats
unfolding parse_int
floats = record {
  zero = 0;
  one = 1;
  nan = 999;
  infinity = 998;
  neg = λ x. x;
  add = λ x y. x + y;
  sub = λ x y. x - y;
  mul = λ x y. x * y;
  div = λ x y. x / y;
  modulo = λ x y. x % y;
  pow = λ x y. x ^ y;
  eq = λ x y. x == y;
  lt = λ x y. ltb x y;
  trunc = λ x. x;
  is_inf = λ x. x == 998;
  is_nan = λ x. x == 999;
  of_length = λ n. n;
  to_int64 = λ x. pos x;
  parse_float = λ s. as_number (parse_int s);
  format_float = λ x. "NaN";
}

abbrev vars : String → Option Value
vars name = if str_eq name "a" then some (Value.number 41) else none

abbrev first : Values → Option Value
first no_values = none
first (value v vs) = some v

abbrev funcs : String → Option Func
funcs name = if str_eq name "id" then some (λ t vs. (t, some (first vs))) else none

abbrev env : Counters
env = record { steps = 7; test_counter = 0 }

evaluated :
    eval_interpolated (λ c. false) floats (λ v. "{}") vars funcs 10 (runes "n=${a + 1}!") env
    ≡ (record { steps = 3; test_counter = 0 }, ok (Value.string "n=42!"))
unfolding eval_interpolated interpolate eval_expression eval_tokens matching_brace count_opens
    ends_in_brace tokenize tokenize_from next_token symbol is_space count_while number_token
    read_ident parse parse_infix parse_binary infix_precedence eval counted binary_value to_string
    format_int parse_int
evaluated = refl

-- A text that starts with an expression and ends in a brace of its own
braces_around_text :
    eval_interpolated (λ c. false) floats (λ v. "{}") vars funcs 10 (runes "${a} in {b}") env
    ≡ (env, err (parser Grammar.unexpected_token))
unfolding eval_interpolated interpolate eval_expression eval_tokens matching_brace count_opens
    ends_in_brace tokenize tokenize_from next_token symbol is_space count_while number_token
    read_ident parse parse_infix parse_binary infix_precedence eval counted binary_value to_string
    format_int parse_int
braces_around_text = refl

eval_interpolated-Outcome_example :
    Outcome 10
      (eval_interpolated (λ c. false) floats (λ v. "{}") vars funcs 10 (runes "n=${a + 1}!") env)
eval_interpolated-Outcome_example =
    eval_interpolated-Outcome (λ c. false) floats (λ v. "{}") vars funcs 10 (runes "n=${a + 1}!")
      env (omega arith)

-- id(a && a)
abbrev nested : Node
nested = call (Node.ident "id") (node (binary "&&" (Node.ident "a") (Node.ident "a")) no_nodes)

too_few_steps :
    eval floats (λ v. "{}") vars funcs 3 nested (record { steps = 0; test_counter = 0 })
    ≡ (record { steps = 4; test_counter = 0 }, err too_many_steps)
unfolding eval counted truthy resolve_func_name apply floats
too_few_steps = refl

eval-Within_example : Within 10 7 1 (eval floats (λ v. "{}") vars funcs 10 nested env)
eval-Within_example = eval-Within floats (λ v. "{}") vars funcs 10 nested env (omega arith)
