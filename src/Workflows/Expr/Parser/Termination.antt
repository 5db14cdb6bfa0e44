-- ===== src/Workflows/Expr/Parser/Termination.antt =====
-- Every call of the parser of workflows/expr/parser.go that returns a node has consumed tokens, so
-- the loops end before their fuel does.
use sakumock.Workflows.Expr.Syntax.{
  TokenType, Token, Tokens, Float, unary, Node, Properties, no_properties, index, binary,
}
use sakumock.Workflows.Expr.Grammar.{
  ParseError, out_of_fuel, max_parse_depth, Parsed, rank, at, expect, infix_precedence,
}
use sakumock.Workflows.Expr.Parser.{
  Recursion, parse_items, parse_properties, parse_call, parse_array_literal, parse_object_literal,
  parse_ternary, parse_binary, parse_infix, parse_loop, parse_prefix, parse_expr, parse,
}
use sakumock.Workflows.Expr.Parser.Progress.{
  Shrinks, Shrinks-weaken, Shrinks-bind, Consumes, expect-Shrinks, parse_items-Shrinks,
  parse_properties-Shrinks,
}
use sakumock.Prelude.{
  ℕ, zero, suc, ◌<◌, ◌≡◌, ◌≢◌, refl, String, [], ◌∷◌, true, false, Option, ok, err, bind, ltb,
  length, arith, Bool-cases, Option-cases, inl, inr,
}

module _ (rec : Recursion) (consumes : Consumes rec) where
  parse_object_literal-Shrinks :
      (tokens : Tokens) → Shrinks (length tokens) (parse_object_literal rec tokens)
  unfolding parse_object_literal
  parse_object_literal-Shrinks tokens =
      let closed : (items : Properties) (rest : Tokens)
          → length rest < suc (length tokens)
          → Shrinks (length tokens)
              (bind (expect TokenType.rbrace rest) λ (_, rest'). ok (Node.object items, rest')) =
        λ items rest lt.
          Shrinks-bind (length rest) (length tokens) (expect TokenType.rbrace rest) _
            (expect-Shrinks TokenType.rbrace rest (unfold at rank in refl))
            λ _ rest' lt'. omega (arith, lt, lt') in
      elim (Bool-cases (at TokenType.rbrace tokens)) [
        | inl here ↦ rw here (closed no_properties tokens (omega arith))
        | inr there ↦ rw there (
            Shrinks-bind (suc (length tokens)) (length tokens)
              (parse_properties rec (suc (length tokens)) tokens) _
              (Shrinks-weaken (length tokens) (suc (length tokens))
                (parse_properties rec (suc (length tokens)) tokens) (omega arith)
                (parse_properties-Shrinks rec consumes (suc (length tokens)) tokens (omega arith)))
              closed)
      ]

  parse_call-Shrinks :
      (callee : Node) (tokens : Tokens) → Shrinks (length tokens) (parse_call rec callee tokens)
  unfolding parse_call
  parse_call-Shrinks callee tokens =
      Shrinks-bind (length tokens) (length tokens) (parse_items rec TokenType.rparen tokens) _
        (parse_items-Shrinks rec consumes TokenType.rparen tokens (unfold at rank in refl))
        λ _ rest lt. lt

  parse_array_literal-Shrinks :
      (tokens : Tokens) → Shrinks (length tokens) (parse_array_literal rec tokens)
  unfolding parse_array_literal
  parse_array_literal-Shrinks tokens =
      Shrinks-bind (length tokens) (length tokens) (parse_items rec TokenType.rbracket tokens) _
        (parse_items-Shrinks rec consumes TokenType.rbracket tokens (unfold at rank in refl))
        λ _ rest lt. lt

  -- An expression and a token that closes it
  closed-Shrinks :
      {A : Type 0} (typ : TokenType) (tokens : Tokens) (f : Node → A)
      → at typ [] ≡ false
      → Shrinks
          (length tokens)
          (bind (rec 0 tokens) λ (n, rest₀). bind (expect typ rest₀) λ (_, rest). ok (f n, rest))
  closed-Shrinks typ tokens f proper =
      Shrinks-bind (length tokens) (length tokens) (rec 0 tokens) _ (consumes 0 tokens)
        λ n rest₀ lt₀.
          Shrinks-bind (length rest₀) (length tokens) (expect typ rest₀) _
            (expect-Shrinks typ rest₀ proper) λ _ rest lt. omega (arith, lt₀, lt)

  parse_ternary-Shrinks :
      (cond : Node) (tokens : Tokens) → Shrinks (length tokens) (parse_ternary rec cond tokens)
  unfolding parse_ternary
  parse_ternary-Shrinks cond tokens =
      Shrinks-bind (length tokens) (length tokens) (rec 0 tokens) _ (consumes 0 tokens)
        λ n rest₀ lt₀.
          Shrinks-bind (length rest₀) (length tokens) (expect TokenType.colon rest₀) _
            (expect-Shrinks TokenType.colon rest₀ (unfold at rank in refl))
            λ _ rest₁ lt₁.
              Shrinks-bind (length rest₁) (length tokens) (rec 0 rest₁) _ (consumes 0 rest₁)
                λ m rest lt. omega (arith, lt₀, lt₁, lt)

  one-Shrinks :
      {A : Type 0} (min_prec : ℕ) (tokens : Tokens) (f : Node → A)
      → Shrinks (length tokens) (bind (rec min_prec tokens) λ (n, rest). ok (f n, rest))
  one-Shrinks min_prec tokens f =
      Shrinks-bind (length tokens) (length tokens) (rec min_prec tokens) _
        (consumes min_prec tokens) λ _ rest lt. lt

  parse_infix-Shrinks :
      (prec : ℕ) (left : Node) (t : Token) (tokens : Tokens)
      → Shrinks (length tokens) (parse_infix rec prec left t tokens)
  unfolding parse_infix parse_binary
  parse_infix-Shrinks prec left t tokens = turn t.typ refl
    where
      turn :
          (typ : TokenType)
          → t.typ ≡ typ
          → Shrinks (length tokens) (parse_infix rec prec left t tokens)
      turn TokenType.question e = rw (parse_infix, e) (parse_ternary-Shrinks left tokens)
      turn TokenType.lparen e = rw (parse_infix, e) (parse_call-Shrinks left tokens)
      turn TokenType.dot e =
          rw (parse_infix, e)
            (Shrinks-bind (length tokens) (length tokens) (expect TokenType.ident tokens) _
              (expect-Shrinks TokenType.ident tokens (unfold at rank in refl)) λ _ rest lt. lt)
      turn TokenType.lbracket e =
          rw (parse_infix, e)
            (closed-Shrinks TokenType.rbracket tokens (λ i. index left i) (unfold at rank in refl))
      turn _ e = rw (parse_infix, e) (one-Shrinks _ tokens (λ right. binary t.val left right))

  parse_loop-Shrinks :
      (fuel min_prec : ℕ) (left : Node) (tokens : Tokens)
      → length tokens < fuel
      → Shrinks (suc (length tokens)) (parse_loop rec fuel min_prec left tokens)
  unfolding parse_loop
  parse_loop-Shrinks zero min_prec left tokens h = absurd (omega (arith, h))
  parse_loop-Shrinks (suc fuel) min_prec left [] h = omega arith
  parse_loop-Shrinks (suc fuel) min_prec left (t ∷ rest) h =
      elim (Option-cases (infix_precedence t.typ)) [
        | inl e ↦ rw (parse_loop, e) (omega arith)
        | inr (prec, e) ↦ elim (Bool-cases (ltb prec min_prec)) [
          | inl low ↦ rw (parse_loop, e, low) (omega arith)
          | inr high ↦
              rw (parse_loop, e, high)
                (Shrinks-bind (length rest) (suc (suc (length rest)))
                  (parse_infix rec prec left t rest) _ (parse_infix-Shrinks prec left t rest)
                  λ left' rest' lt.
                    Shrinks-weaken (suc (length rest')) (suc (suc (length rest)))
                      (parse_loop rec fuel min_prec left' rest') (omega (arith, lt))
                      (parse_loop-Shrinks fuel min_prec left' rest' (omega (arith, h, lt))))
        ]
      ]

  parse_prefix-Shrinks :
      (parse_float : String → Option Float) (tokens : Tokens)
      → Shrinks (length tokens) (parse_prefix parse_float rec tokens)
  unfolding parse_prefix
  parse_prefix-Shrinks parse_float [] = λ e. cc e
  parse_prefix-Shrinks parse_float (t ∷ tokens) = turn t.typ refl
    where
      past : (r : Parsed Node) → Shrinks (length tokens) r → Shrinks (suc (length tokens)) r
      past r s = Shrinks-weaken (length tokens) (suc (length tokens)) r (omega arith) s

      turn :
          (typ : TokenType)
          → t.typ ≡ typ
          → Shrinks (suc (length tokens)) (parse_prefix parse_float rec (t ∷ tokens))
      turn TokenType.number e = elim (Option-cases (parse_float t.val)) [
        | inl bad ↦ rw (parse_prefix, e, bad) (λ e. cc e)
        | inr (n, good) ↦ rw (parse_prefix, e, good) (omega arith)
      ]
      turn TokenType.string e = rw (parse_prefix, e) (omega arith)
      turn TokenType.true_word e = rw (parse_prefix, e) (omega arith)
      turn TokenType.false_word e = rw (parse_prefix, e) (omega arith)
      turn TokenType.null_word e = rw (parse_prefix, e) (omega arith)
      turn TokenType.ident e = rw (parse_prefix, e) (omega arith)
      turn TokenType.lparen e =
          rw (parse_prefix, e)
            (past _ (closed-Shrinks TokenType.rparen tokens (λ n. n) (unfold at rank in refl)))
      turn TokenType.lbracket e = rw (parse_prefix, e) (past _ (parse_array_literal-Shrinks tokens))
      turn TokenType.lbrace e = rw (parse_prefix, e) (past _ (parse_object_literal-Shrinks tokens))
      turn TokenType.minus e =
          rw (parse_prefix, e) (past _ (one-Shrinks _ tokens (λ n. unary t.val n)))
      turn TokenType.plus e =
          rw (parse_prefix, e) (past _ (one-Shrinks _ tokens (λ n. unary t.val n)))
      turn TokenType.bang e =
          rw (parse_prefix, e) (past _ (one-Shrinks _ tokens (λ n. unary t.val n)))
      turn _ e = rw (parse_prefix, e) (λ e. cc e)

module _ (parse_float : String → Option Float) where
  pub parse_expr-Shrinks : (levels : ℕ) → Consumes (parse_expr parse_float levels)
  unfolding parse_expr
  parse_expr-Shrinks zero min_prec tokens = λ e. cc e
  parse_expr-Shrinks (suc levels) min_prec tokens =
      let below = parse_expr-Shrinks levels in
      Shrinks-bind (length tokens) (length tokens)
        (parse_prefix parse_float (parse_expr parse_float levels) tokens) _
        (parse_prefix-Shrinks (parse_expr parse_float levels) below parse_float tokens)
        λ left rest lt.
          Shrinks-weaken (suc (length rest)) (length tokens)
            (parse_loop (parse_expr parse_float levels) (suc (length rest)) min_prec left rest)
            (omega (arith, lt))
            (parse_loop-Shrinks (parse_expr parse_float levels) below (suc (length rest)) min_prec
              left rest (omega arith))

  end-terminates :
      (bound : ℕ) (r : Parsed Node)
      → Shrinks bound r
      → bind r (λ (n, rest). elim (at TokenType.eof rest) [
        | true ↦ ok n
        | false ↦ err ParseError.unexpected_token
      ])
        ≢ err out_of_fuel
  end-terminates bound (err e) s = λ same. s (cc same)
  end-terminates bound (ok (n, rest)) s = elim (Bool-cases (at TokenType.eof rest)) [
    | inl end ↦ rw (bind, end) (λ e. cc e)
    | inr more ↦ rw (bind, more) (λ e. cc e)
  ]

  -- parse ends for every list of tokens and every reading of number literals: it returns a node or one
  -- of the parser's errors, and the fuel of the model's loops never runs out.
  pub parse-terminates : (tokens : Tokens) → parse parse_float tokens ≢ err out_of_fuel
  unfolding parse
  parse-terminates tokens =
      end-terminates (length tokens) (parse_expr parse_float max_parse_depth 0 tokens)
        (parse_expr-Shrinks max_parse_depth 0 tokens)
