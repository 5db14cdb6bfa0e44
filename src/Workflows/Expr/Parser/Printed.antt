-- ===== src/Workflows/Expr/Parser/Printed.antt =====
-- What the parser of workflows/expr/parser.go makes of the printed form of a node, when it reads the
-- parts' own back.
use sakumock.Workflows.Expr.Syntax.{
  TokenType, Token, Tokens, Float, Node, ternary, binary, member, index, unary,
}
use sakumock.Workflows.Expr.Grammar.{peek, rank, at, expect, infix_precedence}
use sakumock.Workflows.Expr.Parser.{
  Recursion, parse_ternary, parse_binary, parse_infix, parse_loop, parse_prefix, parse_expr,
}
use sakumock.Workflows.Expr.Parser.Progress.{Shrinks, Consumes}
use sakumock.Workflows.Expr.Printer.{
  lexeme, unary_type, binary_type, print, is_prefix_operator, is_binary_operator,
}
use mathlib.Core.Path.{subst}
use sakumock.Prelude.{
  ℕ, zero, suc, ◌+◌, ◌<◌, ◌≤◌, ◌≡◌, refl, ◌∙◌, String, [], ◌∷◌, true, false, Option, none, some, ok,
  ltb, length, max, arith,
}

-- A call that returns a node has consumed tokens.
pub consumed :
    (rec : Recursion)
    → Consumes rec
    → (m : ℕ) (tokens rest : Tokens) (n : Node) → rec m tokens ≡ ok (n, rest)
    → length rest < length tokens
consumed rec consumes m tokens rest n e =
    subst (λ r. Shrinks (length tokens) r) e (consumes m tokens)

binary_precedence :
    (typ : TokenType) → is_binary_operator typ ≡ true → (p : ℕ) × (infix_precedence typ ≡ some p)
unfolding is_binary_operator infix_precedence
binary_precedence TokenType.or_or h = (2, refl)
binary_precedence TokenType.and_and h = (3, refl)
binary_precedence TokenType.eq h = (6, refl)
binary_precedence TokenType.neq h = (6, refl)
binary_precedence TokenType.strict_eq h = (6, refl)
binary_precedence TokenType.strict_neq h = (6, refl)
binary_precedence TokenType.lt h = (7, refl)
binary_precedence TokenType.gt h = (7, refl)
binary_precedence TokenType.lte h = (7, refl)
binary_precedence TokenType.gte h = (7, refl)
binary_precedence TokenType.plus h = (9, refl)
binary_precedence TokenType.minus h = (9, refl)
binary_precedence TokenType.star h = (10, refl)
binary_precedence TokenType.slash h = (10, refl)
binary_precedence TokenType.percent h = (10, refl)
binary_precedence TokenType.star_star h = (11, refl)
binary_precedence _ h = absurd (cc h)

pub parse_infix-binary :
    (rec : Recursion) (p : ℕ) (l : Node) (typ : TokenType) (op : String) (tokens : Tokens)
    → is_binary_operator typ ≡ true
    → parse_infix rec p l (lexeme typ op) tokens ≡ parse_binary rec p l (lexeme typ op) tokens
unfolding parse_infix is_binary_operator
parse_infix-binary rec p l TokenType.question op tokens h = absurd (cc h)
parse_infix-binary rec p l TokenType.lparen op tokens h = absurd (cc h)
parse_infix-binary rec p l TokenType.dot op tokens h = absurd (cc h)
parse_infix-binary rec p l TokenType.lbracket op tokens h = absurd (cc h)
parse_infix-binary rec p l _ op tokens h = refl

-- The loop of parseExpr stops at a token that is not an infix.
pub parse_loop-stop :
    (rec : Recursion) (fuel m : ℕ) (n : Node) (rest : Tokens)
    → infix_precedence (peek rest) ≡ none
    → parse_loop rec (suc fuel) m n rest ≡ ok (n, rest)
unfolding parse_loop
parse_loop-stop rec fuel m n [] h = refl
parse_loop-stop rec fuel m n (t ∷ rest) h = rw (parse_loop, h) refl

module _ (f : String → Option Float) where
  pub parse_expr-of_prefix :
      (levels m : ℕ) (tokens rest : Tokens) (n : Node)
      → parse_prefix f (parse_expr f levels) tokens ≡ ok (n, rest)
      → parse_expr f (suc levels) m tokens
        ≡ parse_loop (parse_expr f levels) (suc (length rest)) m n rest
  unfolding parse_expr
  parse_expr-of_prefix levels m tokens rest n e = rw (parse_expr, e) refl

  -- A printed node that no infix follows
  pub parse_expr-single :
      (levels m : ℕ) (tokens rest : Tokens) (n : Node)
      → parse_prefix f (parse_expr f levels) tokens ≡ ok (n, rest)
      → infix_precedence (peek rest) ≡ none
      → parse_expr f (suc levels) m tokens ≡ ok (n, rest)
  parse_expr-single levels m tokens rest n e stop =
      rw (parse_expr-of_prefix levels m tokens rest n e)
        (parse_loop-stop (parse_expr f levels) (length rest) m n rest stop)

  parse_prefix-parens :
      (rec : Recursion) (tokens rest : Tokens) (n : Node)
      → rec 0 tokens ≡ ok (n, lexeme TokenType.rparen ")" ∷ rest)
      → parse_prefix f rec (lexeme TokenType.lparen "(" ∷ tokens) ≡ ok (n, rest)
  unfolding parse_prefix expect at rank
  parse_prefix-parens rec tokens rest n e = rw (parse_prefix, e) refl

  parse_loop-turn :
      (rec : Recursion) (fuel p : ℕ) (n whole : Node) (t : Token) (tokens rest : Tokens)
      → infix_precedence t.typ ≡ some p
      → parse_infix rec p n t tokens ≡ ok (whole, rest)
      → parse_loop rec (suc fuel) 0 n (t ∷ tokens) ≡ parse_loop rec fuel 0 whole rest
  unfolding parse_loop
  parse_loop-turn rec fuel p n whole t tokens rest prec turn =
      let low : ltb p 0 ≡ false = ground arith in rw (parse_loop, prec, low, turn) refl

  -- A node, an infix and what it takes, in parentheses
  pub parse_prefix-infix :
      (levels p : ℕ) (tokens₀ tokens rest : Tokens) (t : Token) (n whole : Node)
      → parse_prefix f (parse_expr f levels) tokens₀ ≡ ok (n, t ∷ tokens)
      → infix_precedence t.typ ≡ some p
      → parse_infix (parse_expr f levels) p n t tokens
        ≡ ok (whole, lexeme TokenType.rparen ")" ∷ rest)
      → parse_prefix f (parse_expr f (suc levels)) (lexeme TokenType.lparen "(" ∷ tokens₀)
        ≡ ok (whole, rest)
  unfolding infix_precedence
  parse_prefix-infix levels p tokens₀ tokens rest t n whole first prec second =
      let rec = parse_expr f levels in
      let after = lexeme TokenType.rparen ")" ∷ rest in
      parse_prefix-parens (parse_expr f (suc levels)) tokens₀ rest whole (
        parse_expr-of_prefix levels 0 tokens₀ (t ∷ tokens) n first
        ∙ parse_loop-turn rec (suc (length tokens)) p n whole t tokens after prec second
        ∙ parse_loop-stop rec (length tokens) 0 whole after refl)

  -- One level below those that are given, and two for what follows an operator
  pub one_level :
      (P : ℕ → Type 0) (d levels : ℕ) → 1 + d ≤ levels → ((l : ℕ) → d ≤ l → P (suc l)) → P levels
  one_level P d zero h k = absurd (omega (arith, h))
  one_level P d (suc l) h k = k l (omega (arith, h))

  pub two_levels :
      (P : ℕ → Type 0) (first second levels : ℕ)
      → 1 + max first (1 + second) ≤ levels
      → ((l : ℕ) → first ≤ suc l → second ≤ l → P (suc (suc l)))
      → P levels
  two_levels P first second zero h k = absurd (omega (arith, h))
  two_levels P first second (suc zero) h k = absurd (omega (arith, h))
  two_levels P first second (suc (suc l)) h k = k l (omega (arith, h)) (omega (arith, h))

  module _ (show : Float → String) where
    -- What a node's printed form parses to
    abbrev pub Reads : Node → Tokens → ℕ → Type 0
    Reads n rest levels = parse_prefix f (parse_expr f levels) (print show n rest) ≡ ok (n, rest)

    -- An operator and its printed operand
    parse_prefix-operand :
        (levels : ℕ) (typ : TokenType) (op : String) (n : Node) (rest : Tokens)
        → is_prefix_operator typ ≡ true
        → infix_precedence (peek rest) ≡ none
        → Reads n rest levels
        → parse_prefix f (parse_expr f (suc levels)) (lexeme typ op ∷ print show n rest)
          ≡ ok (unary op n, rest)
    unfolding parse_prefix is_prefix_operator
    parse_prefix-operand levels TokenType.minus op n rest h stop e =
        rw (parse_expr-single levels 14 (print show n rest) rest n e stop) refl
    parse_prefix-operand levels TokenType.plus op n rest h stop e =
        rw (parse_expr-single levels 14 (print show n rest) rest n e stop) refl
    parse_prefix-operand levels TokenType.bang op n rest h stop e =
        rw (parse_expr-single levels 14 (print show n rest) rest n e stop) refl
    parse_prefix-operand levels _ op n rest h stop e = absurd (cc h)

    pub parse_prefix-unary :
        (levels : ℕ) (op : String) (n : Node) (rest : Tokens)
        → is_prefix_operator (unary_type op) ≡ true
        → Reads n (lexeme TokenType.rparen ")" ∷ rest) levels
        → Reads (unary op n) rest (suc (suc levels))
    unfolding print infix_precedence
    parse_prefix-unary levels op n rest proper e =
        let after = lexeme TokenType.rparen ")" ∷ rest in
        let tokens = lexeme (unary_type op) op ∷ print show n after in
        parse_prefix-parens (parse_expr f (suc (suc levels))) tokens rest (unary op n) (
          parse_expr-single (suc levels) 0 tokens after (unary op n)
            (parse_prefix-operand levels (unary_type op) op n after proper refl e) refl)

    pub parse_prefix-binary :
        (levels : ℕ) (op : String) (l r : Node) (rest : Tokens)
        → is_binary_operator (binary_type op) ≡ true
        → ((rest' : Tokens) → Reads l rest' (suc levels))
        → ((rest' : Tokens) → Reads r rest' levels)
        → Reads (binary op l r) rest (suc (suc levels))
    unfolding print infix_precedence parse_binary
    parse_prefix-binary levels op l r rest proper el er =
        let (p, prec) = binary_precedence (binary_type op) proper in
        let after = lexeme TokenType.rparen ")" ∷ rest in
        let t = lexeme (binary_type op) op in
        let tokens = print show r after in
        parse_prefix-infix (suc levels) p (print show l (t ∷ tokens)) tokens rest t l
          (binary op l r) (el _) prec
          (parse_infix-binary (parse_expr f (suc levels)) p l (binary_type op) op tokens proper
            ∙ rw (parse_binary, parse_expr-single levels _ tokens after r (er after) refl) refl)

    pub parse_prefix-ternary :
        (levels : ℕ) (c a b : Node) (rest : Tokens)
        → ((rest' : Tokens) → Reads c rest' (suc levels))
        → ((rest' : Tokens) → Reads a rest' levels)
        → ((rest' : Tokens) → Reads b rest' levels)
        → Reads (ternary c a b) rest (suc (suc levels))
    unfolding print infix_precedence parse_infix parse_ternary expect at rank
    parse_prefix-ternary levels c a b rest ec ea eb =
        let after = lexeme TokenType.rparen ")" ∷ rest in
        let tokens_b = print show b after in
        let colon = lexeme TokenType.colon ":" ∷ tokens_b in
        let tokens = print show a colon in
        parse_prefix-infix (suc levels) 1 _ tokens rest (lexeme TokenType.question "?") c
          (ternary c a b) (ec _) refl
          (rw
            (
              parse_infix,
              parse_ternary,
              parse_expr-single levels 0 tokens colon a (ea colon) refl,
              parse_expr-single levels 0 tokens_b after b (eb after) refl,
            )
            refl)

    pub parse_prefix-member :
        (levels : ℕ) (n : Node) (name : String) (rest : Tokens)
        → ((rest' : Tokens) → Reads n rest' levels)
        → Reads (member n name) rest (suc levels)
    unfolding print infix_precedence parse_infix expect at rank
    parse_prefix-member levels n name rest e =
        parse_prefix-infix levels 16 _ _ rest (lexeme TokenType.dot ".") n (member n name) (e _)
          refl refl

    pub parse_prefix-index :
        (levels : ℕ) (n i : Node) (rest : Tokens)
        → ((rest' : Tokens) → Reads n rest' (suc levels))
        → ((rest' : Tokens) → Reads i rest' levels)
        → Reads (index n i) rest (suc (suc levels))
    unfolding print infix_precedence parse_infix expect at rank
    parse_prefix-index levels n i rest en ei =
        let after = lexeme TokenType.rbracket "]" ∷ lexeme TokenType.rparen ")" ∷ rest in
        let tokens = print show i after in
        parse_prefix-infix (suc levels) 16 _ tokens rest (lexeme TokenType.lbracket "[") n
          (index n i) (en _) refl
          (rw (parse_infix, parse_expr-single levels 0 tokens after i (ei after) refl) refl)
