-- ===== src/Workflows/Expr/Parser/Precedence.antt =====
-- How the parser of workflows/expr/parser.go groups two binary operators that no parenthesis separates.
use sakumock.Workflows.Expr.Syntax.{TokenType, Token, Tokens, Float, Node, binary}
use sakumock.Workflows.Expr.Grammar.{peek, infix_precedence, is_right_assoc}
use sakumock.Workflows.Expr.Parser.{Recursion, parse_binary, parse_infix, parse_loop, parse_expr}
use sakumock.Workflows.Expr.Parser.Termination.{parse_expr-Shrinks}
use sakumock.Workflows.Expr.Parser.Printed.{
  consumed, parse_infix-binary, parse_loop-stop, parse_expr-of_prefix, parse_expr-single, Reads,
}
use sakumock.Workflows.Expr.Printer.{lexeme, binary_type, print, is_binary_operator}
use sakumock.Prelude.{
  ℕ, zero, suc, ◌+◌, ◌≤◌, ◌≡◌, refl, ◌∙◌, String, ◌∷◌, Bool, true, false, ◌&&◌, ◌||◌, Option, none,
  some, ok, ltb, leb, ◌==◌, length, if◌then◌else◌, arith, Bool-cases, inl, inr,
}

-- The binary operators of JavaScript, from those that bind least to "**"
unfoldable pub tightness : TokenType → ℕ
tightness TokenType.or_or = 0
tightness TokenType.and_and = 1
tightness TokenType.eq = 2
tightness TokenType.neq = 2
tightness TokenType.strict_eq = 2
tightness TokenType.strict_neq = 2
tightness TokenType.lt = 3
tightness TokenType.gt = 3
tightness TokenType.lte = 3
tightness TokenType.gte = 3
tightness TokenType.plus = 4
tightness TokenType.minus = 4
tightness TokenType.star = 5
tightness TokenType.slash = 5
tightness TokenType.percent = 5
tightness _ = 6

-- Of x o₁ y o₂ z: the first operator binds tighter, or as tight, and is not "**".
unfoldable pub groups_left : TokenType → TokenType → Bool
unfolding tightness
groups_left o₁ o₂ =
    ltb (tightness o₂) (tightness o₁) || (tightness o₁ == tightness o₂ && ltb (tightness o₁) 6)

unfoldable pub grouped : String → String → Node → Node → Node → Node
unfolding groups_left binary_type
grouped op₁ op₂ a b c =
    if groups_left (binary_type op₁) (binary_type op₂)
    then binary op₂ (binary op₁ a b) c
    else binary op₁ a (binary op₂ b c)

-- x o₁ y o₂ z, with no parentheses around
unfoldable pub print_chain :
    (Float → String) → String → String → Node → Node → Node → Tokens → Tokens
unfolding print binary_type
print_chain show op₁ op₂ a b c rest =
    print show a (
      lexeme (binary_type op₁) op₁
      ∷ print show b (lexeme (binary_type op₂) op₂ ∷ print show c rest))

-- The number that the parser has for it
place : ℕ → ℕ
place t = if leb 4 t then t + 5 else if leb 2 t then t + 4 else t + 2

infix_precedence-place :
    (typ : TokenType)
    → is_binary_operator typ ≡ true
    → infix_precedence typ ≡ some (place (tightness typ))
unfolding infix_precedence is_binary_operator place tightness
infix_precedence-place TokenType.or_or h = refl
infix_precedence-place TokenType.and_and h = refl
infix_precedence-place TokenType.eq h = refl
infix_precedence-place TokenType.neq h = refl
infix_precedence-place TokenType.strict_eq h = refl
infix_precedence-place TokenType.strict_neq h = refl
infix_precedence-place TokenType.lt h = refl
infix_precedence-place TokenType.gt h = refl
infix_precedence-place TokenType.lte h = refl
infix_precedence-place TokenType.gte h = refl
infix_precedence-place TokenType.plus h = refl
infix_precedence-place TokenType.minus h = refl
infix_precedence-place TokenType.star h = refl
infix_precedence-place TokenType.slash h = refl
infix_precedence-place TokenType.percent h = refl
infix_precedence-place TokenType.star_star h = refl
infix_precedence-place _ h = absurd (cc h)

is_right_assoc-tightness :
    (typ : TokenType) → is_binary_operator typ ≡ true → is_right_assoc typ ≡ leb 6 (tightness typ)
unfolding is_right_assoc is_binary_operator tightness
is_right_assoc-tightness TokenType.star_star h = refl
is_right_assoc-tightness TokenType.or_or h = refl
is_right_assoc-tightness TokenType.and_and h = refl
is_right_assoc-tightness TokenType.eq h = refl
is_right_assoc-tightness TokenType.neq h = refl
is_right_assoc-tightness TokenType.strict_eq h = refl
is_right_assoc-tightness TokenType.strict_neq h = refl
is_right_assoc-tightness TokenType.lt h = refl
is_right_assoc-tightness TokenType.gt h = refl
is_right_assoc-tightness TokenType.lte h = refl
is_right_assoc-tightness TokenType.gte h = refl
is_right_assoc-tightness TokenType.plus h = refl
is_right_assoc-tightness TokenType.minus h = refl
is_right_assoc-tightness TokenType.star h = refl
is_right_assoc-tightness TokenType.slash h = refl
is_right_assoc-tightness TokenType.percent h = refl
is_right_assoc-tightness _ h = absurd (cc h)

tightness-le : (typ : TokenType) → tightness typ ≤ 6
unfolding tightness
tightness-le TokenType.or_or = omega arith
tightness-le TokenType.and_and = omega arith
tightness-le TokenType.eq = omega arith
tightness-le TokenType.neq = omega arith
tightness-le TokenType.strict_eq = omega arith
tightness-le TokenType.strict_neq = omega arith
tightness-le TokenType.lt = omega arith
tightness-le TokenType.gt = omega arith
tightness-le TokenType.lte = omega arith
tightness-le TokenType.gte = omega arith
tightness-le TokenType.plus = omega arith
tightness-le TokenType.minus = omega arith
tightness-le TokenType.star = omega arith
tightness-le TokenType.slash = omega arith
tightness-le TokenType.percent = omega arith
tightness-le _ = omega arith

-- The least precedence of what follows the operator
minimum : TokenType → ℕ
minimum typ = if is_right_assoc typ then place (tightness typ) else place (tightness typ) + 1

minimum-groups_left :
    (o₁ o₂ : TokenType)
    → is_binary_operator o₁ ≡ true
    → is_binary_operator o₂ ≡ true
    → ltb (place (tightness o₂)) (minimum o₁) ≡ groups_left o₁ o₂
unfolding place minimum groups_left
minimum-groups_left o₁ o₂ h₁ h₂ =
    ground (arith, is_right_assoc-tightness o₁ h₁, tightness-le o₁, tightness-le o₂)

parse_loop-stop_low :
    (rec : Recursion) (fuel p m : ℕ) (n : Node) (t : Token) (rest : Tokens)
    → infix_precedence t.typ ≡ some p
    → ltb p m ≡ true
    → parse_loop rec (suc fuel) m n (t ∷ rest) ≡ ok (n, t ∷ rest)
unfolding parse_loop
parse_loop-stop_low rec fuel p m n t rest prec low = rw (parse_loop, prec, low) refl

parse_loop-operator :
    (rec : Recursion) (fuel m : ℕ) (n right : Node) (typ : TokenType) (op : String)
    (tokens rest : Tokens)
    → is_binary_operator typ ≡ true
    → ltb (place (tightness typ)) m ≡ false
    → rec (minimum typ) tokens ≡ ok (right, rest)
    → parse_loop rec (suc fuel) m n (lexeme typ op ∷ tokens)
      ≡ parse_loop rec fuel m (binary op n right) rest
unfolding parse_loop parse_binary minimum
parse_loop-operator rec fuel m n right typ op tokens rest proper high operand =
    let p = place (tightness typ) in
    let prec = infix_precedence-place typ proper in
    let turn : parse_infix rec p n (lexeme typ op) tokens ≡ ok (binary op n right, rest) =
      parse_infix-binary rec p n typ op tokens proper ∙ rw (parse_binary, operand) refl in
    rw (parse_loop, prec, high, turn) refl

not_below_zero : (p : ℕ) → ltb p 0 ≡ false
not_below_zero p = ground arith

parse_loop-stop_some :
    (rec : Recursion) (fuel : ℕ) (n : Node) (rest : Tokens)
    → 1 ≤ fuel
    → infix_precedence (peek rest) ≡ none
    → parse_loop rec fuel 0 n rest ≡ ok (n, rest)
parse_loop-stop_some rec zero n rest some_fuel stop = absurd (omega (arith, some_fuel))
parse_loop-stop_some rec (suc fuel) n rest some_fuel stop = parse_loop-stop rec fuel 0 n rest stop

module _ (f : String → Option Float) (show : Float → String) where
  module _ (op₁ op₂ : String) (a b c : Node) (rest : Tokens) (l : ℕ)
      (proper₁ : is_binary_operator (binary_type op₁) ≡ true)
      (proper₂ : is_binary_operator (binary_type op₂) ≡ true)
      (stop : infix_precedence (peek rest) ≡ none) where
    abbrev o₁ : TokenType
    o₁ = binary_type op₁

    abbrev o₂ : TokenType
    o₂ = binary_type op₂

    abbrev tokens_c : Tokens
    tokens_c = lexeme o₂ op₂ ∷ print show c rest

    abbrev tokens_b : Tokens
    tokens_b = lexeme o₁ op₁ ∷ print show b tokens_c

    -- The second operator takes its left operand from the first.
    chain-right :
        ltb (place (tightness o₂)) (minimum o₁) ≡ false
        → Reads f show a tokens_b (suc (suc l))
        → Reads f show b tokens_c (suc l)
        → Reads f show c rest l
        → parse_expr f (suc (suc (suc l))) 0 (print show a tokens_b)
          ≡ ok (binary op₁ a (binary op₂ b c), rest)
    chain-right high ea eb ec =
        let rec = parse_expr f (suc (suc l)) in
        let inner : rec (minimum o₁) (print show b tokens_c) ≡ ok (binary op₂ b c, rest) =
          parse_expr-of_prefix f (suc l) (minimum o₁) (print show b tokens_c) tokens_c b eb
          ∙ parse_loop-operator (parse_expr f (suc l)) (length tokens_c) (minimum o₁) b c o₂ op₂
              (print show c rest) rest proper₂ high
              (parse_expr-single f l (minimum o₂) (print show c rest) rest c ec stop)
          ∙ parse_loop-stop (parse_expr f (suc l)) (length (print show c rest)) (minimum o₁)
              (binary op₂ b c) rest stop in
        parse_expr-of_prefix f (suc (suc l)) 0 (print show a tokens_b) tokens_b a ea
        ∙ parse_loop-operator rec (length tokens_b) 0 a (binary op₂ b c) o₁ op₁
            (print show b tokens_c) rest proper₁ (not_below_zero _) inner
        ∙ parse_loop-stop rec (length (print show b tokens_c)) 0 (binary op₁ a (binary op₂ b c))
            rest stop

    chain-left :
        ltb (place (tightness o₂)) (minimum o₁) ≡ true
        → Reads f show a tokens_b (suc (suc l))
        → Reads f show b tokens_c (suc l)
        → Reads f show c rest (suc l)
        → parse_expr f (suc (suc (suc l))) 0 (print show a tokens_b)
          ≡ ok (binary op₂ (binary op₁ a b) c, rest)
    chain-left low ea eb ec =
        let rec = parse_expr f (suc (suc l)) in
        let inner : rec (minimum o₁) (print show b tokens_c) ≡ ok (b, tokens_c) =
          parse_expr-of_prefix f (suc l) (minimum o₁) (print show b tokens_c) tokens_c b eb
          ∙ parse_loop-stop_low (parse_expr f (suc l)) (length tokens_c) (place (tightness o₂))
              (minimum o₁) b (lexeme o₂ op₂) (print show c rest) (infix_precedence-place o₂ proper₂)
              low in
        let shorter =
          consumed rec (parse_expr-Shrinks f (suc (suc l))) (minimum o₁) (print show b tokens_c)
            tokens_c b inner in
        parse_expr-of_prefix f (suc (suc l)) 0 (print show a tokens_b) tokens_b a ea
        ∙ parse_loop-operator rec (length tokens_b) 0 a b o₁ op₁ (print show b tokens_c) tokens_c
            proper₁ (not_below_zero _) inner
        ∙ parse_loop-operator rec (length (print show b tokens_c)) 0 (binary op₁ a b) c o₂ op₂
            (print show c rest) rest proper₂ (not_below_zero _)
            (parse_expr-single f (suc l) (minimum o₂) (print show c rest) rest c ec stop)
        ∙ parse_loop-stop_some rec (length (print show b tokens_c)) (binary op₂ (binary op₁ a b) c)
            rest (omega (arith, shorter)) stop

    pub parse_expr-chain :
        Reads f show a tokens_b (suc (suc l))
        → Reads f show b tokens_c (suc l)
        → Reads f show c rest (suc l)
        → Reads f show c rest l
        → parse_expr f (suc (suc (suc l))) 0 (print_chain show op₁ op₂ a b c rest)
          ≡ ok (grouped op₁ op₂ a b c, rest)
    unfolding print_chain grouped
    parse_expr-chain ea eb ec ec' =
        let groups = minimum-groups_left o₁ o₂ proper₁ proper₂ in
        elim (Bool-cases (groups_left o₁ o₂)) [
          | inl left ↦ rw left (chain-left (groups ∙ left) ea eb ec)
          | inr right ↦ rw right (chain-right (groups ∙ right) ea eb ec')
        ]
