-- ===== src/Workflows/Expr/Grammar.antt =====
-- The state that workflows/expr/parser.go reads tokens from, and its tables. The state is the tokens
-- that are left: p.tokens[p.pos:]. Past the end of the tokens there is no more of them, as peek sees it.
use sakumock.Workflows.Expr.Syntax.{TokenType, Tokens}
use sakumock.Prelude.{
  ℕ, String, [], ◌∷◌, Bool, true, false, Option, none, some, Result, ok, err, ◌==◌, if◌then◌else◌,
}

pub data ParseError : Type 0 where
  too_deep unexpected_token expected_token invalid_number : ParseError
  -- The fuel of a loop has run out.
  out_of_fuel : ParseError

-- What is read, and the tokens that are left
abbrev pub Parsed : Type 0 → Type 0
Parsed A = Result ParseError (A × Tokens)

-- p.peek().typ
abbrev pub peek : Tokens → TokenType
peek [] = TokenType.eof
peek (t ∷ rest) = t.typ

-- p.advance()
abbrev pub advance : Tokens → Tokens
advance [] = []
advance (t ∷ rest) = rest

-- The number that iota gives the type
unfoldable pub rank : TokenType → ℕ
rank TokenType.eof = 0
rank TokenType.number = 1
rank TokenType.string = 2
rank TokenType.ident = 3
rank TokenType.true_word = 4
rank TokenType.false_word = 5
rank TokenType.null_word = 6
rank TokenType.plus = 7
rank TokenType.minus = 8
rank TokenType.star = 9
rank TokenType.slash = 10
rank TokenType.percent = 11
rank TokenType.star_star = 12
rank TokenType.eq = 13
rank TokenType.neq = 14
rank TokenType.strict_eq = 15
rank TokenType.strict_neq = 16
rank TokenType.lt = 17
rank TokenType.gt = 18
rank TokenType.lte = 19
rank TokenType.gte = 20
rank TokenType.and_and = 21
rank TokenType.or_or = 22
rank TokenType.bang = 23
rank TokenType.question = 24
rank TokenType.colon = 25
rank TokenType.dot = 26
rank TokenType.comma = 27
rank TokenType.lparen = 28
rank TokenType.rparen = 29
rank TokenType.lbracket = 30
rank TokenType.rbracket = 31
rank TokenType.lbrace = 32
rank TokenType.rbrace = 33

-- p.peek().typ == typ
unfoldable pub at : TokenType → Tokens → Bool
unfolding rank
at typ tokens = rank (peek tokens) == rank typ

-- expect: the text of the token
unfoldable pub expect : TokenType → Tokens → Parsed String
unfolding at
expect typ [] = if at typ [] then ok ("", []) else err expected_token
expect typ (t ∷ rest) = if at typ (t ∷ rest) then ok (t.val, rest) else err expected_token

-- infixPrecedence; `none` is -1, which is below every minimum.
unfoldable pub infix_precedence : TokenType → Option ℕ
infix_precedence TokenType.or_or = some 2
infix_precedence TokenType.and_and = some 3
infix_precedence TokenType.eq = some 6
infix_precedence TokenType.neq = some 6
infix_precedence TokenType.strict_eq = some 6
infix_precedence TokenType.strict_neq = some 6
infix_precedence TokenType.lt = some 7
infix_precedence TokenType.gt = some 7
infix_precedence TokenType.lte = some 7
infix_precedence TokenType.gte = some 7
infix_precedence TokenType.plus = some 9
infix_precedence TokenType.minus = some 9
infix_precedence TokenType.star = some 10
infix_precedence TokenType.slash = some 10
infix_precedence TokenType.percent = some 10
infix_precedence TokenType.star_star = some 11
infix_precedence TokenType.dot = some 16
infix_precedence TokenType.lbracket = some 16
infix_precedence TokenType.lparen = some 16
infix_precedence TokenType.question = some 1
infix_precedence _ = none

-- isRightAssoc
unfoldable pub is_right_assoc : TokenType → Bool
is_right_assoc TokenType.star_star = true
is_right_assoc _ = false

abbrev pub prefix_precedence : ℕ
prefix_precedence = 14

-- maxParseDepth
abbrev pub max_parse_depth : ℕ
max_parse_depth = 128
