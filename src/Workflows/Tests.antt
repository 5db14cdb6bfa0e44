-- ===== src/Workflows/Tests.antt =====
-- The theorems on workflows/ at concrete inputs.
use sakumock.Workflows.Expr.Syntax.{
  TokenType, Tokens, Float, Value, Node, no_nodes, node, no_properties, property, call, ternary,
  binary, member, literal, unary,
}
use sakumock.Workflows.Expr.Grammar.{out_of_fuel, infix_precedence}
use sakumock.Workflows.Expr.Parser.{parse, parse_infix, parse_binary}
use sakumock.Workflows.Expr.Parser.Termination.{parse-terminates}
use sakumock.Workflows.Expr.Parser.Precedence.{grouped, groups_left}
use sakumock.Workflows.Expr.Printer.{lexeme}
use sakumock.Workflows.Expr.Lexer.{
  runes, tokenize, tokenize_from, next_token, symbol, count_while, string_token, number_token,
  read_ident, unterminated_string,
}
use sakumock.Workflows.Expr.Lexer.Spans.{Lexed, tokenize-Lexed}
use sakumock.Prelude.{
  is_space, ◌≡◌, ◌≢◌, refl, String, Option, none, some, [], ◌∷◌, false, ok, err, str_eq, ◌==◌,
  if◌then◌else◌,
}

-- The bits of some numbers, and their decimal forms
abbrev show : Float → String
show n = if n == 4611686018427387904 then "2" else "1.5"

abbrev parse_float : String → Option Float
parse_float s =
    if str_eq s "2"
    then some 4611686018427387904
    else if str_eq s "1.5"
    then some 4609434218613702656
    else none

-- 1.5 + 2 * x ** 2
abbrev sum : Tokens
sum =
    lexeme TokenType.number "1.5"
    ∷ lexeme TokenType.plus "+"
    ∷ lexeme TokenType.number "2"
    ∷ lexeme TokenType.star "*"
    ∷ lexeme TokenType.ident "x"
    ∷ lexeme TokenType.star_star "**"
    ∷ lexeme TokenType.number "2"
    ∷ lexeme TokenType.eof ""
    ∷ []

abbrev two : Node
two = literal (Value.number 4611686018427387904)

precedence :
    parse parse_float sum
    ≡ ok (
        binary "+"
          (literal (Value.number 4609434218613702656))
          (binary "*" two (binary "**" (Node.ident "x") two)))
unfolding parse infix_precedence parse_infix parse_binary
precedence = refl

parse-terminates_example : parse parse_float sum ≢ err out_of_fuel
parse-terminates_example = parse-terminates parse_float sum

-- f(2, -x).y ? [2] : {k: "s" == 2}
abbrev expression : Node
expression =
    ternary
      (member (call (Node.ident "f") (node two (node (unary "-" (Node.ident "x")) no_nodes))) "y")
      (Node.array (node two no_nodes))
      (Node.object (property "k" (binary "==" (literal (Value.string "s")) two) no_properties))

-- 2 ** 2 ** x is 2 ** (2 ** x).
to_the_right :
    grouped "**" "**" two two (Node.ident "x") ≡ binary "**" two (binary "**" two (Node.ident "x"))
unfolding grouped groups_left
to_the_right = refl

tokenized : tokenize (λ c. false) "a1 >= 2.5e-3'" ≡ err unterminated_string
unfolding tokenize tokenize_from next_token symbol is_space count_while string_token number_token
    read_ident
tokenized = refl

abbrev quoted : String
quoted = "f(x) !== 'it\\'s'"

tokens_of_quoted :
    tokenize (λ c. false) quoted
    ≡ ok (
        record { typ = TokenType.ident; val = "f"; pos = 0 }
        ∷ record { typ = TokenType.lparen; val = "("; pos = 1 }
        ∷ record { typ = TokenType.ident; val = "x"; pos = 2 }
        ∷ record { typ = TokenType.rparen; val = ")"; pos = 3 }
        ∷ record { typ = TokenType.strict_neq; val = "!=="; pos = 5 }
        ∷ record { typ = TokenType.string; val = "it's"; pos = 9 }
        ∷ record { typ = TokenType.eof; val = ""; pos = 16 }
        ∷ [])
unfolding tokenize tokenize_from next_token symbol is_space count_while string_token number_token
    read_ident
tokens_of_quoted = refl

tokenize-Lexed_example : Lexed (λ c. false) 0 (runes quoted) (tokenize (λ c. false) quoted)
tokenize-Lexed_example = tokenize-Lexed (λ c. false) quoted
