-- ===== src/Workflows/Expr/Parser.antt =====
-- The parser of workflows/expr/parser.go: a function from the tokens that are left to a node and the
-- tokens that are left then.
pub mod Progress
pub mod Termination
pub mod Printed
pub mod PrintedLists
pub mod Precedence
pub mod RoundTrip
use sakumock.Workflows.Expr.Syntax
use sakumock.Workflows.Expr.Syntax.{
  TokenType, Token, Tokens, Float, Value, Node, Nodes, Properties, no_nodes, node, no_properties,
  property, call, ternary, binary, member, index, literal, unary, boolean, null,
}
use sakumock.Workflows.Expr.Grammar.{
  ParseError, out_of_fuel, too_deep, unexpected_token, expected_token, invalid_number, Parsed, peek,
  advance, rank, at, expect, infix_precedence, is_right_assoc, prefix_precedence, max_parse_depth,
}
use sakumock.Prelude.{
  ℕ, zero, suc, ◌+◌, ◌-◌, String, List, [], ◌∷◌, Bool, true, false, Option, none, some, Result, ok,
  err, bind, ltb, ◌==◌, length, if◌then◌else◌,
}

-- A parser of one expression at a minimum precedence: parseExpr, one level deeper
abbrev pub Recursion : Type 0
Recursion = ℕ → Tokens → Parsed Node

-- The loop of parseCall and of parseArrayLiteral. What follows a comma is read by a call, of which
-- there are no more than tokens.
unfoldable pub parse_nodes : Recursion → ℕ → Tokens → Parsed Nodes
unfolding at
parse_nodes rec zero tokens = err out_of_fuel
parse_nodes rec (suc fuel) tokens = bind (rec 0 tokens) λ (n, rest).
    elim (at TokenType.comma rest) [
      | false ↦ ok (node n no_nodes, rest)
      | true ↦ bind (parse_nodes rec fuel (advance rest)) λ (more, rest'). ok (node n more, rest')
    ]

-- The nodes up to a closing bracket, and the bracket
unfoldable pub parse_items : Recursion → TokenType → Tokens → Parsed Nodes
unfolding at expect parse_nodes
parse_items rec close tokens =
    bind
      (elim (at close tokens) [
        | true ↦ ok (no_nodes, tokens)
        | false ↦ parse_nodes rec (suc (length tokens)) tokens
      ])
      λ (items, rest). bind (expect close rest) λ (_, rest'). ok (items, rest')

-- A property name: an identifier or a string
unfoldable pub expect_key : Tokens → Parsed String
expect_key [] = err expected_token
expect_key (t ∷ rest) = elim t.typ [
  | TokenType.ident ↦ ok (t.val, rest)
  | TokenType.string ↦ ok (t.val, rest)
  | _ ↦ err expected_token
]

-- The loop of parseObjectLiteral
unfoldable pub parse_properties : Recursion → ℕ → Tokens → Parsed Properties
unfolding at expect expect_key
parse_properties rec zero tokens = err out_of_fuel
parse_properties rec (suc fuel) tokens = bind (expect_key tokens) λ (key, rest₀).
    bind (expect TokenType.colon rest₀) λ (_, rest₁). bind (rec 0 rest₁) λ (n, rest).
      elim (at TokenType.comma rest) [
        | false ↦ ok (property key n no_properties, rest)
        | true ↦
            bind (parse_properties rec fuel (advance rest))
              λ (more, rest'). ok (property key n more, rest')
      ]

-- parseCall, past the "("
unfoldable pub parse_call : Recursion → Node → Tokens → Parsed Node
parse_call rec callee tokens =
    bind (parse_items rec TokenType.rparen tokens) λ (args, rest). ok (call callee args, rest)

-- parseArrayLiteral, past the "["
unfoldable pub parse_array_literal : Recursion → Tokens → Parsed Node
parse_array_literal rec tokens =
    bind (parse_items rec TokenType.rbracket tokens)
      λ (elements, rest). ok (Node.array elements, rest)

-- parseObjectLiteral, past the "{"
unfoldable pub parse_object_literal : Recursion → Tokens → Parsed Node
unfolding at expect parse_properties
parse_object_literal rec tokens =
    bind
      (elim (at TokenType.rbrace tokens) [
        | true ↦ ok (no_properties, tokens)
        | false ↦ parse_properties rec (suc (length tokens)) tokens
      ])
      λ (properties, rest).
        bind (expect TokenType.rbrace rest) λ (_, rest'). ok (Node.object properties, rest')

-- parseTernary, past the "?"
unfoldable pub parse_ternary : Recursion → Node → Tokens → Parsed Node
unfolding expect
parse_ternary rec cond tokens = bind (rec 0 tokens) λ (consequent, rest₀).
    bind (expect TokenType.colon rest₀) λ (_, rest₁).
      bind (rec 0 rest₁) λ (alternate, rest). ok (ternary cond consequent alternate, rest)

-- The end of a turn of parseExpr's loop, with a binary operator
unfoldable pub parse_binary : Recursion → ℕ → Node → Token → Tokens → Parsed Node
unfolding is_right_assoc
parse_binary rec prec left t tokens =
    bind (rec (if is_right_assoc t.typ then prec else prec + 1) tokens)
      λ (right, rest). ok (binary t.val left right, rest)

-- A turn of parseExpr's loop, past its token, which has a precedence
unfoldable pub parse_infix : Recursion → ℕ → Node → Token → Tokens → Parsed Node
unfolding expect
parse_infix rec prec left t tokens = elim t.typ [
  | TokenType.question ↦ parse_ternary rec left tokens
  | TokenType.lparen ↦ parse_call rec left tokens
  | TokenType.dot ↦ bind (expect TokenType.ident tokens) λ (name, rest). ok (member left name, rest)
  | TokenType.lbracket ↦
      bind (rec 0 tokens)
        λ (i, rest₀). bind (expect TokenType.rbracket rest₀) λ (_, rest). ok (index left i, rest)
  | _ ↦ parse_binary rec prec left t tokens
]

-- The loop of parseExpr
unfoldable pub parse_loop : Recursion → ℕ → ℕ → Node → Tokens → Parsed Node
parse_loop rec zero min_prec left tokens = err out_of_fuel
parse_loop rec (suc fuel) min_prec left [] = ok (left, [])
parse_loop rec (suc fuel) min_prec left (t ∷ rest) = elim (infix_precedence t.typ) [
  | none ↦ ok (left, t ∷ rest)
  | some prec ↦ elim (ltb prec min_prec) [
    | true ↦ ok (left, t ∷ rest)
    | false ↦
        bind (parse_infix rec prec left t rest)
          λ (left', rest'). parse_loop rec fuel min_prec left' rest'
  ]
]

module _ (parse_float : String → Option Float) where
  -- parsePrefix
  unfoldable pub parse_prefix : Recursion → Tokens → Parsed Node
  unfolding expect
  parse_prefix rec [] = err unexpected_token
  parse_prefix rec (t ∷ tokens) = elim t.typ [
    | TokenType.number ↦ elim (parse_float t.val) [
      | none ↦ err invalid_number
      | some n ↦ ok (literal (Value.number n), tokens)
    ]
    | TokenType.string ↦ ok (literal (Value.string t.val), tokens)
    | TokenType.true_word ↦ ok (literal (boolean true), tokens)
    | TokenType.false_word ↦ ok (literal (boolean false), tokens)
    | TokenType.null_word ↦ ok (literal null, tokens)
    | TokenType.ident ↦ ok (Node.ident t.val, tokens)
    | TokenType.lparen ↦
        bind (rec 0 tokens)
          λ (inner, rest₀). bind (expect TokenType.rparen rest₀) λ (_, rest). ok (inner, rest)
    | TokenType.lbracket ↦ parse_array_literal rec tokens
    | TokenType.lbrace ↦ parse_object_literal rec tokens
    | TokenType.minus ↦ bind (rec prefix_precedence tokens) λ (n, rest). ok (unary t.val n, rest)
    | TokenType.plus ↦ bind (rec prefix_precedence tokens) λ (n, rest). ok (unary t.val n, rest)
    | TokenType.bang ↦ bind (rec prefix_precedence tokens) λ (n, rest). ok (unary t.val n, rest)
    | _ ↦ err unexpected_token
  ]

  -- parseExpr, with the levels that are left below maxParseDepth
  unfoldable pub parse_expr : ℕ → Recursion
  unfolding parse_prefix parse_loop
  parse_expr zero min_prec tokens = err too_deep
  parse_expr (suc levels) min_prec tokens =
      bind (parse_prefix (parse_expr levels) tokens)
        λ (left, rest). parse_loop (parse_expr levels) (suc (length rest)) min_prec left rest

  -- parse
  unfoldable pub parse : Tokens → Result ParseError Node
  unfolding at parse_expr
  parse tokens =
      bind (parse_expr max_parse_depth 0 tokens)
        λ (n, rest). elim (at TokenType.eof rest) [ true ↦ ok n | false ↦ err unexpected_token ]
