-- ===== src/Workflows/Expr/Printer.antt =====
-- A printer for the syntax tree of workflows/expr/ast.go, with all parentheses, as the parser of
-- workflows/expr/parser.go has none of its own. It writes the tokens in front of `rest`.
use sakumock.Workflows.Expr.Syntax.{
  TokenType, Token, Tokens, Float, Value, Node, Nodes, Properties, no_nodes, node, no_properties,
  property, call, ternary, binary, member, index, literal, unary, boolean,
}
use sakumock.Prelude.{
  ℕ, ◌+◌, ◌≡◌, max, String, ◌∷◌, Bool, true, false, Option, some, str_eq, if◌then◌else◌,
}

abbrev pub lexeme : TokenType → String → Token
lexeme typ val = record { typ = typ; val = val; pos = 0 }

-- The type that the lexer gives the operator, or that of no operator
unfoldable pub unary_type : String → TokenType
unary_type op =
    if str_eq op "-"
    then TokenType.minus
    else if str_eq op "+"
    then TokenType.plus
    else if str_eq op "!"
    then TokenType.bang
    else TokenType.eof

unfoldable pub binary_type : String → TokenType
binary_type op =
    if str_eq op "||"
    then TokenType.or_or
    else if str_eq op "&&"
    then TokenType.and_and
    else if str_eq op "=="
    then TokenType.eq
    else if str_eq op "!="
    then TokenType.neq
    else if str_eq op "==="
    then TokenType.strict_eq
    else if str_eq op "!=="
    then TokenType.strict_neq
    else if str_eq op "<"
    then TokenType.lt
    else if str_eq op ">"
    then TokenType.gt
    else if str_eq op "<="
    then TokenType.lte
    else if str_eq op ">="
    then TokenType.gte
    else if str_eq op "+"
    then TokenType.plus
    else if str_eq op "-"
    then TokenType.minus
    else if str_eq op "*"
    then TokenType.star
    else if str_eq op "/"
    then TokenType.slash
    else if str_eq op "%"
    then TokenType.percent
    else if str_eq op "**"
    then TokenType.star_star
    else TokenType.eof

-- The token of a literal. No literal of the language is an array or an object.
abbrev pub print_literal : (Float → String) → Value → Token
print_literal show Value.null = lexeme TokenType.null_word "null"
print_literal show (boolean true) = lexeme TokenType.true_word "true"
print_literal show (boolean false) = lexeme TokenType.false_word "false"
print_literal show (Value.number n) = lexeme TokenType.number (show n)
print_literal show (Value.string s) = lexeme TokenType.string s
print_literal show _ = lexeme TokenType.eof ""

module _ (show : Float → String) where
  unfoldable mutual
    unfolding unary_type binary_type

    pub print : Node → Tokens → Tokens
    print (literal v) rest = print_literal show v ∷ rest
    print (Node.ident name) rest = lexeme TokenType.ident name ∷ rest
    print (unary op n) rest =
        lexeme TokenType.lparen "("
        ∷ lexeme (unary_type op) op
        ∷ print n (lexeme TokenType.rparen ")" ∷ rest)
    print (binary op l r) rest =
        lexeme TokenType.lparen "("
        ∷ print l (lexeme (binary_type op) op ∷ print r (lexeme TokenType.rparen ")" ∷ rest))
    print (ternary c a b) rest =
        lexeme TokenType.lparen "("
        ∷ print c (
            lexeme TokenType.question "?"
            ∷ print a (lexeme TokenType.colon ":" ∷ print b (lexeme TokenType.rparen ")" ∷ rest)))
    print (member n name) rest =
        lexeme TokenType.lparen "("
        ∷ print n (
            lexeme TokenType.dot "."
            ∷ lexeme TokenType.ident name
            ∷ lexeme TokenType.rparen ")"
            ∷ rest)
    print (index n i) rest =
        lexeme TokenType.lparen "("
        ∷ print n (
            lexeme TokenType.lbracket "["
            ∷ print i (lexeme TokenType.rbracket "]" ∷ lexeme TokenType.rparen ")" ∷ rest))
    print (call n args) rest =
        lexeme TokenType.lparen "("
        ∷ print n (
            lexeme TokenType.lparen "("
            ∷ print_items args (lexeme TokenType.rparen ")" ∷ lexeme TokenType.rparen ")" ∷ rest))
    print (Node.array elements) rest =
        lexeme TokenType.lbracket "[" ∷ print_items elements (lexeme TokenType.rbracket "]" ∷ rest)
    print (Node.object properties) rest =
        lexeme TokenType.lbrace "{"
        ∷ print_properties properties (lexeme TokenType.rbrace "}" ∷ rest)

    pub print_items : Nodes → Tokens → Tokens
    print_items no_nodes rest = rest
    print_items (node n ns) rest = print n (print_more ns rest)

    -- The nodes after the first
    pub print_more : Nodes → Tokens → Tokens
    print_more no_nodes rest = rest
    print_more (node n ns) rest = lexeme TokenType.comma "," ∷ print n (print_more ns rest)

    pub print_properties : Properties → Tokens → Tokens
    print_properties no_properties rest = rest
    print_properties (property key n ps) rest =
        lexeme TokenType.string key
        ∷ lexeme TokenType.colon ":"
        ∷ print n (print_more_properties ps rest)

    pub print_more_properties : Properties → Tokens → Tokens
    print_more_properties no_properties rest = rest
    print_more_properties (property key n ps) rest =
        lexeme TokenType.comma ","
        ∷ lexeme TokenType.string key
        ∷ lexeme TokenType.colon ":"
        ∷ print n (print_more_properties ps rest)

-- The levels of parseExpr that the printed node takes below the one that it is read at: one for a
-- parenthesis, a bracket or a brace around something, and one more for what follows an operator
unfoldable mutual
  pub depth : Node → ℕ
  depth (literal v) = 0
  depth (Node.ident name) = 0
  depth (unary op n) = 2 + depth n
  depth (binary op l r) = 1 + max (depth l) (1 + depth r)
  depth (ternary c a b) = 1 + max (depth c) (1 + max (depth a) (depth b))
  depth (member n name) = 1 + depth n
  depth (index n i) = 1 + max (depth n) (1 + depth i)
  depth (call n args) = 1 + max (depth n) (depth_nodes args)
  depth (Node.array elements) = depth_nodes elements
  depth (Node.object properties) = depth_properties properties

  pub depth_nodes : Nodes → ℕ
  depth_nodes no_nodes = 0
  depth_nodes (node n ns) = max (1 + depth n) (depth_nodes ns)

  pub depth_properties : Properties → ℕ
  depth_properties no_properties = 0
  depth_properties (property key n ps) = max (1 + depth n) (depth_properties ps)

unfoldable pub is_prefix_operator : TokenType → Bool
is_prefix_operator TokenType.minus = true
is_prefix_operator TokenType.plus = true
is_prefix_operator TokenType.bang = true
is_prefix_operator _ = false

unfoldable pub is_binary_operator : TokenType → Bool
is_binary_operator TokenType.or_or = true
is_binary_operator TokenType.and_and = true
is_binary_operator TokenType.eq = true
is_binary_operator TokenType.neq = true
is_binary_operator TokenType.strict_eq = true
is_binary_operator TokenType.strict_neq = true
is_binary_operator TokenType.lt = true
is_binary_operator TokenType.gt = true
is_binary_operator TokenType.lte = true
is_binary_operator TokenType.gte = true
is_binary_operator TokenType.plus = true
is_binary_operator TokenType.minus = true
is_binary_operator TokenType.star = true
is_binary_operator TokenType.slash = true
is_binary_operator TokenType.percent = true
is_binary_operator TokenType.star_star = true
is_binary_operator _ = false

-- A literal that is one token, which reads back
abbrev pub IsLiteral : (Float → String) → (String → Option Float) → Value → Type 0
IsLiteral show parse_float (Value.number n) = parse_float (show n) ≡ some n
IsLiteral show parse_float (Value.array vs) = ⊥
IsLiteral show parse_float (Value.object es) = ⊥
IsLiteral show parse_float _ = Unit

-- Nodes of the language: their literals are, and their operators are those of the lexer.
unfoldable mutual
  unfolding unary_type binary_type is_prefix_operator is_binary_operator

  pub IsNode : (Float → String) → (String → Option Float) → Node → Type 0
  IsNode show f (literal v) = IsLiteral show f v
  IsNode show f (Node.ident name) = Unit
  IsNode show f (unary op n) = (is_prefix_operator (unary_type op) ≡ true) × IsNode show f n
  IsNode show f (binary op l r) =
      (is_binary_operator (binary_type op) ≡ true) × IsNode show f l × IsNode show f r
  IsNode show f (ternary c a b) = IsNode show f c × IsNode show f a × IsNode show f b
  IsNode show f (member n name) = IsNode show f n
  IsNode show f (index n i) = IsNode show f n × IsNode show f i
  IsNode show f (call n args) = IsNode show f n × AreNodes show f args
  IsNode show f (Node.array elements) = AreNodes show f elements
  IsNode show f (Node.object properties) = AreProperties show f properties

  pub AreNodes : (Float → String) → (String → Option Float) → Nodes → Type 0
  AreNodes show f no_nodes = Unit
  AreNodes show f (node n ns) = IsNode show f n × AreNodes show f ns

  pub AreProperties : (Float → String) → (String → Option Float) → Properties → Type 0
  AreProperties show f no_properties = Unit
  AreProperties show f (property key n ps) = IsNode show f n × AreProperties show f ps
