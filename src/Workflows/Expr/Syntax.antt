-- ===== src/Workflows/Expr/Syntax.antt =====
-- The tokens of workflows/expr/lexer.go, the syntax tree of workflows/expr/ast.go and the values of
-- workflows/expr/value.go.
use sakumock.Prelude.{ℕ, String, List, Bool}

-- tokenType
pub data TokenType : Type 0 where
  eof number string ident true_word false_word null_word : TokenType
  plus minus star slash percent star_star : TokenType
  eq neq strict_eq strict_neq lt gt lte gte : TokenType
  and_and or_or bang : TokenType
  question colon dot comma lparen rparen lbracket rbracket lbrace rbrace : TokenType

pub record Token : Type 0 where
  pub typ : TokenType
  pub val : String
  pub pos : ℕ

abbrev pub Tokens : Type 0
Tokens = List Token

-- A float64, by its 64 bits. What the code computes of such numbers is a parameter.
abbrev pub Float : Type 0
Float = ℕ

-- Value: the field that its type selects. The entries of a map are in the order of its iteration.
mutual
  pub data Value : Type 0 where
    null : Value
    boolean : Bool → Value
    number : Float → Value
    string : String → Value
    array : Values → Value
    object : Entries → Value

  pub data Values : Type 0 where
    no_values : Values
    value : Value → Values → Values

  pub data Entries : Type 0 where
    no_entries : Entries
    entry : String → Value → Entries → Entries

-- node, by its implementations
mutual
  pub data Node : Type 0 where
    literal : Value → Node
    ident : String → Node
    unary : String → Node → Node
    binary : String → Node → Node → Node
    ternary : Node → Node → Node → Node
    member : Node → String → Node
    index : Node → Node → Node
    call : Node → Nodes → Node
    array : Nodes → Node
    -- The keys and values of objectNode, pair by pair
    object : Properties → Node

  pub data Nodes : Type 0 where
    no_nodes : Nodes
    node : Node → Nodes → Nodes

  pub data Properties : Type 0 where
    no_properties : Properties
    property : String → Node → Properties → Properties
