-- ===== src/Workflows/Expr/Parser/RoundTrip.antt =====
-- The parser of workflows/expr/parser.go reads the printed form of a node back.
use sakumock.Workflows.Expr.Syntax.{
  TokenType, Tokens, Float, Value, Node, Nodes, Properties, no_nodes, node, no_properties, property,
  call, ternary, binary, member, index, literal, unary, boolean,
}
use sakumock.Workflows.Expr.Parser.{parse_prefix}
use sakumock.Workflows.Expr.Printer.{
  lexeme, print, depth, depth_nodes, depth_properties, IsNode, AreNodes, AreProperties,
}
use sakumock.Prelude.{
  ℕ, zero, suc, ◌+◌, ◌-◌, ◌≤◌, max, refl, String, [], ◌∷◌, true, false, Option, arith,
}
use sakumock.Workflows.Expr.Parser.Printed.{
  Reads, parse_prefix-unary, parse_prefix-binary, parse_prefix-ternary, parse_prefix-member,
  parse_prefix-index, one_level, two_levels,
}
use sakumock.Workflows.Expr.Parser.PrintedLists.{
  ReadAll, ReadProperties, parse_prefix-array, parse_prefix-object, parse_prefix-call,
  parse_prefix-array_empty, parse_prefix-object_empty, parse_prefix-call_empty,
}

module _ (f : String → Option Float) (show : Float → String) where
  literal-Reads :
      (v : Value) (levels : ℕ) (rest : Tokens)
      → IsNode show f (literal v)
      → Reads f show (literal v) rest levels
  unfolding print parse_prefix IsNode
  literal-Reads Value.null levels rest p = refl
  literal-Reads (boolean true) levels rest p = refl
  literal-Reads (boolean false) levels rest p = refl
  literal-Reads (Value.number n) levels rest p = rw (parse_prefix, p) refl
  literal-Reads (Value.string s) levels rest p = refl
  literal-Reads (Value.array vs) levels rest p = absurd p
  literal-Reads (Value.object es) levels rest p = absurd p

  ident-Reads :
      (name : String) (levels : ℕ) (rest : Tokens) → Reads f show (Node.ident name) rest levels
  unfolding print parse_prefix
  ident-Reads name levels rest = refl

  array-Reads :
      (ns : Nodes) (levels : ℕ) (rest : Tokens)
      → depth_nodes ns ≤ levels
      → ((l : ℕ) → depth_nodes ns ≤ suc l → ReadAll f show l ns)
      → Reads f show (Node.array ns) rest levels
  unfolding depth
  array-Reads no_nodes levels rest h k = parse_prefix-array_empty f show levels rest
  array-Reads (node n ns) zero rest h k = absurd (omega (arith, h))
  array-Reads (node n ns) (suc l) rest h k = parse_prefix-array f show l (node n ns) rest (k l h)

  object-Reads :
      (ps : Properties) (levels : ℕ) (rest : Tokens)
      → depth_properties ps ≤ levels
      → ((l : ℕ) → depth_properties ps ≤ suc l → ReadProperties f show l ps)
      → Reads f show (Node.object ps) rest levels
  unfolding depth
  object-Reads no_properties levels rest h k = parse_prefix-object_empty f show levels rest
  object-Reads (property key n ps) zero rest h k = absurd (omega (arith, h))
  object-Reads (property key n ps) (suc l) rest h k =
      parse_prefix-object f show l (property key n ps) rest (k l h)

  call-Reads :
      (n : Node) (ns : Nodes) (levels : ℕ) (rest : Tokens)
      → 1 + max (depth n) (depth_nodes ns) ≤ levels
      → ((l : ℕ) → depth n ≤ l → (rest' : Tokens) → Reads f show n rest' l)
      → ((l : ℕ) → depth_nodes ns ≤ suc l → ReadAll f show l ns)
      → Reads f show (call n ns) rest levels
  unfolding depth
  call-Reads n no_nodes levels rest h callee args =
      one_level f (Reads f show (call n no_nodes) rest) (depth n) levels (omega (arith, h))
        λ l k. parse_prefix-call_empty f show l n rest (callee l k)
  call-Reads n (node m ms) levels rest h callee args =
      two_levels f (Reads f show (call n (node m ms)) rest) (depth n)
        (max (depth m) (depth_nodes ms - 1)) levels (omega (arith, h))
        λ l k k'.
          parse_prefix-call f show l n (node m ms) rest (callee (suc l) k)
            (args l (omega (arith, k')))

  mutual
    unfolding print depth IsNode

    reads :
        (n : Node) (levels : ℕ) (rest : Tokens)
        → IsNode show f n
        → depth n ≤ levels
        → Reads f show n rest levels
    reads (literal v) levels rest p h = literal-Reads v levels rest p
    reads (Node.ident name) levels rest p h = ident-Reads name levels rest
    reads (unary op n) levels rest p h =
        two_levels f (Reads f show (unary op n) rest) 0 (depth n) levels (omega (arith, h))
          λ l _ k. parse_prefix-unary f show l op n rest p.0 (reads n l _ p.1 k)
    reads (binary op a b) levels rest p h =
        two_levels f (Reads f show (binary op a b) rest) (depth a) (depth b) levels h λ l j k.
          parse_prefix-binary f show l op a b rest p.0 (λ rest'. reads a (suc l) rest' p.1 j)
            (λ rest'. reads b l rest' p.2 k)
    reads (ternary c a b) levels rest p h =
        two_levels f (Reads f show (ternary c a b) rest) (depth c) (max (depth a) (depth b)) levels
          h
          λ l j k.
            parse_prefix-ternary f show l c a b rest (λ rest'. reads c (suc l) rest' p.0 j)
              (λ rest'. reads a l rest' p.1 (omega (arith, k)))
              (λ rest'. reads b l rest' p.2 (omega (arith, k)))
    reads (member n name) levels rest p h =
        one_level f (Reads f show (member n name) rest) (depth n) levels h
          λ l k. parse_prefix-member f show l n name rest (λ rest'. reads n l rest' p k)
    reads (index n i) levels rest p h =
        two_levels f (Reads f show (index n i) rest) (depth n) (depth i) levels h λ l j k.
          parse_prefix-index f show l n i rest (λ rest'. reads n (suc l) rest' p.0 j)
            (λ rest'. reads i l rest' p.1 k)
    reads (call n args) levels rest p h =
        call-Reads n args levels rest h (λ l k rest'. reads n l rest' p.0 k)
          (λ l k. read_all args l p.1 k)
    reads (Node.array elements) levels rest p h =
        array-Reads elements levels rest h λ l k. read_all elements l p k
    reads (Node.object properties) levels rest p h =
        object-Reads properties levels rest h λ l k. read_properties properties l p k

    read_all :
        (ns : Nodes) (levels : ℕ)
        → AreNodes show f ns
        → depth_nodes ns ≤ suc levels
        → ReadAll f show levels ns
    read_all no_nodes levels p h = tt
    read_all (node n ns) levels p h = (
      λ rest. reads n levels rest p.0 (omega (arith, h)),
      read_all ns levels p.1 (omega (arith, h)),
    )

    read_properties :
        (ps : Properties) (levels : ℕ)
        → AreProperties show f ps
        → depth_properties ps ≤ suc levels
        → ReadProperties f show levels ps
    read_properties no_properties levels p h = tt
    read_properties (property key n ps) levels p h = (
      λ rest. reads n levels rest p.0 (omega (arith, h)),
      read_properties ps levels p.1 (omega (arith, h)),
    )

  abbrev end : Tokens
  end = lexeme TokenType.eof "" ∷ []
