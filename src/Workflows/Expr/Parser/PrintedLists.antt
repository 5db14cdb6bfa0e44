-- ===== src/Workflows/Expr/Parser/PrintedLists.antt =====
-- What the parser of workflows/expr/parser.go makes of the printed form of a list of nodes or of
-- properties, when it reads their members' own back.
use sakumock.Workflows.Expr.Syntax.{
  TokenType, Tokens, Float, Node, Nodes, Properties, no_nodes, node, no_properties, property, call,
}
use sakumock.Workflows.Expr.Grammar.{unexpected_token, rank, at, expect, infix_precedence}
use sakumock.Workflows.Expr.Parser.{
  Recursion, expect_key, parse_nodes, parse_items, parse_properties, parse_call,
  parse_array_literal, parse_object_literal, parse_infix, parse_prefix, parse_expr,
}
use sakumock.Workflows.Expr.Parser.Termination.{parse_expr-Shrinks}
use sakumock.Workflows.Expr.Printer.{lexeme, print, print_items, print_more, print_properties}
use sakumock.Prelude.{
  ℕ, zero, suc, ◌<◌, ◌≡◌, refl, String, [], ◌∷◌, true, false, Option, none, ok, err, bind-ok, ◌==◌,
  ==_iff, length, arith,
}
use sakumock.Workflows.Expr.Parser.Printed.{consumed, parse_expr-single, Reads, parse_prefix-infix}

-- A token that no node and no list goes on with
abbrev Closes : TokenType → Type 0
Closes typ = (infix_precedence typ ≡ none) × ((rank typ == rank TokenType.comma) ≡ false)

at-same : (typ : TokenType) (val : String) (rest : Tokens) → at typ (lexeme typ val ∷ rest) ≡ true
unfolding at
at-same typ val rest = (==_iff (rank typ) (rank typ)).1 refl

expect-same :
    (typ : TokenType) (val : String) (rest : Tokens)
    → expect typ (lexeme typ val ∷ rest) ≡ ok (val, rest)
unfolding expect
expect-same typ val rest = rw (expect, at-same typ val rest) refl

parse_nodes-last :
    (rec : Recursion) (fuel : ℕ) (tokens rest : Tokens) (n : Node)
    → rec 0 tokens ≡ ok (n, rest)
    → at TokenType.comma rest ≡ false
    → parse_nodes rec (suc fuel) tokens ≡ ok (node n no_nodes, rest)
unfolding parse_nodes
parse_nodes-last rec fuel tokens rest n e stop =
    bind-ok (rec 0 tokens) (n, rest) _ _ e (rw stop refl)

-- Nothing between the brackets, which takes no level
parse_items-empty :
    (rec : Recursion) (close : TokenType) (val : String) (rest : Tokens)
    → parse_items rec close (lexeme close val ∷ rest) ≡ ok (no_nodes, rest)
unfolding parse_items
parse_items-empty rec close val rest =
    rw (parse_items, at-same close val rest, expect-same close val rest) refl

module _ (f : String → Option Float) (show : Float → String) (levels : ℕ) where
  abbrev ReadsAlways : Node → Type 0
  ReadsAlways n = (rest : Tokens) → Reads f show n rest levels

  abbrev pub ReadAll : Nodes → Type 0
  ReadAll no_nodes = Unit
  ReadAll (node n ns) = ReadsAlways n × ReadAll ns

  abbrev pub ReadProperties : Properties → Type 0
  ReadProperties no_properties = Unit
  ReadProperties (property key n ps) = ReadsAlways n × ReadProperties ps

  parse_nodes-print :
      (fuel : ℕ) (n : Node) (ns : Nodes) (close : TokenType) (val : String) (rest : Tokens)
      → length (print show n (print_more show ns (lexeme close val ∷ rest))) < fuel
      → Closes close
      → ReadsAlways n
      → ReadAll ns
      → parse_nodes
          (parse_expr f (suc levels))
          fuel
          (print show n (print_more show ns (lexeme close val ∷ rest)))
        ≡ ok (node n ns, lexeme close val ∷ rest)
  unfolding parse_nodes print infix_precedence rank
  parse_nodes-print zero n ns close val rest lt c h hs = absurd (omega (arith, lt))
  parse_nodes-print (suc fuel) n no_nodes close val rest lt c h hs =
      let after = lexeme close val ∷ rest in
      parse_nodes-last (parse_expr f (suc levels)) fuel (print show n after) after n
        (parse_expr-single f levels 0 (print show n after) after n (h after) c.0) (unfold at in c.1)
  parse_nodes-print (suc fuel) n (node m ms) close val rest lt c h hs =
      let more = print show m (print_more show ms (lexeme close val ∷ rest)) in
      let after = lexeme TokenType.comma "," ∷ more in
      let first = parse_expr-single f levels 0 (print show n after) after n (h after) refl in
      let shorter =
        consumed (parse_expr f (suc levels)) (parse_expr-Shrinks f (suc levels)) 0
          (print show n after) after n first in
      rw
        (
          parse_nodes,
          first,
          parse_nodes-print fuel m ms close val rest (omega (arith, lt, shorter)) c hs.0 hs.1,
        )
        refl

  -- What parsePrefix reads does not start with a closing token.
  parse_prefix-rparen :
      (rec : Recursion) (tokens rest : Tokens) (n : Node)
      → parse_prefix f rec tokens ≡ ok (n, rest)
      → at TokenType.rparen tokens ≡ false
  unfolding parse_prefix at rank
  parse_prefix-rparen rec [] rest n e = refl
  parse_prefix-rparen rec (t ∷ tokens) rest n e = turn t.typ refl
    where
      turn : (typ : TokenType) → t.typ ≡ typ → at TokenType.rparen (t ∷ tokens) ≡ false
      turn TokenType.rparen k =
          let bad : parse_prefix f rec (t ∷ tokens) ≡ err unexpected_token =
            rw (parse_prefix, k) refl in
          absurd (cc (bad, e))
      turn _ k = rw (at, k) refl

  parse_prefix-rbracket :
      (rec : Recursion) (tokens rest : Tokens) (n : Node)
      → parse_prefix f rec tokens ≡ ok (n, rest)
      → at TokenType.rbracket tokens ≡ false
  unfolding parse_prefix at rank
  parse_prefix-rbracket rec [] rest n e = refl
  parse_prefix-rbracket rec (t ∷ tokens) rest n e = turn t.typ refl
    where
      turn : (typ : TokenType) → t.typ ≡ typ → at TokenType.rbracket (t ∷ tokens) ≡ false
      turn TokenType.rbracket k =
          let bad : parse_prefix f rec (t ∷ tokens) ≡ err unexpected_token =
            rw (parse_prefix, k) refl in
          absurd (cc (bad, e))
      turn _ k = rw (at, k) refl

  parse_items-print :
      (ns : Nodes) (close : TokenType) (val : String) (rest : Tokens)
      → Closes close
      → ((tokens rest' : Tokens) (n : Node)
          → parse_prefix f (parse_expr f levels) tokens ≡ ok (n, rest')
          → at close tokens ≡ false)
      → ReadAll ns
      → parse_items
          (parse_expr f (suc levels))
          close
          (print_items show ns (lexeme close val ∷ rest))
        ≡ ok (ns, rest)
  unfolding parse_items print
  parse_items-print no_nodes close val rest c starts hs =
      parse_items-empty (parse_expr f (suc levels)) close val rest
  parse_items-print (node n ns) close val rest c starts hs =
      let after = print_more show ns (lexeme close val ∷ rest) in
      let tokens = print show n after in
      rw
        (
          parse_items,
          starts tokens after n (hs.0 after),
          parse_nodes-print (suc (length tokens)) n ns close val rest (omega arith) c hs.0 hs.1,
          expect-same close val rest,
        )
        refl

  parse_properties-print :
      (fuel : ℕ) (key : String) (n : Node) (ps : Properties) (rest : Tokens)
      → length (print_properties show (property key n ps) (lexeme TokenType.rbrace "}" ∷ rest))
        < fuel
      → ReadsAlways n
      → ReadProperties ps
      → parse_properties
          (parse_expr f (suc levels))
          fuel
          (print_properties show (property key n ps) (lexeme TokenType.rbrace "}" ∷ rest))
        ≡ ok (property key n ps, lexeme TokenType.rbrace "}" ∷ rest)
  unfolding parse_properties expect expect_key print infix_precedence at rank
  parse_properties-print zero key n ps rest lt h hs = absurd (omega (arith, lt))
  parse_properties-print (suc fuel) key n no_properties rest lt h hs =
      let after = lexeme TokenType.rbrace "}" ∷ rest in
      rw
        (parse_properties, parse_expr-single f levels 0 (print show n after) after n (h after) refl)
        refl
  parse_properties-print (suc fuel) key n (property k m ps) rest lt h hs =
      let more = print_properties show (property k m ps) (lexeme TokenType.rbrace "}" ∷ rest) in
      let after = lexeme TokenType.comma "," ∷ more in
      let first = parse_expr-single f levels 0 (print show n after) after n (h after) refl in
      let shorter =
        consumed (parse_expr f (suc levels)) (parse_expr-Shrinks f (suc levels)) 0
          (print show n after) after n first in
      rw
        (
          parse_properties,
          first,
          parse_properties-print fuel k m ps rest (omega (arith, lt, shorter)) hs.0 hs.1,
        )
        refl

  pub parse_prefix-array :
      (ns : Nodes) (rest : Tokens) → ReadAll ns → Reads f show (Node.array ns) rest (suc levels)
  unfolding parse_prefix parse_array_literal print infix_precedence rank
  parse_prefix-array ns rest hs =
      rw
        (
          parse_prefix,
          parse_array_literal,
          parse_items-print ns TokenType.rbracket "]" rest (refl, refl)
              (λ tokens rest' n e. parse_prefix-rbracket (parse_expr f levels) tokens rest' n e) hs,
        )
        refl

  pub parse_prefix-object :
      (ps : Properties) (rest : Tokens)
      → ReadProperties ps
      → Reads f show (Node.object ps) rest (suc levels)
  unfolding parse_prefix parse_object_literal print expect at rank
  parse_prefix-object no_properties rest hs = refl
  parse_prefix-object (property key n ps) rest hs =
      let tokens = print_properties show (property key n ps) (lexeme TokenType.rbrace "}" ∷ rest) in
      rw
        (
          parse_prefix,
          parse_object_literal,
          parse_properties-print (suc (length tokens)) key n ps rest (omega arith) hs.0 hs.1,
        )
        refl

  pub parse_prefix-call :
      (n : Node) (ns : Nodes) (rest : Tokens)
      → ((rest' : Tokens) → Reads f show n rest' (suc levels))
      → ReadAll ns
      → Reads f show (call n ns) rest (suc (suc levels))
  unfolding parse_infix parse_call print infix_precedence rank
  parse_prefix-call n ns rest e hs =
      let after = lexeme TokenType.rparen ")" ∷ rest in
      let tokens = print_items show ns (lexeme TokenType.rparen ")" ∷ after) in
      parse_prefix-infix f (suc levels) 16 _ tokens rest (lexeme TokenType.lparen "(") n (call n ns)
        (e _) refl
        (rw
          (
            parse_infix,
            parse_call,
            parse_items-print ns TokenType.rparen ")" after (refl, refl)
                (λ tokens rest' n e. parse_prefix-rparen (parse_expr f levels) tokens rest' n e) hs,
          )
          refl)

  pub parse_prefix-array_empty : (rest : Tokens) → Reads f show (Node.array no_nodes) rest levels
  unfolding parse_prefix parse_array_literal print
  parse_prefix-array_empty rest =
      rw
        (
          parse_prefix,
          parse_array_literal,
          parse_items-empty (parse_expr f levels) TokenType.rbracket "]" rest,
        )
        refl

  pub parse_prefix-object_empty :
      (rest : Tokens) → Reads f show (Node.object no_properties) rest levels
  unfolding parse_prefix parse_object_literal print expect at rank
  parse_prefix-object_empty rest = refl

  pub parse_prefix-call_empty :
      (n : Node) (rest : Tokens)
      → ((rest' : Tokens) → Reads f show n rest' levels)
      → Reads f show (call n no_nodes) rest (suc levels)
  unfolding parse_infix parse_call print infix_precedence
  parse_prefix-call_empty n rest e =
      let after = lexeme TokenType.rparen ")" ∷ rest in
      parse_prefix-infix f levels 16 _ _ rest (lexeme TokenType.lparen "(") n (call n no_nodes)
        (e _) refl
        (rw
          (
            parse_infix,
            parse_call,
            parse_items-empty (parse_expr f levels) TokenType.rparen ")" after,
          )
          refl)
