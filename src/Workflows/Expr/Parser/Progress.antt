-- ===== src/Workflows/Expr/Parser/Progress.antt =====
-- The lists that the parser of workflows/expr/parser.go reads: what such a call leaves of the tokens.
use sakumock.Workflows.Expr.Syntax.{TokenType, Tokens, Nodes, no_nodes}
use sakumock.Workflows.Expr.Grammar.{out_of_fuel, Parsed, advance, rank, at, expect}
use sakumock.Workflows.Expr.Parser.{
  Recursion, expect_key, parse_nodes, parse_items, parse_properties,
}
use sakumock.Prelude.{
  ℕ, zero, suc, ◌<◌, ◌≤◌, ◌≡◌, ◌≢◌, refl, [], ◌∷◌, true, false, ok, err, bind, length, arith,
  Bool-cases, inl, inr,
}

-- A result that leaves fewer than `bound` tokens, or an error other than that of the model
abbrev pub Shrinks : {A : Type 0} → ℕ → Parsed A → Type 0
Shrinks bound (ok (a, rest)) = length rest < bound
Shrinks bound (err e) = e ≢ out_of_fuel

module _ {A : Type 0} where
  pub Shrinks-weaken : (m n : ℕ) (r : Parsed A) → m ≤ n → Shrinks m r → Shrinks n r
  Shrinks-weaken m n (ok (a, rest)) h s = omega (arith, h, s)
  Shrinks-weaken m n (err e) h s = s

module _ {A B : Type 0} where
  pub Shrinks-bind :
      (m n : ℕ) (r : Parsed A) (f : A × Tokens → Parsed B)
      → Shrinks m r
      → ((a : A) (rest : Tokens) → length rest < m → Shrinks n (f (a, rest)))
      → Shrinks n (bind r f)
  Shrinks-bind m n (ok (a, rest)) f s h = h a rest s
  Shrinks-bind m n (err e) f s h = s

pub expect-Shrinks :
    (typ : TokenType) (tokens : Tokens)
    → at typ [] ≡ false
    → Shrinks (length tokens) (expect typ tokens)
unfolding expect
expect-Shrinks typ [] h = rw (expect, h) (λ e. cc e)
expect-Shrinks typ (t ∷ rest) h = elim (Bool-cases (at typ (t ∷ rest))) [
  | inl here ↦ rw (expect, here) (omega arith)
  | inr other ↦ rw (expect, other) (λ e. cc e)
]

-- A parser of one expression that consumes tokens
abbrev pub Consumes : Recursion → Type 0
Consumes rec = (min_prec : ℕ) (tokens : Tokens) → Shrinks (length tokens) (rec min_prec tokens)

-- Past a token of a type that is not the end's
length-advance :
    (typ : TokenType) (tokens : Tokens)
    → at typ [] ≡ false
    → at typ tokens ≡ true
    → length (advance tokens) < length tokens
length-advance typ [] h e = absurd (cc (h, e))
length-advance typ (t ∷ rest) h e = omega arith

module _ (rec : Recursion) (consumes : Consumes rec) where
  parse_nodes-Shrinks :
      (fuel : ℕ) (tokens : Tokens)
      → length tokens < fuel
      → Shrinks (length tokens) (parse_nodes rec fuel tokens)
  unfolding parse_nodes
  parse_nodes-Shrinks zero tokens h = absurd (omega (arith, h))
  parse_nodes-Shrinks (suc fuel) tokens h =
      Shrinks-bind (length tokens) (length tokens) (rec 0 tokens) _ (consumes 0 tokens) λ n rest lt.
        elim (Bool-cases (at TokenType.comma rest)) [
          | inr end ↦ rw end lt
          | inl more ↦
              let next = length-advance TokenType.comma rest (unfold at rank in refl) more in
              rw more (
                Shrinks-bind (length (advance rest)) (length tokens)
                  (parse_nodes rec fuel (advance rest)) _
                  (parse_nodes-Shrinks fuel (advance rest) (omega (arith, h, lt, next)))
                  λ ns rest' lt'. omega (arith, lt, lt', next))
        ]

  pub parse_items-Shrinks :
      (close : TokenType) (tokens : Tokens)
      → at close [] ≡ false
      → Shrinks (length tokens) (parse_items rec close tokens)
  unfolding parse_items
  parse_items-Shrinks close tokens proper =
      let closed : (items : Nodes) (rest : Tokens)
          → length rest < suc (length tokens)
          → Shrinks (length tokens) (bind (expect close rest) λ (_, rest'). ok (items, rest')) =
        λ items rest lt.
          Shrinks-bind (length rest) (length tokens) (expect close rest) _
            (expect-Shrinks close rest proper) λ _ rest' lt'. omega (arith, lt, lt') in
      elim (Bool-cases (at close tokens)) [
        | inl here ↦ rw here (closed no_nodes tokens (omega arith))
        | inr there ↦ rw there (
            Shrinks-bind (suc (length tokens)) (length tokens)
              (parse_nodes rec (suc (length tokens)) tokens) _
              (Shrinks-weaken (length tokens) (suc (length tokens))
                (parse_nodes rec (suc (length tokens)) tokens) (omega arith)
                (parse_nodes-Shrinks (suc (length tokens)) tokens (omega arith)))
              closed)
      ]

  expect_key-Shrinks : (tokens : Tokens) → Shrinks (length tokens) (expect_key tokens)
  unfolding expect_key
  expect_key-Shrinks [] = λ e. cc e
  expect_key-Shrinks (t ∷ rest) = key t.typ refl
    where
      key : (typ : TokenType) → t.typ ≡ typ → Shrinks (suc (length rest)) (expect_key (t ∷ rest))
      key TokenType.ident e = rw (expect_key, e) (omega arith)
      key TokenType.string e = rw (expect_key, e) (omega arith)
      key _ e = rw (expect_key, e) (λ e. cc e)

  pub parse_properties-Shrinks :
      (fuel : ℕ) (tokens : Tokens)
      → length tokens < fuel
      → Shrinks (length tokens) (parse_properties rec fuel tokens)
  unfolding parse_properties
  parse_properties-Shrinks zero tokens h = absurd (omega (arith, h))
  parse_properties-Shrinks (suc fuel) tokens h =
      Shrinks-bind (length tokens) (length tokens) (expect_key tokens) _ (expect_key-Shrinks tokens)
        λ key rest₀ lt₀.
          Shrinks-bind (length rest₀) (length tokens) (expect TokenType.colon rest₀) _
            (expect-Shrinks TokenType.colon rest₀ (unfold at rank in refl))
            λ _ rest₁ lt₁.
              Shrinks-bind (length rest₁) (length tokens) (rec 0 rest₁) _ (consumes 0 rest₁)
                λ n rest lt. elim (Bool-cases (at TokenType.comma rest)) [
                  | inr end ↦ rw end (omega (arith, lt₀, lt₁, lt))
                  | inl more ↦
                      let next =
                        length-advance TokenType.comma rest (unfold at rank in refl) more in
                      rw more (
                        Shrinks-bind (length (advance rest)) (length tokens)
                          (parse_properties rec fuel (advance rest)) _
                          (parse_properties-Shrinks fuel (advance rest)
                            (omega (arith, h, lt₀, lt₁, lt, next)))
                          λ ps rest' lt'. omega (arith, lt₀, lt₁, lt, lt', next))
                ]
