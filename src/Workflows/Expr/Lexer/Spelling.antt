-- ===== src/Workflows/Expr/Lexer/Spelling.antt =====
-- The spelling of the tokens of workflows/expr/lexer.go.
use Prim.Native.Char.{Char, code}
use sakumock.Workflows.Expr.Syntax.{TokenType}
use sakumock.Workflows.Expr.Lexer.{Runes, runes, text, look_ahead, symbol}
use mathlib.Core.Path.{subst}
use sakumock.Prelude.{
  ℕ, suc, ◌≡◌, ◌≢◌, refl, ap, sym, ◌∙◌, ◌⊎◌, inl, inr, String, List, [], ◌∷◌, map, Bool, true,
  false, ◌&&◌, Option, none, some, ◌==◌, ==_iff, length, take, codes, ◌<◌, ◌≤◌, arith,
  if◌then◌else◌,
}

pub codes-text : (s : Runes) → codes (text s) ≡ map code s
codes-text [] = refl
codes-text (c ∷ s) = ap (λ l. code c ∷ l) (codes-text s)

length-runes : (s : String) → length (runes s) ≡ length (codes s)
length-runes String.[] = refl
length-runes (String.◌∷◌ c s) = ap suc (length-runes s)

-- A text of one rune or more: the first ones, of which only the end of the input is 0
abbrev Front : ℕ → ℕ → ℕ → List ℕ → Type 0
Front a b c l =
    (l ≡ a ∷ []) ⊎ (((l ≡ a ∷ b ∷ []) × b ≢ 0) ⊎ ((l ≡ a ∷ b ∷ c ∷ []) × (b ≢ 0) × (c ≢ 0)))

abbrev Fronts : ℕ → ℕ → ℕ → Option (TokenType × String) → Type 0
Fronts a b c none = Unit
Fronts a b c (some (typ, val)) = Front a b c (codes val)

same : (a b : ℕ) → (a == b) ≡ true → a ≡ b
same a b h = (==_iff a b).0 h

both : (p q : Bool) → (p && q) ≡ true → (p ≡ true) × (q ≡ true)
both true true h = (refl, refl)
both true false h = absurd (cc h)
both false q h = absurd (cc h)

module _ (a b c : ℕ) where
  pick :
      (test : Bool) (x : TokenType × String) (rest : Option (TokenType × String))
      → (test ≡ true → Front a b c (codes x.1))
      → Fronts a b c rest
      → Fronts a b c (if test then some x else rest)
  pick true x rest h k = h refl
  pick false x rest h k = k

  one : (k : ℕ) → (a == k) ≡ true → Front a b c (k ∷ [])
  one k h = inl (ap (λ x. x ∷ []) (sym (same a k h)))

  two : (k l : ℕ) → 0 ≢ l → (a == k && b == l) ≡ true → Front a b c (k ∷ l ∷ [])
  two k l proper h =
      let (ha, hb) = both (a == k) (b == l) h in
      inr (
        inl (
          ap (λ x. x ∷ l ∷ []) (sym (same a k ha)) ∙ ap (λ x. a ∷ x ∷ []) (sym (same b l hb)),
          λ e. proper (sym e ∙ same b l hb),
        ))

  three :
      (k l m : ℕ)
      → 0 ≢ l
      → 0 ≢ m
      → (a == k && b == l && c == m) ≡ true
      → Front a b c (k ∷ l ∷ m ∷ [])
  three k l m proper proper' h =
      let (h', hc) = both (a == k && b == l) (c == m) h in
      let (ha, hb) = both (a == k) (b == l) h' in
      inr (
        inr (
          ap (λ x. x ∷ l ∷ m ∷ []) (sym (same a k ha))
              ∙ ap (λ x. a ∷ x ∷ m ∷ []) (sym (same b l hb))
              ∙ ap (λ x. a ∷ b ∷ x ∷ []) (sym (same c m hc)),
          λ e. proper (sym e ∙ same b l hb),
          λ e. proper' (sym e ∙ same c m hc),
        ))

  symbol-Fronts : Fronts a b c (symbol a b c)
  unfolding symbol
  symbol-Fronts =
      (pick _ _ _ (one _) (
        pick _ _ _ (one _) (
          pick _ _ _ (two _ _ (λ e. omega (arith, e))) (
            pick _ _ _ (one _) (
              pick _ _ _ (one _) (
                pick _ _ _ (one _) (
                  pick _ _ _ (three _ _ _ (λ e. omega (arith, e)) (λ e. omega (arith, e))) (
                    pick _ _ _ (two _ _ (λ e. omega (arith, e))) (
                      pick _ _ _ (three _ _ _ (λ e. omega (arith, e)) (λ e. omega (arith, e))) (
                        pick _ _ _ (two _ _ (λ e. omega (arith, e))) (
                          pick _ _ _ (one _) (
                            pick _ _ _ (two _ _ (λ e. omega (arith, e))) (
                              pick _ _ _ (one _) (
                                pick _ _ _ (two _ _ (λ e. omega (arith, e))) (
                                  pick _ _ _ (one _) (
                                    pick _ _ _ (two _ _ (λ e. omega (arith, e))) (
                                      pick _ _ _ (two _ _ (λ e. omega (arith, e))) (
                                        pick _ _ _ (one _) (
                                          pick _ _ _ (one _) (
                                            pick _ _ _ (one _) (
                                              pick _ _ _ (one _) (
                                                pick _ _ _ (one _) (
                                                  pick _ _ _ (one _) (
                                                    pick _ _ _ (one _) (
                                                      pick _ _ _ (one _) (
                                                        pick _ _ _ (one _) (
                                                          pick _ _ _ (one _)
                                                            tt)))))))))))))))))))))))))))

pub Front-take :
    (x : Char) (s : Runes) (l : List ℕ)
    → Front (code x) (look_ahead 0 s) (look_ahead 1 s) l
    → (map code (take (length l) (x ∷ s)) ≡ l) × (0 < length l) × (length l ≤ length (x ∷ s))
Front-take x s l (inl e) = rw e (refl, omega arith, omega arith)
Front-take x [] l (inr (inl (e, h))) = absurd (h refl)
Front-take x (y ∷ s) l (inr (inl (e, h))) = rw e (refl, omega arith, omega arith)
Front-take x [] l (inr (inr (e, h, k))) = absurd (h refl)
Front-take x (y ∷ []) l (inr (inr (e, h, k))) = absurd (k refl)
Front-take x (y ∷ z ∷ s) l (inr (inr (e, h, k))) = rw e (refl, omega arith, omega arith)

-- The text of an operator stands at the front of the input.
pub symbol-take :
    (x : Char) (s : Runes) (typ : TokenType) (val : String)
    → symbol (code x) (look_ahead 0 s) (look_ahead 1 s) ≡ some (typ, val)
    → (codes val ≡ map code (take (length (runes val)) (x ∷ s)))
      × (0 < length (runes val))
      × (length (runes val) ≤ length (x ∷ s))
symbol-take x s typ val e =
    let fronts : Fronts (code x) (look_ahead 0 s) (look_ahead 1 s) (some (typ, val)) =
      subst (λ o. Fronts (code x) (look_ahead 0 s) (look_ahead 1 s) o) e
        (symbol-Fronts (code x) (look_ahead 0 s) (look_ahead 1 s)) in
    let (spelled, positive, below) = Front-take x s (codes val) fronts in
    rw (length-runes val) (sym spelled, positive, below)
