-- ===== src/Workflows/Expr/Lexer/Counts.antt =====
-- How many runes the loops of workflows/expr/lexer.go read: no more than there are.
use Prim.Native.Char.{Char, code}
use sakumock.Workflows.Expr.Lexer.{
  Runes, LexError, out_of_fuel, is_digit, count_while, read_string, read_sign, read_exponent,
  in_mantissa, read_number,
}
use sakumock.Prelude.{
  ℕ, suc, ◌+◌, ◌≤◌, ◌<◌, ◌≡◌, ◌≢◌, refl, [], ◌∷◌, Bool, true, ◌||◌, Result, ok, err, bind, ◌==◌,
  length, take, drop, All, length-drop, arith, Bool-cases, inl, inr,
}

pub count_while-le : (p : ℕ → Bool) (s : Runes) → count_while p s ≤ length s
unfolding count_while
count_while-le p [] = omega arith
count_while-le p (c ∷ s) = ground (arith, count_while-le p s)

pub count_while-positive :
    (p : ℕ → Bool) (c : Char) (s : Runes) → p (code c) ≡ true → 0 < count_while p (c ∷ s)
unfolding count_while
count_while-positive p c s h = rw h (omega arith)

-- The runes that are counted pass the test.
pub take-count_while :
    (p : ℕ → Bool) (s : Runes) → All (λ c. p (code c) ≡ true) (take (count_while p s) s)
unfolding count_while
take-count_while p [] = tt
take-count_while p (c ∷ s) = elim (Bool-cases (p (code c))) [
  | inl e ↦ rw e (e, take-count_while p s)
  | inr e ↦ rw e tt
]

-- What readString returns has read no more runes than there are, and no error is the model's.
abbrev pub Within : {A : Type 0} → ℕ → Result LexError (A × ℕ) → Type 0
Within bound (ok (a, n)) = (0 < n) × (n ≤ bound)
Within bound (err e) = e ≢ out_of_fuel

pub Within-bind :
    {A B : Type 0} (k bound whole : ℕ) (r : Result LexError (A × ℕ)) (f : A → B)
    → k + bound ≤ whole
    → Within bound r
    → Within whole (bind r λ (a, n). ok (f a, k + n))
Within-bind k bound whole (ok (a, n)) f le h = (omega (arith, h.0), omega (arith, le, h.1))
Within-bind k bound whole (err e) f le h = h

pub read_string-Within : (quote : ℕ) (s : Runes) → Within (length s) (read_string quote s)
unfolding read_string
read_string-Within quote [] = λ e. cc e
read_string-Within quote (c ∷ []) = elim (Bool-cases (code c == quote)) [
  | inl e ↦ rw (Within, e) (omega arith, omega arith)
  | inr e ↦ elim (Bool-cases (code c == 92)) [
    | inl k ↦ rw (Within, e, k) (λ e. cc e)
    | inr k ↦ rw (Within, e, k) (λ e. cc e)
  ]
]
read_string-Within quote (c ∷ d ∷ s) = elim (Bool-cases (code c == quote)) [
  | inl e ↦ rw (Within, e) (omega arith, omega arith)
  | inr e ↦ elim (Bool-cases (code c == 92)) [
    | inl k ↦
        rw (Within, e, k)
          (Within-bind 2 (length s) (suc (suc (length s))) (read_string quote s) _ (omega arith)
            (read_string-Within quote s))
    | inr k ↦
        rw (Within, e, k)
          (Within-bind 1 (suc (length s)) (suc (suc (length s))) (read_string quote (d ∷ s)) _
            (omega arith) (read_string-Within quote (d ∷ s)))
  ]
]

read_sign-count_while-le :
    (s : Runes) → read_sign s + count_while is_digit (drop (read_sign s) s) ≤ length s
unfolding read_sign count_while
read_sign-count_while-le [] = omega (arith, count_while-le is_digit (drop (read_sign []) []))
read_sign-count_while-le (c ∷ s) = elim (Bool-cases (code c == 43 || code c == 45)) [
  | inl e ↦ rw e (omega (arith, count_while-le is_digit s))
  | inr e ↦ rw e (omega (arith, count_while-le is_digit (c ∷ s)))
]

read_exponent-le : (s : Runes) → read_exponent s ≤ length s
unfolding read_exponent
read_exponent-le [] = omega arith
read_exponent-le (c ∷ s) = elim (Bool-cases (code c == 101 || code c == 69)) [
  | inl e ↦ rw e (omega (arith, read_sign-count_while-le s))
  | inr e ↦ rw e (omega arith)
]

pub read_number-bounds :
    (c : Char) (s : Runes)
    → is_digit (code c) ≡ true
    → (0 < read_number (c ∷ s)) × (read_number (c ∷ s) ≤ length (c ∷ s))
unfolding read_number
read_number-bounds c s h =
    let mantissa = count_while in_mantissa (c ∷ s) in
    let positive = count_while-positive in_mantissa c s (rw h refl) in
    let below = count_while-le in_mantissa (c ∷ s) in
    let exponent = read_exponent-le (drop mantissa (c ∷ s)) in
    let left = length-drop mantissa (c ∷ s) in
    (omega (arith, positive), omega (arith, below, exponent, left))
