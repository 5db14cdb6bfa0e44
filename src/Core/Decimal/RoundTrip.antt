-- ===== src/Core/Decimal/RoundTrip.antt =====
-- What FormatInt prints, ParseInt reads back.
use Prim.Native.Char.{code}
use sakumock.Core.Decimal.{digit, digits, max_digits, format_int, parse_digits, parse_int}
use native.Mathlib.Nat.{pow-suc}
use sakumock.Prelude.{
  ℕ, zero, suc, ◌+◌, ◌*◌, ◌/◌, ◌%◌, ◌^◌, ◌<◌, ◌≤◌, String, ◌≡◌, refl, ap, ◌∙◌, sym, some, arith,
  Bool-cases, inl, inr, ◌==◌, ==_iff, pos, max_int64,
}

code-digit : (d : ℕ) → d < 10 → code (digit d) ≡ b'0' + d
unfolding digit
code-digit zero h = refl
code-digit (suc zero) h = refl
code-digit (suc (suc zero)) h = refl
code-digit (suc (suc (suc zero))) h = refl
code-digit (suc (suc (suc (suc zero)))) h = refl
code-digit (suc (suc (suc (suc (suc zero))))) h = refl
code-digit (suc (suc (suc (suc (suc (suc zero)))))) h = refl
code-digit (suc (suc (suc (suc (suc (suc (suc zero))))))) h = refl
code-digit (suc (suc (suc (suc (suc (suc (suc (suc zero)))))))) h = refl
code-digit (suc (suc (suc (suc (suc (suc (suc (suc (suc zero))))))))) h = refl
code-digit (suc (suc (suc (suc (suc (suc (suc (suc (suc (suc n)))))))))) h = absurd (omega arith)

parse_digit :
    (acc d : ℕ) (out : String)
    → d < 10
    → parse_digits acc (String.◌∷◌ (digit d) out) ≡ parse_digits (acc * 10 + d) out
unfolding parse_digits
parse_digit acc d out h = ground (arith, code-digit d h)

-- The digits that FormatInt puts in front of `out` are read as the number that they write.
parse_digits-digits :
    (fuel n : ℕ) (out : String)
    → n < 10 ^ fuel
    → parse_digits 0 (digits fuel n out) ≡ parse_digits n out
unfolding digits
parse_digits-digits zero n out h = ap (λ k. parse_digits k out) (omega arith)
parse_digits-digits (suc fuel) n out h = elim (Bool-cases (n / 10 == 0)) [
  | inl last ↦ rw last (
      parse_digit 0 (n % 10) out (omega arith)
      ∙ ap (λ k. parse_digits k out) (omega (arith, (==_iff (n / 10) 0).0 last)))
  | inr more ↦ rw more (
      parse_digits-digits fuel (n / 10) (String.◌∷◌ (digit (n % 10)) out)
        (omega (arith, pow-suc 10 fuel))
      ∙ parse_digit (n / 10) (n % 10) out (omega arith)
      ∙ ap (λ k. parse_digits k out) (omega arith))
]

-- FormatInt's text of a number is not empty, and starts with a digit.
digits-cons :
    (fuel n : ℕ) (out : String)
    → (d : ℕ) × (s : String) × (d < 10) × (digits (suc fuel) n out ≡ String.◌∷◌ (digit d) s)
unfolding digits
digits-cons zero n out = (n % 10, out, omega arith, ground arith)
digits-cons (suc fuel) n out = elim (Bool-cases (n / 10 == 0)) [
  | inl last ↦ (n % 10, out, omega arith, rw last)
  | inr more ↦
      let (d, s, lt, e) = digits-cons fuel (n / 10) (String.◌∷◌ (digit (n % 10)) out) in
      (d, s, lt, rw more e)
]

-- ParseInt reads back what FormatInt prints of an int64 that is not negative.
pub parse_int-format_int : (n : ℕ) → n ≤ max_int64 → parse_int (format_int (pos n)) ≡ some (pos n)
unfolding parse_int format_int parse_digits
parse_int-format_int n h =
    let (d, s, lt, e) = digits-cons 19 n "" in
    let read : parse_digits 0 (digits max_digits n "") ≡ some n =
      parse_digits-digits max_digits n "" (omega arith) in
    rw e (ground (arith, code-digit d lt, ap (parse_digits 0) (sym e) ∙ read))

-- So two numbers have two texts.
pub format_int-injective :
    (m n : ℕ) → m ≤ max_int64 → n ≤ max_int64 → format_int (pos m) ≡ format_int (pos n) → m ≡ n
format_int-injective m n hm hn e =
    cc (parse_int-format_int m hm, parse_int-format_int n hn, ap parse_int e)
