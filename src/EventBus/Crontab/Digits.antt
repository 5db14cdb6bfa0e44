-- ===== src/EventBus/Crontab/Digits.antt =====
-- The bits of the masks of eventbus/crontab.go: what `|` and `&` do to one binary digit.
use Prim.Native.Nat.{bit_and, bit_or, bit_and-bitwise, bit_or-bitwise, digits, min, max}
use native.Mathlib.Nat.{pow-suc, one-le-pow}
use sakumock.EventBus.Crontab.{bit, has_bit}
use sakumock.Prelude.{
  ℕ, zero, suc, ◌+◌, ◌*◌, ◌/◌, ◌%◌, ◌^◌, ◌≤◌, ◌<◌, ◌≡◌, refl, ap, true, false, ◌||◌, ltb, ◌==◌,
  arith, if◌then◌else◌,
}

module _ (beyond : ℕ → ℕ) (on_digit : ℕ → ℕ → ℕ) where
  -- Two counts of digits that are large enough give the same.
  enough_digits :
      (a b count count' : ℕ)
      → a ≤ count
      → a ≤ count'
      → digits beyond on_digit count a b ≡ digits beyond on_digit count' a b
  enough_digits zero b zero zero h h' = refl
  enough_digits zero b zero (suc k') h h' = refl
  enough_digits zero b (suc k) zero h h' = refl
  enough_digits zero b (suc k) (suc k') h h' = refl
  enough_digits (suc a) b zero k' h h' = absurd (omega (arith, h))
  enough_digits (suc a) b (suc k) zero h h' = absurd (omega (arith, h'))
  enough_digits (suc a) b (suc k) (suc k') h h' =
      let halves = enough_digits (suc a / 2) (b / 2) k k' (omega (arith, h)) (omega (arith, h')) in
      ap (λ d. d * 2 + on_digit (suc a % 2) (b % 2)) halves

or_halves : (a b : ℕ) → bit_or a b ≡ bit_or (a / 2) (b / 2) * 2 + max (a % 2) (b % 2)
or_halves zero b = simp bit_or-bitwise (omega arith)
or_halves (suc a) b =
    let halves =
      enough_digits (λ y. y) max (suc a / 2) (b / 2) a (suc a / 2) (omega arith) (omega arith) in
    simp bit_or-bitwise (omega (arith, halves))

and_halves : (a b : ℕ) → bit_and a b ≡ bit_and (a / 2) (b / 2) * 2 + min (a % 2) (b % 2)
and_halves zero b = simp bit_and-bitwise (omega arith)
and_halves (suc a) b =
    let halves =
      enough_digits (λ y. 0) min (suc a / 2) (b / 2) a (suc a / 2) (omega arith) (omega arith) in
    simp bit_and-bitwise (omega (arith, halves))

-- The binary digit at a place
digit : ℕ → ℕ → ℕ
digit a zero = a % 2
digit a (suc v) = digit (a / 2) v

digit-bound : (v a : ℕ) → digit a v ≤ 1
unfolding digit
digit-bound zero a = omega arith
digit-bound (suc v) a = digit-bound v (a / 2)

digit-bit_or : (v a b : ℕ) → digit (bit_or a b) v ≡ max (digit a v) (digit b v)
unfolding digit
digit-bit_or zero a b = omega (arith, or_halves a b)
digit-bit_or (suc v) a b =
    let half : bit_or a b / 2 ≡ bit_or (a / 2) (b / 2) = omega (arith, or_halves a b) in
    rw half (digit-bit_or v (a / 2) (b / 2))

bit_and-zero : (bound a : ℕ) → a ≤ bound → bit_and a 0 ≡ 0
bit_and-zero zero a h = let none_left : a ≡ 0 = omega (arith, h) in rw none_left refl
bit_and-zero (suc bound) zero h = refl
bit_and-zero (suc bound) (suc a) h =
    omega (arith, and_halves (suc a) 0, bit_and-zero bound (suc a / 2) (omega (arith, h)))

bit_and-power : (v a : ℕ) → bit_and a (2 ^ v) ≡ digit a v * 2 ^ v
unfolding digit
bit_and-power zero a = omega (arith, and_halves a 1, bit_and-zero (a / 2) (a / 2) (omega arith))
bit_and-power (suc v) a =
    let power = pow-suc 2 v in
    let half : 2 ^ suc v / 2 ≡ 2 ^ v = omega (arith, power) in
    let even : 2 ^ suc v % 2 ≡ 0 = omega (arith, power) in
    let product : digit (a / 2) v * 2 ^ suc v ≡ 2 * (digit (a / 2) v * 2 ^ v) =
      omega (arith, ap (λ (t : ℕ). digit (a / 2) v * t) power) in
    let rest : bit_and (a / 2) (2 ^ suc v / 2) ≡ digit (a / 2) v * 2 ^ v =
      rw half (bit_and-power v (a / 2)) in
    omega (arith, and_halves a (2 ^ suc v), even, rest, product)

digit-zero : (v : ℕ) → digit 0 v ≡ 0
unfolding digit
digit-zero zero = refl
digit-zero (suc v) = digit-zero v

digit-power : (v w : ℕ) → digit (2 ^ w) v ≡ (if w == v then 1 else 0)
unfolding digit
digit-power zero zero = refl
digit-power zero (suc w) = ground (arith, pow-suc 2 w)
digit-power (suc v) zero = ground (arith, digit-zero v)
digit-power (suc v) (suc w) =
    let half : 2 ^ suc w / 2 ≡ 2 ^ w = omega (arith, pow-suc 2 w) in
    rw half (ground (arith, digit-power v w))

-- The test of a bit reads its digit.
has_bit-digit : (m v : ℕ) → v < 64 → has_bit m v ≡ (digit m v == 1)
unfolding has_bit
has_bit-digit m v h =
    let small : ltb v 64 ≡ true = ground arith in
    rw (small, bit_and-power v m) (ground (arith, digit-bound v m, one-le-pow v 2))

pub has_bit-bit_or :
    (m w v : ℕ) → w < 64 → v < 64 → has_bit (bit_or m (bit w)) v ≡ (has_bit m v || (w == v))
has_bit-bit_or m w v hw hv =
    let small : ltb w 64 ≡ true = ground arith in
    rw
      (
        small,
        has_bit-digit (bit_or m (2 ^ w)) v hv,
        has_bit-digit m v hv,
        digit-bit_or v m (2 ^ w),
        digit-power v w,
      )
      (ground (arith, digit-bound v m))

-- The empty mask has no bit.
pub has_bit-zero : (v : ℕ) → v < 64 → has_bit 0 v ≡ false
has_bit-zero v h = rw (has_bit-digit 0 v h, digit-zero v) refl

pub has_bit-bit_or-zero : (m v : ℕ) → v < 64 → has_bit (bit_or m 0) v ≡ has_bit m v
has_bit-bit_or-zero m v h =
    rw (has_bit-digit (bit_or m 0) v h, has_bit-digit m v h, digit-bit_or v m 0, digit-zero v)
      (ground arith)
