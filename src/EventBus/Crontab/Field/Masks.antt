-- ===== src/EventBus/Crontab/Field/Masks.antt =====
-- The bits of the masks that rangeMask of eventbus/crontab.go makes.
use Prim.Native.Nat.{bit_or}
use native.Mathlib.Nat.{mod-eq_of_lt, add-mul-mod_self_right}
use sakumock.EventBus.Crontab.{bit, has_bit}
use sakumock.EventBus.Crontab.Digits.{has_bit-bit_or, has_bit-zero}
use sakumock.EventBus.Crontab.Field.{range_loop, range_mask}
use sakumock.Prelude.{
  ℕ, zero, suc, ◌+◌, ◌-◌, ◌%◌, ◌≤◌, ◌<◌, ◌≡◌, refl, sym, ap, ◌∙◌, Bool, true, false, ◌&&◌, ◌||◌,
  Option, none, some, ltb, leb, ◌==◌, arith, Bool-cases, inl, inr, pos, add64, max_int64,
}

-- The number is one of lo, lo + step, ... up to hi.
abbrev pub admits : ℕ → ℕ → ℕ → ℕ → Bool
admits lo hi step v = leb lo v && leb v hi && ((v - lo) % step == 0)

mod_step : (x step : ℕ) → (x + step) % step ≡ x % step
mod_step x step = ap (λ y. (x + y) % step) (omega arith) ∙ add-mul-mod_self_right x 1 step

admits-step :
    (a hi step v : ℕ)
    → 1 ≤ step
    → a ≤ hi
    → ((a == v) || admits (a + step) hi step v) ≡ admits a hi step v
admits-step a hi step v h le = elim (Bool-cases (ltb v a)) [
  | inl before ↦ ground arith
  | inr from ↦ elim (Bool-cases (ltb v (a + step))) [
    | inl near ↦
        let within : v - a < step = ground arith in
        let same : (v - a) % step ≡ v - a = mod-eq_of_lt within in ground (arith, same)
    | inr far ↦
        let next : v - (a + step) + step ≡ v - a = ground arith in
        let same : (v - a) % step ≡ (v - (a + step)) % step =
          ap (λ x. x % step) (sym next) ∙ mod_step (v - (a + step)) step in
        ground (arith, same)
  ]
]

-- A number of type int64 that is not negative, after a step that does not overflow
add64-small : (a step : ℕ) → a + step ≤ max_int64 → add64 a step ≡ pos (a + step)
add64-small a step h = let small : leb (a + step) max_int64 ≡ true = ground arith in rw small refl

-- What the loop adds to the mask
abbrev Adds : ℕ → ℕ → ℕ → ℕ → Option ℕ → Type 0
Adds a hi step mask none = ⊥
Adds a hi step mask (some mask') =
    (v : ℕ) → v < 64 → has_bit mask' v ≡ (has_bit mask v || admits a hi step v)

or_assoc : (p q r : Bool) → ((p || q) || r) ≡ (p || (q || r))
or_assoc true q r = refl
or_assoc false q r = refl

or_false : (p : Bool) → (p || false) ≡ p
or_false true = refl
or_false false = refl

Adds-step :
    (a hi step mask : ℕ) (r : Option ℕ)
    → 1 ≤ step
    → a ≤ hi
    → hi < 64
    → Adds (a + step) hi step (bit_or mask (bit a)) r
    → Adds a hi step mask r
Adds-step a hi step mask none h le small adds = adds
Adds-step a hi step mask (some mask') h le small adds = λ v lt.
    adds v lt
    ∙ ap (λ b. b || admits (a + step) hi step v)
        (has_bit-bit_or mask a v (omega (arith, le, small)) lt)
    ∙ or_assoc (has_bit mask v) (a == v) (admits (a + step) hi step v)
    ∙ ap (λ b. has_bit mask v || b) (admits-step a hi step v h le)

range_loop-Adds :
    (fuel a hi step mask : ℕ)
    → 1 ≤ step
    → hi < 64
    → hi + step ≤ max_int64
    → hi + 1 - a < fuel
    → Adds a hi step mask (range_loop hi step fuel (pos a) mask)
unfolding range_loop
range_loop-Adds zero a hi step mask h small fits lt = absurd (omega (arith, lt))
range_loop-Adds (suc fuel) a hi step mask h small fits lt = elim (Bool-cases (leb a hi)) [
  | inr past ↦
      rw (range_loop, past)
        λ v lt'.
          let none_left : admits a hi step v ≡ false = ground arith in
          rw none_left (sym (or_false (has_bit mask v)))
  | inl within ↦
      let le : a ≤ hi = ground arith in
      rw (range_loop, within, add64-small a step (omega (arith, fits, le)))
        (Adds-step a hi step mask _ h le small (
          range_loop-Adds fuel (a + step) hi step (bit_or mask (bit a)) h small fits
            (omega (arith, lt, le, h))))
]

-- The mask has the bits that the bounds and the step admit, and no others.
abbrev pub Marks : ℕ → ℕ → ℕ → Option ℕ → Type 0
Marks lo hi step none = ⊥
Marks lo hi step (some mask) = (v : ℕ) → v < 64 → has_bit mask v ≡ admits lo hi step v

Marks-of_Adds : (lo hi step : ℕ) (r : Option ℕ) → Adds lo hi step 0 r → Marks lo hi step r
Marks-of_Adds lo hi step none adds = adds
Marks-of_Adds lo hi step (some mask) adds =
    λ v lt. adds v lt ∙ ap (λ b. b || admits lo hi step v) (has_bit-zero v lt)

-- rangeMask makes a mask whose bits are lo, lo + step, ... up to hi and no others, of bounds below 64
-- and a step from 1 on with which the int of its loop does not overflow. The fuel of the model's loop
-- does not run out.
pub range_mask-Marks :
    (lo hi step : ℕ)
    → 1 ≤ step
    → hi < 64
    → hi + step ≤ max_int64
    → Marks lo hi step (range_mask lo hi step)
unfolding range_mask
range_mask-Marks lo hi step h small fits =
    Marks-of_Adds lo hi step (range_loop hi step 256 (pos lo) 0)
      (range_loop-Adds 256 lo hi step 0 h small fits (omega (arith, small)))
