-- ===== src/EventBus/Crontab/Field/Overflow.antt =====
-- What rangeMask of eventbus/crontab.go does when the int of its loop overflows.
use Prim.Native.Nat.{bit_or}
use mathlib.Core.Path.{subst}
use sakumock.EventBus.Crontab.{bit, has_bit}
use sakumock.EventBus.Crontab.Digits.{has_bit-bit_or, has_bit-bit_or-zero}
use sakumock.EventBus.Crontab.Field.{step64, range_loop, range_mask}
use sakumock.Prelude.{
  ℕ, zero, suc, ◌+◌, ◌-◌, ◌*◌, ◌^◌, ◌≤◌, ◌<◌, ◌≡◌, refl, sym, ap, ◌∙◌, ◌⊎◌, Bool, true, false, ◌||◌,
  Option, none, some, ltb, leb, ◌==◌, ==_iff, arith, ltb→lt, Bool-cases, inl, inr, pos, negsuc,
  max_int64,
}

-- The mask has the bit.
abbrev pub Has : ℕ → Option ℕ → Type 0
Has v none = ⊥
Has v (some mask) = has_bit mask v ≡ true

or_true : (p : Bool) → (p || true) ≡ true
or_true true = refl
or_true false = refl

-- A bit that the loop has set, or sets
has_bit-keeps :
    (mask w v : ℕ)
    → w < 64
    → v < 64
    → has_bit mask v ≡ true
    → has_bit (bit_or mask (bit w)) v ≡ true
has_bit-keeps mask w v hw hv h = has_bit-bit_or mask w v hw hv ∙ ap (λ b. b || (w == v)) h

has_bit-sets : (mask v : ℕ) → v < 64 → has_bit (bit_or mask (bit v)) v ≡ true
has_bit-sets mask v h =
    has_bit-bit_or mask v v h h
    ∙ ap (λ b. has_bit mask v || b) ((==_iff v v).1 refl)
    ∙ or_true (has_bit mask v)

module _ (hi step : ℕ) (small : hi < 64) (large : max_int64 < hi + step)
    (most : step ≤ max_int64) where
  -- From a number that is not negative the next step leads past hi, or below 0.
  step64-overflow :
      (a : ℕ)
      → a ≤ hi
      → (max_int64 < a + step) × (step64 (pos a) step ≡ negsuc (2 ^ 64 - 1 - (a + step)))
        ⊎ (a + step ≤ max_int64) × (step64 (pos a) step ≡ pos (a + step))
  step64-overflow a h = elim (Bool-cases (leb (a + step) max_int64)) [
    | inl fits ↦ inr (ground arith, rw fits refl)
    | inr over ↦ inl (ground arith, rw over refl)
  ]

  -- A turn at a number up to hi
  range_loop-turn :
      (fuel a mask : ℕ)
      → a ≤ hi
      → range_loop hi step (suc fuel) (pos a) mask
        ≡ range_loop hi step fuel (step64 (pos a) step) (bit_or mask (bit a))
  unfolding range_loop
  range_loop-turn fuel a mask h =
      let within : leb a hi ≡ true = ground arith in rw (range_loop, within) refl

  range_loop-end :
      (fuel a mask : ℕ) → hi < a → range_loop hi step (suc fuel) (pos a) mask ≡ some mask
  unfolding range_loop
  range_loop-end fuel a mask h =
      let past : leb a hi ≡ false = ground arith in rw (range_loop, past) refl

  -- A turn below 0
  range_loop-below :
      (fuel b mask : ℕ)
      → range_loop hi step (suc fuel) (negsuc b) mask
        ≡ range_loop hi step fuel (step64 (negsuc b) step) (bit_or mask 0)
  unfolding range_loop
  range_loop-below fuel b mask = refl

  step64-up : (b : ℕ) → b < step → step64 (negsuc b) step ≡ pos (step - suc b)
  step64-up b h = let up : ltb b step ≡ true = ground arith in rw up refl

  step64-down : (b : ℕ) → step ≤ b → step64 (negsuc b) step ≡ negsuc (b - step)
  step64-down b h = let down : ltb b step ≡ false = ground arith in rw down refl

  -- Two turns, of which the first overflows
  range_loop-overflows :
      (fuel a mask : ℕ)
      → a ≤ hi
      → step64 (pos a) step ≡ negsuc (2 ^ 64 - 1 - (a + step))
      → range_loop hi step (suc (suc fuel)) (pos a) mask
        ≡ range_loop hi step fuel
            (step64 (negsuc (2 ^ 64 - 1 - (a + step))) step)
            (bit_or (bit_or mask (bit a)) 0)
  range_loop-overflows fuel a mask h e =
      range_loop-turn (suc fuel) a mask h
      ∙ ap (λ z. range_loop hi step (suc fuel) z (bit_or mask (bit a))) e
      ∙ range_loop-below fuel (2 ^ 64 - 1 - (a + step)) (bit_or mask (bit a))

  step64-over :
      (a : ℕ) → max_int64 < a + step → step64 (pos a) step ≡ negsuc (2 ^ 64 - 1 - (a + step))
  step64-over a h = let over : leb (a + step) max_int64 ≡ false = ground arith in rw over refl

  -- The loop keeps a bit that it has set.
  range_loop-Has :
      (fuel a mask v : ℕ)
      → 2 * a + 5 ≤ fuel
      → a ≤ hi
      → v < 64
      → has_bit (bit_or mask (bit a)) v ≡ true
      → Has v (range_loop hi step fuel (pos a) mask)
  range_loop-Has zero a mask v enough h hv set = absurd (omega (arith, enough))
  range_loop-Has (suc zero) a mask v enough h hv set = absurd (omega (arith, enough))
  range_loop-Has (suc (suc zero)) a mask v enough h hv set = absurd (omega (arith, enough))
  range_loop-Has (suc (suc (suc zero))) a mask v enough h hv set = absurd (omega (arith, enough))
  range_loop-Has (suc (suc (suc (suc fuel)))) a mask v enough h hv set =
      let mask₁ = bit_or mask (bit a) in
      elim (step64-overflow a h) [
        | inr (fits, e) ↦
            rw
              (
                range_loop-turn (suc (suc (suc fuel))) a mask h,
                e,
                range_loop-end (suc (suc fuel)) (a + step) mask₁ (omega (arith, fits, large)),
              )
              set
        | inl (over, e) ↦
            let b = 2 ^ 64 - 1 - (a + step) in
            let mask₂ = bit_or mask₁ 0 in
            let kept : has_bit mask₂ v ≡ true = has_bit-bit_or-zero mask₁ v hv ∙ set in
            let start = range_loop-overflows (suc (suc fuel)) a mask h e in
            elim (Bool-cases (ltb b step)) [
              | inl up ↦
                  let lt : b < step = ltb→lt b step up in
                  let a' = step - suc b in
                  let lower : a' + 2 ≤ a = omega (arith, over, most, lt) in
                  subst (λ r. Has v r)
                    (sym (
                      start
                      ∙ ap (λ z. range_loop hi step (suc (suc fuel)) z mask₂) (step64-up b lt)))
                    (range_loop-Has (suc (suc fuel)) a' mask₂ v (omega (arith, enough, lower))
                      (omega (arith, h, lower)) hv
                      (has_bit-keeps mask₂ a' v (omega (arith, h, lower, small)) hv kept))
              | inr down ↦
                  let le : step ≤ b = ground arith in
                  let b' = b - step in
                  let mask₃ = bit_or mask₂ 0 in
                  let lt : b' < step = omega (arith, large, over, small, h) in
                  let past : hi < step - suc b' = omega (arith, large, over, small, h, lt) in
                  subst (λ r. Has v r)
                    (sym (
                      start
                      ∙ ap (λ z. range_loop hi step (suc (suc fuel)) z mask₂) (step64-down b le)
                      ∙ range_loop-below (suc fuel) b' mask₂
                      ∙ ap (λ z. range_loop hi step (suc fuel) z mask₃) (step64-up b' lt)
                      ∙ range_loop-end fuel (step - suc b') mask₃ past))
                    (has_bit-bit_or-zero mask₂ v hv ∙ kept)
            ]
      ]

  -- The loop never runs out of fuel, with the bit of the first number set.
  pub range_mask-Has_first : (lo : ℕ) → lo ≤ hi → Has lo (range_mask lo hi step)
  unfolding range_mask
  range_mask-Has_first lo h =
      range_loop-Has 256 lo 0 lo (omega (arith, h, small)) h (omega (arith, h, small))
        (has_bit-sets 0 lo (omega (arith, h, small)))

  -- rangeMask marks a number below the range, of bounds below 64, when the step is so large that the
  -- int of its loop overflows: with the step 2^63 - d it marks lo - 2d, if lo is 2d at least.
  pub range_mask-Has_below :
      (lo d : ℕ)
      → lo ≤ hi
      → step + d ≡ 2 ^ 63
      → 2 * d ≤ lo
      → Has (lo - 2 * d) (range_mask lo hi step)
  unfolding range_mask
  range_mask-Has_below lo d h exact fits =
      let b = 2 ^ 64 - 1 - (lo + step) in
      let mask = bit_or (bit_or 0 (bit lo)) 0 in
      let over : max_int64 < lo + step = omega (arith, exact, fits, most) in
      let overflows : step64 (pos lo) step ≡ negsuc b = step64-over lo over in
      let lt : b < step = omega (arith, exact, fits, most) in
      let same : step - suc b ≡ lo - 2 * d = omega (arith, exact, fits, most) in
      let lt' : lo - 2 * d < 64 = omega (arith, h, small) in
      subst (λ r. Has (lo - 2 * d) r)
        (sym (
          range_loop-overflows 254 lo 0 h overflows
          ∙ ap (λ z. range_loop hi step 254 z mask) (step64-up b lt)
          ∙ ap (λ a. range_loop hi step 254 (pos a) mask) same))
        (range_loop-Has 254 (lo - 2 * d) mask (lo - 2 * d) (omega (arith, lt')) (omega (arith, h))
          lt' (has_bit-sets mask (lo - 2 * d) lt'))
