-- ===== src/Core/Fault/Bands.antt =====
-- Which fault a request meets, for the specs of core/fault.go.
use sakumock.Core.Fault.Rates.{parse_spec-positive}
use sakumock.Core.Fault.{
  Floats, FaultRule, FaultError, rates_above_one, FaultInjector, WriterCall, HandlerFunc,
  parse_spec, parse_rules, parse_fault_specs, inject, select, middleware,
}
use sakumock.Prelude.{
  ℕ, ◌≡◌, refl, sym, ◌∙◌, String, List, [], ◌∷◌, ◌++◌, Bool, true, false, Option, some, Result, ok,
  err, bind, Result-cases, Bool-cases, arith, inl, inr, All, if◌then◌else◌,
}

-- What the order and the sum of float64 numbers satisfy: a number that is not at most zero lies above
-- it, unless it is NaN, and adding such a number leaves less below no longer.
pub record IsOrdered {Float : Type 0} (float : Floats Float) (is_nan : Float → Bool) : Type 0 where
  pub positive :
      (r : Float) → is_nan r ≡ false → float.le r float.zero ≡ false → float.lt float.zero r ≡ true
  pub below_sum :
      (x c r : Float)
      → float.lt float.zero r ≡ true
      → float.lt x c ≡ true
      → float.lt x (float.add c r) ≡ true

module _ {Float : Type 0} (float : Floats Float) where
  parse_rules-wrong :
      (spec : String) (specs : List String) (sum : Float) (e : FaultError Float)
      → parse_spec float spec ≡ err e
      → parse_rules float sum (spec ∷ specs) ≡ err e
  unfolding parse_rules
  parse_rules-wrong spec specs sum e wrong = rw (parse_rules, wrong) refl

  rules_kept :
      (parsed : Result (FaultError Float) (Float × List (FaultRule Float)))
      (err_write : ℕ → String → List WriterCall) (fi : FaultInjector Float)
      → bind {B = Option (FaultInjector Float)} parsed (λ (sum, rules).
        if float.lt float.greatest_sum sum
        then err (rates_above_one sum)
        else ok (some (record { rules = rules; err_write = err_write })))
        ≡ ok (some fi)
      → (total : Float) × (parsed ≡ ok (total, fi.rules))
  rules_kept (err e) err_write fi h = grind arith
  rules_kept (ok (sum, rules)) err_write fi h =
      elim (Bool-cases (float.lt float.greatest_sum sum)) [
        | inl above ↦ grind arith
        | inr within ↦ (sum, grind arith)
      ]

  -- The rules that ParseFaultSpecs accepts are those of its loop.
  parse_fault_specs-rules :
      (err_write : ℕ → String → List WriterCall) (specs : List String) (fi : FaultInjector Float)
      → parse_fault_specs float err_write specs ≡ ok (some fi)
      → (total : Float) × (parse_rules float float.zero specs ≡ ok (total, fi.rules))
  unfolding parse_fault_specs
  parse_fault_specs-rules err_write [] fi e = grind arith
  parse_fault_specs-rules err_write (spec ∷ specs) fi e =
      rules_kept (parse_rules float float.zero (spec ∷ specs)) err_write fi e

  -- The sum of the rates of specs, from `sum`
  unfoldable pub sum_of_rates : Float → List String → Float
  sum_of_rates sum [] = sum
  sum_of_rates sum (spec ∷ specs) = elim (parse_spec float spec) [
    | err e ↦ sum_of_rates sum specs
    | ok (status, rate, after) ↦ sum_of_rates (float.add sum rate) specs
  ]

  sum_of_rates-first :
      (spec : String) (specs : List String) (sum : Float) (status : ℕ) (rate : Float) (after : Bool)
      → parse_spec float spec ≡ ok (status, rate, after)
      → sum_of_rates sum (spec ∷ specs) ≡ sum_of_rates (float.add sum rate) specs
  unfolding sum_of_rates
  sum_of_rates-first spec specs sum status rate after right = rw (sum_of_rates, right) refl

  -- The rate of the spec, where it has one, is not NaN.
  unfoldable pub IsNumber : (Float → Bool) → String → Type 0
  IsNumber is_nan spec =
      (status : ℕ) (rate : Float) (after : Bool)
      → parse_spec float spec ≡ ok (status, rate, after)
      → is_nan rate ≡ false

  rules_after :
      (rest : Result (FaultError Float) (Float × List (FaultRule Float))) (rule : FaultRule Float)
      (total : Float) (rules : List (FaultRule Float))
      → bind {B = Float × List (FaultRule Float)} rest (λ (total, rules). ok (total, rule ∷ rules))
        ≡ ok (total, rules)
      → (others : List (FaultRule Float)) × (rest ≡ ok (total, others)) × (rules ≡ rule ∷ others)
  rules_after (err e) rule total rules h = grind arith
  rules_after (ok (total', others)) rule total rules h = (others, grind arith, grind arith)

  parse_rules-first :
      (spec : String) (specs : List String) (sum total : Float) (rules : List (FaultRule Float))
      (status : ℕ) (rate : Float) (after : Bool)
      → parse_rules float sum (spec ∷ specs) ≡ ok (total, rules)
      → parse_spec float spec ≡ ok (status, rate, after)
      → (others : List (FaultRule Float)) × (parse_rules float (float.add sum rate) specs
          ≡ ok (total, others))
        × (rules ≡ record { status = status; after = after; cum = float.add sum rate } ∷ others)
  unfolding parse_rules
  parse_rules-first spec specs sum total rules status rate after e right =
      rules_after (parse_rules float (float.add sum rate) specs)
        (record { status = status; after = after; cum = float.add sum rate }) total rules
        (sym (rw right refl) ∙ e)

  module _ (is_nan : Float → Bool) (ordered : IsOrdered float is_nan) where
    rates_raise_sum :
        (specs : List String) (roll sum : Float)
        → All (IsNumber is_nan) specs
        → float.lt roll sum ≡ true
        → float.lt roll (sum_of_rates sum specs) ≡ true
    unfolding sum_of_rates IsNumber
    rates_raise_sum [] roll sum numbers below = below
    rates_raise_sum (spec ∷ specs) roll sum (number, numbers) below =
        elim (Result-cases (parse_spec float spec)) [
          | inl (e, wrong) ↦ rw (sum_of_rates, wrong) (rates_raise_sum specs roll sum numbers below)
          | inr ((status, rate, after), right) ↦
              rw (sum_of_rates, right)
                (rates_raise_sum specs roll (float.add sum rate) numbers (
                  ordered.below_sum roll sum rate
                    (ordered.positive rate (number status rate after right)
                      (parse_spec-positive float spec status rate after right))
                    below))
        ]

    rates_stay_below :
        (specs : List String) (roll sum low : Float)
        → All (IsNumber is_nan) specs
        → sum_of_rates sum specs ≡ low
        → float.lt roll low ≡ false
        → float.lt roll sum ≡ false
    rates_stay_below specs roll sum low numbers e above = elim (Bool-cases (float.lt roll sum)) [
      | inl below ↦ let h = rates_raise_sum specs roll sum numbers below in cc
      | inr other ↦ other
    ]

    -- The rule that a request meets is the one whose band the roll is in.
    select-in_band :
        (before specs : List String) (spec : String) (roll sum low total : Float)
        (rules : List (FaultRule Float)) (status : ℕ) (rate : Float) (after : Bool)
        → All (IsNumber is_nan) before
        → parse_rules float sum (before ++ (spec ∷ specs)) ≡ ok (total, rules)
        → parse_spec float spec ≡ ok (status, rate, after)
        → sum_of_rates sum before ≡ low
        → float.lt roll low ≡ false
        → float.lt roll (float.add low rate) ≡ true
        → select float roll rules
          ≡ some (record { status = status; after = after; cum = float.add low rate })
    unfolding sum_of_rates select
    select-in_band [] specs spec roll sum low total rules status rate after numbers e right reached
          above below =
        let (others, e', shape) =
          parse_rules-first spec specs sum total rules status rate after e right in
        rw (shape, reached, select, below) refl
    select-in_band (first ∷ before) specs spec roll sum low total rules status rate after
          (number, numbers) e right reached above below =
        elim (Result-cases (parse_spec float first)) [
          | inl (e', wrong) ↦
              let failed = parse_rules-wrong first (before ++ (spec ∷ specs)) sum e' wrong in
              grind arith
          | inr ((status', rate', after'), right') ↦
              let (others, rest, shape) =
                parse_rules-first first (before ++ (spec ∷ specs)) sum total rules status' rate'
                  after' e right' in
              let reached' =
                sym (sum_of_rates-first first before sum status' rate' after' right') ∙ reached in
              let passed =
                rates_stay_below before roll (float.add sum rate') low numbers reached' above in
              rw (shape, select, passed)
                (select-in_band before specs spec roll (float.add sum rate') low total others status
                  rate after numbers rest right reached' above below)
        ]

module _ {Float S : Type 0} (float : Floats Float) (is_nan : Float → Bool)
    (ordered : IsOrdered float is_nan) where
  -- A request meets the fault of a spec when its roll is at least the sum of the rates of the specs
  -- before it and below that sum with its own rate, whatever the other specs are, as long as no spec
  -- before it has the rate NaN.
  pub middleware-injects :
      (err_write : ℕ → String → List WriterCall) (before specs : List String) (spec : String)
      (fi : FaultInjector Float) (status : ℕ) (rate : Float) (after : Bool) (next : HandlerFunc S)
      (roll : Float) (s : S)
      → parse_fault_specs float err_write (before ++ (spec ∷ specs)) ≡ ok (some fi)
      → parse_spec float spec ≡ ok (status, rate, after)
      → All (IsNumber float is_nan) before
      → float.lt roll (sum_of_rates float float.zero before) ≡ false
      → float.lt roll (float.add (sum_of_rates float float.zero before) rate) ≡ true
      → middleware float (some fi) next roll s
        ≡ inject fi
            (record {
              status = status;
              after = after;
              cum = float.add (sum_of_rates float float.zero before) rate;
            })
            next
            s
  unfolding middleware
  middleware-injects err_write before specs spec fi status rate after next roll s accepted right
        numbers above below =
      let (total, e) =
        parse_fault_specs-rules float err_write (before ++ (spec ∷ specs)) fi accepted in
      rw
        (
          middleware,
          select-in_band float is_nan ordered before specs spec roll float.zero _ total fi.rules
              status rate after numbers e right refl above below,
        )
        refl
