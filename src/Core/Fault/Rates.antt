-- ===== src/Core/Fault/Rates.antt =====
-- The rates that ParseFaultSpecs of core/fault.go accepts.
use sakumock.Core.Fault.{
  Floats, wrong_code, wrong_rate, wrong_phase, parse_spec, rate_in_range, parse_parts, parse_shape,
  or_error, parse_code, parse_phase,
}
use sakumock.Prelude.{
  ℕ, ◌≡◌, String, List, [], ◌∷◌, Bool, false, Option, none, some, ok, bind, arith, split,
}

-- What three results in a row give, from the second
read_all-second :
    {E A B C : Type 0} (a : Option A) (b : Option B) (c : Option C) (e e' e'' : E) (x : A) (y : B)
    (z : C)
    → bind
        (or_error a e)
        (λ x. bind (or_error b e') λ y. bind {B = A × B × C} (or_error c e'') λ z. ok (x, y, z))
      ≡ ok (x, y, z)
    → b ≡ some y
unfolding or_error
read_all-second none b c e e' e'' x y z h = grind arith
read_all-second (some a) none c e e' e'' x y z h = grind arith
read_all-second (some a) (some b) none e e' e'' x y z h = grind arith
read_all-second (some a) (some b) (some c) e e' e'' x y z h = grind arith

module _ {Float : Type 0} (float : Floats Float) where
  rate_in_range-positive :
      (parsed : Option Float) (rate : Float)
      → rate_in_range float parsed ≡ some rate
      → float.le rate float.zero ≡ false
  unfolding rate_in_range
  rate_in_range-positive none rate e = grind arith
  rate_in_range-positive (some r) rate e = grind arith

  parse_parts-positive :
      (spec code text : String) (phase : Option String) (status : ℕ) (rate : Float) (after : Bool)
      → parse_parts float spec code text phase ≡ ok (status, rate, after)
      → float.le rate float.zero ≡ false
  unfolding parse_parts
  parse_parts-positive spec code text phase status rate after e =
      rate_in_range-positive (float.parse_float text) rate (
        read_all-second (parse_code code) (rate_in_range float (float.parse_float text))
          (parse_phase phase) (wrong_code spec) (wrong_rate spec) (wrong_phase spec) status rate
          after e)

  parse_shape-positive :
      (spec : String) (parts : List String) (status : ℕ) (rate : Float) (after : Bool)
      → parse_shape float spec parts ≡ ok (status, rate, after)
      → float.le rate float.zero ≡ false
  unfolding parse_shape
  parse_shape-positive spec [] status rate after e = grind arith
  parse_shape-positive spec (code ∷ []) status rate after e = grind arith
  parse_shape-positive spec (code ∷ text ∷ []) status rate after e =
      parse_parts-positive spec code text none status rate after e
  parse_shape-positive spec (code ∷ text ∷ phase ∷ []) status rate after e =
      parse_parts-positive spec code text (some phase) status rate after e
  parse_shape-positive spec (code ∷ text ∷ phase ∷ part ∷ parts) status rate after e = grind arith

  pub parse_spec-positive :
      (spec : String) (status : ℕ) (rate : Float) (after : Bool)
      → parse_spec float spec ≡ ok (status, rate, after)
      → float.le rate float.zero ≡ false
  unfolding parse_spec
  parse_spec-positive spec = parse_shape-positive spec (split b':' spec)
