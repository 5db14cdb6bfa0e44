-- ===== src/Core/Tests.antt =====
-- The theorems on core/ at concrete inputs.
use sakumock.Core.Decimal.{format_int, parse_int}
use sakumock.Core.Fault.{
  Floats, FaultRule, FaultInjector, WriterCall, write_header, parse_spec, parse_rules,
  parse_fault_specs, inject, middleware,
}
use sakumock.Core.Fault.Bands.{IsOrdered, IsNumber, middleware-injects, sum_of_rates}
use sakumock.Core.IdGenerator.{IdGenerator, reserve, advance_to}
use sakumock.Core.IdGenerator.Calls.{Call, issued}
use sakumock.Core.IdGenerator.Calls.Freshness.{issued-Distinct, reserved-not-issued}
use sakumock.Core.Paging.{paginate, parse_page, invalid_count}
use sakumock.Core.Paging.Pages.{page, paginate-eq-page}
use sakumock.Dict
use sakumock.Prelude.{
  ℕ, ◌≡◌, ◌≢◌, refl, String, none, some, List, [], ◌∷◌, arith, ok, err, string_eq, pos, negsuc, All,
  Distinct, Bool, true, false, ltb, leb, str_eq, if◌then◌else◌, Option, suc, split, ◌+◌,
}

formatted : format_int (pos 900_000_000_042) ≡ "900000000042"
unfolding format_int
formatted = refl

parsed : parse_int "-042" ≡ some (negsuc 41)
unfolding parse_int
parsed = refl

too_large : parse_int "9223372036854775808" ≡ none
unfolding parse_int
too_large = refl

abbrev generator : IdGenerator
generator = record { next = pos 5; reserved = Dict.empty }

abbrev calls : List Call
calls = Call.next ∷ Call.reserve "7" "kms" ∷ Call.next ∷ Call.observe "3" ∷ Call.next ∷ []

issued-Distinct_example : Distinct (issued generator calls)
unfolding parse_int
issued-Distinct_example =
    issued-Distinct 10 calls generator 5 refl (omega arith) (omega arith) (omega arith)

reserved_7 : (reserve generator "7" "kms").1 ≡ none
unfolding reserve parse_int advance_to
reserved_7 = let free = Dict.get-empty {K = String} {V = String} "7" in ground arith

reserved-not-issued_example :
    All (λ id. parse_int "7" ≢ parse_int id) (issued (reserve generator "7" "kms").0 calls)
unfolding parse_int
reserved-not-issued_example =
    reserved-not-issued 10 calls generator 5 "7" "kms" refl (omega arith) (omega arith)
      (omega arith) (omega arith) reserved_7

abbrev items : List ℕ
items = 10 ∷ 20 ∷ 30 ∷ []

paginate-eq-page_example :
    paginate items (record { from = 1; count = 1 })
    ≡ some (page items (record { from = 1; count = 1 }))
paginate-eq-page_example = paginate-eq-page items (record { from = 1; count = 1 }) (omega arith)

page_parameters : parse_page "" "2" ≡ ok (record { from = 0; count = 2 })
unfolding parse_page parse_int
page_parameters = refl

page_negative : parse_page "1" "-2" ≡ err invalid_count
unfolding parse_page parse_int
page_negative = refl

-- Thousandths, with NaN as `none`
abbrev Thousandths : Type 0
Thousandths = Option ℕ

abbrev add_thousandths : Thousandths → Thousandths → Thousandths
add_thousandths none y = none
add_thousandths (some x) none = none
add_thousandths (some x) (some y) = some (x + y)

abbrev lt_thousandths : Thousandths → Thousandths → Bool
lt_thousandths none y = false
lt_thousandths (some x) none = false
lt_thousandths (some x) (some y) = ltb x y

abbrev le_thousandths : Thousandths → Thousandths → Bool
le_thousandths none y = false
le_thousandths (some x) none = false
le_thousandths (some x) (some y) = leb x y

abbrev parse_thousandths : String → Option Thousandths
parse_thousandths text =
    if str_eq text "0.3"
    then some (some 300)
    else if str_eq text "0.5"
    then some (some 500)
    else if str_eq text "NaN"
    then some none
    else none

abbrev thousandths : Floats Thousandths
thousandths = record {
  zero = some 0;
  one = some 1000;
  greatest_sum = some 1000;
  add = add_thousandths;
  lt = lt_thousandths;
  le = le_thousandths;
  parse_float = parse_thousandths;
}

abbrev is_nan : Thousandths → Bool
is_nan none = true
is_nan (some x) = false

thousandths-positive :
    (r : Thousandths)
    → is_nan r ≡ false
    → le_thousandths r (some 0) ≡ false
    → lt_thousandths (some 0) r ≡ true
thousandths-positive none number e = grind arith
thousandths-positive (some r) number e = grind arith

thousandths-below_sum :
    (x c r : Thousandths)
    → lt_thousandths (some 0) r ≡ true
    → lt_thousandths x c ≡ true
    → lt_thousandths x (add_thousandths c r) ≡ true
thousandths-below_sum none c r positive below = grind arith
thousandths-below_sum (some x) none r positive below = grind arith
thousandths-below_sum (some x) (some c) none positive below = grind arith
thousandths-below_sum (some x) (some c) (some r) positive below = ground arith

abbrev thousandths-IsOrdered : IsOrdered thousandths is_nan
thousandths-IsOrdered = record {
  positive = thousandths-positive;
  below_sum = thousandths-below_sum;
}

abbrev write_status : ℕ → String → List WriterCall
write_status status message = write_header status ∷ []

abbrev first_rule : FaultRule Thousandths
first_rule = record { status = 503; after = false; cum = some 300 }

abbrev second_rule : FaultRule Thousandths
second_rule = record { status = 0; after = true; cum = some 800 }

abbrev injector : FaultInjector Thousandths
injector = record { rules = first_rule ∷ second_rule ∷ []; err_write = write_status }

parsed_specs :
    parse_fault_specs thousandths write_status ("503:0.3" ∷ "reset:0.5:after" ∷ [])
    ≡ ok (some injector)
unfolding parse_fault_specs parse_int parse_rules parse_spec split
parsed_specs = refl

-- A rate may be NaN, and no sum of rates is then too large.
nan_accepted :
    parse_fault_specs thousandths write_status ("503:NaN" ∷ "500:0.5" ∷ "501:0.5" ∷ "502:0.5" ∷ [])
    ≡ ok (
        some (record {
          rules =
              record { status = 503; after = false; cum = none }
              ∷ record { status = 500; after = false; cum = none }
              ∷ record { status = 501; after = false; cum = none }
              ∷ record { status = 502; after = false; cum = none }
              ∷ [];
          err_write = write_status;
        }))
unfolding parse_fault_specs parse_int parse_rules parse_spec split
nan_accepted = refl

first_IsNumber : IsNumber thousandths is_nan "503:0.3"
unfolding IsNumber parse_spec parse_int split
first_IsNumber status rate after e = grind arith

-- The second fault, after the handler has counted the request
middleware-injects_example :
    middleware thousandths
      (some injector)
      (λ (count : ℕ). (suc count, write_header 201 ∷ []))
      (some 400)
      7
    ≡ inject injector second_rule (λ (count : ℕ). (suc count, write_header 201 ∷ [])) 7
unfolding parse_spec parse_int split sum_of_rates
middleware-injects_example =
    middleware-injects thousandths is_nan thousandths-IsOrdered write_status ("503:0.3" ∷ []) []
      "reset:0.5:after" injector 0 (some 500) true
      (λ (count : ℕ). (suc count, write_header 201 ∷ [])) (some 400) 7 parsed_specs refl
      (first_IsNumber, tt) refl refl
