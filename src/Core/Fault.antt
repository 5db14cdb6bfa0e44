-- ===== src/Core/Fault.antt =====
-- core/fault.go: fault specs and the injection of faults into requests. What Go computes of float64
-- numbers, and strconv.ParseFloat, are parameters, and so is the random number that a request draws.
-- The attributes of spans and the closing of a connection are not modelled.
mod Rates
pub mod Bands
use Prim.Native.String.{◌++◌}
use sakumock.Core.Decimal.{format_int, parse_int}
use sakumock.Prelude.{
  ℕ, String, List, [], ◌∷◌, Bool, true, false, ◌||◌, Option, none, some, Result, ok, err, bind, ltb,
  ◌==◌, str_eq, split, if◌then◌else◌, ℤ, pos, negsuc,
}

-- Go's float64, as the rates use it
pub record Floats (Float : Type 0) : Type 0 where
  pub zero : Float
  pub one : Float
  -- 1 + faultRateEpsilon
  pub greatest_sum : Float
  pub add : Float → Float → Float
  pub lt : Float → Float → Bool
  pub le : Float → Float → Bool
  -- strconv.ParseFloat
  pub parse_float : String → Option Float

pub record FaultRule (Float : Type 0) : Type 0 where
  -- 0 drops the connection.
  pub status : ℕ
  pub after : Bool
  pub cum : Float

-- The errors of ParseFaultSpecs, with the spec or the sum that they print
pub data FaultError (Float : Type 0) : Type 0 where
  wrong_shape wrong_code wrong_rate wrong_phase : String → FaultError Float
  rates_above_one : Float → FaultError Float

-- What is done to an http.ResponseWriter
pub data WriterCall : Type 0 where
  write_header : ℕ → WriterCall
  write : String → WriterCall

-- `err_write` is the FaultErrorWriter that the options leave.
pub record FaultInjector (Float : Type 0) : Type 0 where
  pub rules : List (FaultRule Float)
  pub err_write : ℕ → String → List WriterCall

or_error : {A E : Type 0} → Option A → E → Result E A
or_error none e = err e
or_error (some a) e = ok a

status_in_range : Option ℤ → Option ℕ
status_in_range none = none
status_in_range (some (negsuc n)) = none
status_in_range (some (pos n)) = if ltb n 200 || ltb 599 n then none else some n

parse_code : String → Option ℕ
unfolding status_in_range
parse_code code = if str_eq code "reset" then some 0 else status_in_range (parse_int code)

-- The third part of a spec, where there is one
parse_phase : Option String → Option Bool
parse_phase none = some false
parse_phase (some phase) =
    if str_eq phase "before" then some false else if str_eq phase "after" then some true else none

module _ {Float : Type 0} (float : Floats Float) where
  rate_in_range : Option Float → Option Float
  rate_in_range none = none
  rate_in_range (some rate) =
      if float.le rate float.zero || float.lt float.one rate then none else some rate

  -- The status, the rate and the phase of a spec with its parts
  parse_parts :
      String → String → String → Option String → Result (FaultError Float) (ℕ × Float × Bool)
  unfolding or_error
  parse_parts spec code rate phase = bind (or_error (parse_code code) (wrong_code spec)) λ status.
      bind (or_error (rate_in_range (float.parse_float rate)) (wrong_rate spec)) λ rate.
        bind (or_error (parse_phase phase) (wrong_phase spec)) λ after. ok (status, rate, after)

  parse_shape : String → List String → Result (FaultError Float) (ℕ × Float × Bool)
  unfolding parse_parts
  parse_shape spec (code ∷ rate ∷ []) = parse_parts spec code rate none
  parse_shape spec (code ∷ rate ∷ phase ∷ []) = parse_parts spec code rate (some phase)
  parse_shape spec _ = err (wrong_shape spec)

  -- The body of the loop of ParseFaultSpecs, up to the sum
  unfoldable pub parse_spec : String → Result (FaultError Float) (ℕ × Float × Bool)
  unfolding parse_shape parse_code rate_in_range parse_phase
  parse_spec spec = parse_shape spec (split b':' spec)

  -- The loop, from the sum of the rates before it: the sum after it, and its rules
  unfoldable pub parse_rules :
      Float → List String → Result (FaultError Float) (Float × List (FaultRule Float))
  parse_rules sum [] = ok (sum, [])
  parse_rules sum (spec ∷ specs) = bind (parse_spec spec) λ (status, rate, after).
      bind (parse_rules (float.add sum rate) specs) λ (total, rules).
        ok (total, record { status = status; after = after; cum = float.add sum rate } ∷ rules)

  -- ParseFaultSpecs
  unfoldable pub parse_fault_specs :
      (ℕ → String → List WriterCall)
      → List String
      → Result (FaultError Float) (Option (FaultInjector Float))
  parse_fault_specs err_write [] = ok none
  parse_fault_specs err_write (spec ∷ specs) =
      bind (parse_rules float.zero (spec ∷ specs)) λ (sum, rules).
        if float.lt float.greatest_sum sum
        then err (rates_above_one sum)
        else ok (some (record { rules = rules; err_write = err_write }))

-- discardResponseWriter, without its header
pub record DiscardResponseWriter : Type 0 where
  pub status : ℕ
  pub wrote : Bool

discard : DiscardResponseWriter → WriterCall → DiscardResponseWriter
discard d (write_header code) = if d.wrote then d else record { status = code; wrote = true }
discard d (write b) = record d { wrote = true }

discard_all : DiscardResponseWriter → List WriterCall → DiscardResponseWriter
unfolding discard
discard_all d [] = d
discard_all d (call ∷ calls) = discard_all (discard d call) calls

-- What the client gets: a response, or a connection that is dropped for a reason
pub data Outcome : Type 0 where
  response : List WriterCall → Outcome
  dropped : String → Outcome

-- An http.HandlerFunc over the state of a service
abbrev pub HandlerFunc : Type 0 → Type 0
HandlerFunc S = S → S × List WriterCall

-- The part of inject that runs the handler, and the suffix
run_first : {S : Type 0} → Bool → HandlerFunc S → S → S × String
unfolding discard_all
run_first false next s = (s, "")
run_first true next s =
    let (s', calls) = next s in
    let d = discard_all (record { status = 200; wrote = false }) calls in
    (s', " (replaced status " ++ format_int (pos d.status) ++ ")")

-- The loop of Middleware: the rule that the request meets
unfoldable pub select :
    {Float : Type 0} → Floats Float → Float → List (FaultRule Float) → Option (FaultRule Float)
select float roll [] = none
select float roll (rule ∷ rules) =
    let rest = select float roll rules in if float.lt roll rule.cum then some rule else rest

module _ {Float S : Type 0} where
  unfoldable pub inject : FaultInjector Float → FaultRule Float → HandlerFunc S → S → S × Outcome
  unfolding run_first
  inject fi rule next s =
      let (s', suffix) = run_first rule.after next s in
      if rule.status == 0
      then (s', dropped ("fault injection: connection reset" ++ suffix))
      else (s', response (fi.err_write rule.status ("fault injection" ++ suffix)))

  -- Middleware, on a request that draws `roll`
  unfoldable pub middleware :
      Floats Float → Option (FaultInjector Float) → HandlerFunc S → Float → S → S × Outcome
  middleware float none next roll s = let (s', calls) = next s in (s', response calls)
  middleware float (some fi) next roll s =
      let (s', calls) = next s in
      elim (select float roll fi.rules) [
        | none ↦ (s', response calls)
        | some rule ↦ inject fi rule next s
      ]
