-- ===== src/EventBus/Crontab/Field.antt =====
-- The parser of eventbus/crontab.go: ParseCrontab, and the fields with their masks.
pub mod Masks
pub mod Overflow
use Prim.Native.Char.{code}
use Prim.Native.Nat.{bit_or}
use sakumock.Core.Decimal.{parse_int}
use sakumock.EventBus.Crontab.{Crontab, bit}
use sakumock.Prelude.{
  ℕ, zero, suc, ◌+◌, ◌-◌, String, List, [], ◌∷◌, Bool, true, false, ◌&&◌, ◌||◌, Option, none, some,
  Result, ok, err, bind, ltb, leb, ◌==◌, str_eq, if◌then◌else◌, ℤ, pos, negsuc, leb_ℤ, add64, cut,
  split, fields,
}

pub data CrontabError : Type 0 where
  wrong_field_count invalid_step invalid_range range_reversed invalid_value : CrontabError
  step_after_value value_out_of_range : CrontabError
  -- The fuel of the loop of rangeMask has run out.
  out_of_fuel : CrontabError

-- v + step in an int64
abbrev pub step64 : ℤ → ℕ → ℤ
step64 (pos v) step = add64 v step
step64 (negsuc v) step = if ltb v step then pos (step - suc v) else negsuc (v - step)

-- 1 << uint(v) in a uint64
abbrev pub shifted : ℤ → ℕ
shifted (pos v) = bit v
shifted (negsuc v) = 0

-- The loop of rangeMask
unfoldable pub range_loop : ℕ → ℕ → ℕ → ℤ → ℕ → Option ℕ
range_loop hi step zero v mask = none
range_loop hi step (suc fuel) v mask =
    let rest = range_loop hi step fuel (step64 v step) (bit_or mask (shifted v)) in
    if leb_ℤ v (pos hi) then rest else some mask

-- rangeMask
unfoldable pub range_mask : ℕ → ℕ → ℕ → Option ℕ
unfolding range_loop
range_mask lo hi step = range_loop hi step 256 (pos lo) 0

pub all_digits : String → Bool
all_digits String.[] = true
all_digits (String.◌∷◌ c s) =
    let rest = all_digits s in leb b'0' (code c) && leb (code c) b'9' && rest

-- parseCrontabNumber
unfoldable pub parse_number : String → Option ℕ
unfolding all_digits parse_int
parse_number s =
    if str_eq s ""
    then none
    else if all_digits s
    then (elim (parse_int s) [ some (pos n) ↦ some n | _ ↦ none ])
    else none

-- The step of a part, which is 1 where there is none
unfoldable pub parse_step : Option String → Result CrontabError ℕ
unfolding parse_number
parse_step none = ok 1
parse_step (some s) = elim (parse_number s) [
  | none ↦ err invalid_step
  | some step ↦ if ltb step 1 then err invalid_step else ok step
]

-- The bounds of a part of the form a-b
unfoldable pub parse_range : String → String → Result CrontabError (ℕ × ℕ)
unfolding parse_number
parse_range lo_str hi_str = elim (parse_number lo_str) [
  | none ↦ err invalid_range
  | some lo ↦ elim (parse_number hi_str) [
    | none ↦ err invalid_range
    | some hi ↦ if ltb hi lo then err range_reversed else ok (lo, hi)
  ]
]

-- The bounds of a part that is a number
unfoldable pub parse_value : Bool → String → Result CrontabError (ℕ × ℕ)
unfolding parse_number
parse_value has_step base = elim (parse_number base) [
  | none ↦ err invalid_value
  | some lo ↦ if has_step then err step_after_value else ok (lo, lo)
]

unfoldable pub parse_base : ℕ → ℕ → Bool → String → Result CrontabError (ℕ × ℕ)
unfolding parse_range parse_value
parse_base min max has_step base =
    if str_eq base "*"
    then ok (min, max)
    else (let (lo_str, hi_str) = cut b'-' base in
        elim hi_str [ none ↦ parse_value has_step base | some hi ↦ parse_range lo_str hi ])

abbrev has : Option String → Bool
has none = false
has (some s) = true

-- A turn of the loop of parseCrontabField: the mask of a part
unfoldable pub parse_part : ℕ → ℕ → String → Result CrontabError ℕ
unfolding parse_step parse_base range_mask
parse_part min max part =
    let (base, step_str) = cut b'/' part in
    bind (parse_step step_str) λ step. bind (parse_base min max (has step_str) base) λ (lo, hi).
      if ltb lo min || ltb max hi
      then err value_out_of_range
      else (elim (range_mask lo hi step) [ none ↦ err out_of_fuel | some mask ↦ ok mask ])

unfoldable pub parse_parts : ℕ → ℕ → ℕ → List String → Result CrontabError ℕ
unfolding parse_part
parse_parts min max mask [] = ok mask
parse_parts min max mask (part ∷ parts) =
    bind (parse_part min max part) λ m. parse_parts min max (bit_or mask m) parts

-- parseCrontabField: the mask, and whether the field is the star
unfoldable pub parse_crontab_field : String → ℕ → ℕ → Result CrontabError (ℕ × Bool)
unfolding parse_parts
parse_crontab_field field min max =
    if str_eq field "*"
    then (elim (range_mask min max 1) [ none ↦ err out_of_fuel | some mask ↦ ok (mask, true) ])
    else (bind (parse_parts min max 0 (split b',' field)) λ mask. ok (mask, false))

-- ParseCrontab, of the five fields
unfoldable pub parse_fields : List String → Result CrontabError Crontab
unfolding parse_crontab_field
parse_fields (minute ∷ hour ∷ dom ∷ month ∷ dow ∷ []) =
    bind (parse_crontab_field minute 0 59) λ (minute_mask, _).
      bind (parse_crontab_field hour 0 23) λ (hour_mask, _).
        bind (parse_crontab_field dom 1 31) λ (dom_mask, dom_star).
          bind (parse_crontab_field month 1 12) λ (month_mask, _).
            bind (parse_crontab_field dow 0 6) λ (dow_mask, dow_star). ok (record {
              minute = minute_mask;
              hour = hour_mask;
              dom = dom_mask;
              month = month_mask;
              dow = dow_mask;
              dom_star = dom_star;
              dow_star = dow_star;
            })
parse_fields _ = err wrong_field_count

unfoldable pub parse_crontab : String → Result CrontabError Crontab
unfolding parse_fields
parse_crontab expr = parse_fields (fields expr)
