-- ===== src/EventBus/Crontab.antt =====
-- The schedules of eventbus/crontab.go. A field's mask is a uint64.
pub mod Calendar
pub mod Stamps
pub mod Digits
pub mod Field
pub mod Runs
pub mod Next
use Prim.Native.Nat.{bit_and}
use sakumock.EventBus.Crontab.Calendar.{
  Minute, weekday, stamp, next_month, next_day, next_hour, next_minute, add_years,
}
use sakumock.Prelude.{
  ℕ, zero, suc, ◌+◌, ◌-◌, ◌^◌, Bool, true, false, not, ◌&&◌, ◌||◌, Option, none, some, ltb, ◌==◌,
  if◌then◌else◌,
}

pub record Crontab : Type 0 where
  pub minute : ℕ
  pub hour : ℕ
  pub dom : ℕ
  pub month : ℕ
  pub dow : ℕ
  pub dom_star : Bool
  pub dow_star : Bool

-- 1 << v in a uint64
abbrev pub bit : ℕ → ℕ
bit v = if ltb v 64 then 2 ^ v else 0

unfoldable pub has_bit : ℕ → ℕ → Bool
has_bit mask v = not (bit_and mask (bit v) == 0)

unfoldable pub day_matches : Crontab → Minute → Bool
unfolding has_bit
day_matches c t =
    let dom_ok = has_bit c.dom t.day in
    let dow_ok = has_bit c.dow (weekday t) in
    if c.dom_star then dow_ok else if c.dow_star then dom_ok else dom_ok || dow_ok

unfoldable pub matches : Crontab → Minute → Bool
matches c t =
    if not (has_bit c.minute t.minute)
      || not (has_bit c.hour t.hour)
      || not (has_bit c.month t.month)
    then false
    else day_matches c t

-- What the loop of Next comes to
pub data Search : Type 0 where
  found : Minute → Search
  -- The zero time
  never : Search
  out_of_fuel : Search

-- The loop of Next, at `cur`
unfoldable pub next_loop : Crontab → Minute → ℕ → Minute → Search
next_loop c limit zero cur = out_of_fuel
next_loop c limit (suc fuel) cur = elim (ltb (stamp cur) (stamp limit)) [
  | false ↦ never
  | true ↦ elim (has_bit c.month cur.month) [
    | false ↦ next_loop c limit fuel (next_month cur)
    | true ↦ elim (day_matches c cur) [
      | false ↦ next_loop c limit fuel (next_day cur)
      | true ↦ elim (has_bit c.hour cur.hour) [
        | false ↦ next_loop c limit fuel (next_hour cur)
        | true ↦ elim (has_bit c.minute cur.minute) [
          | false ↦ next_loop c limit fuel (next_minute cur)
          | true ↦ found cur
        ]
      ]
    ]
  ]
]

-- Next. Each turn of the loop goes on by a minute at least.
unfoldable pub next : Crontab → Minute → Search
unfolding next_loop
next c t =
    let cur = next_minute t in
    let limit = add_years 5 cur in next_loop c limit (suc (stamp limit - stamp cur)) cur
