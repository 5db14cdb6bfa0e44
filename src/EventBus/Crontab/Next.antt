-- ===== src/EventBus/Crontab/Next.antt =====
-- Next of eventbus/crontab.go finds the first minute at which a schedule fires.
use sakumock.EventBus.Crontab.Calendar.{
  Minute, days_in_month, weekday, stamp, next_month, next_day, next_hour, next_minute, add_years,
  IsMinute,
}
use sakumock.EventBus.Crontab.{
  Crontab, has_bit, day_matches, matches, Search, found, never, out_of_fuel, next_loop, next,
}
use sakumock.EventBus.Crontab.Stamps.{
  next_month-IsMinute, next_day-IsMinute, next_hour-IsMinute, next_minute-IsMinute,
  next_minute-stamp, next_hour-later, next_day-later, next_month-later,
}
use sakumock.EventBus.Crontab.Runs.{Run, Run-append, next_month-Run, next_day-Run, next_hour-Run}
use sakumock.Prelude.{
  ℕ, zero, suc, ◌-◌, ◌≤◌, ◌<◌, ◌≡◌, refl, ◌∙◌, Bool, true, false, not, ◌||◌, ltb, arith, Bool-cases,
  inl, inr, if◌then◌else◌, ltb→lt,
}

or_true : (p : Bool) → (p || true) ≡ true
or_true true = refl
or_true false = refl

if_same : (p b : Bool) → (if p then b else b) ≡ b
if_same true b = refl
if_same false b = refl

module _ (c : Crontab) where
  abbrev pub Misses : Minute → Type 0
  Misses t = matches c t ≡ false

  month-Misses : (t : Minute) → has_bit c.month t.month ≡ false → Misses t
  unfolding matches
  month-Misses t h =
      rw (matches, h, or_true (not (has_bit c.minute t.minute) || not (has_bit c.hour t.hour))) refl

  hour-Misses : (t : Minute) → has_bit c.hour t.hour ≡ false → Misses t
  unfolding matches
  hour-Misses t h = rw (matches, h, or_true (not (has_bit c.minute t.minute))) refl

  minute-Misses : (t : Minute) → has_bit c.minute t.minute ≡ false → Misses t
  unfolding matches
  minute-Misses t h = rw (matches, h) refl

  day-Misses : (t : Minute) → day_matches c t ≡ false → Misses t
  unfolding matches
  day-Misses t h =
      rw (matches, h)
        (if_same
          (not (has_bit c.minute t.minute)
            || not (has_bit c.hour t.hour)
            || not (has_bit c.month t.month))
          false)

  all-matches :
      (t : Minute)
      → has_bit c.month t.month ≡ true
      → day_matches c t ≡ true
      → has_bit c.hour t.hour ≡ true
      → has_bit c.minute t.minute ≡ true
      → matches c t ≡ true
  unfolding matches
  all-matches t month day hour minute = rw (matches, month, day, hour, minute) refl

  day_matches-same :
      (t u : Minute)
      → u.year ≡ t.year
      → u.month ≡ t.month
      → u.day ≡ t.day
      → day_matches c u ≡ day_matches c t
  unfolding day_matches weekday
  day_matches-same t u y m d = rw (day_matches, y, m, d) refl

  -- What Next comes to: the first minute that the schedule matches, or no match before the limit
  abbrev pub Outcome : Minute → Minute → Search → Type 0
  Outcome limit cur (found t) = Run Misses cur t × (matches c t ≡ true) × (stamp t < stamp limit)
  Outcome limit cur never = (t : Minute) × Run Misses cur t × (stamp limit ≤ stamp t)
  Outcome limit cur out_of_fuel = ⊥

  Outcome-after :
      (limit cur cur' : Minute) (s : Search)
      → Run Misses cur cur'
      → Outcome limit cur' s
      → Outcome limit cur s
  Outcome-after limit cur cur' (found t) run (r, hit, before) =
      (Run-append cur cur' t run r, hit, before)
  Outcome-after limit cur cur' never run (t, r, past) = (t, Run-append cur cur' t run r, past)
  Outcome-after limit cur cur' out_of_fuel run h = h

  next_loop-found :
      (limit cur : Minute) (fuel : ℕ)
      → ltb (stamp cur) (stamp limit) ≡ true
      → has_bit c.month cur.month ≡ true
      → day_matches c cur ≡ true
      → has_bit c.hour cur.hour ≡ true
      → has_bit c.minute cur.minute ≡ true
      → next_loop c limit (suc fuel) cur ≡ found cur
  unfolding next_loop
  next_loop-found limit cur fuel before month day hour minute =
      rw (next_loop, before, month, day, hour, minute) refl

  next_loop-Outcome :
      (limit : Minute) (fuel : ℕ) (cur : Minute)
      → IsMinute cur
      → stamp limit - stamp cur < fuel
      → Outcome limit cur (next_loop c limit fuel cur)
  unfolding next_loop
  next_loop-Outcome limit zero cur h lt = absurd (omega (arith, lt))
  next_loop-Outcome limit (suc fuel) cur h lt = elim (Bool-cases (ltb (stamp cur) (stamp limit))) [
    | inr past ↦ rw (next_loop, past) (cur, Run.stop cur, ground arith)
    | inl before ↦
        let left : stamp cur < stamp limit = ltb→lt (stamp cur) (stamp limit) before in
        elim (Bool-cases (has_bit c.month cur.month)) [
          | inr month ↦
              rw (next_loop, before, month)
                (Outcome-after limit cur (next_month cur) _
                  (next_month-Run (days_in_month cur.year cur.month - cur.day) cur
                    (omega (arith, h.4)) h.5 h.6 λ u y m. month-Misses u (rw m month))
                  (next_loop-Outcome limit fuel (next_month cur) (next_month-IsMinute cur h)
                    (omega (arith, lt, left, next_month-later cur h))))
          | inl month ↦ elim (Bool-cases (day_matches c cur)) [
            | inr day ↦
                rw (next_loop, before, month, day)
                  (Outcome-after limit cur (next_day cur) _
                    (next_day-Run (23 - cur.hour) cur (omega (arith, h.5)) h.6
                      λ u y m d. day-Misses u (day_matches-same cur u y m d ∙ day))
                    (next_loop-Outcome limit fuel (next_day cur) (next_day-IsMinute cur h)
                      (omega (arith, lt, left, next_day-later cur h))))
            | inl day ↦ elim (Bool-cases (has_bit c.hour cur.hour)) [
              | inr hour ↦
                  rw (next_loop, before, month, day, hour)
                    (Outcome-after limit cur (next_hour cur) _
                      (next_hour-Run (59 - cur.minute) cur (omega (arith, h.6))
                        λ u y m d k. hour-Misses u (rw k hour))
                      (next_loop-Outcome limit fuel (next_hour cur) (next_hour-IsMinute cur h)
                        (omega (arith, lt, left, next_hour-later cur h))))
              | inl hour ↦ elim (Bool-cases (has_bit c.minute cur.minute)) [
                | inr minute ↦
                    rw (next_loop, before, month, day, hour, minute)
                      (Outcome-after limit cur (next_minute cur) _
                        (Run.step cur (next_minute cur) (minute-Misses cur minute)
                          (Run.stop (next_minute cur)))
                        (next_loop-Outcome limit fuel (next_minute cur) (next_minute-IsMinute cur h)
                          (omega (arith, lt, left, next_minute-stamp cur h))))
                | inl minute ↦
                    rw (next_loop-found limit cur fuel before month day hour minute)
                      (Run.stop cur, all-matches cur month day hour minute, left)
              ]
            ]
          ]
        ]
  ]

  -- Next ends at the first minute after t that the schedule matches, where there is one before the
  -- minute five years after the next, and else at no minute: from the minute after t on the schedule
  -- matches none before the minute that is found, or none before the end of the five years. The fuel of
  -- the model's loop never runs out.
  pub next-Outcome :
      (t : Minute) → IsMinute t → Outcome (add_years 5 (next_minute t)) (next_minute t) (next c t)
  unfolding next
  next-Outcome t h =
      let cur = next_minute t in
      let limit = add_years 5 cur in
      next_loop-Outcome limit (suc (stamp limit - stamp cur)) cur (next_minute-IsMinute t h)
        (omega arith)
