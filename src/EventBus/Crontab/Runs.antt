-- ===== src/EventBus/Crontab/Runs.antt =====
-- The minutes that the jumps of Next of eventbus/crontab.go pass over.
use sakumock.EventBus.Crontab.Calendar.{
  Minute, days_in_month, next_month, next_day, next_hour, next_minute, IsMinute, stamp,
}
use sakumock.EventBus.Crontab.Stamps.{
  next_day-cases, next_hour-cases, next_minute-cases, next_minute-IsMinute, next_minute-stamp,
}
use mathlib.Core.Path.{subst}
use sakumock.Prelude.{ℕ, zero, suc, ◌+◌, ◌-◌, ◌≤◌, ◌<◌, ◌≡◌, refl, sym, arith, inl, inr}

-- One minute after the other from the first on, all of which satisfy P, to the last, which need not.
pub data Run (P : Minute → Type 0) : Minute → Minute → Type 0 where
  stop : (t : Minute) → Run P t t
  step : (t u : Minute) → P t → Run P (next_minute t) u → Run P t u

module _ {P : Minute → Type 0} where
  pub Run-append : (t u v : Minute) → Run P t u → Run P u v → Run P t v
  Run-append t u v (Run.stop _) s = s
  Run-append t u v (Run.step _ _ p r) s = Run.step t v p (Run-append (next_minute t) u v r s)

  -- To the end of the hour
  pub next_hour-Run :
      (left : ℕ) (t : Minute)
      → t.minute + left ≡ 59
      → ((u : Minute) → u.year ≡ t.year → u.month ≡ t.month → u.day ≡ t.day → u.hour ≡ t.hour → P u)
      → Run P t (next_hour t)
  unfolding next_hour next_day next_month
  next_hour-Run zero t h p = elim (next_minute-cases t) [
    | inl (more, e) ↦ absurd (omega (arith, h, more))
    | inr (last, e) ↦
        Run.step t (next_hour t) (p t refl refl refl refl)
          (subst (λ u. Run P u (next_hour t)) (sym e) (Run.stop (next_hour t)))
  ]
  next_hour-Run (suc left) t h p = elim (next_minute-cases t) [
    | inl (more, e) ↦ Run.step t (next_hour t) (p t refl refl refl refl) (
        subst (λ u. Run P u (next_hour t)) (sym e)
          (next_hour-Run left (record t { minute = t.minute + 1 }) (omega (arith, h)) p))
    | inr (last, e) ↦ absurd (omega (arith, h, last))
  ]

  -- The rest of the hour, and then another run
  hour-then :
      (t u : Minute)
      → t.minute < 60
      → ((u : Minute) → u.year ≡ t.year → u.month ≡ t.month → u.day ≡ t.day → u.hour ≡ t.hour → P u)
      → Run P (next_hour t) u
      → Run P t u
  hour-then t u lt p r =
      Run-append t (next_hour t) u (next_hour-Run (59 - t.minute) t (omega (arith, lt)) p) r

  -- To the end of the day
  pub next_day-Run :
      (left : ℕ) (t : Minute)
      → t.hour + left ≡ 23
      → t.minute < 60
      → ((u : Minute) → u.year ≡ t.year → u.month ≡ t.month → u.day ≡ t.day → P u)
      → Run P t (next_day t)
  unfolding next_day next_month
  next_day-Run zero t h lt p = elim (next_hour-cases t) [
    | inl (more, e) ↦ absurd (omega (arith, h, more))
    | inr (last, e) ↦
        hour-then t (next_day t) lt (λ u y m d _. p u y m d)
          (subst (λ u. Run P u (next_day t)) (sym e) (Run.stop (next_day t)))
  ]
  next_day-Run (suc left) t h lt p = elim (next_hour-cases t) [
    | inl (more, e) ↦
        hour-then t (next_day t) lt (λ u y m d _. p u y m d)
          (subst (λ u. Run P u (next_day t)) (sym e)
            (next_day-Run left (record t { hour = t.hour + 1; minute = 0 }) (omega (arith, h))
              (omega arith) p))
    | inr (last, e) ↦ absurd (omega (arith, h, last))
  ]

  day-then :
      (t u : Minute)
      → t.hour < 24
      → t.minute < 60
      → ((u : Minute) → u.year ≡ t.year → u.month ≡ t.month → u.day ≡ t.day → P u)
      → Run P (next_day t) u
      → Run P t u
  day-then t u lt lt' p r =
      Run-append t (next_day t) u (next_day-Run (23 - t.hour) t (omega (arith, lt)) lt' p) r

  -- To the end of the month
  pub next_month-Run :
      (left : ℕ) (t : Minute)
      → t.day + left ≡ days_in_month t.year t.month
      → t.hour < 24
      → t.minute < 60
      → ((u : Minute) → u.year ≡ t.year → u.month ≡ t.month → P u)
      → Run P t (next_month t)
  unfolding next_month
  next_month-Run zero t h lt lt' p = elim (next_day-cases t) [
    | inl (more, e) ↦ absurd (omega (arith, h, more))
    | inr (last, e) ↦
        day-then t (next_month t) lt lt' (λ u y m _. p u y m)
          (subst (λ u. Run P u (next_month t)) (sym e) (Run.stop (next_month t)))
  ]
  next_month-Run (suc left) t h lt lt' p = elim (next_day-cases t) [
    | inl (more, e) ↦
        day-then t (next_month t) lt lt' (λ u y m _. p u y m)
          (subst (λ u. Run P u (next_month t)) (sym e)
            (next_month-Run left (record t { day = t.day + 1; hour = 0; minute = 0 })
              (omega (arith, h)) (omega arith) (omega arith) p))
    | inr (last, e) ↦ absurd (omega (arith, h, last))
  ]

  -- A run goes forward, from minute to minute that there is.
  pub Run-stamp : (t u : Minute) → IsMinute t → Run P t u → IsMinute u × (stamp t ≤ stamp u)
  Run-stamp t u h (Run.stop _) = (h, omega arith)
  Run-stamp t u h (Run.step _ _ p r) =
      let (h', le) = Run-stamp (next_minute t) u (next_minute-IsMinute t h) r in
      (h', omega (arith, le, next_minute-stamp t h))
