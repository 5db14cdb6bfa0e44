-- ===== src/EventBus/Crontab/Stamps.antt =====
-- The minutes of the calendar that eventbus/crontab.go reads follow one another.
use sakumock.EventBus.Crontab.Calendar.{
  Minute, is_leap, days_in_month, days_before_month, days_before_year, day_number, stamp,
  next_month, next_day, next_hour, next_minute, IsMinute,
}
use sakumock.Prelude.{
  ℕ, zero, suc, ◌+◌, ◌-◌, ◌≤◌, ◌<◌, ◌≡◌, refl, true, false, ltb, ◌==◌, arith, Bool-cases, inl, inr,
  ◌⊎◌, ◌≢◌,
}

days_in_month-bounds : (y m : ℕ) → (28 ≤ days_in_month y m) × (days_in_month y m ≤ 31)
unfolding days_in_month
days_in_month-bounds y m = ground arith

days_before_month-last :
    (y m : ℕ)
    → days_before_month y (suc m + 1) ≡ days_before_month y (suc m) + days_in_month y (suc m)
unfolding days_before_month
days_before_month-last y m = let next : suc m + 1 ≡ suc (suc m) = omega arith in rw next refl

days_before_month-suc :
    (y m : ℕ) → 1 ≤ m → days_before_month y (m + 1) ≡ days_before_month y m + days_in_month y m
unfolding days_before_month
days_before_month-suc y zero h = absurd (omega (arith, h))
days_before_month-suc y (suc m) h = omega (arith, days_before_month-last y m)

leap_year : (y : ℕ) → 1 ≤ y → is_leap y ≡ true → days_before_year (y + 1) ≡ days_before_year y + 366
unfolding days_before_year is_leap
leap_year y h leap = ground arith

common_year :
    (y : ℕ) → 1 ≤ y → is_leap y ≡ false → days_before_year (y + 1) ≡ days_before_year y + 365
unfolding days_before_year is_leap
common_year y h common = ground arith

days_before_year-suc :
    (y : ℕ) → 1 ≤ y → days_before_year (y + 1) ≡ days_before_year y + days_before_month y 12 + 31
unfolding days_before_year days_before_month days_in_month
days_before_year-suc y h = elim (Bool-cases (is_leap y)) [
  | inl leap ↦ rw leap (omega (arith, leap_year y h leap))
  | inr common ↦ rw common (omega (arith, common_year y h common))
]

january : (y : ℕ) → days_before_month y 1 ≡ 0
unfolding days_before_month
january y = refl

december : (y : ℕ) → days_in_month y 12 ≡ 31
unfolding days_in_month
december y = refl

abbrev midnight : ℕ → ℕ → ℕ → Minute
midnight y m d = record { year = y; month = m; day = d; hour = 0; minute = 0 }

pub next_month-cases :
    (t : Minute)
    → ((t.month ≡ 12) × (next_month t ≡ midnight (t.year + 1) 1 1))
      ⊎ ((t.month ≢ 12) × (next_month t ≡ midnight t.year (t.month + 1) 1))
unfolding next_month
next_month-cases t = elim (Bool-cases (t.month == 12)) [
  | inl last ↦ inl (ground arith, rw (next_month, last) refl)
  | inr more ↦ inr (ground arith, rw (next_month, more) refl)
]

pub next_day-cases :
    (t : Minute)
    → ((t.day < days_in_month t.year t.month) × (next_day t ≡ midnight t.year t.month (t.day + 1)))
      ⊎ ((days_in_month t.year t.month ≤ t.day) × (next_day t ≡ next_month t))
unfolding next_day
next_day-cases t = elim (Bool-cases (ltb t.day (days_in_month t.year t.month))) [
  | inl more ↦ inl (ground arith, rw (next_day, more) refl)
  | inr last ↦ inr (ground arith, rw (next_day, last) refl)
]

-- The first of the next month comes after all days of the month.
next_month-number :
    (t : Minute)
    → IsMinute t
    → day_number (next_month t).year (next_month t).month (next_month t).day
      ≡ day_number t.year t.month 1 + days_in_month t.year t.month
unfolding day_number
next_month-number t (hy, hm, hm', hd, hd', hh, hi) = elim (next_month-cases t) [
  | inl (last, e) ↦
      rw (e, last)
        (omega (arith, days_before_year-suc t.year hy, january (t.year + 1), december t.year))
  | inr (more, e) ↦ rw e (omega (arith, days_before_month-suc t.year t.month hm))
]

pub next_month-IsMinute : (t : Minute) → IsMinute t → IsMinute (next_month t)
next_month-IsMinute t (hy, hm, hm', hd, hd', hh, hi) = elim (next_month-cases t) [
  | inl (last, e) ↦
      let days = (days_in_month-bounds (t.year + 1) 1).0 in
      rw e (
        omega arith,
        omega arith,
        omega arith,
        omega arith,
        omega (arith, days),
        omega arith,
        omega arith,
      )
  | inr (more, e) ↦
      let days = (days_in_month-bounds t.year (t.month + 1)).0 in
      rw e (
        hy,
        omega arith,
        omega (arith, hm', more),
        omega arith,
        omega (arith, days),
        omega arith,
        omega arith,
      )
]

next_day-number :
    (t : Minute)
    → IsMinute t
    → day_number (next_day t).year (next_day t).month (next_day t).day
      ≡ day_number t.year t.month t.day + 1
unfolding day_number
next_day-number t h = elim (next_day-cases t) [
  | inl (more, e) ↦ rw e (omega (arith, h.3))
  | inr (last, e) ↦ rw e (omega (arith, next_month-number t h, last, h.3, h.4))
]

pub next_day-IsMinute : (t : Minute) → IsMinute t → IsMinute (next_day t)
next_day-IsMinute t h = elim (next_day-cases t) [
  | inl (more, e) ↦ rw e (h.0, h.1, h.2, omega arith, omega (arith, more), omega arith, omega arith)
  | inr (last, e) ↦ rw e (next_month-IsMinute t h)
]

pub next_hour-cases :
    (t : Minute)
    → ((t.hour < 23)
        × (next_hour t ≡ record {
          year = t.year;
          month = t.month;
          day = t.day;
          hour = t.hour + 1;
          minute = 0;
        }))
      ⊎ ((23 ≤ t.hour) × (next_hour t ≡ next_day t))
unfolding next_hour
next_hour-cases t = elim (Bool-cases (ltb t.hour 23)) [
  | inl more ↦ inl (ground arith, rw (next_hour, more) refl)
  | inr last ↦ inr (ground arith, rw (next_hour, last) refl)
]

pub next_hour-IsMinute : (t : Minute) → IsMinute t → IsMinute (next_hour t)
next_hour-IsMinute t h = elim (next_hour-cases t) [
  | inl (more, e) ↦ rw e (h.0, h.1, h.2, h.3, h.4, omega (arith, more), omega arith)
  | inr (last, e) ↦ rw e (next_day-IsMinute t h)
]

next_day-clock : (t : Minute) → ((next_day t).hour ≡ 0) × ((next_day t).minute ≡ 0)
next_day-clock t = elim (next_day-cases t) [
  | inl (more, e) ↦ rw e (refl, refl)
  | inr (last, e) ↦ elim (next_month-cases t) [
    | inl (m, e') ↦ rw (e, e') (refl, refl)
    | inr (m, e') ↦ rw (e, e') (refl, refl)
  ]
]

next_hour-stamp : (t : Minute) → IsMinute t → stamp (next_hour t) + t.minute ≡ stamp t + 60
unfolding stamp
next_hour-stamp t h = elim (next_hour-cases t) [
  | inl (more, e) ↦ rw e (omega arith)
  | inr (last, e) ↦
      rw e
        (omega (arith, next_day-number t h, (next_day-clock t).0, (next_day-clock t).1, last, h.5))
]

pub next_minute-cases :
    (t : Minute)
    → ((t.minute < 59)
        × (next_minute t ≡ record {
          year = t.year;
          month = t.month;
          day = t.day;
          hour = t.hour;
          minute = t.minute + 1;
        }))
      ⊎ ((59 ≤ t.minute) × (next_minute t ≡ next_hour t))
unfolding next_minute
next_minute-cases t = elim (Bool-cases (ltb t.minute 59)) [
  | inl more ↦ inl (ground arith, rw (next_minute, more) refl)
  | inr last ↦ inr (ground arith, rw (next_minute, last) refl)
]

pub next_minute-IsMinute : (t : Minute) → IsMinute t → IsMinute (next_minute t)
next_minute-IsMinute t h = elim (next_minute-cases t) [
  | inl (more, e) ↦ rw e (h.0, h.1, h.2, h.3, h.4, h.5, omega (arith, more))
  | inr (last, e) ↦ rw e (next_hour-IsMinute t h)
]

-- The next minute is one minute later.
pub next_minute-stamp : (t : Minute) → IsMinute t → stamp (next_minute t) ≡ stamp t + 1
unfolding stamp
next_minute-stamp t h = elim (next_minute-cases t) [
  | inl (more, e) ↦ rw e (omega arith)
  | inr (last, e) ↦ rw e (omega (arith, next_hour-stamp t h, last, h.6))
]

-- Each jump goes on by a minute at least.
pub next_hour-later : (t : Minute) → IsMinute t → stamp t < stamp (next_hour t)
next_hour-later t h = omega (arith, next_hour-stamp t h, h.6)

pub next_day-later : (t : Minute) → IsMinute t → stamp t < stamp (next_day t)
unfolding stamp
next_day-later t h = omega (arith, next_day-number t h, h.5, h.6)

day_number-day : (y m d : ℕ) → day_number y m d ≡ day_number y m 1 + (d - 1)
unfolding day_number
day_number-day y m d = omega arith

pub next_month-later : (t : Minute) → IsMinute t → stamp t < stamp (next_month t)
unfolding stamp
next_month-later t h =
    omega (arith, next_month-number t h, day_number-day t.year t.month t.day, h.3, h.4, h.5, h.6)
