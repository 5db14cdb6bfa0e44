-- ===== src/EventBus/Crontab/Calendar.antt =====
-- What eventbus/crontab.go uses of the package time: the wall clock of JST, in minutes, which is nine
-- hours ahead of UTC all year.
use sakumock.Prelude.{
  ℕ, zero, suc, ◌+◌, ◌-◌, ◌*◌, ◌/◌, ◌%◌, ◌≤◌, ◌<◌, Bool, not, ◌&&◌, ◌||◌, ltb, ◌==◌, if◌then◌else◌,
}

-- A minute of the wall clock
pub record Minute : Type 0 where
  pub year : ℕ
  pub month : ℕ
  pub day : ℕ
  pub hour : ℕ
  pub minute : ℕ

unfoldable pub is_leap : ℕ → Bool
is_leap y = (y % 400 == 0) || ((y % 4 == 0) && not (y % 100 == 0))

-- April, June, September, November
is_short : ℕ → Bool
is_short m = (m == 11) || (m == 9) || (m == 6) || (m == 4)

unfoldable pub days_in_month : ℕ → ℕ → ℕ
unfolding is_short
days_in_month y m =
    if is_short m then 30 else if not (m == 2) then 31 else if is_leap y then 29 else 28

-- The days of the year before the month
unfoldable pub days_before_month : ℕ → ℕ → ℕ
days_before_month y zero = 0
days_before_month y (suc zero) = 0
days_before_month y (suc (suc m)) = days_before_month y (suc m) + days_in_month y (suc m)

-- The days before the year, from year 1 on
unfoldable pub days_before_year : ℕ → ℕ
days_before_year y = let past = y - 1 in 365 * past + (past / 4 + past / 400 - past / 100)

-- The days before the day, from 1 January of year 1 on
unfoldable pub day_number : ℕ → ℕ → ℕ → ℕ
day_number y m d = days_before_year y + days_before_month y m + (d - 1)

-- t.Weekday(): 1 January of year 1 is a Monday.
unfoldable pub weekday : Minute → ℕ
weekday t = (day_number t.year t.month t.day + 1) % 7

-- The minutes before t: what t.Before compares
unfoldable pub stamp : Minute → ℕ
stamp t = day_number t.year t.month t.day * 1440 + t.hour * 60 + t.minute

-- time.Date(t.Year(), t.Month(), 1, 0, 0, 0, 0, JST).AddDate(0, 1, 0)
unfoldable pub next_month : Minute → Minute
next_month t =
    if t.month == 12
    then record { year = t.year + 1; month = 1; day = 1; hour = 0; minute = 0 }
    else record { year = t.year; month = t.month + 1; day = 1; hour = 0; minute = 0 }

-- time.Date(t.Year(), t.Month(), t.Day(), 0, 0, 0, 0, JST).AddDate(0, 0, 1)
unfoldable pub next_day : Minute → Minute
next_day t =
    if ltb t.day (days_in_month t.year t.month)
    then record { year = t.year; month = t.month; day = t.day + 1; hour = 0; minute = 0 }
    else next_month t

-- time.Date(t.Year(), t.Month(), t.Day(), t.Hour(), 0, 0, 0, JST).Add(time.Hour)
unfoldable pub next_hour : Minute → Minute
next_hour t =
    if ltb t.hour 23
    then record { year = t.year; month = t.month; day = t.day; hour = t.hour + 1; minute = 0 }
    else next_day t

-- t.Add(time.Minute)
unfoldable pub next_minute : Minute → Minute
next_minute t =
    if ltb t.minute 59
    then record {
      year = t.year;
      month = t.month;
      day = t.day;
      hour = t.hour;
      minute = t.minute + 1;
    }
    else next_hour t

-- t.AddDate(years, 0, 0): 29 February becomes 1 March where there is none.
unfoldable pub add_years : ℕ → Minute → Minute
add_years years t =
    if ltb (days_in_month (t.year + years) t.month) t.day
    then record t { year = t.year + years; month = 3; day = 1 }
    else record t { year = t.year + years }

-- A minute that there is
abbrev pub IsMinute : Minute → Type 0
IsMinute t =
    (1 ≤ t.year)
    × (1 ≤ t.month)
    × (t.month ≤ 12)
    × (1 ≤ t.day)
    × (t.day ≤ days_in_month t.year t.month)
    × (t.hour < 24)
    × (t.minute < 60)
