-- ===== src/EventBus/Tests.antt =====
-- The theorems on eventbus/ at concrete inputs.
use sakumock.EventBus.Crontab.Calendar.{
  Minute, is_leap, days_in_month, days_before_month, days_before_year, day_number, weekday, stamp,
  next_month, next_day, next_hour, next_minute, add_years,
}
use sakumock.EventBus.Crontab.{Crontab, matches, day_matches, has_bit, next, found}
use sakumock.EventBus.Crontab.Next.{Outcome, next-Outcome}
use sakumock.EventBus.Crontab.Field.{
  parse_crontab, parse_crontab_field, range_mask, step_after_value, value_out_of_range,
}
use sakumock.EventBus.Crontab.Field.Masks.{Marks, range_mask-Marks}
use sakumock.EventBus.Crontab.Field.Overflow.{Has, range_mask-Has_below}
use sakumock.Dict
use sakumock.EventBus.Store.{
  ServiceItem, ItemStatus, MemoryStore, new_memory_store, create_item, clone_item, copy_raw,
  get_item,
}
use sakumock.EventBus.Store.Firings.{record_all, last_status, with_status, record_all-get_item}
use sakumock.Prelude.{
  String, List, [], ◌∷◌, none, some, pos, string_eq, ◌≡◌, refl, true, false, ok, err, arith, fields,
  split, cut,
}

-- 29 February at noon, or any Monday at noon
abbrev leap_day : Crontab
leap_day = record {
  minute = 1;
  hour = 4096;
  dom = 536870912;
  month = 4;
  dow = 2;
  dom_star = false;
  dow_star = true;
}

abbrev start : Minute
start = record { year = 2026; month = 2; day = 28; hour = 23; minute = 59 }

parsed : parse_crontab "0 12 29 2 *" ≡ ok (record leap_day { dow = 127 })
unfolding parse_crontab fields split cut
parsed = refl

leap_day_found :
    next leap_day start ≡ found (record { year = 2028; month = 2; day = 29; hour = 12; minute = 0 })
unfolding next matches day_matches has_bit weekday stamp next_month next_day next_hour next_minute
    add_years days_in_month days_before_month days_before_year day_number is_leap
leap_day_found = refl

step_after_number : parse_crontab_field "5/2" 0 59 ≡ err step_after_value
unfolding parse_crontab_field split cut
step_after_number = refl

day_of_week_7 : parse_crontab "* * * * 7" ≡ err value_out_of_range
unfolding parse_crontab fields split cut
day_of_week_7 = refl

-- The day 0, and every other day up to 30
overflowing_step : parse_crontab_field "30-30/9223372036854775807" 1 31 ≡ ok (1431655765, false)
unfolding parse_crontab_field split cut
overflowing_step = refl

next-Outcome_example :
    Outcome leap_day (add_years 5 (next_minute start)) (next_minute start) (next leap_day start)
unfolding days_in_month is_leap
next-Outcome_example =
    next-Outcome leap_day start
      (omega arith, omega arith, omega arith, omega arith, omega arith, omega arith, omega arith)

range_mask-Marks_example : Marks 8 20 5 (range_mask 8 20 5)
range_mask-Marks_example = range_mask-Marks 8 20 5 (omega arith) (omega arith) (omega arith)

range_mask-Has_below_example : Has 57 (range_mask 59 59 9223372036854775807)
range_mask-Has_below_example =
    range_mask-Has_below 59 9223372036854775807 (omega arith) (omega arith) (omega arith) 59 1
      (omega arith) (omega arith) (omega arith)

abbrev item : ServiceItem
item = record {
  id = "";
  name = "nightly";
  description = "";
  tags = "batch" ∷ [];
  provider_class = "eventbusschedule";
  service_class = "";
  settings = some "{}";
  icon = none;
  secret = none;
  status = none;
  created_at = 0;
  modified_at = 0;
}

abbrev store : MemoryStore
unfolding create_item clone_item copy_raw
store = (create_item (new_memory_store (record { next = pos 7; reserved = Dict.empty })) 100 item).0

abbrev fired : List (String × ItemStatus)
fired =
    ("7", record { success = true; message = ""; updated_at = 200 })
    ∷ ("8", record { success = true; message = ""; updated_at = 250 })
    ∷ ("7", record { success = false; message = "refused"; updated_at = 300 })
    ∷ []

record_all-get_item_example :
    get_item (record_all store fired) "7" ≡ with_status (last_status "7" fired) (get_item store "7")
record_all-get_item_example = record_all-get_item fired store "7"
