-- ===== src/Server/Timestamp/Samples.antt =====
-- Tests of the timestamps, and the theorems at concrete inputs.
use lab_bridge.Prelude.{◌≡◌, inl, refl, true, false, codes, arith}
use lab_bridge.Server.Timestamp.{
  is_rfc3339_utc, has_shape, is_calendar_time, decimal_component, component_from, maximum_day,
  is_leap_year, outside, natural,
}
use lab_bridge.Server.Timestamp.Days.{Moment, IsMoment, leap_day}
use lab_bridge.Server.Timestamp.Calendar.{print, print_accepted, accepted_print}

abbrev last_february : Moment
last_february = record { year = 2024; month = 2; day = 29; hour = 23; minute = 59; second = 8 }

last_february-IsMoment : IsMoment last_february
last_february-IsMoment = record {
  year_from = omega arith;
  year_to = omega arith;
  day_from = omega arith;
  day_in_month = leap_day refl (refl, inl (omega arith)) (omega arith);
  hour_to = omega arith;
  minute_to = omega arith;
  second_to = omega arith;
}

common_year : is_rfc3339_utc (codes "2023-02-29T00:00:00Z") ≡ false
unfolding is_rfc3339_utc has_shape is_calendar_time decimal_component component_from maximum_day
    is_leap_year outside natural
common_year = refl

print_accepted_example : is_rfc3339_utc (print last_february) ≡ true
print_accepted_example = print_accepted last_february last_february-IsMoment

accepted_print_example : (t : Moment) × IsMoment t × (print last_february ≡ print t)
accepted_print_example = accepted_print (print last_february) print_accepted_example
