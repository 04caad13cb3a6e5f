-- ===== src/Core/Cron/Samples.antt =====
-- Tests of the cron expressions, and the theorems at concrete inputs.
use lab_bridge.Prelude.{
  ok, err, ◌+◌, ◌*◌, ◌/◌, ◌%◌, ◌≤◌, ◌≡◌, refl, List, [], ◌∷◌, some, codes, arith, length,
}
use lab_bridge.Prelude.Int.{ℤ, pos, negsuc, div_trunc, pos_part}
use lab_bridge.Core.Cron.{
  Tm, Field, Parsed, wrong_field_count, out_of_range, step_out_of_range, not_decimal, parse,
  parse_field, parse_decimal, mark_one, next_after, next_minute, matches, search_from, split_fields,
  CronSchedule, mark_all, parts, second_ns,
}
use lab_bridge.Core.Cron.Fields.{Form, exactly, single, Reads-parse_field, parse_decimal_bounded}
use lab_bridge.Core.Cron.Search.{IsEarliest, next_after-IsFirst, next_minute_bounds}
use lab_bridge.Core.Cron.Schedule.{AllRead, denote_all, parse-matches, spaced, split_fields-spaced}

-- The calendar of January 1970, which began on a Thursday.
abbrev january : ℤ → Tm
january seconds = record {
  minute = pos_part seconds / 60 % 60;
  hour = pos_part seconds / 3600 % 24;
  day = pos_part seconds / 86400 + 1;
  month = 0;
  weekday = (pos_part seconds / 86400 + 4) % 7;
}

schedule_of : Parsed CronSchedule → CronSchedule
schedule_of (ok schedule) = schedule
schedule_of (err e) = []

-- Every half hour of the hour from four on the first of a month.
half_hours : CronSchedule
unfolding schedule_of parse mark_all mark_one
half_hours = schedule_of (parse (codes "*/30 4 1 * *"))

parse-half_hours : parse (codes "*/30 4 1 * *") ≡ ok half_hours
unfolding half_hours
parse-half_hours = refl

-- At 04:00 exactly the next start is 04:30.
next_half_hour :
    next_after january half_hours (pos (4 * 3600 * second_ns)) ≡ some (pos (16200 * second_ns))
unfolding next_after search_from matches next_minute half_hours
next_half_hour = refl

before_epoch : next_minute (negsuc 59999999999) ≡ pos 0
unfolding next_minute
before_epoch = refl

refused :
    (parse (codes "* * * *") ≡ err wrong_field_count)
    × (parse (codes "60 * * * *") ≡ err (out_of_range 0))
    × (parse (codes "* */25 * * *") ≡ err (step_out_of_range 1))
    × (parse (codes "* * -1 * *") ≡ err (not_decimal 2))
unfolding parse
refused = (refl, refl, refl, refl)

parse-matches_example :
    (forms : List Form) × (length (split_fields (codes "*/30 4 1 * *")) ≡ 5)
    × AllRead 0 (split_fields (codes "*/30 4 1 * *")) forms
    × ((time : ℤ)
        → matches january half_hours time
          ≡ denote_all 0 forms (parts (january (div_trunc time second_ns))))
parse-matches_example = parse-matches january (codes "*/30 4 1 * *") half_hours parse-half_hours

next_after-IsFirst_example :
    IsEarliest january half_hours 90000000000 (next_after january half_hours (pos 90000000000))
next_after-IsFirst_example = next_after-IsFirst january half_hours 90000000000

Reads-parse_field_example : (field : Field) × (parse_field 2 1 31 (codes "031") ≡ ok field)
Reads-parse_field_example =
    Reads-parse_field 2 1 31 (codes "031") (exactly 31) (omega arith)
      (single (record { nonempty = refl; digits = refl; value = refl }) (omega arith) (omega arith))

parse_decimal_bounded_example : 10009 ≤ 10009
unfolding parse_decimal
parse_decimal_bounded_example = parse_decimal_bounded (codes "10009") 0 10009 refl

split_fields-spaced_example :
    split_fields (spaced (codes "*/5" ∷ codes "0" ∷ [])) ≡ codes "*/5" ∷ codes "0" ∷ []
split_fields-spaced_example =
    split_fields-spaced (codes "*/5" ∷ codes "0" ∷ []) ((refl, refl), ((refl, refl), tt))

next_minute_bounds_example : pos_part (next_minute (pos 59999999999)) % 60000000000 ≡ 0
next_minute_bounds_example = (next_minute_bounds (pos 59999999999)).1
