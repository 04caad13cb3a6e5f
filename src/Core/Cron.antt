-- ===== src/Core/Cron.antt =====
-- core/src/cron_schedule.cpp and core/include/labbridge/core/cron_schedule.h: five-field cron
-- expressions. `gmtime_r` is a parameter; an instant is a count of nanoseconds since the epoch.
pub mod Marks
pub mod Fields
pub mod Search
pub mod Schedule
mod Samples
use lab_bridge.Prelude.{
  Outcome, ok, err, ◌>>=◌, ℕ, zero, suc, ◌+◌, ◌-◌, ◌*◌, Bool, true, false, ◌&&◌, ◌||◌, List, [],
  ◌∷◌, ◌++◌, Option, none, some, not, Text, codes, empty, text_eq, is_digit, is_space, length,
  get_or, set, replicate, drop, take, all, ltb, leb, ◌==◌, if◌then◌else◌,
}
use lab_bridge.Prelude.Int.{ℤ, pos, negsuc, ◌+ℤ◌, scale, div_trunc, leb_ℤ}

-- Where `CronSchedule::parse` throws `std::invalid_argument`, one constructor for each `throw`;
-- a field is named by its index.
pub data CronError : Type 0 where
  wrong_field_count : CronError
  not_decimal out_of_range step_out_of_range : ℕ → CronError

abbrev pub Parsed : Type 0 → Type 0
Parsed = Outcome CronError

-- CronSchedule::Field
pub record Field : Type 0 where
  pub minimum : ℕ
  pub maximum : ℕ
  pub accepted : List Bool

abbrev pub CronSchedule : Type 0
CronSchedule = List Field

abbrev pub minimums : List ℕ
minimums = 0 ∷ 0 ∷ 1 ∷ 1 ∷ 0 ∷ []

abbrev pub maximums : List ℕ
maximums = 59 ∷ 23 ∷ 31 ∷ 12 ∷ 6 ∷ []

-- `if (!current.empty()) fields.push_back(current)`
push_field : List Text → Text → List Text
push_field fields current = if empty current then fields else fields ++ current ∷ []

split_from : List Text → Text → Text → List Text
split_from fields current [] = push_field fields current
split_from fields current (value ∷ rest) =
    let blank = is_space value in
    split_from (if blank then push_field fields current else fields)
      (if blank then [] else current ++ value ∷ []) rest

pub split_fields : Text → List Text
unfolding split_from push_field
split_fields expression = split_from [] [] expression

-- The loop of `parse_decimal` over digits; `result > 1000` is tested before each digit.
pub decimal_from : ℕ → ℕ → Text → Parsed ℕ
decimal_from name result [] = ok result
decimal_from name result (value ∷ rest) =
    if ltb 1000 result
    then err (out_of_range name)
    else decimal_from name (result * 10 + (value - 48)) rest

pub parse_decimal : Text → ℕ → Parsed ℕ
unfolding decimal_from
parse_decimal text name =
    if empty text || not (all is_digit text)
    then err (not_decimal name)
    else decimal_from name 0 text

-- `for (accepted = first; accepted <= maximum; accepted += step) bits[accepted] = true`
pub mark : ℕ → ℕ → ℕ → ℕ → List Bool → List Bool
mark zero first step maximum bits = bits
mark (suc fuel) first step maximum bits =
    let rest = mark fuel (first + step) step maximum (set bits first true) in
    if ltb maximum first then bits else rest

-- `std::array<bool, 60> accepted{}`
pub no_values : List Bool
no_values = replicate 60 false

pub mark_all : ℕ → ℕ → ℕ → Field
unfolding mark no_values
mark_all minimum maximum step = record {
  minimum = minimum;
  maximum = maximum;
  accepted = mark (maximum + 1) minimum step maximum no_values;
}

pub stepped_field : ℕ → ℕ → ℕ → ℕ → Parsed Field
stepped_field name minimum maximum step =
    if leb step 0 || ltb (maximum - minimum + 1) step
    then err (step_out_of_range name)
    else ok (mark_all minimum maximum step)

pub mark_one : ℕ → ℕ → ℕ → Field
unfolding no_values
mark_one minimum maximum value = record {
  minimum = minimum;
  maximum = maximum;
  accepted = set no_values value true;
}

pub single_field : ℕ → ℕ → ℕ → ℕ → Parsed Field
single_field name minimum maximum value =
    if ltb value minimum || ltb maximum value
    then err (out_of_range name)
    else ok (mark_one minimum maximum value)

-- The body of the loop of `parse`, over the bounds of the field at `name`.
pub parse_field : ℕ → ℕ → ℕ → Text → Parsed Field
unfolding stepped_field single_field parse_decimal text_eq
parse_field name minimum maximum value =
    if text_eq value (codes "*")
    then ok (mark_all minimum maximum 1)
    else if ltb 2 (length value) && text_eq (take 2 value) (codes "*/")
    then parse_decimal (drop 2 value) name >>= stepped_field name minimum maximum
    else parse_decimal value name >>= single_field name minimum maximum

pub parse_fields : ℕ → List Text → Parsed CronSchedule
parse_fields index [] = ok []
parse_fields index (value ∷ rest) =
    parse_field index (get_or minimums index 0) (get_or maximums index 0) value >>= λ field.
    parse_fields (index + 1) rest >>= λ fields. ok (field ∷ fields)

-- CronSchedule::parse
unfoldable pub parse : Text → Parsed CronSchedule
unfolding split_fields parse_fields parse_field
parse expression =
    let values = split_fields expression in
    if length values == 5 then parse_fields 0 values else err wrong_field_count

-- The five members of `std::tm` that are read; `month` is `tm_mon`, from 0.
pub record Tm : Type 0 where
  pub minute : ℕ
  pub hour : ℕ
  pub day : ℕ
  pub month : ℕ
  pub weekday : ℕ

abbrev pub parts : Tm → List ℕ
parts tm = tm.minute ∷ tm.hour ∷ tm.day ∷ (tm.month + 1) ∷ tm.weekday ∷ []

pub matches_parts : CronSchedule → List ℕ → Bool
matches_parts [] parts = true
matches_parts (field ∷ fields) [] = true
matches_parts (field ∷ fields) (part ∷ parts) =
    get_or field.accepted part false && matches_parts fields parts

abbrev pub second_ns : ℕ
second_ns = 1000000000

abbrev pub minute_ns : ℕ
minute_ns = 60 * second_ns

-- kSearchLimit, in minutes
abbrev pub search_limit : ℕ
search_limit = 8 * 366 * 24 * 60

-- `elapsed >= 0 ? elapsed / 60 : (elapsed - 59) / 60`
pub minute_index : ℤ → ℤ
minute_index elapsed =
    if leb_ℤ (pos 0) elapsed then div_trunc elapsed 60 else div_trunc (elapsed +ℤ negsuc 58) 60

pub next_minute : ℤ → ℤ
unfolding minute_index ◌+ℤ◌ scale div_trunc
next_minute time = scale (minute_index (div_trunc time second_ns) +ℤ pos 1) minute_ns

-- `gmtime_r`: from the seconds since the epoch. It fails only for years that an `int` cannot
-- hold, which a nanosecond clock never reaches.
module _ (gmtime : ℤ → Tm) where
  -- CronSchedule::matches, with `std::chrono::system_clock::to_time_t`
  unfoldable pub matches : CronSchedule → ℤ → Bool
  unfolding matches_parts div_trunc
  matches schedule time = matches_parts schedule (parts (gmtime (div_trunc time second_ns)))

  -- The loop of `next_after`: at most one round for each minute of the limit.
  pub search_from : ℕ → CronSchedule → ℤ → ℤ → Option ℤ
  search_from zero schedule candidate end = none
  search_from (suc fuel) schedule candidate end =
      let rest = search_from fuel schedule (candidate +ℤ pos minute_ns) end in
      if leb_ℤ candidate end
      then (if matches schedule candidate then some candidate else rest)
      else none

  -- CronSchedule::next_after
  pub next_after : CronSchedule → ℤ → Option ℤ
  next_after schedule time =
      let candidate = next_minute time in
      search_from (suc search_limit) schedule candidate
        (candidate +ℤ pos (search_limit * minute_ns))
