-- ===== src/Server/Timestamp.antt =====
-- server/src/application/task_run_service.cpp: the RFC 3339 UTC timestamps that are accepted.
pub mod Days
pub mod Calendar
mod Samples
use lab_bridge.Prelude.{
  ℕ, zero, suc, ◌+◌, ◌-◌, ◌*◌, ◌%◌, Bool, true, false, not, ◌&&◌, ◌||◌, List, [], ◌∷◌, Option, none,
  some, Text, is_digit, length, get_or, ltb, leb, ◌==◌, if◌then◌else◌,
}
use lab_bridge.Prelude.Int.{ℤ, pos, negsuc, ltb_ℤ}

-- The loop of `decimal_component`: -1 at a byte that is no digit.
unfoldable pub component_from : ℕ → ℕ → Text → ℕ → ℤ
component_from zero index value result = pos result
component_from (suc length) index value result =
    let ch = get_or value index 0 in
    let rest = component_from length (index + 1) value (result * 10 + (ch - 48)) in
    if not (is_digit ch) then negsuc 0 else rest

unfoldable pub decimal_component : Text → ℕ → ℕ → ℤ
unfolding component_from
decimal_component value offset length = component_from length offset value 0

unfoldable pub is_leap_year : ℕ → Bool
is_leap_year year = (year % 4 == 0 && not (year % 100 == 0)) || year % 400 == 0

abbrev pub days_by_month : List ℕ
days_by_month = 31 ∷ 28 ∷ 31 ∷ 30 ∷ 31 ∷ 30 ∷ 31 ∷ 31 ∷ 30 ∷ 31 ∷ 30 ∷ 31 ∷ []

-- The separators and the length.
unfoldable pub has_shape : Text → Bool
has_shape value =
    length value == 20
    && get_or value 4 0 == b'-'
    && get_or value 7 0 == b'-'
    && get_or value 10 0 == b'T'
    && get_or value 13 0 == b':'
    && get_or value 16 0 == b':'
    && get_or value 19 0 == b'Z'

-- outside of lowest..highest
unfoldable pub outside : ℤ → ℕ → ℕ → Bool
outside value lowest highest = ltb_ℤ value (pos lowest) || ltb_ℤ (pos highest) value

unfoldable pub natural : ℤ → ℕ
natural (pos n) = n
natural (negsuc n) = 0

-- `kDaysByMonth[month - 1]`, and 29 in a leap February
unfoldable pub maximum_day : ℕ → ℕ → ℕ
unfolding is_leap_year
maximum_day year month =
    if month == 2 && is_leap_year year then 29 else get_or days_by_month (month - 1) 0

unfoldable pub is_calendar_time : ℤ → ℤ → ℤ → ℤ → ℤ → ℤ → Bool
unfolding outside natural
is_calendar_time year month day hour minute second =
    not (
      ltb_ℤ year (pos 1)
      || outside month 1 12
      || outside hour 0 23
      || outside minute 0 59
      || outside second 0 59)
    && not (outside day 1 (maximum_day (natural year) (natural month)))

unfoldable pub is_rfc3339_utc : Text → Bool
is_rfc3339_utc value =
    has_shape value
    && is_calendar_time (decimal_component value 0 4) (decimal_component value 5 2)
        (decimal_component value 8 2) (decimal_component value 11 2) (decimal_component value 14 2)
        (decimal_component value 17 2)
