-- ===== src/Server/Timestamp/Days.antt =====
-- The calendar by its months, and the bounds that `is_rfc3339_utc` of task_run_service.cpp tests.
use lab_bridge.Prelude.{ℕ, ◌%◌, ◌≤◌, ◌≡◌, ◌≢◌, ◌⊎◌, inl, inr, refl, ap, arith}
use lab_bridge.Server.Timestamp.{maximum_day, is_leap_year}

-- A date and time of day in UTC.
pub record Moment : Type 0 where
  pub year : ℕ
  pub month : ℕ
  pub day : ℕ
  pub hour : ℕ
  pub minute : ℕ
  pub second : ℕ

-- The leap years of the Gregorian calendar.
abbrev pub IsLeap : ℕ → Type 0
IsLeap year = (year % 4 ≡ 0) × ((year % 100 ≢ 0) ⊎ (year % 400 ≡ 0))

-- The months of 31 days, and those of 30.
abbrev pub IsLong : ℕ → Type 0
IsLong month =
    (month ≡ 1)
    ⊎ (month ≡ 3)
    ⊎ (month ≡ 5)
    ⊎ (month ≡ 7)
    ⊎ (month ≡ 8)
    ⊎ (month ≡ 10)
    ⊎ (month ≡ 12)

abbrev pub IsShort : ℕ → Type 0
IsShort month = (month ≡ 4) ⊎ (month ≡ 6) ⊎ (month ≡ 9) ⊎ (month ≡ 11)

-- The month of that year reaches that day.
pub data HasDay (year month day : ℕ) : Type 0 where
  long_month : IsLong month → day ≤ 31 → HasDay year month day
  short_month : IsShort month → day ≤ 30 → HasDay year month day
  february : month ≡ 2 → day ≤ 28 → HasDay year month day
  leap_day : month ≡ 2 → IsLeap year → day ≤ 29 → HasDay year month day

pub record IsMoment (t : Moment) : Type 0 where
  pub year_from : 1 ≤ t.year
  pub year_to : t.year ≤ 9999
  pub day_from : 1 ≤ t.day
  pub day_in_month : HasDay t.year t.month t.day
  pub hour_to : t.hour ≤ 23
  pub minute_to : t.minute ≤ 59
  pub second_to : t.second ≤ 59

-- The bounds that the code tests.
pub record InRange (t : Moment) : Type 0 where
  pub year_from : 1 ≤ t.year
  pub year_to : t.year ≤ 9999
  pub month_from : 1 ≤ t.month
  pub month_to : t.month ≤ 12
  pub day_from : 1 ≤ t.day
  pub day_to : t.day ≤ maximum_day t.year t.month
  pub hour_to : t.hour ≤ 23
  pub minute_to : t.minute ≤ 59
  pub second_to : t.second ≤ 59

long_days : (year month : ℕ) → IsLong month → maximum_day year month ≡ 31
unfolding maximum_day
long_days year month h = elim h [
  | inl e ↦ rw e refl
  | inr (inl e) ↦ rw e refl
  | inr (inr (inl e)) ↦ rw e refl
  | inr (inr (inr (inl e))) ↦ rw e refl
  | inr (inr (inr (inr (inl e)))) ↦ rw e refl
  | inr (inr (inr (inr (inr (inl e))))) ↦ rw e refl
  | inr (inr (inr (inr (inr (inr e))))) ↦ rw e refl
]

short_days : (year month : ℕ) → IsShort month → maximum_day year month ≡ 30
unfolding maximum_day
short_days year month h = elim h [
  | inl e ↦ rw e refl
  | inr (inl e) ↦ rw e refl
  | inr (inr (inl e)) ↦ rw e refl
  | inr (inr (inr e)) ↦ rw e refl
]

february_days :
    (year : ℕ)
    → (IsLeap year × (maximum_day year 2 ≡ 29)) ⊎ (¬ IsLeap year × (maximum_day year 2 ≡ 28))
unfolding maximum_day is_leap_year
february_days year = ground arith

month_cases : (month : ℕ) → 1 ≤ month → month ≤ 12 → IsLong month ⊎ IsShort month ⊎ (month ≡ 2)
month_cases month a b = ground arith

HasDay-maximum_day :
    (year month day : ℕ)
    → HasDay year month day
    → (1 ≤ month) × (month ≤ 12) × (day ≤ maximum_day year month)
HasDay-maximum_day year month day (long_month h d) = ground (arith, long_days year month h)
HasDay-maximum_day year month day (short_month h d) = ground (arith, short_days year month h)
HasDay-maximum_day year month day (february e d) =
    rw e (elim (february_days year) [ inl (_, q) ↦ omega arith | inr (_, q) ↦ omega arith ])
HasDay-maximum_day year month day (leap_day e l d) =
    rw e
      (elim (february_days year) [ inl (_, q) ↦ omega arith | inr (common, q) ↦ absurd (common l) ])

maximum_day-HasDay :
    (year month day : ℕ)
    → 1 ≤ month
    → month ≤ 12
    → day ≤ maximum_day year month
    → HasDay year month day
maximum_day-HasDay year month day a b d = elim (month_cases month a b) [
  | inl h ↦ long_month h (omega (arith, long_days year month h))
  | inr (inl h) ↦ short_month h (omega (arith, short_days year month h))
  | inr (inr e) ↦ elim (february_days year) [
    | inl (l, q) ↦ leap_day e l (omega (arith, ap (maximum_day year) e))
    | inr (_, q) ↦ february e (omega (arith, ap (maximum_day year) e))
  ]
]

pub IsMoment-InRange : (t : Moment) → IsMoment t → InRange t
IsMoment-InRange t v =
    let (a, b, c) = HasDay-maximum_day t.year t.month t.day v.day_in_month in
    record {
      year_from = v.year_from;
      year_to = v.year_to;
      month_from = a;
      month_to = b;
      day_from = v.day_from;
      day_to = c;
      hour_to = v.hour_to;
      minute_to = v.minute_to;
      second_to = v.second_to;
    }

pub InRange-IsMoment : (t : Moment) → InRange t → IsMoment t
InRange-IsMoment t v = record {
  year_from = v.year_from;
  year_to = v.year_to;
  day_from = v.day_from;
  day_in_month = maximum_day-HasDay t.year t.month t.day v.month_from v.month_to v.day_to;
  hour_to = v.hour_to;
  minute_to = v.minute_to;
  second_to = v.second_to;
}
