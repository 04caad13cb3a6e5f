-- ===== src/Server/Timestamp/Calendar.antt =====
-- task_run_service.cpp, `is_rfc3339_utc`: the texts that it accepts are the printed calendar times.
use lab_bridge.Prelude.{
  ℕ, zero, suc, ◌+◌, ◌-◌, ◌/◌, ◌%◌, ◌≤◌, ◌<◌, ◌≡◌, refl, sym, ap, ◌∙◌, true, false, List, [], ◌∷◌,
  Text, length, get_or, arith, &&-true, All,
}
use lab_bridge.Prelude.Int.{ℤ, pos, negsuc, ltb_ℤ}
use lab_bridge.Server.Timestamp.{
  decimal_component, days_by_month, maximum_day, has_shape, natural, is_calendar_time,
  is_rfc3339_utc,
}
use lab_bridge.Server.Timestamp.Days.{Moment, IsMoment, InRange, IsMoment-InRange, InRange-IsMoment}

abbrev pub digit : ℕ → ℕ
digit n = 48 + n % 10

abbrev pub pad2 : ℕ → Text → Text
pad2 n rest = digit (n / 10) ∷ digit n ∷ rest

abbrev pub pad4 : ℕ → Text → Text
pad4 n rest = digit (n / 1000) ∷ digit (n / 100) ∷ digit (n / 10) ∷ digit n ∷ rest

-- YYYY-MM-DDTHH:MM:SSZ
pub print : Moment → Text
print t = pad4 t.year (
    b'-'
    ∷ pad2 t.month (
        b'-'
        ∷ pad2 t.day
            (b'T' ∷ pad2 t.hour (b':' ∷ pad2 t.minute (b':' ∷ pad2 t.second (b'Z' ∷ []))))))

-- Two digits of the text spell `n`, and four.
abbrev Spells2 : Text → ℕ → ℕ → Type 0
Spells2 value offset n =
    (get_or value offset 0 ≡ digit (n / 10)) × (get_or value (offset + 1) 0 ≡ digit n)

abbrev Spells4 : Text → ℕ → Type 0
Spells4 value n =
    (get_or value 0 0 ≡ digit (n / 1000))
    × (get_or value 1 0 ≡ digit (n / 100))
    × (get_or value 2 0 ≡ digit (n / 10))
    × (get_or value 3 0 ≡ digit n)

component2 :
    (value : Text) (offset n : ℕ)
    → decimal_component value offset 2 ≡ pos n
    → Spells2 value offset n
unfolding decimal_component
component2 value offset n h = ground arith

component4 :
    (value : Text) (n : ℕ) → decimal_component value 0 4 ≡ pos n → Spells4 value n × (n ≤ 9999)
unfolding decimal_component
component4 value n h = ground arith

spelled2 :
    (value : Text) (offset n : ℕ)
    → n < 100
    → Spells2 value offset n
    → decimal_component value offset 2 ≡ pos n
unfolding decimal_component
spelled2 value offset n b (h, k) = ground arith

spelled4 : (value : Text) (n : ℕ) → n ≤ 9999 → Spells4 value n → decimal_component value 0 4 ≡ pos n
unfolding decimal_component
spelled4 value n b (h, k, l, m) = ground arith

InRange-is_calendar_time :
    (t : Moment)
    → InRange t
    → is_calendar_time
        (pos t.year)
        (pos t.month)
        (pos t.day)
        (pos t.hour)
        (pos t.minute)
        (pos t.second)
      ≡ true
unfolding is_calendar_time
InRange-is_calendar_time t v = ground arith

days_by_month_bound : (j : ℕ) (days : List ℕ) → All (λ d. d ≤ 31) days → get_or days j 0 ≤ 31
days_by_month_bound j [] h = omega arith
days_by_month_bound zero (d ∷ days) h = h.0
days_by_month_bound (suc j) (d ∷ days) h = days_by_month_bound j days h.1

maximum_day_bound : (year month : ℕ) → maximum_day year month ≤ 31
unfolding maximum_day
maximum_day_bound year month =
    ground (arith, days_by_month_bound (month - 1) days_by_month (omega arith))

has_shape-print : (t : Moment) → has_shape (print t) ≡ true
unfolding has_shape print
has_shape-print t = refl

spelled_print :
    (t : Moment)
    → Spells4 (print t) t.year
      × Spells2 (print t) 5 t.month
      × Spells2 (print t) 8 t.day
      × Spells2 (print t) 11 t.hour
      × Spells2 (print t) 14 t.minute
      × Spells2 (print t) 17 t.second
unfolding print
spelled_print t =
    ((refl, refl, refl, refl), (refl, refl), (refl, refl), (refl, refl), (refl, refl), (refl, refl))

-- Every calendar time from year 1 to 9999, printed as YYYY-MM-DDTHH:MM:SSZ, is accepted: the months
-- have their lengths of 31, 30 and 28 days, and February has a 29th in the leap years, those that 4
-- divides and 100 does not, or 400 does.
pub print_accepted : (t : Moment) → IsMoment t → is_rfc3339_utc (print t) ≡ true
unfolding is_rfc3339_utc
print_accepted t moment =
    let v = IsMoment-InRange t moment in
    let (y, mo, d, h, mi, s) = spelled_print t in
    rw
      (
        has_shape-print t,
        spelled4 (print t) t.year v.year_to y,
        spelled2 (print t) 5 t.month (omega arith) mo,
        spelled2 (print t) 8 t.day (omega (arith, maximum_day_bound t.year t.month)) d,
        spelled2 (print t) 11 t.hour (omega arith) h,
        spelled2 (print t) 14 t.minute (omega arith) mi,
        spelled2 (print t) 17 t.second (omega arith) s,
      )
      (InRange-is_calendar_time t v)

-- A text is the list of what its indices give.
abbrev tabulate : ℕ → ℕ → Text → Text
tabulate zero i value = []
tabulate (suc n) i value = get_or value i 0 ∷ tabulate n (suc i) value

tabulate-cons : (n i c : ℕ) (value : Text) → tabulate n (suc i) (c ∷ value) ≡ tabulate n i value
tabulate-cons zero i c value = refl
tabulate-cons (suc n) i c value = ap (λ t. get_or value i 0 ∷ t) (tabulate-cons n (suc i) c value)

tabulate-length : (n : ℕ) (value : Text) → length value ≡ n → value ≡ tabulate n 0 value
tabulate-length zero [] h = refl
tabulate-length zero (c ∷ value) h = absurd (omega arith)
tabulate-length (suc n) [] h = absurd (omega arith)
tabulate-length (suc n) (c ∷ value) h =
    ap (λ t. c ∷ t) (tabulate-length n value (omega arith) ∙ sym (tabulate-cons n 0 c value))

not_negative : (z : ℤ) (lowest : ℕ) → ltb_ℤ z (pos lowest) ≡ false → z ≡ pos (natural z)
unfolding natural
not_negative (pos n) lowest h = refl
not_negative (negsuc n) lowest h = absurd (ground arith)

module _ (year month day hour minute second : ℤ) where
  calendar_tests :
      is_calendar_time year month day hour minute second ≡ true
      → (ltb_ℤ year (pos 1) ≡ false)
        × (ltb_ℤ month (pos 1) ≡ false)
        × (ltb_ℤ day (pos 1) ≡ false)
        × (ltb_ℤ hour (pos 0) ≡ false)
        × (ltb_ℤ minute (pos 0) ≡ false)
        × (ltb_ℤ second (pos 0) ≡ false)
  unfolding is_calendar_time
  calendar_tests h = ground arith

InRange-of_parts :
    (t : Moment)
    → t.year ≤ 9999
    → is_calendar_time
        (pos t.year)
        (pos t.month)
        (pos t.day)
        (pos t.hour)
        (pos t.minute)
        (pos t.second)
      ≡ true
    → InRange t
unfolding is_calendar_time
InRange-of_parts t b h = ground arith

has_shape_sound :
    (value : Text)
    → has_shape value ≡ true
    → (length value ≡ 20)
      × (get_or value 4 0 ≡ b'-')
      × (get_or value 7 0 ≡ b'-')
      × (get_or value 10 0 ≡ b'T')
      × (get_or value 13 0 ≡ b':')
      × (get_or value 16 0 ≡ b':')
      × (get_or value 19 0 ≡ b'Z')
unfolding has_shape
has_shape_sound value h = ground arith

print-of_parts :
    (value : Text) (t : Moment)
    → has_shape value ≡ true
    → Spells4 value t.year
    → Spells2 value 5 t.month
    → Spells2 value 8 t.day
    → Spells2 value 11 t.hour
    → Spells2 value 14 t.minute
    → Spells2 value 17 t.second
    → value ≡ print t
unfolding print
print-of_parts value t h (y, ya, yb, yc) (mo, mo') (d, d') (ho, ho') (mi, mi') (s, s') =
    let (l, a, b, c, e, f, g) = has_shape_sound value h in tabulate-length 20 value l ∙ cc

-- Every text that is accepted is a calendar time from year 1 to 9999, printed as
-- YYYY-MM-DDTHH:MM:SSZ, where the months have their lengths of 31, 30 and 28 days and February has a
-- 29th only in a leap year, one that 4 divides and 100 does not, or 400 does.
pub accepted_print :
    (value : Text) → is_rfc3339_utc value ≡ true → (t : Moment) × IsMoment t × (value ≡ print t)
unfolding is_rfc3339_utc
accepted_print value h =
    let (shape, cal) = &&-true (has_shape value) _ h in
    let year = decimal_component value 0 4 in
    let month = decimal_component value 5 2 in
    let day = decimal_component value 8 2 in
    let hour = decimal_component value 11 2 in
    let minute = decimal_component value 14 2 in
    let second = decimal_component value 17 2 in
    let (y, mo, d, ho, mi, s) = calendar_tests year month day hour minute second cal in
    let y' = not_negative year 1 y in
    let mo' = not_negative month 1 mo in
    let d' = not_negative day 1 d in
    let ho' = not_negative hour 0 ho in
    let mi' = not_negative minute 0 mi in
    let s' = not_negative second 0 s in
    let t : Moment = record {
      year = natural year;
      month = natural month;
      day = natural day;
      hour = natural hour;
      minute = natural minute;
      second = natural second;
    } in
    let (spelled, bound) = component4 value t.year y' in
    (
      t,
      InRange-IsMoment t (
          InRange-of_parts t bound
            (calendar_at year month day hour minute second y' mo' d' ho' mi' s' cal)),
      print-of_parts value t shape spelled (component2 value 5 t.month mo')
          (component2 value 8 t.day d') (component2 value 11 t.hour ho')
          (component2 value 14 t.minute mi') (component2 value 17 t.second s'),
    )
  where
    calendar_at :
        (a b c d e f : ℤ) {a' b' c' d' e' f' : ℤ}
        → a ≡ a'
        → b ≡ b'
        → c ≡ c'
        → d ≡ d'
        → e ≡ e'
        → f ≡ f'
        → is_calendar_time a b c d e f ≡ true
        → is_calendar_time a' b' c' d' e' f' ≡ true
    calendar_at a b c d e f p q r s t u h = cc
