-- ===== src/Core/Cron/Search.antt =====
-- `next_minute` and the search of `CronSchedule::next_after`.
use lab_bridge.Prelude.{
  ℕ, zero, suc, ◌+◌, ◌-◌, ◌*◌, ◌/◌, ◌%◌, ◌≤◌, ◌<◌, ◌≡◌, refl, sym, ap, ◌∙◌, Bool, true, false,
  Option, none, some, arith, Bool-cases, le→leb, inl, inr,
}
use lab_bridge.Prelude.Int.{
  ℤ, pos, negsuc, ◌+ℤ◌, div_trunc, leb_ℤ, ◌≤ℤ◌, ◌<ℤ◌, pos_part, neg_part, +ℤ_parts, div_trunc_parts,
  scale_parts, one_part, eq_of_parts, int_laws,
}
use lab_bridge.Core.Cron.{
  CronSchedule, Tm, matches, search_from, next_after, minute_index, next_minute, search_limit,
  minute_ns, second_ns,
}

minute_index-pos : (n : ℕ) → minute_index (pos n) ≡ div_trunc (pos n) 60
unfolding minute_index
minute_index-pos n = ground arith

minute_index-negsuc : (n : ℕ) → minute_index (negsuc n) ≡ div_trunc (negsuc n +ℤ negsuc 58) 60
unfolding minute_index
minute_index-negsuc n = ground arith

-- The number of the minute is cut towards minus infinity.
minute_index_floor :
    (elapsed : ℤ)
    → let m = minute_index elapsed in
      (pos_part m * 60 + neg_part elapsed ≤ neg_part m * 60 + pos_part elapsed)
      × (neg_part m * 60 + pos_part elapsed < pos_part m * 60 + neg_part elapsed + 60)
minute_index_floor (pos n) = rw minute_index-pos (omega (arith, div_trunc_parts (pos n) 60))
minute_index_floor (negsuc n) = rw minute_index-negsuc (
    omega (
      arith,
      div_trunc_parts (negsuc n +ℤ negsuc 58) 60,
      +ℤ_parts (negsuc n) (negsuc 58),
      one_part (negsuc n +ℤ negsuc 58),
    ))

-- The first candidate lies after the given time, at a full minute, and for a time since the epoch
-- at most a minute later.
pub next_minute_bounds :
    (time : ℤ)
    → (time <ℤ next_minute time)
      × (pos_part (next_minute time) % minute_ns ≡ 0)
      × (neg_part (next_minute time) % minute_ns ≡ 0)
      × (pos 0 ≤ℤ time → next_minute time ≤ℤ time +ℤ pos minute_ns)
unfolding next_minute
next_minute_bounds time =
    let e = div_trunc time second_ns in
    let m = minute_index e in
    omega (
      arith,
      minute_index_floor e,
      div_trunc_parts time second_ns,
      one_part time,
      one_part m,
      +ℤ_parts m (pos 1),
      one_part (m +ℤ pos 1),
      scale_parts (m +ℤ pos 1) minute_ns,
      +ℤ_parts time (pos minute_ns),
    )

-- The instant `k` minutes after another.
abbrev pub minutes_after : ℤ → ℕ → ℤ
minutes_after start k = start +ℤ pos (k * minute_ns)

minutes_after-suc :
    (start : ℤ) (k : ℕ) → minutes_after (start +ℤ pos minute_ns) k ≡ minutes_after start (suc k)
minutes_after-suc start k = omega int_laws

minutes_after-zero : (start : ℤ) → minutes_after start 0 ≡ start
minutes_after-zero start = omega int_laws

module _ (gmtime : ℤ → Tm) (schedule : CronSchedule) where
  abbrev pub fires_at : ℤ → ℕ → Bool
  fires_at start k = matches gmtime schedule (minutes_after start k)

  -- What the search from `start` over the candidates up to `start + limit` minutes returns.
  abbrev pub IsFirst : ℤ → ℕ → Option ℤ → Type 0
  IsFirst start limit none = (k : ℕ) → k ≤ limit → fires_at start k ≡ false
  IsFirst start limit (some found) =
      (k : ℕ) × (k ≤ limit)
      × (found ≡ minutes_after start k)
      × (fires_at start k ≡ true)
      × ((j : ℕ) → j < k → fires_at start j ≡ false)

  shift_below :
      (start : ℤ) (limit : ℕ)
      → matches gmtime schedule start ≡ false
      → ((k : ℕ) → k < limit → fires_at (start +ℤ pos minute_ns) k ≡ false)
      → (k : ℕ) → k < suc limit
      → fires_at start k ≡ false
  shift_below start limit miss rest zero h = rw minutes_after-zero miss
  shift_below start limit miss rest (suc k) h = rw minutes_after-suc at (rest k (omega arith))

  -- A miss at `start` goes in front of a search that begins a minute later.
  IsFirst-shift :
      (start : ℤ) (limit : ℕ) (r : Option ℤ)
      → matches gmtime schedule start ≡ false
      → IsFirst (start +ℤ pos minute_ns) limit r
      → IsFirst start (suc limit) r
  IsFirst-shift start limit none miss rest =
      λ k h. shift_below start (suc limit) miss (λ j q. rest j (omega arith)) k (omega arith)
  IsFirst-shift start limit (some found) miss (k, le, e, hit, before) = (
    suc k,
    omega arith,
    e ∙ minutes_after-suc start k,
    rw minutes_after-suc at hit,
    λ j h. shift_below start k miss before j h,
  )

  past_end :
      (fuel : ℕ) (candidate end : ℤ)
      → leb_ℤ candidate end ≡ false
      → search_from gmtime fuel schedule candidate end ≡ none
  unfolding search_from
  past_end zero candidate end h = refl
  past_end (suc fuel) candidate end h = rw h

  hit-IsFirst :
      (start : ℤ) (limit : ℕ)
      → matches gmtime schedule start ≡ true
      → IsFirst start limit (some start)
  hit-IsFirst start limit hit =
      (0, omega arith, sym (minutes_after-zero start), rw minutes_after-zero hit, λ j h. elim h [ ])

  reaches : (start end : ℤ) (limit : ℕ) → end ≡ minutes_after start limit → leb_ℤ start end ≡ true
  reaches start end limit e =
      le→leb _ _ (rw e (omega (arith, +ℤ_parts start (pos (limit * minute_ns)))))

  passes :
      (start end : ℤ) → end ≡ minutes_after start 0 → leb_ℤ (start +ℤ pos minute_ns) end ≡ false
  passes start end e =
      let q : end ≡ start = e ∙ minutes_after-zero start in
      rw q (ground (arith, +ℤ_parts start (pos minute_ns)))

  search_from-IsFirst :
      (fuel : ℕ) (start end : ℤ) (limit : ℕ)
      → end ≡ minutes_after start limit
      → limit < fuel
      → IsFirst start limit (search_from gmtime fuel schedule start end)
  unfolding search_from
  search_from-IsFirst zero start end limit e h = elim h [ ]
  search_from-IsFirst (suc fuel) start end zero e h =
      rw (reaches start end 0 e) (elim (Bool-cases (matches gmtime schedule start)) [
        | inl hit ↦ rw hit (hit-IsFirst start 0 hit)
        | inr miss ↦
            rw (miss, past_end fuel (start +ℤ pos minute_ns) end (passes start end e))
              (λ k q. shift_below start 0 miss (λ j r. elim r [ ]) k (omega arith))
      ])
  search_from-IsFirst (suc fuel) start end (suc limit) e h =
      rw (reaches start end (suc limit) e) (elim (Bool-cases (matches gmtime schedule start)) [
        | inl hit ↦ rw hit (hit-IsFirst start (suc limit) hit)
        | inr miss ↦ rw miss (
            IsFirst-shift start limit _ miss (
              search_from-IsFirst fuel (start +ℤ pos minute_ns) end limit
                (e ∙ sym (minutes_after-suc start limit)) (omega arith)))
      ])

  search-IsFirst :
      (time : ℤ) → IsFirst (next_minute time) search_limit (next_after gmtime schedule time)
  unfolding next_after
  search-IsFirst time =
      search_from-IsFirst (suc search_limit) (next_minute time) _ search_limit refl (omega arith)

  -- Whether the schedule fires at the full minute with that number since the epoch.
  abbrev pub fires_in : ℕ → Bool
  fires_in minute = matches gmtime schedule (pos (minute * minute_ns))

  -- What the earliest firing after the time `t` since the epoch is, counted in full minutes.
  abbrev pub IsEarliest : ℕ → Option ℤ → Type 0
  IsEarliest t none =
      (minute : ℕ)
      → t < minute * minute_ns
      → minute * minute_ns ≤ t + search_limit * minute_ns
      → fires_in minute ≡ false
  IsEarliest t (some found) =
      (number : ℕ) × (found ≡ pos (number * minute_ns))
      × (t < number * minute_ns)
      × (fires_in number ≡ true)
      × ((minute : ℕ) → t < minute * minute_ns → minute < number → fires_in minute ≡ false)

  -- The first candidate for a time since the epoch.
  first_minute :
      (t : ℕ)
      → (n : ℕ) × (next_minute (pos t) ≡ pos (n * minute_ns))
        × (t < n * minute_ns)
        × (n * minute_ns ≤ t + minute_ns)
  first_minute t =
      let next = next_minute (pos t) in
      let (above, full, _, near) = next_minute_bounds (pos t) in
      let bound = near (omega arith) in
      let parts = +ℤ_parts (pos t) (pos minute_ns) in
      let n = pos_part next / minute_ns in
      let whole : n * minute_ns ≡ pos_part next = omega arith in
      let e : next ≡ pos (n * minute_ns) =
        eq_of_parts next (pos (n * minute_ns)) (omega (arith, one_part next)) in
      (
        n,
        e,
        omega (arith, one_part next),
        omega (arith, one_part next, one_part (pos t +ℤ pos minute_ns)),
      )

  minute_sum :
      (start : ℤ) (n k : ℕ)
      → start ≡ pos (n * minute_ns)
      → minutes_after start k ≡ pos ((n + k) * minute_ns)
  minute_sum start n k e =
      rw e (eq_of_parts _ _ (omega (arith, +ℤ_parts (pos (n * minute_ns)) (pos (k * minute_ns)))))

  fires_at-shift :
      (start : ℤ) (n k : ℕ) → start ≡ pos (n * minute_ns) → fires_at start k ≡ fires_in (n + k)
  fires_at-shift start n k e = ap (matches gmtime schedule) (minute_sum start n k e)

  IsFirst-IsEarliest :
      (t n : ℕ) (start : ℤ) (r : Option ℤ)
      → start ≡ pos (n * minute_ns)
      → t < n * minute_ns
      → n * minute_ns ≤ t + minute_ns
      → IsFirst start search_limit r
      → IsEarliest t r
  IsFirst-IsEarliest t n start none e above near rest = λ minute from upto.
      let q : n + (minute - n) ≡ minute = omega arith in
      ap fires_in (sym q)
      ∙ sym (fires_at-shift start n (minute - n) e)
      ∙ rest (minute - n) (omega arith)
  IsFirst-IsEarliest t n start (some found) e above near (k, le, same, hit, before) = (
    n + k,
    same ∙ minute_sum start n k e,
    omega arith,
    sym (fires_at-shift start n k e) ∙ hit,
    λ minute from below.
        let q : n + (minute - n) ≡ minute = omega arith in
        ap fires_in (sym q)
        ∙ sym (fires_at-shift start n (minute - n) e)
        ∙ before (minute - n) (omega arith),
  )

  -- For a time since the epoch, `next_after` returns the earliest full minute after it in which the
  -- schedule fires; where it returns nothing, the schedule fires in no full minute after the time
  -- and within the limit of the search, 8 years of 366 days each.
  pub next_after-IsFirst : (t : ℕ) → IsEarliest t (next_after gmtime schedule (pos t))
  next_after-IsFirst t =
      let (n, e, above, near) = first_minute t in
      IsFirst-IsEarliest t n (next_minute (pos t)) (next_after gmtime schedule (pos t)) e above near
        (search-IsFirst (pos t))
