-- ===== src/Agent/RetryDelay/Bounds.antt =====
-- reliable_delivery_client.cpp, `retry_delay`: the doubling and the bounds of the delay.
use native.Mathlib.Numerals.{unary_clauses}
use lab_bridge.Prelude.{
  ℕ, zero, suc, ◌+◌, ◌*◌, ◌/◌, ◌%◌, ◌^◌, ◌≤◌, ◌≡◌, refl, sym, ◌∙◌, min, Text, to_decimal, ltb,
  Bool-cases, inl, inr, ok, ◌++◌, ◌∷◌, arith,
}
use lab_bridge.Agent.RetryDelay.{DeliveryInterval, grow, make_interval, retry_delay, stable_hash}

pow_suc : (n : ℕ) → 2 ^ suc n ≡ 2 ^ n * 2
pow_suc n = simp unary_clauses refl

pow_positive : (n : ℕ) → 1 ≤ 2 ^ n
pow_positive zero = omega arith
pow_positive (suc n) = let h = pow_positive n in let e = pow_suc n in omega arith

mul_le : (a b c : ℕ) → b ≤ c → a * b ≤ a * c
mul_le zero b c h = omega arith
mul_le (suc a) b c h = let r = mul_le a b c h in omega arith

double_pow : (b n : ℕ) → b * 2 ^ suc n ≡ b * 2 * 2 ^ n
double_pow zero n = omega arith
double_pow (suc b) n = let r = double_pow b n in let e = pow_suc n in omega arith

min_left : (m n : ℕ) → m ≤ n → min m n ≡ m
min_left m n h = ground arith

min_right : (m n : ℕ) → n ≤ m → min m n ≡ n
min_right m n h = ground arith

-- A cap in the middle makes no difference.
capped :
    (n retry_max base : ℕ)
    → min retry_max (min retry_max (base * 2) * 2 ^ n) ≡ min retry_max (base * 2 ^ suc n)
capped n retry_max base = elim (Bool-cases (ltb retry_max (base * 2))) [
  | inr low ↦ rw (min_right retry_max (base * 2) (ground arith), sym (double_pow base n)) refl
  | inl high ↦
      let p = mul_le retry_max 1 (2 ^ n) (pow_positive n) in
      let q = mul_le (base * 2) 1 (2 ^ n) (pow_positive n) in
      let d = double_pow base n in rw (min_left retry_max (base * 2) (ground arith)) (ground arith)
]

grow-min :
    (n retry_max base : ℕ) → base ≤ retry_max → grow n retry_max base ≡ min retry_max (base * 2 ^ n)
unfolding grow
grow-min zero retry_max base h = ground arith
grow-min (suc n) retry_max base h = elim (Bool-cases (ltb base retry_max)) [
  | inr large ↦ let p = mul_le base 1 (2 ^ suc n) (pow_positive (suc n)) in rw large (ground arith)
  | inl small ↦
      let d = double_pow base n in
      let r = grow-min n retry_max (min retry_max (base * 2)) (ground arith) in
      rw small (r ∙ capped n retry_max base)
]

stays_below : (base jitter : ℕ) → jitter ≤ 200 → base * jitter / 1000 ≤ base / 5
stays_below base jitter h = let p = mul_le base jitter 200 h in omega arith

accepted_interval :
    (retry_initial retry_max : ℕ) (interval : DeliveryInterval)
    → make_interval retry_initial retry_max ≡ ok interval
    → (retry_initial ≤ retry_max)
      × (interval.retry_initial ≡ retry_initial)
      × (interval.retry_max ≡ retry_max)
unfolding make_interval
accepted_interval retry_initial retry_max interval h = ground arith

-- The jitter adds at most a fifth.
delay_of_base :
    (base hash : ℕ)
    → (base * 1000 ≤ base * 1000 + base * 1000 * (hash % 201) / 1000)
      × (base * 1000 + base * 1000 * (hash % 201) / 1000 ≤ base * 1200)
delay_of_base base hash =
    let p = stays_below (base * 1000) (hash % 201) (omega arith) in (omega arith, omega arith)

grow_interval :
    (retry_initial retry_max n : ℕ) (interval : DeliveryInterval)
    → make_interval retry_initial retry_max ≡ ok interval
    → grow n interval.retry_max interval.retry_initial ≡ min retry_max (retry_initial * 2 ^ n)
grow_interval retry_initial retry_max n interval h =
    let (le, a, b) = accepted_interval retry_initial retry_max interval h in
    rw (a, b) (grow-min n retry_max retry_initial le)

-- With an interval that the constructor accepts, the delay for the attempt n + 1 lies between
-- min(maximum, initial * 2^n) seconds and 1.2 times that, in milliseconds; so it is at least the
-- initial interval and at most 1.2 times the maximal one.
pub retry_delay_bounds :
    (retry_initial retry_max : ℕ) (interval : DeliveryInterval) (key : Text) (n : ℕ)
    → make_interval retry_initial retry_max ≡ ok interval
    → (min retry_max (retry_initial * 2 ^ n) * 1000 ≤ retry_delay interval key (suc n))
      × (retry_delay interval key (suc n) ≤ min retry_max (retry_initial * 2 ^ n) * 1200)
      × (retry_initial * 1000 ≤ retry_delay interval key (suc n))
      × (retry_delay interval key (suc n) ≤ retry_max * 1200)
unfolding retry_delay
retry_delay_bounds retry_initial retry_max interval key n h =
    let (le, _, _) = accepted_interval retry_initial retry_max interval h in
    let base = grow n interval.retry_max interval.retry_initial in
    let e = grow_interval retry_initial retry_max n interval h in
    let (low, high) = delay_of_base base (stable_hash (key ++ 10 ∷ to_decimal (suc n))) in
    let p = mul_le retry_initial 1 (2 ^ n) (pow_positive n) in
    (ground arith, ground arith, ground arith, ground arith)
