-- ===== src/Agent/RetryDelay.antt =====
-- agent/src/execution/reliable_delivery_client.cpp: how long a delivery waits before it is tried
-- again. Durations are numbers of seconds and milliseconds; the attempts of a delivery are counted
-- from 1.
pub mod Bounds
mod Samples
use Prim.Native.Nat.{bit_xor}
use lab_bridge.Prelude.{
  ℕ, zero, suc, ◌+◌, ◌-◌, ◌*◌, ◌/◌, ◌%◌, ◌^◌, min, ◌||◌, true, false, List, [], ◌∷◌, ◌++◌, Outcome,
  ok, err, Text, to_decimal, ltb, ◌==◌, if◌then◌else◌,
}

-- The loop of `stable_hash`, on 64 bits.
unfoldable pub hash_from : ℕ → Text → ℕ
hash_from hash [] = hash
hash_from hash (ch ∷ value) = hash_from (bit_xor hash ch * 1099511628211 % 2 ^ 64) value

unfoldable pub stable_hash : Text → ℕ
stable_hash value = hash_from 1469598103934665603 value

pub record DeliveryInterval : Type 0 where
  pub retry_initial : ℕ
  pub retry_max : ℕ

pub data IntervalError : Type 0 where
  invalid_interval : IntervalError

-- The check of the interval in the constructor.
unfoldable pub make_interval : ℕ → ℕ → Outcome IntervalError DeliveryInterval
make_interval retry_initial retry_max =
    if retry_initial == 0 || ltb retry_max retry_initial
    then err invalid_interval
    else ok (record { retry_initial = retry_initial; retry_max = retry_max })

-- The loop of `retry_delay`, with its remaining rounds.
unfoldable pub grow : ℕ → ℕ → ℕ → ℕ
grow zero retry_max base = base
grow (suc rounds) retry_max base =
    let rest = grow rounds retry_max (min retry_max (base * 2)) in
    if ltb base retry_max then rest else base

-- std::chrono::milliseconds of `retry_delay`
unfoldable pub retry_delay : DeliveryInterval → Text → ℕ → ℕ
retry_delay interval key attempt =
    let base = grow (attempt - 1) interval.retry_max interval.retry_initial in
    let base_ms = base * 1000 in
    let jitter = stable_hash (key ++ 10 ∷ to_decimal attempt) % 201 in
    base_ms + base_ms * jitter / 1000
