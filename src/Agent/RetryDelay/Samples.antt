-- ===== src/Agent/RetryDelay/Samples.antt =====
-- Tests of the delay, and the theorem at a concrete input.
use lab_bridge.Prelude.{◌*◌, ◌^◌, ◌≤◌, ◌≡◌, refl, min, ok, err, codes}
use lab_bridge.Agent.RetryDelay.{
  DeliveryInterval, invalid_interval, make_interval, retry_delay, grow, stable_hash, hash_from,
}
use lab_bridge.Agent.RetryDelay.Bounds.{retry_delay_bounds}

abbrev interval : DeliveryInterval
interval = record { retry_initial = 2; retry_max = 300 }

accepted : make_interval 2 300 ≡ ok interval
unfolding make_interval
accepted = refl

refused : make_interval 5 4 ≡ err invalid_interval
unfolding make_interval
refused = refl

capped_base : grow 9 300 2 ≡ 300
unfolding grow
capped_base = refl

-- The FNV-1a hash of "a" with this basis.
hash_of_a : stable_hash (codes "a") ≡ 4953267810257967366
unfolding stable_hash hash_from
hash_of_a = refl

retry_delay_bounds_example :
    (min 300 (2 * 2 ^ 3) * 1000 ≤ retry_delay interval (codes "k") 4)
    × (retry_delay interval (codes "k") 4 ≤ min 300 (2 * 2 ^ 3) * 1200)
    × (2 * 1000 ≤ retry_delay interval (codes "k") 4)
    × (retry_delay interval (codes "k") 4 ≤ 300 * 1200)
retry_delay_bounds_example = retry_delay_bounds 2 300 interval (codes "k") 3 accepted
