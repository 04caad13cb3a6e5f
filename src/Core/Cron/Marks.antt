-- ===== src/Core/Cron/Marks.antt =====
-- The loop of `CronSchedule::parse` that marks `first`, `first + step`, … up to the maximum.
use native.Mathlib.Nat.{mod-eq_of_lt, mod-eq-sub-mod}
use native.Mathlib.Decide.{dec_lt, dec_le}
use lab_bridge.Prelude.{
  ℕ, zero, suc, ◌+◌, ◌-◌, ◌%◌, ◌≤◌, ◌<◌, ◌≡◌, refl, ◌∙◌, Bool, true, false, ◌&&◌, ◌||◌, List, [],
  ◌∷◌, length, get_or, set, length-set, get_or-replicate, arith, leb, ◌==◌,
}
use lab_bridge.Core.Cron.{mark, mark_all, mark_one, no_values}

-- i is one of first, first + step, … up to the maximum
abbrev pub in_steps : ℕ → ℕ → ℕ → ℕ → Bool
in_steps first step maximum i = leb first i && (leb i maximum && (i - first) % step == 0)

or_false : (b : Bool) → (b || false) ≡ b
or_false b = ground arith

get_or-set :
    (bits : List Bool) (i j : ℕ)
    → j < length bits
    → get_or (set bits j true) i false ≡ (j == i || get_or bits i false)
get_or-set [] i j h = elim h [ ]
get_or-set (b ∷ bits) zero zero h = refl
get_or-set (b ∷ bits) (suc i) zero h = ground arith
get_or-set (b ∷ bits) zero (suc j) h = ground arith
get_or-set (b ∷ bits) (suc i) (suc j) h = ground (arith, get_or-set bits i j)

in_steps_next :
    (first step maximum i : ℕ)
    → 1 ≤ step
    → first ≤ maximum
    → (first == i || in_steps (first + step) step maximum i) ≡ in_steps first step maximum i
in_steps_next first step maximum i h k = elim (dec_lt i (first + step)) [
  | yes below ↦ elim (dec_le first i) [
    | yes above ↦ ground (arith, mod-eq_of_lt (let q : i - first < step = omega arith in q))
    | no under ↦ ground arith
  ]
  | no above ↦ ground (arith, mod-eq-sub-mod (let q : step ≤ i - first = omega arith in q))
]

pub get_or-mark :
    (fuel first step maximum : ℕ) (bits : List Bool) (i : ℕ)
    → 1 ≤ step
    → maximum < first + fuel
    → maximum < length bits
    → get_or (mark fuel first step maximum bits) i false
      ≡ (in_steps first step maximum i || get_or bits i false)
unfolding mark
get_or-mark zero first step maximum bits i h f b = ground arith
get_or-mark (suc fuel) first step maximum bits i h f b = elim (dec_lt maximum first) [
  | yes done ↦ ground arith
  | no more ↦ ground (
    arith,
    get_or-mark fuel (first + step) step maximum (set bits first true) i h (omega arith)
        (rw length-set b),
    get_or-set bits i first,
    in_steps_next first step maximum i h (omega arith),
  )
]

length-no_values : length no_values ≡ 60
unfolding no_values
length-no_values = refl

get_or-no_values : (i : ℕ) → get_or no_values i false ≡ false
unfolding no_values
get_or-no_values i = get_or-replicate 60 i false

-- A field that is marked from its minimum accepts every step of it, and nothing else.
pub get_or-mark_all :
    (minimum maximum step i : ℕ)
    → 1 ≤ step
    → maximum < 60
    → get_or (mark_all minimum maximum step).accepted i false ≡ in_steps minimum step maximum i
unfolding mark_all
get_or-mark_all minimum maximum step i h b =
    get_or-mark (maximum + 1) minimum step maximum no_values i h (omega arith)
      (omega (arith, length-no_values))
    ∙ rw get_or-no_values (or_false (in_steps minimum step maximum i))

pub get_or-mark_one :
    (minimum maximum value i : ℕ)
    → value < 60
    → get_or (mark_one minimum maximum value).accepted i false ≡ (value == i)
unfolding mark_one
get_or-mark_one minimum maximum value i b =
    get_or-set no_values i value (omega (arith, length-no_values))
    ∙ rw get_or-no_values (or_false (value == i))
