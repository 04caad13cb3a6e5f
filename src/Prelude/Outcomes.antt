-- ===== src/Prelude/Outcomes.antt =====
-- A value, or the error that the code throws or reports in its place.
use mathlib.Core.Path.{◌≡◌, refl}

pub data Outcome (E A : Type 0) : Type 0 where
  ok : A → Outcome E A
  err : E → Outcome E A

module _ {E A B : Type 0} where
  infixl 5 ◌>>=◌
  abbrev pub ◌>>=◌ : Outcome E A → (A → Outcome E B) → Outcome E B
  ◌>>=◌ m next = elim m [ ok a ↦ next a | err e ↦ err e ]

  -- Both parts of a chain that ends well have ended well.
  pub bind-ok :
      (next : A → Outcome E B) {b : B} (m : Outcome E A)
      → (m >>= next) ≡ ok b
      → record { value : A; first : m ≡ ok value; second : next value ≡ ok b }
  bind-ok next (ok a) h = record { value = a; first = refl; second = h }
  bind-ok next (err e) h = cc
