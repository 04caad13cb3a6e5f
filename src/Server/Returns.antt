-- ===== src/Server/Returns.antt =====
-- A postcondition of the calls of the services and repositories: nothing where a call throws, and
-- otherwise a property of what it returns and of the table behind it; with a rule for each form of a
-- call.
use lab_bridge.Prelude.{
  subst, ◌≡◌, refl, Bool, true, false, not, Option, none, some, Outcome, ok, err, ◌>>=◌,
  if◌then◌else◌,
}
use lab_bridge.Server.Status.{Status, StatusCode, success, failure}

pub data Returns {E S A : Type 0} (P : A → S → Type 0) : Outcome E (A × S) → Type 0 where
  threw : {e : E} → Returns P (err e)
  returned : {r : A} {table' : S} → P r table' → Returns P (ok (r, table'))

module _ {E S A : Type 0} {P : A → S → Type 0} where
  pub returns_ok : (r : A) (table' : S) → Returns {E = E} P (ok (r, table')) → P r table'
  returns_ok r table' (returned p) = p

  -- What a call returned satisfies it.
  pub Returns-ok :
      (m : Outcome E (A × S)) (r : A) (table' : S) → Returns P m → m ≡ ok (r, table') → P r table'
  Returns-ok m r table' p e = returns_ok r table' (subst (Returns P) e p)

  pub Returns-weaken :
      {Q : A → S → Type 0} (m : Outcome E (A × S))
      → ((r : A) (table' : S) → P r table' → Q r table')
      → Returns P m
      → Returns Q m
  Returns-weaken m f threw = threw
  Returns-weaken m f (returned {r} {table'} p) = returned (f r table' p)

  pub if-Returns :
      (b : Bool) {x y : Outcome E (A × S)}
      → Returns P x
      → Returns P y
      → Returns P (if b then x else y)
  if-Returns true p q = p
  if-Returns false p q = q

  -- The branches, knowing the test.
  pub test-Returns :
      (b : Bool) {x y : Outcome E (A × S)}
      → (b ≡ true → Returns P x)
      → (b ≡ false → Returns P y)
      → Returns P (if b then x else y)
  test-Returns true p q = p refl
  test-Returns false p q = q refl

  pub not-Returns :
      (b : Bool) {x y : Outcome E (A × S)}
      → (b ≡ false → Returns P x)
      → (b ≡ true → Returns P y)
      → Returns P (if not b then x else y)
  not-Returns true p q = q refl
  not-Returns false p q = p refl

  pub write-Returns :
      (m : Outcome E S) (a : A)
      → ((table' : S) → m ≡ ok table' → P a table')
      → Returns P (m >>= λ table'. ok (a, table'))
  write-Returns (ok table') a q = returned (q table' refl)
  write-Returns (err e) a q = threw

module _ {E S A B : Type 0} {P : A → S → Type 0} where
  pub option-Returns :
      (o : Option B) {n : Outcome E (A × S)} {s : B → Outcome E (A × S)}
      → Returns P n
      → ((b : B) → Returns P (s b))
      → Returns P (elim o [ none ↦ n | some b ↦ s b ])
  option-Returns none p q = p
  option-Returns (some b) p q = q b

  -- The same with the cases in the other order, and knowing the case.
  pub refusal-Returns :
      (o : Option B) {n : Outcome E (A × S)} {s : B → Outcome E (A × S)}
      → ((b : B) → o ≡ some b → Returns P (s b))
      → (o ≡ none → Returns P n)
      → Returns P (elim o [ some b ↦ s b | none ↦ n ])
  refusal-Returns none p q = q refl
  refusal-Returns (some b) p q = p b refl

  pub read-Returns :
      (m : Outcome E B) {next : B → Outcome E (A × S)}
      → ((b : B) → m ≡ ok b → Returns P (next b))
      → Returns P (m >>= next)
  read-Returns (ok b) q = q b refl
  read-Returns (err e) q = threw

  -- A last call whose result is wrapped.
  pub then-Returns :
      (m : Outcome E (B × S)) (wrap : B → A)
      → Returns (λ b table'. P (wrap b) table') m
      → Returns P (m >>= λ (b, table'). ok (wrap b, table'))
  then-Returns (ok (b, table')) wrap p = returned (returns_ok b table' p)
  then-Returns (err e) wrap p = threw

  -- A call whose result goes on, with the table behind it.
  pub bind-Returns :
      (m : Outcome E (B × S)) (next : B × S → Outcome E (A × S))
      → ((b : B) (table' : S) → m ≡ ok (b, table') → Returns P (next (b, table')))
      → Returns P (m >>= next)
  bind-Returns (ok (b, table')) next q = q b table' refl
  bind-Returns (err e) next q = threw

module _ {E S A F B : Type 0} {P : A → S → Type 0} where
  pub outcome-Returns :
      (o : Outcome F B) {x : F → Outcome E (A × S)} {y : B → Outcome E (A × S)}
      → ((e : F) → Returns P (x e))
      → ((b : B) → Returns P (y b))
      → Returns P (elim o [ err e ↦ x e | ok b ↦ y b ])
  outcome-Returns (err e) p q = p e
  outcome-Returns (ok b) p q = q b

module _ {E S A M : Type 0} {P : A → S → Type 0} where
  pub status-Returns :
      (status : Status M) {x : StatusCode → M → Outcome E (A × S)} {y : Outcome E (A × S)}
      → ((code : StatusCode) (message : M) → Returns P (x code message))
      → Returns P y
      → Returns P (elim status [ failure code message ↦ x code message | success ↦ y ])
  status-Returns success p q = q
  status-Returns (failure code message) p q = p code message

  -- The same, knowing that the check passed.
  pub checked-Returns :
      (status : Status M) {x : StatusCode → M → Outcome E (A × S)} {y : Outcome E (A × S)}
      → ((code : StatusCode) (message : M) → Returns P (x code message))
      → (status ≡ success → Returns P y)
      → Returns P (elim status [ failure code message ↦ x code message | success ↦ y ])
  checked-Returns (failure code message) p q = p code message
  checked-Returns success p q = q refl
