-- ===== src/Core/Cron/Fields.antt =====
-- What a field of a cron expression may say, and the values that it then accepts.
use lab_bridge.Prelude.{
  decimal_value, ok, ◌>>=◌, bind-ok, ℕ, ◌+◌, ◌-◌, ◌*◌, ◌≤◌, ◌<◌, ◌≡◌, refl, ap, inl, inr, Bool,
  true, false, ◌&&◌, [], ◌∷◌, ◌++◌, Text, codes, empty, text_eq, text_eq_sound, is_digit, all,
  length, get_or, take, drop, arith, ltb, leb, ◌==◌, Bool-cases, &&-true,
}
use lab_bridge.Core.Cron.{
  Field, decimal_from, parse_decimal, parse_field, mark_all, stepped_field, single_field, mark_one,
}
use lab_bridge.Core.Cron.Marks.{in_steps, get_or-mark_all, get_or-mark_one}

pub data Form : Type 0 where
  any : Form
  every : ℕ → Form
  exactly : ℕ → Form

abbrev pub denotes : Form → ℕ → ℕ → ℕ → Bool
denotes any minimum maximum i = leb minimum i && leb i maximum
denotes (every step) minimum maximum i = in_steps minimum step maximum i
denotes (exactly value) minimum maximum i = value == i

pub record IsNumber (text : Text) (n : ℕ) : Type 0 where
  pub nonempty : empty text ≡ false
  pub digits : all is_digit text ≡ true
  pub value : decimal_value 0 text ≡ n

-- The grammar of a field between its bounds: `*`, `*/N`, or a number.
pub data Reads (minimum maximum : ℕ) (text : Text) : Form → Type 0 where
  star : text ≡ codes "*" → Reads minimum maximum text any
  step :
      {n : ℕ} (number : Text)
      → text ≡ codes "*/" ++ number
      → IsNumber number n
      → 1 ≤ n
      → n ≤ maximum - minimum + 1
      → Reads minimum maximum text (every n)
  single :
      {n : ℕ} → IsNumber text n → minimum ≤ n → n ≤ maximum → Reads minimum maximum text (exactly n)

decimal_value_mono : (n : ℕ) (s : Text) → n ≤ decimal_value n s
decimal_value_mono n [] = omega arith
decimal_value_mono n (c ∷ s) = omega (arith, decimal_value_mono (n * 10 + (c - 48)) s)

decimal_from-eq-value :
    (name r n : ℕ) (s : Text) → decimal_from name r s ≡ ok n → decimal_value r s ≡ n
unfolding decimal_from
decimal_from-eq-value name r n [] h = ground arith
decimal_from-eq-value name r n (c ∷ s) h =
    ground (arith, decimal_from-eq-value name (r * 10 + (c - 48)) n s)

decimal_from-small :
    (name r : ℕ) (s : Text)
    → decimal_value r s ≤ 1000
    → decimal_from name r s ≡ ok (decimal_value r s)
unfolding decimal_from
decimal_from-small name r [] h = refl
decimal_from-small name r (c ∷ s) h =
    ground (
      arith,
      decimal_value_mono (r * 10 + (c - 48)) s,
      decimal_from-small name (r * 10 + (c - 48)) s,
    )

parse_decimal-IsNumber :
    (text : Text) (name n : ℕ) → parse_decimal text name ≡ ok n → IsNumber text n
unfolding parse_decimal
parse_decimal-IsNumber text name n h = ground (arith, decimal_from-eq-value name 0 n text)

IsNumber-parse_decimal :
    (text : Text) (name n : ℕ) → IsNumber text n → n ≤ 1000 → parse_decimal text name ≡ ok n
unfolding parse_decimal
IsNumber-parse_decimal text name n h small = ground (arith, decimal_from-small name 0 text)

decimal_from_bounded :
    (name r n : ℕ) (s : Text)
    → r ≤ 10009
    → all is_digit s ≡ true
    → decimal_from name r s ≡ ok n
    → n ≤ 10009
unfolding decimal_from
decimal_from_bounded name r n [] b d h = ground arith
decimal_from_bounded name r n (c ∷ s) b d h =
    ground (arith, decimal_from_bounded name (r * 10 + (c - 48)) n s)

-- The number that `parse_decimal` computes never passes 10009, so that it fits an `int`, however
-- long the text is.
pub parse_decimal_bounded : (text : Text) (name n : ℕ) → parse_decimal text name ≡ ok n → n ≤ 10009
unfolding parse_decimal
parse_decimal_bounded text name n h = ground (arith, decimal_from_bounded name 0 n text)

stepped_field-eq-ok :
    (name minimum maximum n : ℕ) (field : Field)
    → stepped_field name minimum maximum n ≡ ok field
    → (1 ≤ n) × (n ≤ maximum - minimum + 1) × (mark_all minimum maximum n ≡ field)
unfolding stepped_field
stepped_field-eq-ok name minimum maximum n field h = ground arith

single_field-eq-ok :
    (name minimum maximum n : ℕ) (field : Field)
    → single_field name minimum maximum n ≡ ok field
    → (minimum ≤ n) × (n ≤ maximum) × (mark_one minimum maximum n ≡ field)
unfolding single_field
single_field-eq-ok name minimum maximum n field h = ground arith

slash_prefix :
    (text : Text)
    → (ltb 2 (length text) && text_eq (take 2 text) (codes "*/")) ≡ true
    → text ≡ codes "*/" ++ drop 2 text
slash_prefix [] h = ground arith
slash_prefix (a ∷ []) h = ground arith
slash_prefix (a ∷ b ∷ s) h =
    ap (λ t. t ++ s) (text_eq_sound (a ∷ b ∷ []) (codes "*/") (&&-true _ _ h).1)

Accepts : ℕ → ℕ → Text → Field → Type 0
Accepts minimum maximum text field =
    (form : Form) × Reads minimum maximum text form
    × ((i : ℕ) → get_or field.accepted i false ≡ denotes form minimum maximum i)

module _ (name minimum maximum : ℕ) (text : Text) (field : Field) (b : maximum < 60) where
  star-Accepts :
      text_eq text (codes "*") ≡ true
      → mark_all minimum maximum 1 ≡ field
      → Accepts minimum maximum text field
  unfolding Accepts
  star-Accepts t e = (
    any,
    star (text_eq_sound text (codes "*") t),
    λ i. rw (← e) (ground (arith, get_or-mark_all minimum maximum 1 i (omega arith) b)),
  )

  step-Accepts :
      (ltb 2 (length text) && text_eq (take 2 text) (codes "*/")) ≡ true
      → (parse_decimal (drop 2 text) name >>= stepped_field name minimum maximum) ≡ ok field
      → Accepts minimum maximum text field
  unfolding Accepts
  step-Accepts t h =
      let record { value = n; first = p; second = q } =
        bind-ok (stepped_field name minimum maximum) (parse_decimal (drop 2 text) name) h in
      let (low, high, e) = stepped_field-eq-ok name minimum maximum n field q in
      (
        every n,
        step (drop 2 text) (slash_prefix text t) (parse_decimal-IsNumber (drop 2 text) name n p) low
            high,
        λ i. rw (← e) (get_or-mark_all minimum maximum n i low b),
      )

  single-Accepts :
      (parse_decimal text name >>= single_field name minimum maximum) ≡ ok field
      → Accepts minimum maximum text field
  unfolding Accepts
  single-Accepts h =
      let record { value = n; first = p; second = q } =
        bind-ok (single_field name minimum maximum) (parse_decimal text name) h in
      let (low, high, e) = single_field-eq-ok name minimum maximum n field q in
      (
        exactly n,
        single (parse_decimal-IsNumber text name n p) low high,
        λ i. rw (← e) (get_or-mark_one minimum maximum n i (omega arith)),
      )

-- A field that is accepted reads as `*`, `*/N` with 1 ≤ N ≤ the number of values, or a number in
-- range, and the values that it then accepts are exactly those that this form denotes.
pub parse_field-Reads :
    (name minimum maximum : ℕ) (text : Text) (field : Field)
    → maximum < 60
    → parse_field name minimum maximum text ≡ ok field
    → (form : Form) × Reads minimum maximum text form
      × ((i : ℕ) → get_or field.accepted i false ≡ denotes form minimum maximum i)
unfolding parse_field Accepts
parse_field-Reads name minimum maximum text field b h =
    elim (Bool-cases (text_eq text (codes "*"))) [
      | inl t ↦ star-Accepts name minimum maximum text field b t (ground arith)
      | inr u ↦ elim (Bool-cases (ltb 2 (length text) && text_eq (take 2 text) (codes "*/"))) [
        | inl t ↦ step-Accepts name minimum maximum text field b t (ground arith)
        | inr v ↦ single-Accepts name minimum maximum text field b (ground arith)
      ]
    ]

not_star :
    (text : Text)
    → empty text ≡ false
    → all is_digit text ≡ true
    → (text_eq text (codes "*") ≡ false)
      × ((ltb 2 (length text) && text_eq (take 2 text) (codes "*/")) ≡ false)
unfolding text_eq
not_star [] e d = ground arith
not_star (a ∷ []) e d = ground arith
not_star (a ∷ b ∷ s) e d = ground arith

-- Every text that reads as `*`, as `*/N` or as a number in the range of its place is accepted, for a
-- place whose maximum is below 60.
pub Reads-parse_field :
    (name minimum maximum : ℕ) (text : Text) (form : Form)
    → maximum < 60
    → Reads minimum maximum text form
    → (field : Field) × (parse_field name minimum maximum text ≡ ok field)
unfolding parse_field
Reads-parse_field name minimum maximum text form b (star e) =
    (mark_all minimum maximum 1, rw e refl)
Reads-parse_field name minimum maximum text form b (step {n} [] e i low high) = cc (i.nonempty)
Reads-parse_field name minimum maximum text form b (step {n} (c ∷ s) e i low high) = (
  mark_all minimum maximum n,
  rw e (ground (arith, IsNumber-parse_decimal (c ∷ s) name n i (omega arith))),
)
Reads-parse_field name minimum maximum text form b (single {n} i low high) = (
  mark_one minimum maximum n,
  ground (
    arith,
    not_star text i.nonempty i.digits,
    IsNumber-parse_decimal text name n i (omega arith),
  ),
)
