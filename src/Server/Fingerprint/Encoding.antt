-- ===== src/Server/Fingerprint/Encoding.antt =====
-- agent_report_service.cpp, `FingerprintBuilder`: the canonical text determines the values, and
-- the hexadecimal text the digest.
use mathlib.Core.List.{append_assoc, append-nil}
use lab_bridge.Prelude.{
  subst, Option, some, ◌≢◌, ◌⊎◌, inl, inr, ok, Option-cases, Bool-cases, text_eq, text_eq_sound,
  text_eq_refl, ℕ, suc, ◌/◌, ◌%◌, ◌<◌, ◌≡◌, refl, sym, ap, ◌∙◌, true, false, List, [], ◌∷◌, ◌++◌,
  map, Text, length, all, All, is_digit, to_decimal, to_decimal_inj, to_decimal-digits, arith,
}
use lab_bridge.Prelude.Int.{ℤ, pos, negsuc}
use lab_bridge.Server.Fingerprint.{
  signed_decimal, append, append_all, hex_text, hex_digit, each, count, or_default, finish,
}

-- Digits end where a byte stands that is none.
digits_split :
    (a b : Text) (c : ℕ) (s t : Text)
    → all is_digit a ≡ true
    → all is_digit b ≡ true
    → is_digit c ≡ false
    → a ++ c ∷ s ≡ b ++ c ∷ t
    → (a ≡ b) × (s ≡ t)
digits_split [] [] c s t _ _ _ e = (refl, cc)
digits_split [] (y ∷ b) c s t _ hb hc e = ground arith
digits_split (x ∷ a) [] c s t ha _ hc e = ground arith
digits_split (x ∷ a) (y ∷ b) c s t ha hb hc e = ground (arith, digits_split a b c s t)

append_split : (v w s t : Text) → length v ≡ length w → v ++ s ≡ w ++ t → (v ≡ w) × (s ≡ t)
append_split [] [] s t _ e = (refl, e)
append_split [] (y ∷ w) s t h e = ground arith
append_split (x ∷ v) [] s t h e = ground arith
append_split (x ∷ v) (y ∷ w) s t h e = ground (arith, append_split v w s t)

-- A printed natural number does not begin with the sign.
no_sign : (m : ℕ) (s : Text) → ¬ (to_decimal m ≡ b'-' ∷ s)
no_sign m s e =
    let h = to_decimal-digits m in let h' = subst (λ t. all is_digit t ≡ true) e h in ground arith

pub signed_decimal-inj : (m n : ℤ) → signed_decimal m ≡ signed_decimal n → m ≡ n
unfolding signed_decimal
signed_decimal-inj (pos m) (pos n) e = ap pos (to_decimal_inj m n e)
signed_decimal-inj (pos m) (negsuc n) e = elim (no_sign m (to_decimal (suc n)) e) [ ]
signed_decimal-inj (negsuc m) (pos n) e = elim (no_sign n (to_decimal (suc m)) (sym e)) [ ]
signed_decimal-inj (negsuc m) (negsuc n) e =
    let h = to_decimal_inj (suc m) (suc n) cc in ap negsuc (omega arith)

-- One encoded value ends where its length says.
append_inj :
    (v w s t : Text)
    → to_decimal (length v) ++ b':' ∷ (v ++ s) ≡ to_decimal (length w) ++ b':' ∷ (w ++ t)
    → (v ≡ w) × (s ≡ t)
append_inj v w s t e =
    let (lengths, rest) =
      digits_split (to_decimal (length v)) (to_decimal (length w)) b':' (v ++ s) (w ++ t)
        (to_decimal-digits (length v)) (to_decimal-digits (length w)) refl e in
    append_split v w s t (to_decimal_inj (length v) (length w) lengths) rest

-- The text that the values add, whatever was there.
encoded : List Text → Text
encoded [] = []
encoded (value ∷ values) = to_decimal (length value) ++ b':' ∷ (value ++ encoded values)

append_all-encoded : (s : Text) (values : List Text) → append_all s values ≡ s ++ encoded values
unfolding append_all append encoded
append_all-encoded s [] = sym (append-nil s)
append_all-encoded s (v ∷ values) =
    let d = to_decimal (length v) in
    append_all-encoded (s ++ d ++ b':' ∷ v) values
    ∙ append_assoc (s ++ d) (b':' ∷ v) (encoded values)
    ∙ append_assoc s d (b':' ∷ (v ++ encoded values))

encoded_nonempty : (a : Text) (c : ℕ) (s : Text) → ¬ (a ++ c ∷ s ≡ [])
encoded_nonempty [] c s e = ground arith
encoded_nonempty (x ∷ a) c s e = ground arith

encoded_inj : (vs ws : List Text) → encoded vs ≡ encoded ws → vs ≡ ws
unfolding encoded
encoded_inj [] [] e = refl
encoded_inj [] (w ∷ ws) e =
    elim (encoded_nonempty (to_decimal (length w)) b':' (w ++ encoded ws) (sym e)) [ ]
encoded_inj (v ∷ vs) [] e =
    elim (encoded_nonempty (to_decimal (length v)) b':' (v ++ encoded vs) e) [ ]
encoded_inj (v ∷ vs) (w ∷ ws) e =
    let (h, r) = append_inj v w (encoded vs) (encoded ws) e in let r' = encoded_inj vs ws r in cc

-- The canonical text determines the values and their order.
pub append_all-inj : (vs ws : List Text) → append_all [] vs ≡ append_all [] ws → vs ≡ ws
append_all-inj vs ws e =
    encoded_inj vs ws (sym (append_all-encoded [] vs) ∙ e ∙ append_all-encoded [] ws)

-- A counted sequence determines its elements, up to `normal`, where each element's values do.
pub each_inj {ℓ} :
    {A : Type ℓ} (values : A → List Text) (normal : A → A)
    → ((x y : A) (s t : List Text)
        → values x ++ s ≡ values y ++ t
        → (normal x ≡ normal y) × (s ≡ t))
    → (xs ys : List A) (s t : List Text) → length xs ≡ length ys
    → each values xs ++ s ≡ each values ys ++ t
    → (map normal xs ≡ map normal ys) × (s ≡ t)
each_inj values normal one [] [] s t h e = (refl, e)
each_inj values normal one [] (y ∷ ys) s t h e = ground arith
each_inj values normal one (x ∷ xs) [] s t h e = ground arith
each_inj values normal one (x ∷ xs) (y ∷ ys) s t h e =
    let (p, r) = one x y (each values xs ++ s) (each values ys ++ t) (
      sym (append_assoc (values x) (each values xs) s)
      ∙ e
      ∙ append_assoc (values y) (each values ys) t) in
    let (q, u) = each_inj values normal one xs ys s t (omega arith) r in (cc, u)

pub each_inj_all {ℓ} :
    {A : Type ℓ} (values : A → List Text) (normal : A → A)
    → ((x y : A) (s t : List Text)
        → values x ++ s ≡ values y ++ t
        → (normal x ≡ normal y) × (s ≡ t))
    → (xs ys : List A) → length xs ≡ length ys
    → each values xs ≡ each values ys
    → map normal xs ≡ map normal ys
each_inj_all values normal one xs ys h e =
    let (p, _) =
      each_inj values normal one xs ys [] [] h
        (append-nil (each values xs) ∙ e ∙ sym (append-nil (each values ys))) in
    p

pub each-normal {ℓ} :
    {A : Type ℓ} (values : A → List Text) (normal : A → A)
    → ((x : A) → values (normal x) ≡ values x)
    → (xs : List A) → each values (map normal xs) ≡ each values xs
each-normal values normal same [] = refl
each-normal values normal same (x ∷ xs) = rw (same x, each-normal values normal same xs) refl

pub length-map {ℓ κ} :
    {A : Type ℓ} {B : Type κ} (f : A → B) (xs : List A) → length (map f xs) ≡ length xs
length-map f [] = refl
length-map f (x ∷ xs) = ap suc (length-map f xs)

pub count-inj {ℓ} : {A : Type ℓ} (xs ys : List A) → count xs ≡ count ys → length xs ≡ length ys
count-inj xs ys e = let h = signed_decimal-inj (pos (length xs)) (pos (length ys)) e in cc

pub or_default_idem : (s d : Text) → or_default (or_default s d) d ≡ or_default s d
unfolding or_default
or_default_idem [] [] = refl
or_default_idem [] (c ∷ d) = refl
or_default_idem (c ∷ s) d = refl

hex_digit_inj : (m n : ℕ) → m < 16 → n < 16 → hex_digit m ≡ hex_digit n → m ≡ n
hex_digit_inj m n hm hn e = ground arith

nibbles_inj : (x y : ℕ) → x / 16 ≡ y / 16 → x % 16 ≡ y % 16 → x ≡ y
nibbles_inj x y h l = omega arith

-- Bytes are read back from their hexadecimal text.
pub hex_text-inj :
    (a b : Text) → All (λ c. c < 256) a → All (λ c. c < 256) b → hex_text a ≡ hex_text b → a ≡ b
unfolding hex_text
hex_text-inj [] [] _ _ e = refl
hex_text-inj [] (y ∷ b) _ _ e = ground arith
hex_text-inj (x ∷ a) [] _ _ e = ground arith
hex_text-inj (x ∷ a) (y ∷ b) (hx, ha) (hy, hb) e =
    let high = hex_digit_inj (x / 16) (y / 16) (omega arith) (omega arith) cc in
    let low = hex_digit_inj (x % 16) (y % 16) (omega arith) (omega arith) cc in
    let same = hex_text-inj a b ha hb cc in let here = nibbles_inj x y high low in cc

-- The digest behind a fingerprint.
finish-digest :
    (sha256 : Text → Option Text) (s f : Text)
    → finish sha256 s ≡ ok f
    → (d : Text) × (sha256 s ≡ some d) × (hex_text d ≡ f)
unfolding finish
finish-digest sha256 s f h = elim (Option-cases (sha256 s)) [
  | inl e ↦ ground arith
  | inr (d, e) ↦ (d, e, ground arith)
]

text_neq : (s t : Text) → text_eq s t ≡ false → s ≢ t
text_neq s t h e =
    let p = text_eq_refl t in let q = subst (λ x. text_eq x t ≡ false) e h in ground arith

module _ (sha256 : Text → Option Text)
    (is_bytes : (s d : Text) → sha256 s ≡ some d → All (λ c. c < 256) d) where
  same_digest :
      (s t f : Text) → finish sha256 s ≡ ok f → finish sha256 t ≡ ok f → sha256 s ≡ sha256 t
  same_digest s t f hs ht =
      let (d, ed, ef) = finish-digest sha256 s f hs in
      let (d', ed', ef') = finish-digest sha256 t f ht in
      let same = hex_text-inj d d' (is_bytes s d ed) (is_bytes t d' ed') cc in cc

  -- Equal fingerprints come from equal values, or the two canonical texts differ and collide.
  pub finish-inj :
      (vs ws : List Text) (f : Text)
      → finish sha256 (append_all [] vs) ≡ ok f
      → finish sha256 (append_all [] ws) ≡ ok f
      → (vs ≡ ws)
        ⊎ ((append_all [] vs ≢ append_all [] ws)
            × (sha256 (append_all [] vs) ≡ sha256 (append_all [] ws)))
  finish-inj vs ws f hv hw =
      let s = append_all [] vs in
      let t = append_all [] ws in
      elim (Bool-cases (text_eq s t)) [
        | inl e ↦ inl (append_all-inj vs ws (text_eq_sound s t e))
        | inr e ↦ inr (text_neq s t e, same_digest s t f hv hw)
      ]
