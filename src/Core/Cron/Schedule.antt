-- ===== src/Core/Cron/Schedule.antt =====
-- Whole expressions: the split into words, and the instants that a parsed schedule matches.
use mathlib.Core.List.{append-nil, append_assoc}
use lab_bridge.Prelude.{
  ok, bind-ok, not, ℕ, zero, suc, ◌+◌, ◌<◌, ◌≡◌, refl, sym, ap, subst, ◌∙◌, Bool, true, false, ◌&&◌,
  List, [], ◌∷◌, ◌++◌, Text, empty, is_space, length, get_or, All, arith,
}
use lab_bridge.Core.Cron.{
  Field, CronSchedule, split_from, push_field, split_fields, minimums, maximums, parse_field,
  parse_fields, parse, Tm, parts, matches_parts, matches, second_ns,
}
use lab_bridge.Prelude.Int.{ℤ, div_trunc}
use lab_bridge.Core.Cron.Fields.{Form, Reads, denotes, parse_field-Reads}

-- Each word reads as the form beside it, between the bounds of its place.
pub data AllRead : ℕ → List Text → List Form → Type 0 where
  nil : (index : ℕ) → AllRead index [] []
  cons :
      {index : ℕ} {word : Text} {form : Form} {words : List Text} {forms : List Form}
      → Reads (get_or minimums index 0) (get_or maximums index 0) word form
      → AllRead (index + 1) words forms
      → AllRead index (word ∷ words) (form ∷ forms)

abbrev pub denote_all : ℕ → List Form → List ℕ → Bool
denote_all index [] parts = true
denote_all index (form ∷ forms) [] = true
denote_all index (form ∷ forms) (part ∷ parts) =
    denotes form (get_or minimums index 0) (get_or maximums index 0) part
    && denote_all (index + 1) forms parts

maximum_bound : (index : ℕ) → get_or maximums index 0 < 60
maximum_bound zero = omega arith
maximum_bound (suc zero) = omega arith
maximum_bound (suc (suc zero)) = omega arith
maximum_bound (suc (suc (suc zero))) = omega arith
maximum_bound (suc (suc (suc (suc zero)))) = omega arith
maximum_bound (suc (suc (suc (suc (suc n))))) = omega arith

same_cons :
    (index : ℕ) (field : Field) (fields : CronSchedule) (form : Form) (forms : List Form)
    → ((i : ℕ)
        → get_or field.accepted i false
          ≡ denotes form (get_or minimums index 0) (get_or maximums index 0) i)
    → ((values : List ℕ) → matches_parts fields values ≡ denote_all (index + 1) forms values)
    → (values : List ℕ)
    → matches_parts (field ∷ fields) values ≡ denote_all index (form ∷ forms) values
unfolding matches_parts
same_cons index field fields form forms accepts same [] = refl
same_cons index field fields form forms accepts same (v ∷ values) = rw (accepts v, same values)

parse_fields-AllRead :
    (index : ℕ) (words : List Text) (schedule : CronSchedule)
    → parse_fields index words ≡ ok schedule
    → (forms : List Form) × AllRead index words forms
      × ((values : List ℕ) → matches_parts schedule values ≡ denote_all index forms values)
unfolding parse_fields matches_parts
parse_fields-AllRead index [] schedule h =
    let e : [] ≡ schedule = cc in ([], nil index, λ values. rw (← e))
parse_fields-AllRead index (word ∷ words) schedule h =
    let record { value = field; first = p; second = q } =
      bind-ok _ (parse_field index _ _ word) h in
    let record { value = fields; first = p'; second = q' } =
      bind-ok (λ rest. ok (field ∷ rest)) (parse_fields (index + 1) words) q in
    let (form, reads, accepts) = parse_field-Reads index _ _ word field (maximum_bound index) p in
    let (forms, all, same) = parse_fields-AllRead (index + 1) words fields p' in
    let e : field ∷ fields ≡ schedule = cc in
    (
      form ∷ forms,
      cons reads all,
      subst
          (λ s. (values : List ℕ) → matches_parts s values ≡ denote_all index (form ∷ forms) values)
          e (same_cons index field fields form forms accepts same),
    )

module _ (gmtime : ℤ → Tm) where
  -- An expression that is accepted has exactly five words, each of which reads as `*`, `*/N` or a
  -- number in the range of its place, and the schedule matches exactly the instants whose UTC
  -- minute, hour, day, month and weekday all are among what these forms denote.
  pub parse-matches :
      (expression : Text) (schedule : CronSchedule)
      → parse expression ≡ ok schedule
      → (forms : List Form) × (length (split_fields expression) ≡ 5)
        × AllRead 0 (split_fields expression) forms
        × ((time : ℤ)
            → matches gmtime schedule time
              ≡ denote_all 0 forms (parts (gmtime (div_trunc time second_ns))))
  unfolding parse matches
  parse-matches expression schedule h =
      let (forms, all, same) =
        parse_fields-AllRead 0 (split_fields expression) schedule (ground arith) in
      (forms, ground arith, all, λ time. same _)

abbrev pub no_blanks : Text → Bool
no_blanks [] = true
no_blanks (c ∷ s) = not (is_space c) && no_blanks s

-- Words, each followed by one blank.
abbrev pub spaced : List Text → Text
spaced [] = []
spaced (word ∷ words) = word ++ 32 ∷ spaced words

abbrev pub IsWord : Text → Type 0
IsWord word = (empty word ≡ false) × (no_blanks word ≡ true)

split_from-word :
    (fields : List Text) (current word rest : Text)
    → no_blanks word ≡ true
    → split_from fields current (word ++ rest) ≡ split_from fields (current ++ word) rest
unfolding split_from
split_from-word fields current [] rest h = rw append-nil
split_from-word fields current (c ∷ word) rest h =
    let q : is_space c ≡ false = ground arith in
    rw (q, split_from)
      (split_from-word fields (current ++ c ∷ []) word rest (ground arith)
        ∙ ap (λ t. split_from fields t rest) (append_assoc current (c ∷ []) word))

push_field-word :
    (fields : List Text) (word : Text)
    → empty word ≡ false
    → push_field fields word ≡ fields ++ word ∷ []
unfolding push_field
push_field-word fields word h = rw h

split_from-spaced :
    (fields words : List Text)
    → All IsWord words
    → split_from fields [] (spaced words) ≡ fields ++ words
unfolding split_from push_field
split_from-spaced fields [] h = sym (append-nil fields)
split_from-spaced fields (word ∷ words) h =
    split_from-word fields [] word (32 ∷ spaced words) h.0.1
    ∙ ap (λ f. split_from f [] (spaced words)) (push_field-word fields word h.0.0)
    ∙ split_from-spaced (fields ++ word ∷ []) words h.1
    ∙ append_assoc fields (word ∷ []) words

-- The words of an expression are found again, whatever they are, if each is followed by a blank.
pub split_fields-spaced :
    (words : List Text) → All IsWord words → split_fields (spaced words) ≡ words
unfolding split_fields
split_fields-spaced words h = split_from-spaced [] words h
