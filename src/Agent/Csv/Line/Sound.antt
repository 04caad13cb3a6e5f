-- ===== src/Agent/Csv/Line/Sound.antt =====
-- csv_parser.cpp, `parse_csv_line`: what is read without an error is a line of the grammar.
use mathlib.Core.List.{append_assoc, append-nil}
use lab_bridge.Prelude.{
  ℕ, ◌≢◌, ◌≡◌, refl, sym, ap, ◌∙◌, Bool, true, false, List, [], ◌∷◌, ◌++◌, Text, all, ◌==◌, arith,
  ok, err, Bool-cases, inl, inr, subst,
}
use lab_bridge.Agent.Csv.{
  quote_inside, content_after, LineError, FieldState, start, unquoted, quoted, quote_closed, Cursor,
  comma, quote, scan, step_in, doubled, finish_line, failed_line, push_byte, push_field, is_quoted,
  parse_csv_line,
}
use lab_bridge.Agent.Csv.Line.{
  is_plain, double_quotes, Written, plain, quoted_field, WrittenLine, last, more, line_of, at,
  doubled_at, scan_step, scan_pair, scan_fail,
}
use lab_bridge.Agent.Csv.Line.Complete.{not_doubled}

double_quotes-append : (s t : Text) → double_quotes (s ++ t) ≡ double_quotes s ++ double_quotes t
double_quotes-append [] t = refl
double_quotes-append (c ∷ s) t = ground (arith, double_quotes-append s t)

-- The text that the current field has taken.
abbrev consumed : FieldState → Text → Text
consumed start field = []
consumed unquoted field = field
consumed quoted field = quote ∷ double_quotes field
consumed quote_closed field = quote ∷ double_quotes field ++ quote ∷ []

abbrev Fits : FieldState → Text → Type 0
Fits start field = field ≡ []
Fits unquoted field = all is_plain field ≡ true
Fits quoted field = Unit {0}
Fits quote_closed field = Unit {0}

-- The fields beyond those of the cursor are a reading of the text from the current field on.
abbrev Reads : FieldState → List Text → Text → Text → List Text → Type 0
Reads state fields field text all_fields =
    (tail : List Text) × (all_fields ≡ fields ++ tail)
    × WrittenLine tail (consumed state field ++ text)

Written-current :
    (state : FieldState) (field : Text)
    → Fits state field
    → is_quoted state ≡ false
    → Written field (consumed state field)
unfolding is_quoted
Written-current start field w h = rw w (plain refl)
Written-current unquoted field w h = plain w
Written-current quoted field w h = cc
Written-current quote_closed field w h = quoted_field field refl

Reads-finish :
    (state : FieldState) (fields all_fields : List Text) (field : Text)
    → Fits state field
    → finish_line (at state fields field) ≡ line_of all_fields
    → Reads state fields field [] all_fields
unfolding finish_line
Reads-finish state fields all_fields field w h =
    let open_quote : is_quoted state ≡ false = ground arith in
    (field ∷ [], ground arith, rw append-nil (last (Written-current state field w open_quote)))

-- A comma ends the current field.
Reads-comma :
    (state : FieldState) (fields all_fields : List Text) (field rest : Text)
    → Fits state field
    → is_quoted state ≡ false
    → Reads start (fields ++ field ∷ []) [] rest all_fields
    → Reads state fields field (comma ∷ rest) all_fields
Reads-comma state fields all_fields field rest w q (tail, e, written) = (
  field ∷ tail,
  e ∙ append_assoc fields (field ∷ []) tail,
  more (Written-current state field w q) written refl,
)

-- A byte that joins the current field.
Reads-byte :
    (state state' : FieldState) (fields all_fields : List Text) (field field' : Text) (c : ℕ)
    (rest : Text)
    → consumed state' field' ≡ consumed state field ++ c ∷ []
    → Reads state' fields field' rest all_fields
    → Reads state fields field (c ∷ rest) all_fields
Reads-byte state state' fields all_fields field field' c rest same (tail, e, written) = (
  tail,
  e,
  subst (WrittenLine tail)
      (ap (λ t. t ++ rest) same ∙ append_assoc (consumed state field) (c ∷ []) rest) written,
)

double_quotes-snoc :
    (field : Text) (c : ℕ)
    → (c == quote) ≡ false
    → double_quotes (field ++ c ∷ []) ≡ double_quotes field ++ c ∷ []
double_quotes-snoc field c h = double_quotes-append field (c ∷ []) ∙ rw h

all-snoc :
    (p : ℕ → Bool) (s : Text) (c : ℕ) → all p s ≡ true → p c ≡ true → all p (s ++ c ∷ []) ≡ true
all-snoc p [] c h k = ground arith
all-snoc p (d ∷ s) c h k = ground (arith, all-snoc p s c)

failed-ne-line_of :
    (cur : Cursor) (error : LineError) (all_fields : List Text)
    → failed_line cur error ≢ line_of all_fields
unfolding failed_line
failed-ne-line_of cur error all_fields h = cc

module _ (all_fields : List Text) (rest : Text) where
  abbrev Sound : Type 0
  Sound =
      (state : FieldState) (fields : List Text) (field : Text)
      → Fits state field
      → scan (at state fields field) rest ≡ line_of all_fields
      → Reads state fields field rest all_fields

  module _ (sound : Sound) (fields : List Text) (field : Text) (c : ℕ) where
    -- The scan goes on from the cursor after the byte.
    on :
        (state : FieldState) (cur' : Cursor)
        → doubled_at (at state fields field) c rest ≡ false
        → step_in state (at state fields field) c ≡ ok cur'
        → scan (at state fields field) (c ∷ rest) ≡ line_of all_fields
        → scan cur' rest ≡ line_of all_fields
    on state cur' d e h = sym (scan_step (at state fields field) cur' c rest d e) ∙ h

    no_error :
        (state : FieldState) (error : LineError)
        → doubled_at (at state fields field) c rest ≡ false
        → step_in state (at state fields field) c ≡ err error
        → scan (at state fields field) (c ∷ rest) ≡ line_of all_fields
        → ⊥
    no_error state error d e h =
        failed-ne-line_of (at state fields field) error all_fields
          (sym (scan_fail (at state fields field) error c rest d e) ∙ h)

    comma_ends :
        (state : FieldState)
        → c ≡ comma
        → Fits state field
        → is_quoted state ≡ false
        → scan (at start (fields ++ field ∷ []) []) rest ≡ line_of all_fields
        → Reads state fields field (c ∷ rest) all_fields
    comma_ends state e w q h = rw e (
        Reads-comma state fields all_fields field rest w q
          (sound start (fields ++ field ∷ []) [] refl h))

    from_closed :
        scan (at quote_closed fields field) (c ∷ rest) ≡ line_of all_fields
        → Reads quote_closed fields field (c ∷ rest) all_fields
    unfolding step_in push_field
    from_closed h =
        let d = not_doubled (at quote_closed fields field) c rest (unfold is_quoted in refl) in
        elim (Bool-cases (c == comma)) [
          | inl e ↦
              comma_ends quote_closed (ground arith) tt (unfold is_quoted in refl)
                (on quote_closed (at start (fields ++ field ∷ []) []) d (ground arith) h)
          | inr n ↦ absurd (no_error quote_closed content_after d (ground arith) h)
        ]

    from_unquoted :
        all is_plain field ≡ true
        → scan (at unquoted fields field) (c ∷ rest) ≡ line_of all_fields
        → Reads unquoted fields field (c ∷ rest) all_fields
    unfolding step_in push_field push_byte
    from_unquoted w h =
        let d = not_doubled (at unquoted fields field) c rest (unfold is_quoted in refl) in
        elim (Bool-cases (c == comma)) [
          | inl e ↦
              comma_ends unquoted (ground arith) w (unfold is_quoted in refl)
                (on unquoted (at start (fields ++ field ∷ []) []) d (ground arith) h)
          | inr n ↦ elim (Bool-cases (c == quote)) [
            | inl q ↦ absurd (no_error unquoted quote_inside d (ground arith) h)
            | inr m ↦
                Reads-byte unquoted unquoted fields all_fields field (field ++ c ∷ []) c rest refl (
                  sound unquoted fields (field ++ c ∷ [])
                    (all-snoc is_plain field c w (ground arith))
                    (on unquoted (at unquoted fields (field ++ c ∷ [])) d (ground arith) h))
          ]
        ]

    from_start :
        field ≡ []
        → scan (at start fields field) (c ∷ rest) ≡ line_of all_fields
        → Reads start fields field (c ∷ rest) all_fields
    unfolding step_in push_byte
    from_start w h =
        let d = not_doubled (at start fields field) c rest (unfold is_quoted in refl) in
        elim (Bool-cases (c == comma)) [
          | inl e ↦
              comma_ends start (ground arith) w (unfold is_quoted in refl)
                (on start (at start (fields ++ field ∷ []) []) d (ground arith) h)
          | inr n ↦ elim (Bool-cases (c == quote)) [
            | inl q ↦ Reads-byte start quoted fields all_fields field field c rest (ground arith) (
                sound quoted fields field tt (on start (at quoted fields field) d (ground arith) h))
            | inr m ↦
                Reads-byte start unquoted fields all_fields field (field ++ c ∷ []) c rest
                  (rw w refl)
                  (sound unquoted fields (field ++ c ∷ []) (rw w (ground arith))
                    (on start (at unquoted fields (field ++ c ∷ [])) d (ground arith) h))
          ]
        ]

    from_quoted :
        doubled_at (at quoted fields field) c rest ≡ false
        → scan (at quoted fields field) (c ∷ rest) ≡ line_of all_fields
        → Reads quoted fields field (c ∷ rest) all_fields
    unfolding step_in push_byte
    from_quoted d h = elim (Bool-cases (c == quote)) [
      | inl q ↦ Reads-byte quoted quote_closed fields all_fields field field c rest (ground arith) (
          sound quote_closed fields field tt
            (on quoted (at quote_closed fields field) d (ground arith) h))
      | inr m ↦
          Reads-byte quoted quoted fields all_fields field (field ++ c ∷ []) c rest
            (ap (λ t. quote ∷ t) (double_quotes-snoc field c m))
            (sound quoted fields (field ++ c ∷ []) tt
              (on quoted (at quoted fields (field ++ c ∷ [])) d (ground arith) h))
    ]

  one_byte :
      Sound
      → (state : FieldState) (fields : List Text) (field : Text) (c : ℕ)
      → doubled_at (at state fields field) c rest ≡ false
      → Fits state field
      → scan (at state fields field) (c ∷ rest) ≡ line_of all_fields
      → Reads state fields field (c ∷ rest) all_fields
  one_byte sound start fields field c d w h = from_start sound fields field c w h
  one_byte sound unquoted fields field c d w h = from_unquoted sound fields field c w h
  one_byte sound quoted fields field c d w h = from_quoted sound fields field c d h
  one_byte sound quote_closed fields field c d w h = from_closed sound fields field c h

two_bytes :
    (all_fields fields : List Text) (state : FieldState) (field rest : Text) (c d : ℕ)
    → Sound all_fields rest
    → doubled (at state fields field) c d ≡ true
    → scan (at state fields field) (c ∷ d ∷ rest) ≡ line_of all_fields
    → Reads state fields field (c ∷ d ∷ rest) all_fields
unfolding doubled
two_bytes all_fields fields start field rest c d sound e h = ground arith
two_bytes all_fields fields unquoted field rest c d sound e h = ground arith
two_bytes all_fields fields quote_closed field rest c d sound e h = ground arith
two_bytes all_fields fields quoted field rest c d sound e h =
    let q : c ≡ quote = ground arith in
    let r : d ≡ quote = ground arith in
    let (tail, same, written) =
      sound quoted fields (field ++ quote ∷ []) tt
        (unfold push_byte in sym (scan_pair (at quoted fields field) c d rest e) ∙ h) in
    let taken : consumed quoted (field ++ quote ∷ []) ++ rest
        ≡ consumed quoted field ++ c ∷ d ∷ rest =
      rw (q, r, double_quotes-append field (quote ∷ []))
        (append_assoc (quote ∷ double_quotes field) (quote ∷ quote ∷ []) rest) in
    (tail, same, subst (WrittenLine tail) taken written)

scan_sound : (text : Text) (all_fields : List Text) → Sound all_fields text
scan_sound [] all_fields =
    λ state fields field w h. Reads-finish state fields all_fields field w (unfold scan in h)
scan_sound (c ∷ []) all_fields = λ state fields field w h.
    one_byte all_fields [] (scan_sound [] all_fields) state fields field c refl w h
scan_sound (c ∷ d ∷ rest) all_fields = λ state fields field w h.
    elim (Bool-cases (doubled (at state fields field) c d)) [
      | inl two ↦
          two_bytes all_fields fields state field rest c d (scan_sound rest all_fields) two h
      | inr one ↦
          one_byte all_fields (d ∷ rest) (scan_sound (d ∷ rest) all_fields) state fields field c one
            w h
    ]

-- A line that is read without an error and without an open quote is a line of the grammar, whose
-- fields are those that were read.
pub parse_csv_line-WrittenLine :
    (line : Text) (fields : List Text)
    → parse_csv_line line ≡ line_of fields
    → WrittenLine fields line
unfolding parse_csv_line
parse_csv_line-WrittenLine line fields h =
    let (tail, same, written) = scan_sound line fields start [] [] refl h in rw same written
