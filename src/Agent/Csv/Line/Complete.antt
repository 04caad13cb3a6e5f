-- ===== src/Agent/Csv/Line/Complete.antt =====
-- csv_parser.cpp, `parse_csv_line`: every line of the grammar is read.
use mathlib.Core.List.{append_assoc, append-nil}
use lab_bridge.Prelude.{
  ℕ, ◌≡◌, refl, sym, ap, ◌∙◌, true, false, List, [], ◌∷◌, ◌++◌, Text, all, ◌==◌, arith, Bool-cases,
  inl, inr,
}
use lab_bridge.Agent.Csv.{
  start, unquoted, quoted, quote_closed, CsvLine, Cursor, comma, quote, scan, step_in, doubled,
  finish_line, push_byte, is_quoted, parse_csv_line,
}
use lab_bridge.Agent.Csv.Line.{
  is_plain, double_quotes, Written, plain, quoted_field, WrittenLine, last, more, line_of, at,
  doubled_at, scan_step, scan_pair,
}

-- The end of the line, or a comma.
abbrev IsEnd : Text → Type 0
IsEnd [] = Unit {0}
IsEnd (c ∷ rest) = c ≡ comma

-- What the scan returns when a field is complete at an end.
abbrev after : List Text → Text → Text → CsvLine
after fields field [] = line_of (fields ++ field ∷ [])
after fields field (c ∷ rest) = scan (at start (fields ++ field ∷ []) []) rest

pub not_doubled :
    (cur : Cursor) (c : ℕ) (rest : Text)
    → is_quoted cur.state ≡ false
    → doubled_at cur c rest ≡ false
unfolding doubled
not_doubled cur c [] h = refl
not_doubled cur c (d ∷ rest) h = ground arith

-- Before an end, a quote stands alone.
single_quote : (cur : Cursor) (c : ℕ) (rest : Text) → IsEnd rest → doubled_at cur c rest ≡ false
unfolding doubled
single_quote cur c [] h = refl
single_quote cur c (d ∷ rest) h = rw h (ground arith)

not_quote :
    (cur : Cursor) (c : ℕ) (rest : Text) → (c == quote) ≡ false → doubled_at cur c rest ≡ false
unfolding doubled
not_quote cur c [] h = refl
not_quote cur c (d ∷ rest) h = ground arith

module _ (fields : List Text) where
  end-unquoted :
      (field rest : Text)
      → IsEnd rest
      → scan (at unquoted fields field) rest ≡ after fields field rest
  unfolding scan finish_line step_in
  end-unquoted field [] h = refl
  end-unquoted field (c ∷ rest) h =
      scan_step (at unquoted fields field) (at start (fields ++ field ∷ []) []) c rest
        (not_doubled (at unquoted fields field) c rest refl) (ground arith)

  end-closed :
      (field rest : Text)
      → IsEnd rest
      → scan (at quote_closed fields field) rest ≡ after fields field rest
  unfolding scan finish_line step_in
  end-closed field [] h = refl
  end-closed field (c ∷ rest) h =
      scan_step (at quote_closed fields field) (at start (fields ++ field ∷ []) []) c rest
        (not_doubled (at quote_closed fields field) c rest refl) (ground arith)

  scan-plain :
      (field s rest : Text)
      → all is_plain s ≡ true
      → IsEnd rest
      → scan (at unquoted fields field) (s ++ rest) ≡ after fields (field ++ s) rest
  unfolding step_in is_quoted
  scan-plain field [] rest h e = rw append-nil (end-unquoted field rest e)
  scan-plain field (c ∷ s) rest h e =
      scan_step (at unquoted fields field) (at unquoted fields (field ++ c ∷ [])) c (s ++ rest)
        (not_doubled (at unquoted fields field) c (s ++ rest) refl) (ground arith)
      ∙ scan-plain (field ++ c ∷ []) s rest (ground arith) e
      ∙ ap (λ t. after fields t rest) (append_assoc field (c ∷ []) s)

  scan-double_quotes :
      (field s rest : Text)
      → IsEnd rest
      → scan (at quoted fields field) (double_quotes s ++ quote ∷ rest)
        ≡ after fields (field ++ s) rest
  unfolding step_in doubled push_byte
  scan-double_quotes field [] rest e =
      scan_step (at quoted fields field) (at quote_closed fields field) quote rest
        (single_quote (at quoted fields field) quote rest e) refl
      ∙ rw append-nil (end-closed field rest e)
  scan-double_quotes field (c ∷ s) rest e = elim (Bool-cases (c == quote)) [
    | inl q ↦
        let w : c ≡ quote = ground arith in
        rw (q, ◌++◌, w)
          (scan_pair (at quoted fields field) quote quote (double_quotes s ++ quote ∷ rest) refl
            ∙ scan-double_quotes (field ++ quote ∷ []) s rest e
            ∙ ap (λ t. after fields t rest) (append_assoc field (quote ∷ []) s))
    | inr n ↦
        rw (n, ◌++◌)
          (scan_step (at quoted fields field) (at quoted fields (field ++ c ∷ [])) c
              (double_quotes s ++ quote ∷ rest)
              (not_quote (at quoted fields field) c (double_quotes s ++ quote ∷ rest) n)
              (ground arith)
            ∙ scan-double_quotes (field ++ c ∷ []) s rest e
            ∙ ap (λ t. after fields t rest) (append_assoc field (c ∷ []) s))
  ]

  start_plain :
      (field rest : Text)
      → all is_plain field ≡ true
      → IsEnd rest
      → scan (at start fields []) (field ++ rest) ≡ after fields field rest
  unfolding step_in finish_line is_quoted push_byte
  start_plain [] [] h e = unfold scan in refl
  start_plain [] (c ∷ rest) h e =
      scan_step (at start fields []) (at start (fields ++ [] ∷ []) []) c rest
        (not_doubled (at start fields []) c rest refl) (ground arith)
  start_plain (c ∷ field) rest h e =
      scan_step (at start fields []) (at unquoted fields (c ∷ [])) c (field ++ rest)
        (not_doubled (at start fields []) c (field ++ rest) refl) (ground arith)
      ∙ scan-plain (c ∷ []) field rest (ground arith) e

  -- A field is read from the start of a line, or from behind a comma.
  scan-Written :
      {field text : Text} (rest : Text)
      → Written field text
      → IsEnd rest
      → scan (at start fields []) (text ++ rest) ≡ after fields field rest
  unfolding step_in is_quoted
  scan-Written {field} {text} rest (plain h) e = start_plain field rest h e
  scan-Written {field} {text} rest (quoted_field f w) e =
      rw (w, append_assoc (double_quotes f) (quote ∷ []) rest)
        (scan_step (at start fields []) (at quoted fields []) quote
            (double_quotes f ++ quote ∷ rest)
            (not_doubled (at start fields []) quote (double_quotes f ++ quote ∷ rest) refl) refl
          ∙ scan-double_quotes [] f rest e)

scan-WrittenLine :
    (done : List Text) {fields : List Text} {line : Text}
    → WrittenLine fields line
    → scan (at start done []) line ≡ line_of (done ++ fields)
scan-WrittenLine done (last {field} {text} w) =
    ap (scan (at start done [])) (sym (append-nil text)) ∙ scan-Written done [] w tt
scan-WrittenLine done (more {field} {text} {rest} {line} {fields} w ws e) = rw e (
    scan-Written done (comma ∷ rest) w refl
    ∙ scan-WrittenLine (done ++ field ∷ []) ws
    ∙ ap line_of (append_assoc done (field ∷ []) fields))

-- Every line of the grammar is read, with the fields that the grammar gives it and no error.
pub WrittenLine-parse_csv_line :
    {fields : List Text} {line : Text}
    → WrittenLine fields line
    → parse_csv_line line ≡ line_of fields
unfolding parse_csv_line
WrittenLine-parse_csv_line w = scan-WrittenLine [] w
