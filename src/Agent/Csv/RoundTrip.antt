-- ===== src/Agent/Csv/RoundTrip.antt =====
-- csv_parser.cpp: a file whose lines are written by the grammar is read back.
use mathlib.Core.List.{append_assoc, append-nil}
use lab_bridge.Prelude.{
  ℕ, ◌+◌, ◌≡◌, refl, ap, ◌∙◌, Bool, true, false, not, List, [], ◌∷◌, ◌++◌, some, Text, all, All,
  length, empty, Outcome, ok, err, ◌>>=◌, ◌==◌, arith,
}
use lab_bridge.Agent.Csv.{
  ParseResult, success, is_valid_header, DumpThrow, ParsedRecord, LineOutcome, throws,
  strip_line_ending, strip_bom, lines_from, classify, classify_fields, parse_lines, parse_body,
  parse, make_record, no_result, keep,
}
use lab_bridge.Agent.Csv.Line.{WrittenLine, line_of}
use lab_bridge.Agent.Csv.Line.Complete.{WrittenLine-parse_csv_line}

abbrev pub no_line_feed : Text → Bool
no_line_feed = all (λ c. not (c == 10))

-- Lines, each with a line feed behind it.
abbrev pub file_text : List Text → Text
file_text [] = []
file_text (line ∷ lines) = line ++ 10 ∷ file_text lines

lines_from-line :
    (current line rest : Text)
    → no_line_feed line ≡ true
    → lines_from current (line ++ 10 ∷ rest) ≡ (current ++ line) ∷ lines_from [] rest
unfolding lines_from
lines_from-line current [] rest h = rw append-nil
lines_from-line current (c ∷ line) rest h =
    let other : (c == 10) ≡ false = ground arith in
    rw (other, lines_from)
      (lines_from-line (current ++ c ∷ []) line rest (ground arith)
        ∙ ap (λ t. t ∷ lines_from [] rest) (append_assoc current (c ∷ []) line))

lines_from-file_text :
    (lines : List Text)
    → All (λ line. no_line_feed line ≡ true) lines
    → lines_from [] (file_text lines) ≡ lines
lines_from-file_text [] h = unfold lines_from in refl
lines_from-file_text (line ∷ lines) h =
    lines_from-line [] line (file_text lines) h.0
    ∙ ap (λ t. line ∷ t) (lines_from-file_text lines h.1)

-- A line that is no line feed, ends in no carriage return, is not empty, and gives `row`.
pub record RowLine (columns : ℕ) (row : List Text) (line : Text) : Type 0 where
  pub written : WrittenLine row line
  pub width : length row ≡ columns
  pub one_line : no_line_feed line ≡ true
  pub no_return : strip_line_ending line ≡ line
  pub filled : empty line ≡ false

pub data RowLines (columns : ℕ) : List (List Text) → List Text → Type 0 where
  nil : RowLines columns [] []
  cons :
      {row : List Text} {line : Text} {rows : List (List Text)} {lines : List Text}
      → RowLine columns row line
      → RowLines columns rows lines
      → RowLines columns (row ∷ rows) (line ∷ lines)

RowLines-one_line :
    {columns : ℕ} {rows : List (List Text)} {lines : List Text}
    → RowLines columns rows lines
    → All (λ line. no_line_feed line ≡ true) lines
RowLines-one_line nil = tt
RowLines-one_line (cons r rs) = (r.one_line, RowLines-one_line rs)

module _ (json_string_value : Text → Outcome DumpThrow Text) (header : List Text) where
  -- The records of the rows, in order, where every payload can be written.
  abbrev pub make_records : List (List Text) → Outcome DumpThrow (List ParsedRecord)
  make_records [] = ok []
  make_records (row ∷ rows) = make_record json_string_value header row >>= λ first.
      make_records rows >>= λ rest. ok (first ∷ rest)

  -- The success that adds those records.
  abbrev with_records :
      ParseResult → Outcome DumpThrow (List ParsedRecord) → Outcome DumpThrow ParseResult
  with_records result m =
      m >>= λ records. ok (record result { status = success; records = result.records ++ records })

  -- The record of a row, or the exception.
  abbrev outcome_of : Outcome DumpThrow ParsedRecord → LineOutcome
  outcome_of (ok row) = keep row
  outcome_of (err e) = throws e

  classify_fields-width :
      (number : ℕ) (row : List Text)
      → length row ≡ length header
      → classify_fields json_string_value header number (line_of row)
        ≡ outcome_of (make_record json_string_value header row)
  unfolding classify_fields
  classify_fields-width number row h = ground arith

  classify-RowLine :
      (number : ℕ) {row : List Text} {line : Text}
      → RowLine (length header) row line
      → classify json_string_value header number (strip_line_ending line)
        ≡ outcome_of (make_record json_string_value header row)
  unfolding classify
  classify-RowLine number {row} {line} r =
      rw (r.no_return, r.filled, WrittenLine-parse_csv_line r.written)
        (classify_fields-width number row r.width)

  -- A line that comes to a record or to the exception, in front of lines that come to records.
  parse_lines-keep :
      (number : ℕ) (result : ParseResult) (line : Text) (lines : List Text)
      (m : Outcome DumpThrow ParsedRecord) (more : Outcome DumpThrow (List ParsedRecord))
      → classify json_string_value header (number + 1) (strip_line_ending line) ≡ outcome_of m
      → ((next : ParseResult)
          → parse_lines json_string_value header (number + 1) false next lines
            ≡ with_records next more)
      → parse_lines json_string_value header number false result (line ∷ lines)
        ≡ with_records result (m >>= λ first. more >>= λ rest. ok (first ∷ rest))
  unfolding parse_lines
  parse_lines-keep number result line lines (err e) more q ih = rw (q, parse_lines) refl
  parse_lines-keep number result line lines (ok first) (err e) q ih =
      rw (q, parse_lines) (ih (record result { records = result.records ++ first ∷ [] }))
  parse_lines-keep number result line lines (ok first) (ok rest) q ih =
      rw (q, parse_lines)
        (ih (record result { records = result.records ++ first ∷ [] }) ∙ rw append_assoc refl)

  parse_lines-RowLines :
      (number : ℕ) (result : ParseResult) {rows : List (List Text)} {lines : List Text}
      → RowLines (length header) rows lines
      → parse_lines json_string_value header number false result lines
        ≡ with_records result (make_records rows)
  unfolding parse_lines
  parse_lines-RowLines number result nil = rw append-nil
  parse_lines-RowLines number result (cons {row} {line} {rows} {lines} r rs) =
      parse_lines-keep number result line lines (make_record json_string_value header row)
        (make_records rows) (classify-RowLine (number + 1) r)
        (λ next. parse_lines-RowLines (number + 1) next rs)

pub parse-file_text :
    (json_string_value : Text → Outcome DumpThrow Text) (header : List Text) (first : Text)
    (rows : List (List Text)) (lines : List Text)
    → is_valid_header header ≡ true
    → RowLine (length header) header first
    → strip_bom first ≡ first
    → RowLines (length header) rows lines
    → parse json_string_value (some (file_text (first ∷ lines))) false ≡ (
        make_records json_string_value header rows >>= λ records.
        ok (record { status = success; records = records; errors = [] }))
unfolding parse parse_body
parse-file_text json_string_value header first rows lines valid r no_bom rs =
    rw
      (
        lines_from-file_text (first ∷ lines) (r.one_line, RowLines-one_line rs),
        r.no_return,
        no_bom,
        WrittenLine-parse_csv_line r.written,
        valid,
      )
      (parse_lines-RowLines json_string_value header 1 (no_result success) rs)
