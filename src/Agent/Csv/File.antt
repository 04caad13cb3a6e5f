-- ===== src/Agent/Csv/File.antt =====
-- csv_parser.cpp: the header test, and `CsvObservationParser::parse` over whole files.
use mathlib.Core.List.{Mem, Nodup, mem-cons, not-mem-nil, Nodup-cons, Nodup-nil}
use mathlib.Core.Bool.{Bool-set}
use mathlib.Core.Logic.Or
use lab_bridge.Prelude.{
  ℕ, ◌+◌, ◌≤◌, ◌≡◌, refl, Bool, true, false, List, [], ◌∷◌, ◌++◌, some, Text, codes, text_eq_sound,
  text_eq_refl, text_eq_iff, All, length, empty, if◌then◌else◌, arith, ◌⊎◌, &&-true, length-append,
  Outcome, ok, take, drop,
}
use lab_bridge.Agent.Csv.{
  ParseResult, success, contains, distinct_names, has_columns, is_valid_header, strip_line_ending,
  strip_bom, lines_from, classify, classify_fields, parse_lines, parse_body, parse, no_result,
  blank, stop, skip, keep, throws, DumpThrow, parse_csv_line, LineOutcome,
}

contains_sound : (name : Text) (names : List Text) → contains name names ≡ false → ¬ Mem name names
unfolding contains
contains_sound name [] h m = not-mem-nil m
contains_sound name (other ∷ names) h m =
    Or.elim (λ a b. absurd a) (mem-cons.0 m)
      (λ e. let same = (text_eq_iff name other).1 e in ground arith)
      (contains_sound name names (ground arith))

abbrev pub IsName : Text → Type 0
IsName name = empty name ≡ false

distinct_names_sound :
    (seen names : List Text)
    → distinct_names seen names ≡ true
    → All IsName names × Nodup names × ((name : Text) → Mem name names → contains name seen ≡ false)
unfolding distinct_names
distinct_names_sound seen [] h = (tt, Nodup-nil, λ name m. absurd (not-mem-nil m))
distinct_names_sound seen (name ∷ names) h =
    let (named, nodup, new) = distinct_names_sound (name ∷ seen) names (ground arith) in
    (
      (ground arith, named),
      Nodup-cons.1 (
        (λ m. let q = new name m in let r = text_eq_refl name in unfold contains in ground arith),
        nodup,
      ),
      λ other m.
          Or.elim (Bool-set _ _) (mem-cons.0 m) (λ e. rw e (ground arith))
            (λ r. let q = new other r in unfold contains in ground arith),
    )

has_columns_sound :
    (station device time : Text) (fields : List Text)
    → has_columns station device time fields ≡ true
    → (4 ≤ length fields) × (take 3 fields ≡ station ∷ device ∷ time ∷ [])
unfolding has_columns
has_columns_sound station device time [] h = cc
has_columns_sound station device time (a ∷ []) h = cc
has_columns_sound station device time (a ∷ b ∷ []) h = cc
has_columns_sound station device time (a ∷ b ∷ c ∷ []) h = cc
has_columns_sound station device time (a ∷ b ∷ c ∷ d ∷ fields) h = (
  omega arith,
  cc (
    text_eq_sound a station (ground arith),
    text_eq_sound b device (ground arith),
    text_eq_sound c time (ground arith),
  ),
)

-- A header that is accepted has at least four columns, the first three of which are station_code,
-- device_code and record_time; no column name is empty, and no two are equal.
pub is_valid_header-columns :
    (fields : List Text)
    → is_valid_header fields ≡ true
    → (4 ≤ length fields)
      × (take 3 fields ≡ codes "station_code" ∷ codes "device_code" ∷ codes "record_time" ∷ [])
      × All IsName fields
      × Nodup fields
unfolding is_valid_header
is_valid_header-columns fields h =
    let (first, distinct) = &&-true _ (distinct_names [] fields) h in
    let (named, nodup, new) = distinct_names_sound [] fields distinct in
    let (enough, names) =
      has_columns_sound (codes "station_code") (codes "device_code") (codes "record_time") fields
        first in
    (enough, names, named, nodup)

-- The lines that are not blank.
abbrev pub count_nonblank : List Text → ℕ
count_nonblank [] = 0
count_nonblank (line ∷ lines) =
    (if empty (strip_line_ending line) then 0 else 1) + count_nonblank lines

module _ (json_string_value : Text → Outcome DumpThrow Text) (header : List Text) where
  abbrev reported : ParseResult → ℕ
  reported result = length result.records + length result.errors

  classify-blank :
      (number : ℕ) (line : Text) (o : LineOutcome)
      → classify json_string_value header number line ≡ o
      → (o ≡ blank) ⊎ (empty line ≡ false)
  unfolding classify classify_fields
  classify-blank number line o h = ground arith

  classify-empty :
      (number : ℕ) (line : Text)
      → classify json_string_value header number line ≡ blank
      → empty line ≡ true
  unfolding classify classify_fields
  classify-empty number line h = ground arith

  abbrev Accounts : ℕ → ParseResult → List Text → Type 0
  Accounts number result lines =
      (bad : Bool) (final : ParseResult)
      → parse_lines json_string_value header number bad result lines ≡ ok final
      → final.status ≡ success
      → (bad ≡ false) × (reported final ≡ reported result + count_nonblank lines)

  Accounts-step :
      (number : ℕ) (result : ParseResult) (line : Text) (lines : List Text) (o : LineOutcome)
      → classify json_string_value header (number + 1) (strip_line_ending line) ≡ o
      → ((next : ParseResult) → Accounts (number + 1) next lines)
      → Accounts number result (line ∷ lines)
  unfolding parse_lines
  Accounts-step number result line lines blank e ih = λ bad final q h.
      ground (arith, e, classify-empty (number + 1) (strip_line_ending line) e, ih result bad final)
  Accounts-step number result line lines stop e ih = λ bad final q h. ground (arith, e)
  Accounts-step number result line lines (throws t) e ih = λ bad final q h. ground (arith, e)
  Accounts-step number result line lines (skip note) e ih = λ bad final q h. ground (
    arith,
    e,
    classify-blank (number + 1) (strip_line_ending line) (skip note) e,
    ih (record result { errors = result.errors ++ note ∷ [] }) bad final,
    length-append result.errors (note ∷ []),
  )
  Accounts-step number result line lines (keep row) e ih = λ bad final q h. ground (
    arith,
    e,
    classify-blank (number + 1) (strip_line_ending line) (keep row) e,
    ih (record result { records = result.records ++ row ∷ [] }) bad final,
    length-append result.records (row ∷ []),
  )

  parse_lines-Accounts :
      (lines : List Text) (number : ℕ) (result : ParseResult) → Accounts number result lines
  unfolding parse_lines
  parse_lines-Accounts [] number result = λ bad final q h. ground arith
  parse_lines-Accounts (line ∷ lines) number result =
      Accounts-step number result line lines _ refl (parse_lines-Accounts lines (number + 1))

body_accounts :
    (json_string_value : Text → Outcome DumpThrow Text) (bad : Bool) (lines : List Text)
    (result : ParseResult)
    → parse_body json_string_value bad lines ≡ ok result
    → result.status ≡ success
    → (bad ≡ false) × (length result.records + length result.errors ≡ count_nonblank (drop 1 lines))
unfolding parse_body
body_accounts json_string_value bad [] result q h = ground arith
body_accounts json_string_value bad (line ∷ lines) result q h =
    let header = parse_csv_line (strip_bom (strip_line_ending line)) in
    ground (
      arith,
      parse_lines-Accounts json_string_value header.fields lines 1 (no_result success) bad result,
    )

-- Nothing is dropped in silence: after a parse that returns with success, the stream did not go bad, and every
-- line behind the header that is not blank gave a record or an error message, one each.
pub parse_accounts :
    (json_string_value : Text → Outcome DumpThrow Text) (content : Text) (bad : Bool)
    (result : ParseResult)
    → parse json_string_value (some content) bad ≡ ok result
    → result.status ≡ success
    → (bad ≡ false)
      × (length result.records + length result.errors
          ≡ count_nonblank (drop 1 (lines_from [] content)))
unfolding parse
parse_accounts json_string_value content bad result q h =
    body_accounts json_string_value bad (lines_from [] content) result q h
