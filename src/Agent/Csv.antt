-- ===== src/Agent/Csv.antt =====
-- agent/src/parsers/csv_parser.cpp. A file is the bytes that its stream yields; the text that
-- nlohmann::json writes for a string, or its exception, is a parameter. A message is the record of its parts.
pub mod Line
pub mod File
pub mod RoundTrip
mod Samples
use lab_bridge.Prelude.{
  ℕ, zero, suc, ◌+◌, ◌≡◌, Bool, true, false, not, ◌&&◌, ◌||◌, List, [], ◌∷◌, ◌++◌, Option, none,
  some, Text, codes, empty, text_eq, length, get_or, take, drop, ltb, leb, ◌==◌, if◌then◌else◌, ok,
  err, Outcome, ◌>>=◌,
}

abbrev pub comma : ℕ
comma = b','

abbrev pub quote : ℕ
quote = 34

pub data FieldState : Type 0 where
  start unquoted quoted quote_closed : FieldState

-- The exception of nlohmann's `dump`, at a text that is not UTF-8; `parse` lets it escape.
pub data DumpThrow : Type 0 where
  not_utf8 : DumpThrow

-- The two syntax errors of a line.
pub data LineError : Type 0 where
  quote_inside content_after : LineError

-- CsvLineParseResult; `error` is the text of the source, or nothing for the empty one.
pub record CsvLine : Type 0 where
  pub fields : List Text
  pub error : Option LineError
  pub unclosed_quote : Bool

-- The variables of the loop of `parse_csv_line`.
pub record Cursor : Type 0 where
  pub state : FieldState
  pub fields : List Text
  pub field : Text

-- fields.push_back(field); field.clear(); state = Start
pub push_field : Cursor → Cursor
push_field cur = record { state = start; fields = cur.fields ++ cur.field ∷ []; field = [] }

-- field.push_back(ch)
pub push_byte : FieldState → Cursor → ℕ → Cursor
push_byte state cur ch = record cur { state = state; field = cur.field ++ ch ∷ [] }

-- The cases of the switch, but for the look ahead of `Quoted`.
pub step_in : FieldState → Cursor → ℕ → Outcome LineError Cursor
unfolding push_field push_byte
step_in start cur ch =
    if ch == comma
    then ok (record cur { fields = cur.fields ++ [] ∷ [] })
    else if ch == quote
    then ok (record cur { state = quoted })
    else ok (push_byte unquoted cur ch)
step_in unquoted cur ch =
    if ch == comma
    then ok (push_field cur)
    else if ch == quote
    then err quote_inside
    else ok (push_byte unquoted cur ch)
step_in quoted cur ch =
    if ch == quote then ok (record cur { state = quote_closed }) else ok (push_byte quoted cur ch)
step_in quote_closed cur ch = if ch == comma then ok (push_field cur) else err content_after

pub is_quoted : FieldState → Bool
is_quoted quoted = true
is_quoted _ = false

-- `line[index + 1] == '"'` within the state `Quoted`
pub doubled : Cursor → ℕ → ℕ → Bool
unfolding is_quoted
doubled cur ch next = is_quoted cur.state && ch == quote && next == quote

-- What follows the loop.
pub finish_line : Cursor → CsvLine
unfolding is_quoted
finish_line cur =
    if is_quoted cur.state
    then record { fields = cur.fields; error = none; unclosed_quote = true }
    else record { fields = cur.fields ++ cur.field ∷ []; error = none; unclosed_quote = false }

pub failed_line : Cursor → LineError → CsvLine
failed_line cur e = record { fields = cur.fields; error = some e; unclosed_quote = false }

pub scan : Cursor → Text → CsvLine
scan cur [] = finish_line cur
scan cur (ch ∷ []) = elim (step_in cur.state cur ch) [
  | ok cur' ↦ finish_line cur'
  | err e ↦ failed_line cur e
]
scan cur (ch ∷ next ∷ rest) = elim (doubled cur ch next) [
  | true ↦ scan (push_byte quoted cur quote) rest
  | false ↦ elim (step_in cur.state cur ch) [
    | ok cur' ↦ scan cur' (next ∷ rest)
    | err e ↦ failed_line cur e
  ]
]

unfoldable pub parse_csv_line : Text → CsvLine
unfolding scan
parse_csv_line line = scan (record { state = start; fields = []; field = [] }) line

unfoldable pub contains : Text → List Text → Bool
contains name [] = false
contains name (other ∷ names) = text_eq name other || contains name names

-- The loop over the names, with the set of those that were seen.
pub distinct_names : List Text → List Text → Bool
unfolding contains
distinct_names seen [] = true
distinct_names seen (name ∷ names) =
    not (empty name) && not (contains name seen) && distinct_names (name ∷ seen) names

-- The test of the number of columns and of the names of the first three.
pub has_columns : Text → Text → Text → List Text → Bool
has_columns station device time fields = not (
    ltb (length fields) 4
    || not (text_eq (get_or fields 0 []) station)
    || not (text_eq (get_or fields 1 []) device)
    || not (text_eq (get_or fields 2 []) time))

unfoldable pub is_valid_header : List Text → Bool
is_valid_header fields =
    has_columns (codes "station_code") (codes "device_code") (codes "record_time") fields
    && distinct_names [] fields

unfoldable pub strip_line_ending : Text → Text
strip_line_ending [] = []
strip_line_ending (c ∷ []) = if c == 13 then [] else c ∷ []
strip_line_ending (c ∷ d ∷ rest) = c ∷ strip_line_ending (d ∷ rest)

abbrev pub utf8_bom : Text
utf8_bom = 0xEF ∷ 0xBB ∷ 0xBF ∷ []

unfoldable pub strip_bom : Text → Text
strip_bom line = if leb 3 (length line) && text_eq (take 3 line) utf8_bom then drop 3 line else line

-- The lines that repeated `std::getline` yields: a last line without its line feed counts if it
-- has a byte.
pub lines_from : Text → Text → List Text
lines_from current [] = if empty current then [] else current ∷ []
lines_from current (c ∷ rest) = elim (c == 10) [
  | true ↦ current ∷ lines_from [] rest
  | false ↦ lines_from (current ++ c ∷ []) rest
]

-- core::ParsedRecord
pub record ParsedRecord : Type 0 where
  pub station_code : Text
  pub device_code : Text
  pub record_time : Text
  pub payload_json : Text

-- `line N` with the syntax error, or with the two numbers of fields.
pub data LineNote : Type 0 where
  syntax : ℕ → LineError → LineNote
  width : ℕ → ℕ → ℕ → LineNote

pub data ParseStatus : Type 0 where
  success cannot_open empty_file invalid_header read_failed : ParseStatus
  unclosed : ℕ → ParseStatus

pub record ParseResult : Type 0 where
  pub status : ParseStatus
  pub records : List ParsedRecord
  pub errors : List LineNote

abbrev pub no_result : ParseStatus → ParseResult
no_result status = record { status = status; records = []; errors = [] }

pub data LineOutcome : Type 0 where
  blank stop : LineOutcome
  skip : LineNote → LineOutcome
  keep : ParsedRecord → LineOutcome
  throws : DumpThrow → LineOutcome

-- `!error.empty()`
abbrev pub is_some : Option LineError → Bool
is_some none = false
is_some (some e) = true

-- `json_string_value` is the JSON text of a string, without its quotes, where `dump` writes one.
module _ (json_string_value : Text → Outcome DumpThrow Text) where
  -- The loop of `make_payload_json` over the columns from the fourth, `first` included.
  pub payload_pairs : Bool → List Text → List Text → Outcome DumpThrow Text
  payload_pairs first [] row = ok []
  payload_pairs first (name ∷ header) row = json_string_value name >>= λ key.
      json_string_value (get_or row 0 []) >>= λ value.
      payload_pairs false header (drop 1 row) >>= λ rest.
      ok (
        (if first then [] else comma ∷ []) ++ quote ∷ key ++ codes "\":\"" ++ value ++ quote ∷ rest)

  pub make_payload_json : List Text → List Text → Outcome DumpThrow Text
  unfolding payload_pairs
  make_payload_json header row = payload_pairs true (drop 3 header) (drop 3 row) >>= λ pairs.
      ok (codes "{" ++ pairs ++ codes "}")

  pub make_record : List Text → List Text → Outcome DumpThrow ParsedRecord
  make_record header row = make_payload_json header row >>= λ payload. ok (record {
    station_code = get_or row 0 [];
    device_code = get_or row 1 [];
    record_time = get_or row 2 [];
    payload_json = payload;
  })

  -- What a line that was read comes to: the return, a message, a record, or the exception.
  pub classify_fields : List Text → ℕ → CsvLine → LineOutcome
  classify_fields header line_number parsed =
      if parsed.unclosed_quote then stop else elim parsed.error [
        | some e ↦ skip (syntax line_number e)
        | none ↦
            if length parsed.fields == length header
            then elim (make_record header parsed.fields) [ ok row ↦ keep row | err e ↦ throws e ]
            else skip (width line_number (length parsed.fields) (length header))
      ]

  -- The body of the loop of `parse`, for a line without its ending.
  pub classify : List Text → ℕ → Text → LineOutcome
  classify header line_number line =
      if empty line then blank else classify_fields header line_number (parse_csv_line line)

  -- The loop of `parse`; `line_number` is that of the line before.
  pub parse_lines : List Text → ℕ → Bool → ParseResult → List Text → Outcome DumpThrow ParseResult
  parse_lines header line_number bad result [] =
      ok (record result { status = if bad then read_failed else success })
  parse_lines header line_number bad result (line ∷ lines) =
      elim (classify header (line_number + 1) (strip_line_ending line)) [
        | blank ↦ parse_lines header (line_number + 1) bad result lines
        | stop ↦ ok (record result { status = unclosed (line_number + 1) })
        | throws e ↦ err e
        | skip note ↦
            parse_lines header (line_number + 1) bad
              (record result { errors = result.errors ++ note ∷ [] }) lines
        | keep row ↦
            parse_lines header (line_number + 1) bad
              (record result { records = result.records ++ row ∷ [] }) lines
      ]

  pub parse_body : Bool → List Text → Outcome DumpThrow ParseResult
  unfolding parse_lines
  parse_body bad [] = ok (no_result empty_file)
  parse_body bad (line ∷ lines) =
      let header = parse_csv_line (strip_bom (strip_line_ending line)) in
      if header.unclosed_quote || is_some header.error || not (is_valid_header header.fields)
      then ok (no_result invalid_header)
      else parse_lines header.fields 1 bad (no_result success) lines

  -- CsvObservationParser::parse: nothing for a file that cannot be opened, and otherwise the bytes
  -- that were read, with `input.bad()` at their end.
  unfoldable pub parse : Option Text → Bool → Outcome DumpThrow ParseResult
  unfolding parse_body lines_from
  parse none bad = ok (no_result cannot_open)
  parse (some content) bad = parse_body bad (lines_from [] content)
