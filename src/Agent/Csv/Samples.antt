-- ===== src/Agent/Csv/Samples.antt =====
-- Tests of the CSV parser, and the theorems at concrete inputs.
use mathlib.Core.List.{Nodup}
use lab_bridge.Prelude.{
  ◌+◌, ◌≤◌, ◌≡◌, refl, List, [], ◌∷◌, ◌++◌, some, Text, codes, length, false, true, All, take, drop,
  text_eq, ◌∙◌, all, ltb, Outcome, ok, err, ◌>>=◌, if◌then◌else◌,
}
use lab_bridge.Agent.Csv.{
  ParseResult, ParsedRecord, DumpThrow, not_utf8, success, syntax, width, quote_inside, parse,
  parse_csv_line, make_record, contains, is_valid_header, strip_bom, strip_line_ending, has_columns,
  distinct_names, scan, step_in, doubled, finish_line, failed_line, push_byte, push_field,
  is_quoted, parse_body, parse_lines, classify, classify_fields, lines_from, make_payload_json,
  payload_pairs,
}
use lab_bridge.Agent.Csv.Line.{WrittenLine, plain, quoted_field, last, more, line_of}
use lab_bridge.Agent.Csv.Line.Complete.{WrittenLine-parse_csv_line}
use lab_bridge.Agent.Csv.Line.Sound.{parse_csv_line-WrittenLine}
use lab_bridge.Agent.Csv.File.{is_valid_header-columns, IsName, parse_accounts, count_nonblank}
use lab_bridge.Agent.Csv.RoundTrip.{RowLine, make_records, nil, cons, file_text, parse-file_text}

abbrev header : List Text
header = codes "station_code" ∷ codes "device_code" ∷ codes "record_time" ∷ codes "ph" ∷ []

abbrev header_line : Text
header_line = codes "station_code,device_code,record_time,ph"

abbrev row : List Text
row = codes "s1" ∷ codes "d,1" ∷ [] ∷ codes "7" ∷ []

-- s1,"d,1",,7
abbrev row_line : Text
row_line = codes "s1,\"d,1\",,7"

header_written : WrittenLine header header_line
header_written =
    more (plain refl) (more (plain refl) (more (plain refl) (last (plain refl)) refl) refl) refl

row_written : WrittenLine row row_line
row_written =
    more (plain refl)
      (more (quoted_field (codes "d,1") refl) (more (plain refl) (last (plain refl)) refl) refl)
      refl

-- The JSON text of a string of plain ASCII; a byte from 128 on throws.
abbrev ascii_json : Text → Outcome DumpThrow Text
ascii_json text = if all (λ c. ltb c 128) text then ok text else err not_utf8

abbrev sample : Outcome DumpThrow ParseResult
sample =
    parse ascii_json
      (some (header_line ++ 10 ∷ row_line ++ 10 ∷ 10 ∷ codes "a\"b" ++ 10 ∷ codes "x")) false

sample_result :
    sample
    ≡ ok (record {
      status = success;
      records =
          record {
            station_code = codes "s1";
            device_code = codes "d,1";
            record_time = [];
            payload_json = codes "{\"ph\":\"7\"}";
          }
          ∷ [];
      errors = syntax 4 quote_inside ∷ width 5 1 4 ∷ [];
    })
unfolding parse parse_body lines_from parse_lines parse_csv_line scan step_in doubled finish_line
    failed_line push_byte push_field is_quoted strip_bom strip_line_ending is_valid_header
    has_columns distinct_names classify classify_fields make_record make_payload_json payload_pairs
    text_eq contains
sample_result = refl

WrittenLine-parse_csv_line_example : parse_csv_line row_line ≡ line_of row
WrittenLine-parse_csv_line_example = WrittenLine-parse_csv_line row_written

parse_csv_line-WrittenLine_example : WrittenLine row row_line
parse_csv_line-WrittenLine_example =
    parse_csv_line-WrittenLine row_line row (WrittenLine-parse_csv_line row_written)

header_valid : is_valid_header header ≡ true
unfolding is_valid_header has_columns distinct_names text_eq contains
header_valid = refl

is_valid_header-columns_example :
    (4 ≤ length header)
    × (take 3 header ≡ codes "station_code" ∷ codes "device_code" ∷ codes "record_time" ∷ [])
    × All IsName header
    × Nodup header
is_valid_header-columns_example = is_valid_header-columns header header_valid

header-RowLine : RowLine 4 header header_line
unfolding strip_line_ending
header-RowLine = record {
  written = header_written;
  width = refl;
  one_line = refl;
  no_return = refl;
  filled = refl;
}

row-RowLine : RowLine 4 row row_line
unfolding strip_line_ending
row-RowLine = record {
  written = row_written;
  width = refl;
  one_line = refl;
  no_return = refl;
  filled = refl;
}

header_no_bom : strip_bom header_line ≡ header_line
unfolding strip_bom text_eq
header_no_bom = refl

parse-file_text_example :
    parse ascii_json (some (file_text (header_line ∷ row_line ∷ []))) false ≡ (
      make_records ascii_json header (row ∷ []) >>= λ records.
      ok (record { status = success; records = records; errors = [] }))
parse-file_text_example =
    parse-file_text ascii_json header header_line (row ∷ []) (row_line ∷ []) header_valid
      header-RowLine header_no_bom (cons row-RowLine nil)

abbrev row_record : ParsedRecord
row_record = record {
  station_code = codes "s1";
  device_code = codes "d,1";
  record_time = [];
  payload_json = codes "{\"ph\":\"7\"}";
}

row_records : make_records ascii_json header (row ∷ []) ≡ ok (row_record ∷ [])
unfolding make_record make_payload_json payload_pairs
row_records = refl

-- A value that is not UTF-8.
byte_throws :
    make_records ascii_json header ((codes "s1" ∷ [] ∷ [] ∷ (255 ∷ []) ∷ []) ∷ []) ≡ err not_utf8
unfolding make_record make_payload_json payload_pairs
byte_throws = refl

abbrev row_result : ParseResult
row_result = record { status = success; records = row_record ∷ []; errors = [] }

parse_accounts_example :
    (false ≡ false)
    × (length row_result.records + length row_result.errors
        ≡ count_nonblank (drop 1 (lines_from [] (file_text (header_line ∷ row_line ∷ [])))))
parse_accounts_example =
    parse_accounts ascii_json (file_text (header_line ∷ row_line ∷ [])) false row_result
      (parse-file_text_example ∙ rw row_records refl) refl
