-- ===== src/Agent/Csv/Line.antt =====
-- One line of CSV: the grammar that `parse_csv_line` decides.
pub mod Complete
pub mod Sound
use mathlib.Core.List.{append_assoc, append-nil}
use lab_bridge.Prelude.{
  ℕ, ◌≡◌, refl, sym, ap, ◌∙◌, Bool, true, false, not, ◌&&◌, List, [], ◌∷◌, ◌++◌, Option, none, some,
  Text, all, empty, ◌==◌, if◌then◌else◌, arith, ok, err, Bool-cases, inl, inr,
}
use lab_bridge.Agent.Csv.{
  LineError, FieldState, start, unquoted, quoted, quote_closed, CsvLine, Cursor, comma, quote, scan,
  step_in, doubled, finish_line, failed_line, push_byte, push_field, is_quoted, parse_csv_line,
}

-- Neither a comma nor a quote.
abbrev pub is_plain : ℕ → Bool
is_plain c = not (c == comma) && not (c == quote)

-- Every quote is written twice.
abbrev pub double_quotes : Text → Text
double_quotes [] = []
double_quotes (c ∷ s) = if c == quote then quote ∷ quote ∷ double_quotes s else c ∷ double_quotes s

-- How a field may be written: as it is, without commas and quotes, or between quotes.
pub data Written : Text → Text → Type 0 where
  plain : {field : Text} → all is_plain field ≡ true → Written field field
  quoted_field :
      (field : Text) {text : Text}
      → text ≡ quote ∷ double_quotes field ++ quote ∷ []
      → Written field text

-- How a line is written: its fields with a comma between each two.
pub data WrittenLine : List Text → Text → Type 0 where
  last : {field text : Text} → Written field text → WrittenLine (field ∷ []) text
  more :
      {field text rest line : Text} {fields : List Text}
      → Written field text
      → WrittenLine fields rest
      → line ≡ text ++ comma ∷ rest
      → WrittenLine (field ∷ fields) line

abbrev pub line_of : List Text → CsvLine
line_of fields = record { fields = fields; error = none; unclosed_quote = false }

abbrev pub at : FieldState → List Text → Text → Cursor
at state fields field = record { state = state; fields = fields; field = field }

-- Whether the look ahead takes two bytes.
abbrev pub doubled_at : Cursor → ℕ → Text → Bool
doubled_at cur ch [] = false
doubled_at cur ch (next ∷ rest) = doubled cur ch next

pub scan_step :
    (cur cur' : Cursor) (ch : ℕ) (rest : Text)
    → doubled_at cur ch rest ≡ false
    → step_in cur.state cur ch ≡ ok cur'
    → scan cur (ch ∷ rest) ≡ scan cur' rest
unfolding scan
scan_step cur cur' ch [] d e = rw (e, scan)
scan_step cur cur' ch (n ∷ rest) d e = rw (d, e, scan)

pub scan_fail :
    (cur : Cursor) (error : LineError) (ch : ℕ) (rest : Text)
    → doubled_at cur ch rest ≡ false
    → step_in cur.state cur ch ≡ err error
    → scan cur (ch ∷ rest) ≡ failed_line cur error
unfolding scan
scan_fail cur error ch [] d e = rw (e, scan)
scan_fail cur error ch (n ∷ rest) d e = rw (d, e, scan)

pub scan_pair :
    (cur : Cursor) (ch second : ℕ) (rest : Text)
    → doubled cur ch second ≡ true
    → scan cur (ch ∷ second ∷ rest) ≡ scan (push_byte quoted cur quote) rest
unfolding scan
scan_pair cur ch second rest d = rw (d, scan)
