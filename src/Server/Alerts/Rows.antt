-- ===== src/Server/Alerts/Rows.antt =====
-- alert_repository.cpp: what the statements do to one row.
use lab_bridge.Prelude.{
  ok, inl, inr, ℕ, ◌≡◌, ◌≢◌, refl, ap, ◌∙◌, List, [], ◌∷◌, Option, none, some, Text, ◌==◌,
  Bool-cases, decimal_value, arith,
}
use lab_bridge.Server.Alerts.{
  AlertRecord, AlertRow, AlertTable, find_row, update_rows, save, read_by_id, write_disposition,
}
use lab_bridge.Server.Status.{success}

abbrev pub update_option : (AlertRecord → AlertRecord) → Option AlertRecord → Option AlertRecord
update_option change none = none
update_option change (some a) = some (change a)

pub find_row-update_rows :
    (change : AlertRecord → AlertRecord) (key : ℕ) (rows : List AlertRow)
    → find_row key (update_rows change key rows) ≡ update_option change (find_row key rows)
unfolding find_row update_rows
find_row-update_rows change key [] = refl
find_row-update_rows change key (row ∷ rows) = elim (Bool-cases (row.key == key)) [
  | inl e ↦ rw (e, e) refl
  | inr e ↦ rw (e, e) (find_row-update_rows change key rows)
]

-- An update changes no other row.
pub find_row-update_other :
    (change : AlertRecord → AlertRecord) (key other : ℕ) (rows : List AlertRow)
    → key ≢ other
    → find_row other (update_rows change key rows) ≡ find_row other rows
unfolding find_row update_rows
find_row-update_other change key other [] h = refl
find_row-update_other change key other (row ∷ rows) h =
    let rest = find_row-update_other change key other rows h in ground arith

-- The table behind an UPDATE.
abbrev pub updated : (AlertRecord → AlertRecord) → Text → AlertTable → AlertTable
updated change alert_id table = record table {
  rows = update_rows change (decimal_value 0 alert_id) table.rows;
}

pub read-updated :
    (change : AlertRecord → AlertRecord) (alert_id : Text) (table : AlertTable) (a : AlertRecord)
    → read_by_id alert_id table ≡ some a
    → read_by_id alert_id (updated change alert_id table) ≡ some (change a)
unfolding read_by_id
read-updated change alert_id table a e =
    find_row-update_rows change (decimal_value 0 alert_id) table.rows ∙ ap (update_option change) e

-- Behind a row that is found, the save reads back that row changed.
pub save-found :
    (change : AlertRecord → AlertRecord) (alert_id : Text) (table : AlertTable) (a : AlertRecord)
    → read_by_id alert_id table ≡ some a
    → save change alert_id table
      ≡ record { saved = some (change a); after = updated change alert_id table }
unfolding save
save-found change alert_id table a e =
    rw (e, save) (rw (read-updated change alert_id table a e) refl)

pub write_disposition-found :
    (change : AlertRecord → AlertRecord) (alert_id : Text) (table : AlertTable) (a : AlertRecord)
    → read_by_id alert_id table ≡ some a
    → write_disposition (save change alert_id table)
      ≡ ok (record { status = success; alert = some (change a) }, updated change alert_id table)
unfolding write_disposition
write_disposition-found change alert_id table a e = rw (save-found change alert_id table a e) refl
