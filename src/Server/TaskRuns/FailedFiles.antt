-- ===== src/Server/TaskRuns/FailedFiles.antt =====
-- task_run_service.cpp with task_run_files_json.cpp: the failed files of a run that ends.
use lab_bridge.Prelude.{
  subst, ℕ, ◌≡◌, refl, sym, ap, ◌∙◌, ◌==◌, true, false, not, List, [], ◌∷◌, Option, none, some, ok,
  ◌>>=◌, Text, empty, to_decimal, All, Bool-cases, inl, inr, if◌then◌else◌, arith,
}
use lab_bridge.Json.{Json, array}
use lab_bridge.Server.Models.{TaskRunFailedFile}
use lab_bridge.Server.Status.{Status, success, failure, not_found}
use lab_bridge.Server.FilesJson.{
  encode_failed_file, items_of, to_failed_files_json, parse_failed_files_json, files_json,
}
use lab_bridge.Server.FilesJson.RoundTrip.{read_failed_files}
use lab_bridge.Server.TaskRuns.Table.{
  RunRow, RunTable, Database, Stored, key_of, find_row, run_of, has_key, update_rows, update,
  jsonb_or_null,
}
use lab_bridge.Server.TaskRuns.Repository.{
  FilesJson, find_by_id, finish, finish_row, find_files, find_failed_files,
}
use lab_bridge.Server.TaskRuns.Requests.{FinishTaskRunRequest, RunMessage, task_run_not_found}
use lab_bridge.Server.Returns.{Returns, returned, if-Returns, Returns-ok}
use lab_bridge.Server.TaskRuns.Operator.{finish_run, finished_record, is_final}
use lab_bridge.Server.TaskRuns.Invariant.{IsValid, IsRow}
use lab_bridge.Server.TaskRuns.Granted.{ReadsKeys}

-- The row of a key, with what its update made of it.
find_row-update_key :
    (key : ℕ) (change : RunRow → RunRow) (rows : List RunRow) (row : RunRow)
    → ((row : RunRow) → (change row).key ≡ row.key)
    → find_row (has_key key) rows ≡ some row
    → find_row (has_key key) (update_rows (has_key key) change rows) ≡ some (change row)
unfolding find_row update_rows
find_row-update_key key change [] row keep h = ground arith
find_row-update_key key change (first ∷ rows) row keep h =
    let rest = find_row-update_key key change rows row keep in
    let same = ap (λ k. k == key) (keep first) in
    elim (Bool-cases (first.key == key)) [
      | inl e ↦ rw e (rw (same ∙ e) (ap (λ r. some (change r)) (found_first first row e h)))
      | inr e ↦ rw e (
          rw e (
            rest (
              subst (λ b. (if b then some first else find_row (has_key key) rows) ≡ some row) e h)))
    ]
  where
    found_first :
        (first row : RunRow)
        → (first.key == key) ≡ true
        → (if first.key == key then some first else find_row (has_key key) rows) ≡ some row
        → first ≡ row
    found_first first row e h = ground arith

find_row-All :
    (next_key key : ℕ) (rows : List RunRow) (row : RunRow)
    → All (IsRow next_key) rows
    → find_row (has_key key) rows ≡ some row
    → row.run.id ≡ to_decimal key
unfolding find_row
find_row-All next_key key [] row h f = ground arith
find_row-All next_key key (first ∷ rows) row (h, hs) f =
    let rest = find_row-All next_key key rows row hs in
    let id = h.printed in
    elim (Bool-cases (first.key == key)) [ inl e ↦ ground arith | inr e ↦ rest (ground arith) ]

key_of-canonical :
    (db : Database) (key : ℕ) (id : Text)
    → ReadsKeys db
    → id ≡ to_decimal key
    → key_of db id ≡ ok key
unfolding key_of
key_of-canonical db key id reads canonical =
    rw (subst (λ t. db.bigint t ≡ some key) (sym canonical) (reads key), key_of) refl

abbrev written : Database → FilesJson → FinishTaskRunRequest → ℕ → RunTable → RunRow → RunTable
written db files request key table row =
    update (has_key key) (finish_row db (finished_record files request row.run)) table

module _ (db : Database) (files : FilesJson) (request : FinishTaskRunRequest) (key : ℕ)
    (table : RunTable) (reads : ReadsKeys db) (valid : IsValid table)
    (canonical : request.task_run_id ≡ to_decimal key) where
  abbrev Finished : Status RunMessage → RunTable → Type 0
  Finished r table' =
      r ≡ success
      → (row : RunRow) × (find_row (has_key key) table.rows ≡ some row)
        × (table' ≡ written db files request key table row)

  finish-written :
      (row : RunRow)
      → find_row (has_key key) table.rows ≡ some row
      → finish db (finished_record files request row.run) table
        ≡ ok (written db files request key table row)
  unfolding finish finished_record
  finish-written row found =
      rw
        (
          key_of-canonical db key row.run.id reads
              (find_row-All table.next_key key table.rows row valid.rows_valid found),
          finish,
        )
        refl

  found_run :
      (o : Option RunRow)
      → find_row (has_key key) table.rows ≡ o
      → Returns Finished (elim (run_of o) [
        | none ↦ ok (failure not_found task_run_not_found, table)
        | some task_run ↦ finish db (finished_record files request task_run) table >>= λ table'.
            ok (success, table')
      ])
  found_run none e = returned (λ s. cc)
  found_run (some row) e = rw (finish-written row e) (returned (λ _. (row, e, refl)))

  finish_run-Finished : Returns Finished (finish_run db files request table)
  unfolding finish_run find_by_id
  finish_run-Finished = if-Returns (empty request.task_run_id) (returned (λ s. cc)) (
      if-Returns (not (is_final request.status)) (returned (λ s. cc)) (
        rw (key_of-canonical db key request.task_run_id reads canonical)
          (found_run (find_row (has_key key) table.rows) refl)))

-- The column that `finish` writes.
column_written :
    (parse : Text → Option Json) (dump : Json → Text) (db : Database)
    (request : FinishTaskRunRequest) (row : RunRow)
    → request.has_failed_files ≡ true
    → empty (dump (array (items_of encode_failed_file request.failed_files))) ≡ false
    → (finish_row db (finished_record (files_json parse dump) request row.run) row).failed_files
      ≡ db.jsonb (dump (array (items_of encode_failed_file request.failed_files)))
unfolding finish_row finished_record jsonb_or_null to_failed_files_json
column_written parse dump db request row listed printed = rw listed (rw printed refl)

row_read :
    (f : Text → Option (List TaskRunFailedFile)) (o : Option RunRow) (row : RunRow)
    → o ≡ some row
    → ◌≡◌ {A = Stored (Option (List TaskRunFailedFile))}
        (elim o [ none ↦ ok none | some row ↦ ok (f row.failed_files) ])
        (ok (f row.failed_files))
row_read f o row e = rw e refl

find_failed_files-found :
    (parse : Text → Option Json) (dump : Json → Text) (db : Database) (id : Text) (key : ℕ)
    (table : RunTable) (row : RunRow)
    → key_of db id ≡ ok key
    → find_row (has_key key) table.rows ≡ some row
    → find_failed_files db (files_json parse dump) id table
      ≡ ok (parse_failed_files_json parse dump row.failed_files)
unfolding find_failed_files find_files
find_failed_files-found parse dump db id key table row k found =
    rw k
      (row_read (parse_failed_files_json parse dump) (find_row (has_key key) table.rows) row found)

find_written :
    (parse : Text → Option Json) (dump : Json → Text) (db : Database)
    (request : FinishTaskRunRequest) (key : ℕ) (table : RunTable) (row : RunRow)
    → key_of db request.task_run_id ≡ ok key
    → find_row (has_key key) table.rows ≡ some row
    → parse_failed_files_json parse dump
        (finish_row db (finished_record (files_json parse dump) request row.run) row).failed_files
      ≡ some request.failed_files
    → find_failed_files db
        (files_json parse dump)
        request.task_run_id
        (written db (files_json parse dump) request key table row)
      ≡ ok (some request.failed_files)
unfolding finish_row
find_written parse dump db request key table row k found read =
    let change = finish_row db (finished_record (files_json parse dump) request row.run) in
    find_failed_files-found parse dump db request.task_run_id key
      (written db (files_json parse dump) request key table row) (change row) k
      (find_row-update_key key change table.rows row
        (same_key db request (files_json parse dump) row) found)
    ∙ ap ok read
  where
    same_key :
        (db : Database) (request : FinishTaskRunRequest) (files : FilesJson) (row other : RunRow)
        → (finish_row db (finished_record files request row.run) other).key ≡ other.key
    same_key db request files row other = refl

-- The report of a run writes its failed files: after a `finish` that succeeded with a list, the list
-- that is read for the run is the list that was sent. PostgreSQL keeps the JSON value of the column,
-- the library reads what it printed, and the ids of the runs are read as they are printed.
pub finish_run-find_failed_files :
    (parse : Text → Option Json) (dump : Json → Text) (db : Database)
    (request : FinishTaskRunRequest) (key : ℕ) (table table' : RunTable)
    → ReadsKeys db
    → IsValid table
    → request.task_run_id ≡ to_decimal key
    → request.has_failed_files ≡ true
    → empty (dump (array (items_of encode_failed_file request.failed_files))) ≡ false
    → empty (db.jsonb (dump (array (items_of encode_failed_file request.failed_files)))) ≡ false
    → parse (db.jsonb (dump (array (items_of encode_failed_file request.failed_files))))
      ≡ some (array (items_of encode_failed_file request.failed_files))
    → finish_run db (files_json parse dump) request table ≡ ok (success, table')
    → find_failed_files db (files_json parse dump) request.task_run_id table'
      ≡ ok (some request.failed_files)
finish_run-find_failed_files parse dump db request key table table' reads valid canonical listed
      printed stored read h =
    let (row, found, e) =
      Returns-ok _ success table'
        (finish_run-Finished db (files_json parse dump) request key table reads valid canonical) h
        refl in
    let column = column_written parse dump db request row listed printed in
    let k = key_of-canonical db key request.task_run_id reads canonical in
    subst
      (λ t.
        find_failed_files db (files_json parse dump) request.task_run_id t
        ≡ ok (some request.failed_files))
      (sym e)
      (find_written parse dump db request key table row k found (
        ap (parse_failed_files_json parse dump) column
        ∙ read_failed_files parse dump _ request.failed_files stored read))
