-- ===== src/Server/TaskRuns/Repository.antt =====
-- server/src/postgres/task_run_repository.cpp: the statements on `task_runs`. The JSON columns are
-- read and written by the functions of task_run_files_json.cpp, which stand in `FilesJson`.
use lab_bridge.Prelude.{
  ℕ, ◌==◌, Bool, true, false, not, ◌&&◌, List, [], ◌∷◌, Option, none, some, ok, err, ◌>>=◌, Text,
  codes, text_eq, to_decimal, if◌then◌else◌,
}
use lab_bridge.Prelude.Int.{pos, negsuc}
use lab_bridge.Server.Models.{
  pending, running, failed, TaskRunRecord, TaskRunFailedFile, TaskRunRetryFile,
}
use lab_bridge.Server.TaskRuns.Table.{
  RunRow, RunTable, Database, create_failed, scheduled_not_found, manual_not_readable, Stored,
  time_or_null, jsonb_or_null, find_task_row, key_of, find_row, matching, run_of, update, has_key,
  is_pending, is_pending_manual, same_node_key, same_execution_key, conflicts, any_row, added,
}

-- A task that is there, with the code of its node.
unfoldable pub has_task : Database → ℕ → Text → Bool
has_task db task_key node_code = elim (find_task_row task_key db.tasks) [
  | none ↦ false
  | some task ↦ text_eq task.node_code node_code
]

-- The row that the INSERT of `create` makes, and that of `create_or_find_scheduled`.
unfoldable pub run_row : Database → ℕ → ℕ → TaskRunRecord → RunRow
run_row db key task_key run = record {
  key = key;
  task_key = task_key;
  run = record run {
    id = to_decimal key;
    task_id = to_decimal task_key;
    started_at = time_or_null db run.started_at;
    finished_at = [];
    scheduled_for = time_or_null db run.scheduled_for;
    requested_at = [];
    retry_of_run_id = [];
    failed_files_json = [];
    failed_file_count = negsuc 0;
  };
  failed_files = [];
  retry_files = [];
}

unfoldable pub create : Database → TaskRunRecord → RunTable → Stored (Text × RunTable)
create db run table = key_of db run.task_id >>= λ task_key.
    if has_task db task_key run.node_code
    then ok (
      to_decimal table.next_key,
      added
          (run_row db table.next_key task_key
            (record run { execution_key = []; scheduled_for = [] }))
          table,
    )
    else err create_failed

pub record ScheduledTaskRunStart : Type 0 where
  pub task_run : TaskRunRecord
  pub created : Bool

-- The statement that reads the run of the key after a conflict.
unfoldable pub find_scheduled : TaskRunRecord → RunTable → Stored (ScheduledTaskRunStart × RunTable)
find_scheduled run table =
    elim (find_row (same_node_key run.node_code run.execution_key) table.rows) [
      | none ↦ err scheduled_not_found
      | some row ↦ ok (record { task_run = row.run; created = false }, table)
    ]

-- The casts of the two times, which are not empty: `start` has checked both.
unfoldable pub create_or_find_scheduled :
    Database → TaskRunRecord → RunTable → Stored (ScheduledTaskRunStart × RunTable)
create_or_find_scheduled db run table = key_of db run.task_id >>= λ task_key.
    let row = run_row db table.next_key task_key run in
    if has_task db task_key run.node_code && not (any_row (same_execution_key row) table.rows)
    then ok (
      record { task_run = record run { id = to_decimal table.next_key }; created = true },
      added row table,
    )
    else find_scheduled run table

-- The functions of task_run_files_json.cpp.
pub record FilesJson : Type 0 where
  pub to_failed_files_json : List TaskRunFailedFile → Text
  pub parse_failed_files_json : Text → Option (List TaskRunFailedFile)
  pub to_retry_files_json : List TaskRunRetryFile → Text
  pub parse_retry_files_json : Text → Option (List TaskRunRetryFile)

pub record ManualTaskRunRequest : Type 0 where
  pub task_id : Text
  pub node_code : Text
  pub trigger_type : Text
  pub execution_key : Text
  pub retry_of_run_id : Text
  pub retry_files : List TaskRunRetryFile

abbrev pub ManualTaskRunStart : Type 0
ManualTaskRunStart = ScheduledTaskRunStart

abbrev empty_list {ℓ} : {A : Type ℓ} → List A → Bool
empty_list [] = true
empty_list (x ∷ xs) = false

-- The row that the INSERT of `create_or_find_manual` makes; `parent` is the key it was cast from.
unfoldable pub manual_row : Database → FilesJson → ℕ → ℕ → ManualTaskRunRequest → RunRow
manual_row db files key task_key request = record {
  key = key;
  task_key = task_key;
  run = record {
    id = to_decimal key;
    task_id = to_decimal task_key;
    node_code = request.node_code;
    status = pending;
    started_at = [];
    finished_at = [];
    items_total = pos 0;
    items_success = pos 0;
    items_failed = pos 0;
    error_summary = [];
    trigger_type = request.trigger_type;
    execution_key = request.execution_key;
    scheduled_for = [];
    requested_at = db.now;
    retry_of_run_id = request.retry_of_run_id;
    failed_files_json = [];
    failed_file_count = negsuc 0;
  };
  failed_files = [];
  retry_files = jsonb_or_null db (
      if empty_list request.retry_files then [] else files.to_retry_files_json request.retry_files);
}

unfoldable pub find_by_id : Database → Text → RunTable → Stored (Option TaskRunRecord)
find_by_id db task_run_id table =
    key_of db task_run_id >>= λ key. ok (run_of (find_row (has_key key) table.rows))

abbrev pub has_execution_key : Text → RunRow → Bool
has_execution_key execution_key row = text_eq row.run.execution_key execution_key

-- LIMIT 1 without an order: the key is unique only within a node.
unfoldable pub find_by_execution_key : Database → Text → RunTable → Option TaskRunRecord
find_by_execution_key db execution_key table =
    run_of (db.limit_one (matching (has_execution_key execution_key) table.rows))

-- The run after the INSERT is read again; after a conflict the run of the key, or nothing.
unfoldable pub create_or_find_manual :
    Database
    → FilesJson
    → ManualTaskRunRequest
    → RunTable
    → Stored (Option ManualTaskRunStart × RunTable)
create_or_find_manual db files request table = key_of db request.task_id >>= λ task_key.
    let row = manual_row db files table.next_key task_key request in
    if has_task db task_key request.node_code && not (any_row (conflicts row) table.rows)
    then (find_by_id db (to_decimal table.next_key) (added row table) >>= λ found. elim found [
      | none ↦ err manual_not_readable
      | some run ↦ ok (some (record { task_run = run; created = true }), added row table)
    ])
    else elim (find_by_execution_key db request.execution_key table) [
      | none ↦ ok (none, table)
      | some run ↦ ok (some (record { task_run = run; created = false }), table)
    ]

-- The change of `finish`, which writes nothing to the other columns.
unfoldable pub finish_row : Database → TaskRunRecord → RunRow → RunRow
finish_row db task_run row = record row {
  run = record (row.run) {
    status = task_run.status;
    finished_at = time_or_null db task_run.finished_at;
    items_total = task_run.items_total;
    items_success = task_run.items_success;
    items_failed = task_run.items_failed;
    error_summary = task_run.error_summary;
  };
  failed_files = jsonb_or_null db task_run.failed_files_json;
}

unfoldable pub finish : Database → TaskRunRecord → RunTable → Stored RunTable
finish db task_run table =
    key_of db task_run.id >>= λ key. ok (update (has_key key) (finish_row db task_run) table)

-- find_failed_files and find_retry_files, of the column that is given.
unfoldable pub find_files :
    {A : Type 0}
    → Database
    → (RunRow → Text)
    → (Text → Option A)
    → Text
    → RunTable
    → Stored (Option A)
find_files db column parse task_run_id table = key_of db task_run_id >>= λ key.
    elim (find_row (has_key key) table.rows) [ none ↦ ok none | some row ↦ ok (parse (column row)) ]

unfoldable pub find_failed_files :
    Database → FilesJson → Text → RunTable → Stored (Option (List TaskRunFailedFile))
find_failed_files db files = find_files db (λ row. row.failed_files) files.parse_failed_files_json

unfoldable pub find_retry_files :
    Database → FilesJson → Text → RunTable → Stored (Option (List TaskRunRetryFile))
find_retry_files db files = find_files db (λ row. row.retry_files) files.parse_retry_files_json

abbrev pub is_known {ℓ} : {A : Type ℓ} → Option A → Bool
is_known none = false
is_known (some a) = true

unfoldable pub lock_task : Database → Text → Stored Bool
lock_task db task_id = key_of db task_id >>= λ key. ok (is_known (find_task_row key db.tasks))

-- lock_by_id reads as find_by_id does, and holds the row until the transaction ends.
unfoldable pub lock_by_id : Database → Text → RunTable → Stored (Option TaskRunRecord)
lock_by_id = find_by_id

abbrev pub is_pending_of : ℕ → RunRow → Bool
is_pending_of task_key row = row.task_key == task_key && is_pending_manual row

unfoldable pub find_pending_manual_by_task :
    Database → Text → RunTable → Stored (Option TaskRunRecord)
find_pending_manual_by_task db task_id table =
    key_of db task_id >>= λ task_key. ok (run_of (find_row (is_pending_of task_key) table.rows))

unfoldable pub fail_row : Database → Text → RunRow → RunRow
fail_row db error_summary row = record row {
  run = record (row.run) { status = failed; finished_at = db.now; error_summary = error_summary };
  failed_files = db.jsonb (codes "[]");
}

unfoldable pub fail_pending_manual_runs : Database → Text → Text → RunTable → Stored RunTable
fail_pending_manual_runs db task_id error_summary table = key_of db task_id >>= λ task_key.
    ok (update (is_pending_of task_key) (fail_row db error_summary) table)

unfoldable pub run_row_at : Text → RunRow → RunRow
run_row_at started_at row = record row {
  run = record (row.run) { status = running; started_at = started_at };
}

unfoldable pub mark_manual_running : Database → Text → Text → RunTable → Stored RunTable
mark_manual_running db task_run_id started_at table = key_of db task_run_id >>= λ key. ok (
    update (λ row. has_key key row && is_pending row.run.status)
      (run_row_at (db.utc_text started_at)) table)

pub record PendingExecutionRecord : Type 0 where
  pub task_run_id : Text
  pub task_id : Text
  pub execution_key : Text
  pub trigger_type : Text
  pub requested_at : Text
  pub retry_files : List TaskRunRetryFile

abbrev or_nil {ℓ} : {A : Type ℓ} → Option (List A) → List A
or_nil none = []
or_nil (some xs) = xs

abbrev pub pending_execution : FilesJson → RunRow → PendingExecutionRecord
pending_execution files row = record {
  task_run_id = row.run.id;
  task_id = row.run.task_id;
  execution_key = row.run.execution_key;
  trigger_type = row.run.trigger_type;
  requested_at = row.run.requested_at;
  retry_files = or_nil (files.parse_retry_files_json row.retry_files);
}

unfoldable pub pending_executions : FilesJson → Text → List RunRow → List PendingExecutionRecord
pending_executions files node_code [] = []
pending_executions files node_code (row ∷ rows) =
    let rest = pending_executions files node_code rows in
    if text_eq row.run.node_code node_code && is_pending_manual row
    then pending_execution files row ∷ rest
    else rest

unfoldable pub find_pending_executions_by_node :
    FilesJson → Text → RunTable → List PendingExecutionRecord
find_pending_executions_by_node files node_code table =
    pending_executions files node_code table.rows
