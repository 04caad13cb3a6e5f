-- ===== src/Server/TaskRuns/Operator.antt =====
-- task_run_service.cpp: the end of a run, and the runs that an operator asks for.
use lab_bridge.Prelude.{
  Bool, true, false, not, ◌||◌, List, [], ◌∷◌, ◌++◌, Option, none, some, ok, err, ◌>>=◌, Text,
  codes, empty, text_eq, if◌then◌else◌,
}
use lab_bridge.Server.Models.{
  TaskRunStatus, succeeded, failed, to_storage, TaskRunRecord, TaskRunFailedFile, TaskRunRetryFile,
  TaskRecord,
}
use lab_bridge.Server.Status.{
  Status, success, failure, invalid_argument, not_found, conflict, is_positive_id,
}
use lab_bridge.Server.RetryFiles.{resolve_retry_files}
use lab_bridge.Server.TaskRuns.Table.{
  RunTable, Database, manual_not_created, Stored, find_row, run_of, has_key,
}
use lab_bridge.Server.TaskRuns.Repository.{
  FilesJson, ManualTaskRunRequest, ManualTaskRunStart, create_or_find_manual, find_by_id,
  find_by_execution_key, finish, find_failed_files, find_retry_files, lock_task,
  find_pending_manual_by_task,
}
use lab_bridge.Server.TaskRuns.Requests.{
  Services, FinishTaskRunRequest, RunMessage, task_not_found, task_disabled, task_run_not_found,
  task_run_id_required, status_not_final, operator_key_invalid, operator_key_used,
  task_run_id_not_positive, task_id_not_positive, not_failed, no_failed_list, nothing_to_retry,
  already_pending, unresolved, not_executable, ManualTaskRunResult, is_operator_idempotency_key,
  manual_failure, replayed_result, Replied,
}
use lab_bridge.Server.TaskRuns.Start.{find_task}

-- The run behind `finish`, with what the request says of it.
unfoldable pub finished_record : FilesJson → FinishTaskRunRequest → TaskRunRecord → TaskRunRecord
finished_record files request task_run = record task_run {
  status = request.status;
  finished_at = request.finished_at;
  items_total = request.items_total;
  items_success = request.items_success;
  items_failed = request.items_failed;
  error_summary = request.error_summary;
  failed_files_json =
      if request.has_failed_files then files.to_failed_files_json request.failed_files else [];
}

abbrev pub is_final : TaskRunStatus → Bool
is_final succeeded = true
is_final failed = true
is_final _ = false

-- TaskRunService::finish
unfoldable pub finish_run :
    Database → FilesJson → FinishTaskRunRequest → RunTable → Replied (Status RunMessage)
finish_run db files request table =
    if empty request.task_run_id
    then ok (failure invalid_argument task_run_id_required, table)
    else if not (is_final request.status)
    then ok (failure invalid_argument status_not_final, table)
    else (find_by_id db request.task_run_id table >>= λ found. elim found [
      | none ↦ ok (failure not_found task_run_not_found, table)
      | some task_run ↦ finish db (finished_record files request task_run) table >>= λ table'.
          ok (success, table')
    ])

-- TaskRunService::find_run, and find_retry_files
unfoldable pub find_run : Database → Text → RunTable → Stored (Option TaskRunRecord)
find_run db task_run_id table =
    if empty task_run_id then ok none else find_by_id db task_run_id table

unfoldable pub find_run_retry_files :
    Database → FilesJson → Text → RunTable → Stored (Option (List TaskRunRetryFile))
find_run_retry_files db files task_run_id table =
    if empty task_run_id then ok none else find_retry_files db files task_run_id table

abbrev pub operator_key : Text → Text
operator_key idempotency_key = codes "operator:" ++ idempotency_key

-- The fields that `apply_manual_run` takes beside the key.
pub record ManualRun : Type 0 where
  pub trigger_type : Text
  pub task_id : Text
  pub retry_of_run_id : Text
  pub retry_files : List TaskRunRetryFile

-- A run of the key that another request made.
unfoldable pub differs : ManualRun → TaskRunRecord → Bool
differs manual run =
    not (text_eq run.trigger_type manual.trigger_type)
    || not (text_eq run.task_id manual.task_id)
    || not (text_eq run.retry_of_run_id manual.retry_of_run_id)

abbrev pub manual_reply : ManualTaskRunStart → ManualTaskRunResult
manual_reply start = record {
  status = success;
  task_run_id = start.task_run.id;
  run_status = to_storage start.task_run.status;
  replayed = not start.created;
}

-- The answer to what the repository created or found; nothing says that another request took the
-- place of the pending run.
unfoldable pub manual_result :
    Database → Text → Option ManualTaskRunStart × RunTable → Replied ManualTaskRunResult
manual_result db task_id (some start, table) = ok (manual_reply start, table)
manual_result db task_id (none, table) = find_pending_manual_by_task db task_id table >>= λ raced.
    elim raced [
      | some run ↦ ok (manual_failure conflict (already_pending run.id), table)
      | none ↦ err manual_not_created
    ]

abbrev pub manual_request : ManualRun → Text → TaskRecord → ManualTaskRunRequest
manual_request manual execution_key task = record {
  task_id = manual.task_id;
  node_code = task.node_code;
  trigger_type = manual.trigger_type;
  execution_key = execution_key;
  retry_of_run_id = manual.retry_of_run_id;
  retry_files = manual.retry_files;
}

unfoldable pub create_manual :
    Database → FilesJson → ManualRun → Text → TaskRecord → RunTable → Replied ManualTaskRunResult
create_manual db files manual execution_key task table =
    create_or_find_manual db files (manual_request manual execution_key task) table
    >>= manual_result db manual.task_id

-- A pending run of the task under another key.
abbrev pub other_pending : Text → Option TaskRunRecord → Option TaskRunRecord
other_pending execution_key none = none
other_pending execution_key (some run) =
    if text_eq run.execution_key execution_key then none else some run

unfoldable pub apply_to_task :
    Services → ManualRun → Text → TaskRecord → RunTable → Replied ManualTaskRunResult
apply_to_task sv manual execution_key task table =
    if not task.enabled
    then ok (manual_failure conflict task_disabled, table)
    else elim (sv.executable task) [
      | failure code message ↦ ok (manual_failure code (not_executable message), table)
      | success ↦ find_pending_manual_by_task sv.db manual.task_id table >>= λ found.
          elim (other_pending execution_key found) [
            | some run ↦ ok (manual_failure conflict (already_pending run.id), table)
            | none ↦ create_manual sv.db sv.files manual execution_key task table
          ]
    ]

-- The part of `apply_manual_run` for a key that no run has.
unfoldable pub apply_new : Services → ManualRun → Text → RunTable → Replied ManualTaskRunResult
apply_new sv manual execution_key table =
    if not (is_positive_id manual.task_id)
    then ok (manual_failure invalid_argument task_id_not_positive, table)
    else (lock_task sv.db manual.task_id >>= λ known.
        if not known
        then ok (manual_failure not_found task_not_found, table)
        else (find_task sv.db manual.task_id >>= λ found. elim found [
          | none ↦ ok (manual_failure not_found task_not_found, table)
          | some task ↦ apply_to_task sv manual execution_key task table
        ]))

-- TaskRunService::apply_manual_run
unfoldable pub apply_manual_run :
    Services → ManualRun → Text → RunTable → Replied ManualTaskRunResult
apply_manual_run sv manual idempotency_key table =
    if not (is_operator_idempotency_key idempotency_key)
    then ok (manual_failure invalid_argument operator_key_invalid, table)
    else elim (find_by_execution_key sv.db (operator_key idempotency_key) table) [
      | some run ↦
          if differs manual run
          then ok (manual_failure conflict operator_key_used, table)
          else ok (replayed_result run, table)
      | none ↦ apply_new sv manual (operator_key idempotency_key) table
    ]

-- TaskRunService::request_manual_run
unfoldable pub request_manual_run : Services → Text → Text → RunTable → Replied ManualTaskRunResult
request_manual_run sv task_id = apply_manual_run sv (record {
  trigger_type = codes "manual";
  task_id = task_id;
  retry_of_run_id = [];
  retry_files = [];
})

-- The run of an id, for `resolve_retry_files`.
unfoldable pub run_by_id : Database → RunTable → Text → Option TaskRunRecord
run_by_id db table id = elim (db.bigint id) [
  | none ↦ none
  | some key ↦ run_of (find_row (has_key key) table.rows)
]

-- A retry of a failed run whose failed files are known.
unfoldable pub retry_files_of :
    Services
    → Text
    → TaskRunRecord
    → List TaskRunFailedFile
    → RunTable
    → Replied ManualTaskRunResult
retry_files_of sv idempotency_key parent_run [] table =
    ok (manual_failure conflict nothing_to_retry, table)
retry_files_of sv idempotency_key parent_run (file ∷ files) table =
    elim (resolve_retry_files sv.find_raw_file (run_by_id sv.db table) parent_run (file ∷ files)) [
      | err message ↦ ok (manual_failure conflict (unresolved message), table)
      | ok retry_files ↦
          apply_manual_run sv
            (record {
              trigger_type = codes "retry";
              task_id = parent_run.task_id;
              retry_of_run_id = parent_run.id;
              retry_files = retry_files;
            })
            idempotency_key table
    ]

abbrev pub is_failed : TaskRunStatus → Bool
is_failed failed = true
is_failed _ = false

unfoldable pub retry_parent :
    Services → Text → Text → TaskRunRecord → RunTable → Replied ManualTaskRunResult
retry_parent sv task_run_id idempotency_key parent_run table =
    if not (is_failed parent_run.status)
    then ok (manual_failure conflict not_failed, table)
    else (find_failed_files sv.db sv.files task_run_id table >>= λ failed_files. elim failed_files [
      | none ↦ ok (manual_failure conflict no_failed_list, table)
      | some files ↦ retry_files_of sv idempotency_key parent_run files table
    ])

-- The part of `request_retry_run` for a key that no run has.
unfoldable pub retry_new : Services → Text → Text → RunTable → Replied ManualTaskRunResult
retry_new sv task_run_id idempotency_key table =
    if not (is_positive_id task_run_id)
    then ok (manual_failure invalid_argument task_run_id_not_positive, table)
    else (find_by_id sv.db task_run_id table >>= λ found. elim found [
      | none ↦ ok (manual_failure not_found task_run_not_found, table)
      | some parent_run ↦ retry_parent sv task_run_id idempotency_key parent_run table
    ])

-- A run of the key that is no retry of the same run.
unfoldable pub is_other_retry : Text → TaskRunRecord → Bool
is_other_retry task_run_id run =
    not (text_eq run.trigger_type (codes "retry")) || not (text_eq run.retry_of_run_id task_run_id)

-- TaskRunService::request_retry_run
unfoldable pub request_retry_run : Services → Text → Text → RunTable → Replied ManualTaskRunResult
request_retry_run sv task_run_id idempotency_key table =
    if not (is_operator_idempotency_key idempotency_key)
    then ok (manual_failure invalid_argument operator_key_invalid, table)
    else elim (find_by_execution_key sv.db (operator_key idempotency_key) table) [
      | some run ↦
          if is_other_retry task_run_id run
          then ok (manual_failure conflict operator_key_used, table)
          else ok (replayed_result run, table)
      | none ↦ retry_new sv task_run_id idempotency_key table
    ]
