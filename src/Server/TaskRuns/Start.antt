-- ===== src/Server/TaskRuns/Start.antt =====
-- task_run_service.cpp, `start` and `start_manual`. A call returns its result with the table, or throws,
-- and then the transaction leaves the table as it was.
use lab_bridge.Prelude.{
  Bool, false, not, ◌&&◌, ◌||◌, [], Option, none, some, ok, ◌>>=◌, Text, codes, empty, text_eq,
  length, ltb, if◌then◌else◌,
}
use lab_bridge.Prelude.Int.{pos, negsuc}
use lab_bridge.Server.Models.{running, TaskRunRecord, TaskRecord}
use lab_bridge.Server.Status.{success, invalid_argument, not_found, conflict}
use lab_bridge.Server.Timestamp.{is_rfc3339_utc}
use lab_bridge.Server.TaskRuns.Table.{
  RunTable, Database, Stored, find_task_row, key_of, is_pending, is_operator_trigger,
}
use lab_bridge.Server.TaskRuns.Repository.{
  ScheduledTaskRunStart, create, create_or_find_scheduled, find_by_execution_key, lock_task,
  lock_by_id, mark_manual_running,
}
use lab_bridge.Server.TaskRuns.Requests.{
  StartTaskRunRequest, RunMessage, node_code_required, task_id_required, execution_key_required,
  execution_key_too_long, trigger_not_scheduled, scheduled_for_not_utc, started_at_not_utc,
  scheduled_for_not_empty, task_not_found, task_disabled, other_node, scheduled_key_used,
  manual_key_unknown, task_run_not_found, TaskRunCreateResult, start_failure, replay_result,
  Replied,
}

unfoldable pub is_scheduled_start : StartTaskRunRequest → Bool
is_scheduled_start request = not (empty request.execution_key) || not (empty request.scheduled_for)

-- The checks of a scheduled start.
unfoldable pub schedule_refusal : StartTaskRunRequest → Option RunMessage
schedule_refusal request =
    if not (is_scheduled_start request)
    then none
    else if empty request.execution_key
    then some execution_key_required
    else if ltb 128 (length request.execution_key)
    then some execution_key_too_long
    else if not (text_eq request.trigger_type (codes "scheduled"))
    then some trigger_not_scheduled
    else if not (is_rfc3339_utc request.scheduled_for)
    then some scheduled_for_not_utc
    else if not (is_rfc3339_utc request.started_at)
    then some started_at_not_utc
    else none

unfoldable pub find_task : Database → Text → Stored (Option TaskRecord)
find_task db task_id = key_of db task_id >>= λ key. ok (find_task_row key db.tasks)

-- The record that `start` fills.
unfoldable pub start_record : StartTaskRunRequest → TaskRunRecord
start_record request = record {
  id = [];
  task_id = request.task_id;
  node_code = request.node_code;
  status = running;
  started_at = request.started_at;
  finished_at = [];
  items_total = pos 0;
  items_success = pos 0;
  items_failed = pos 0;
  error_summary = [];
  trigger_type = if empty request.trigger_type then codes "scheduled" else request.trigger_type;
  execution_key = request.execution_key;
  scheduled_for = request.scheduled_for;
  requested_at = [];
  retry_of_run_id = [];
  failed_files_json = [];
  failed_file_count = negsuc 0;
}

abbrev pub started : Text → Bool → TaskRunCreateResult
started id replayed = record {
  status = success;
  id = id;
  replayed = replayed;
  run_status = codes "running";
}

-- The answer to a scheduled start, from what the repository created or found.
unfoldable pub scheduled_reply : StartTaskRunRequest → ScheduledTaskRunStart → TaskRunCreateResult
scheduled_reply request start =
    if not start.created
      && (not (text_eq start.task_run.task_id request.task_id)
          || not (text_eq start.task_run.scheduled_for request.scheduled_for))
    then start_failure conflict scheduled_key_used
    else started start.task_run.id (not start.created)

unfoldable pub start_run : Database → StartTaskRunRequest → RunTable → Replied TaskRunCreateResult
start_run db request table =
    if not (is_scheduled_start request)
    then (create db (start_record request) table >>= λ (id, table'). ok (started id false, table'))
    else (create_or_find_scheduled db (start_record request) table >>= λ (start, table').
        ok (scheduled_reply request start, table'))

unfoldable pub start_checked :
    Database → StartTaskRunRequest → RunTable → Replied TaskRunCreateResult
start_checked db request table = find_task db request.task_id >>= λ found. elim found [
  | none ↦ ok (start_failure not_found task_not_found, table)
  | some task ↦
      if not task.enabled
      then ok (start_failure conflict task_disabled, table)
      else if not (text_eq task.node_code request.node_code)
      then ok (start_failure conflict other_node, table)
      else start_run db request table
]

-- `start_manual` behind the lock of the run.
unfoldable pub start_locked :
    Database
    → StartTaskRunRequest
    → TaskRunRecord
    → TaskRunRecord
    → RunTable
    → Replied TaskRunCreateResult
start_locked db request run locked table =
    if not (is_pending locked.status)
    then ok (replay_result locked, table)
    else (mark_manual_running db run.id request.started_at table >>= λ table'.
        ok (started run.id false, table'))

-- `start_manual` with the run of its key, which is pending.
unfoldable pub start_pending :
    Database → StartTaskRunRequest → TaskRunRecord → RunTable → Replied TaskRunCreateResult
start_pending db request run table = lock_task db run.task_id >>= λ known.
    if not known
    then ok (start_failure not_found task_not_found, table)
    else (lock_by_id db run.id table >>= λ found. elim found [
      | none ↦ ok (start_failure not_found task_run_not_found, table)
      | some locked ↦ start_locked db request run locked table
    ])

unfoldable pub start_found :
    Database → StartTaskRunRequest → TaskRunRecord → RunTable → Replied TaskRunCreateResult
start_found db request run table =
    if not (text_eq run.node_code request.node_code)
      || not (text_eq run.task_id request.task_id)
      || not (text_eq run.trigger_type request.trigger_type)
    then ok (start_failure conflict manual_key_unknown, table)
    else if not (is_pending run.status)
    then ok (replay_result run, table)
    else start_pending db request run table

unfoldable pub start_manual :
    Database → StartTaskRunRequest → RunTable → Replied TaskRunCreateResult
start_manual db request table =
    if empty request.execution_key || ltb 128 (length request.execution_key)
    then ok (start_failure invalid_argument execution_key_required, table)
    else if not (empty request.scheduled_for)
    then ok (start_failure invalid_argument scheduled_for_not_empty, table)
    else if not (is_rfc3339_utc request.started_at)
    then ok (start_failure invalid_argument started_at_not_utc, table)
    else elim (find_by_execution_key db request.execution_key table) [
      | none ↦ ok (start_failure conflict manual_key_unknown, table)
      | some run ↦ start_found db request run table
    ]

-- TaskRunService::start
unfoldable pub start : Database → StartTaskRunRequest → RunTable → Replied TaskRunCreateResult
start db request table =
    if empty request.node_code
    then ok (start_failure invalid_argument node_code_required, table)
    else if empty request.task_id
    then ok (start_failure invalid_argument task_id_required, table)
    else if is_operator_trigger request.trigger_type
    then start_manual db request table
    else elim (schedule_refusal request) [
      | some message ↦ ok (start_failure invalid_argument message, table)
      | none ↦ start_checked db request table
    ]
