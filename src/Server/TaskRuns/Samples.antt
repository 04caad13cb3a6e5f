-- ===== src/Server/TaskRuns/Samples.antt =====
-- Tests of the task runs, and the theorems at concrete inputs.
use lab_bridge.Server.TaskRuns.OneNode.{TakesOne, OfNode}
use lab_bridge.Prelude.{
  ℕ, ◌≡◌, refl, sym, ap, ◌∙◌, true, false, [], ◌∷◌, ◌++◌, none, some, ok, Text, codes, text_eq,
  to_decimal, decimal_value, to_decimal-value, List, Option, inl,
}
use lab_bridge.Server.Models.{TaskRunRecord, TaskRecord}
use lab_bridge.Server.Status.{success, failure, conflict, is_positive_id}
use lab_bridge.Server.Timestamp.{
  is_rfc3339_utc, has_shape, is_calendar_time, decimal_component, component_from, outside, natural,
  maximum_day, is_leap_year,
}
use lab_bridge.Server.TaskRuns.Table.{
  RunRow, RunTable, Database, find_row, has_key, added, key_of, find_task_row, is_operator_trigger,
  is_pending_manual, any_row, update_rows, matching,
}
use lab_bridge.Server.TaskRuns.Repository.{
  FilesJson, has_task, run_row, create_or_find_scheduled, manual_row, find_by_id,
  find_by_execution_key, create_or_find_manual, lock_task, find_pending_manual_by_task,
  fail_pending_manual_runs, fail_row,
}
use lab_bridge.Server.TaskRuns.Requests.{
  Services, StartTaskRunRequest, ManualTaskRunResult, is_operator_idempotency_key, manual_failure,
  already_pending, replayed_result,
}
use lab_bridge.Server.TaskRuns.Start.{
  start, start_checked, start_run, start_record, is_scheduled_start, schedule_refusal, find_task,
  started, scheduled_reply,
}
use lab_bridge.Server.TaskRuns.Operator.{
  request_manual_run, apply_manual_run, apply_new, apply_to_task, create_manual, manual_result,
  operator_key,
}
use lab_bridge.Server.TaskRuns.Effects.{Keeps}
use lab_bridge.Server.TaskRuns.Steps.{Steps, done, then_step, requested, stopped}
use lab_bridge.Server.TaskRuns.Invariant.{IsValid, empty_table, Steps-IsValid}
use lab_bridge.Server.TaskRuns.History.{Steps-Keeps_run}
use lab_bridge.Server.TaskRuns.Replays.{request_manual_run_replays}
use lab_bridge.Server.TaskRuns.Scheduled.{start_replays}
use lab_bridge.Server.TaskRuns.Table.{time_or_null}
use lab_bridge.Server.TaskRuns.Refusals.{refused_start_unchanged, refused_requests_unchanged}
use lab_bridge.Prelude.{inl}
use lab_bridge.Server.TaskRuns.Requests.{scheduled_key_used}
use lab_bridge.Server.TaskRuns.Table.{same_node_key, same_execution_key}
use lab_bridge.Server.TaskRuns.Repository.{find_scheduled}

abbrev task : TaskRecord
task = record {
  id = codes "5";
  node_code = codes "n1";
  data_source_id = codes "2";
  name = codes "imports";
  task_type = [];
  schedule_expr = [];
  parser_type = [];
  qc_profile = [];
  enabled = true;
  qc_rule_ids = [];
  created_at = [];
  updated_at = [];
}

abbrev first_row : List RunRow → Option RunRow
first_row [] = none
first_row (row ∷ rows) = some row

abbrev db : Database
db = record {
  tasks = record { key = 5; task = task } ∷ [];
  bigint = λ t. some (decimal_value 0 t);
  utc_text = λ t. t;
  jsonb = λ t. t;
  now = codes "2024-01-02T03:04:05Z";
  limit_one = first_row;
}

abbrev files : FilesJson
files = record {
  to_failed_files_json = λ _. [];
  parse_failed_files_json = λ _. none;
  to_retry_files_json = λ _. [];
  parse_retry_files_json = λ _. none;
}

abbrev sv : Services
sv = record { db = db; files = files; executable = λ _. success; find_raw_file = λ _. none }

abbrev first_key : Text
first_key = codes "0123456789abcdefABCDEF0123456789"

abbrev other_key : Text
other_key = codes "00000000000000000000000000000000"

abbrev manual_table : RunTable
manual_table =
    added
      (manual_row db files 1 5 (record {
        task_id = codes "5";
        node_code = codes "n1";
        trigger_type = codes "manual";
        execution_key = codes "operator:" ++ first_key;
        retry_of_run_id = [];
        retry_files = [];
      }))
      empty_table

abbrev granted_run : ManualTaskRunResult
granted_run = record {
  status = success;
  task_run_id = codes "1";
  run_status = codes "pending";
  replayed = false;
}

granted : request_manual_run sv (codes "5") first_key empty_table ≡ ok (granted_run, manual_table)
unfolding request_manual_run apply_manual_run apply_new apply_to_task create_manual manual_result
    create_or_find_manual is_operator_idempotency_key find_by_execution_key matching is_positive_id
    lock_task find_task key_of find_task_row find_pending_manual_by_task has_task any_row find_by_id
    find_row added text_eq manual_row to_decimal
granted = refl

-- A second operator waits for the pending run of the task.
second_operator :
    request_manual_run sv (codes "5") other_key manual_table
    ≡ ok (manual_failure conflict (already_pending (codes "1")), manual_table)
unfolding request_manual_run apply_manual_run apply_new apply_to_task create_manual manual_result
    create_or_find_manual is_operator_idempotency_key find_by_execution_key matching is_positive_id
    lock_task find_task key_of find_task_row find_pending_manual_by_task is_pending_manual
    is_operator_trigger has_task any_row find_by_id find_row added text_eq manual_row to_decimal
second_operator = refl

manual-Steps : Steps empty_table manual_table
manual-Steps = then_step done (requested sv (codes "5") first_key granted_run granted)

Steps-IsValid_example : IsValid manual_table
Steps-IsValid_example = Steps-IsValid manual_table manual-Steps

-- The task is disabled, and its pending run fails.
abbrev stopped_table : RunTable
stopped_table = record {
  rows =
      fail_row db (codes "task disabled") (
        manual_row db files 1 5 (record {
          task_id = codes "5";
          node_code = codes "n1";
          trigger_type = codes "manual";
          execution_key = codes "operator:" ++ first_key;
          retry_of_run_id = [];
          retry_files = [];
        }))
      ∷ [];
  next_key = 2;
}

stop_run :
    fail_pending_manual_runs db (codes "5") (codes "task disabled") manual_table ≡ ok stopped_table
unfolding fail_pending_manual_runs key_of update_rows added is_pending_manual is_operator_trigger
    text_eq manual_row to_decimal
stop_run = refl

stop-Steps : Steps manual_table stopped_table
stop-Steps = then_step done (stopped db (codes "5") (codes "task disabled") stop_run)

abbrev manual_run : RunRow
manual_run = manual_row db files 1 5 (record {
  task_id = codes "5";
  node_code = codes "n1";
  trigger_type = codes "manual";
  execution_key = codes "operator:" ++ first_key;
  retry_of_run_id = [];
  retry_files = [];
})

found_manual : find_row (has_key 1) manual_table.rows ≡ some manual_run
unfolding find_row added manual_row
found_manual = refl

Steps-Keeps_run_example :
    (row' : RunRow) × (find_row (has_key 1) stopped_table.rows ≡ some row') × Keeps manual_run row'
Steps-Keeps_run_example =
    Steps-Keeps_run manual_table stopped_table 1 manual_run stop-Steps found_manual

reads_keys : (n : ℕ) → db.bigint (to_decimal n) ≡ some n
reads_keys n = ap some (to_decimal-value n)

first_row-TakesOne : TakesOne db
first_row-TakesOne [] = refl
first_row-TakesOne (row ∷ rows) = (row, refl, inl refl)

stopped-OfNode : OfNode (operator_key first_key) (codes "n1") stopped_table.rows
unfolding fail_row manual_row
stopped-OfNode = (λ h. refl, tt)

empty_IsValid : IsValid empty_table
empty_IsValid = record { rows_valid = tt; rows_apart = tt }

five : to_decimal 5 ≡ codes "5"
unfolding to_decimal
five = refl

request_manual_run_replays_example :
    (run : TaskRunRecord) × (request_manual_run sv (to_decimal 5) first_key stopped_table
      ≡ ok (replayed_result run, stopped_table))
    × (run.id ≡ codes "1")
request_manual_run_replays_example =
    request_manual_run_replays sv sv 5 first_key (codes "n1") empty_table manual_table stopped_table
      granted_run reads_keys first_row-TakesOne first_row-TakesOne empty_IsValid
      (ap (λ t. request_manual_run sv t first_key empty_table) five ∙ granted) refl stop-Steps
      stopped-OfNode

abbrev scheduled : StartTaskRunRequest
scheduled = record {
  node_code = codes "n1";
  task_id = codes "5";
  started_at = codes "2024-01-02T03:04:05Z";
  trigger_type = codes "scheduled";
  execution_key = codes "5@1";
  scheduled_for = codes "2024-01-02T03:04:00Z";
}

abbrev scheduled_table : RunTable
scheduled_table = added (run_row db 1 5 (start_record scheduled)) empty_table

start-scheduled : start db scheduled empty_table ≡ ok (started (codes "1") false, scheduled_table)
unfolding start start_checked start_run start_record is_scheduled_start schedule_refusal find_task
    find_task_row key_of scheduled_reply create_or_find_scheduled has_task any_row added text_eq
    is_operator_trigger is_rfc3339_utc has_shape is_calendar_time decimal_component component_from
    outside natural maximum_day is_leap_year to_decimal run_row
start-scheduled = refl

not_operator : is_operator_trigger scheduled.trigger_type ≡ false
unfolding is_operator_trigger text_eq
not_operator = refl

is_scheduled : is_scheduled_start scheduled ≡ true
unfolding is_scheduled_start
is_scheduled = refl

start_replays_example :
    start db scheduled scheduled_table ≡ ok (started (codes "1") true, scheduled_table)
start_replays_example =
    start_replays db scheduled 5 empty_table scheduled_table scheduled_table
      (started (codes "1") false) reads_keys (λ t h. refl) (sym five) not_operator is_scheduled
      start-scheduled refl done

-- The key of the run is used for another time.
abbrev other_time : StartTaskRunRequest
other_time = record scheduled { scheduled_for = codes "2024-01-02T03:05:00Z" }

key_used :
    start db other_time scheduled_table
    ≡ ok (
      record {
        status = failure conflict scheduled_key_used;
        id = [];
        replayed = false;
        run_status = [];
      },
      scheduled_table,
    )
unfolding start start_checked start_run start_record is_scheduled_start schedule_refusal find_task
    find_task_row key_of scheduled_reply create_or_find_scheduled find_scheduled has_task any_row
    find_row same_node_key same_execution_key added text_eq is_operator_trigger is_rfc3339_utc
    has_shape is_calendar_time decimal_component component_from outside natural maximum_day
    is_leap_year to_decimal run_row time_or_null
key_used = refl

refused_start_unchanged_example : scheduled_table ≡ scheduled_table
refused_start_unchanged_example =
    refused_start_unchanged db other_time scheduled_table scheduled_table _ key_used (λ e. cc)

refused_requests_unchanged_example : manual_table ≡ manual_table
refused_requests_unchanged_example =
    refused_requests_unchanged sv manual_table (codes "5") (codes "1") other_key manual_table _
      (inl second_operator) (λ e. cc)
