-- ===== src/Server/TaskRuns/Requests.antt =====
-- server/include/labbridge/server/application/task_run_service.h: requests and results. A message is
-- a value that names its text.
use lab_bridge.Prelude.{
  ℕ, Bool, true, false, ◌&&◌, ◌||◌, List, [], Option, Text, length, ◌==◌, all, is_digit, leb,
}
use lab_bridge.Prelude.Int.{ℤ}
use lab_bridge.Server.Models.{
  TaskRunStatus, to_storage, TaskRunRecord, TaskRunFailedFile, TaskRecord, RawFileRecord,
}
use lab_bridge.Server.Status.{Status, StatusCode, success, failure}
use lab_bridge.Server.Executability.{ExecutabilityMessage}
use lab_bridge.Server.RetryFiles.{RetryMessage}
use lab_bridge.Server.TaskRuns.Table.{RunTable, Database, Stored}
use lab_bridge.Server.TaskRuns.Repository.{FilesJson}

-- The other components that the service calls: the check of a task by its dependencies, with the
-- messages of that component, and the raw files of the database.
pub record Services : Type 0 where
  pub db : Database
  pub files : FilesJson
  pub executable : TaskRecord → Status ExecutabilityMessage
  pub find_raw_file : Text → Option RawFileRecord

pub record StartTaskRunRequest : Type 0 where
  pub node_code : Text
  pub task_id : Text
  pub started_at : Text
  pub trigger_type : Text
  pub execution_key : Text
  pub scheduled_for : Text

pub record FinishTaskRunRequest : Type 0 where
  pub task_run_id : Text
  pub status : TaskRunStatus
  pub finished_at : Text
  pub items_total : ℤ
  pub items_success : ℤ
  pub items_failed : ℤ
  pub error_summary : Text
  pub has_failed_files : Bool
  pub failed_files : List TaskRunFailedFile

pub data RunMessage : Type 0 where
  node_code_required task_id_required execution_key_required execution_key_too_long : RunMessage
  trigger_not_scheduled scheduled_for_not_utc started_at_not_utc scheduled_for_not_empty :
      RunMessage
  task_not_found task_disabled other_node scheduled_key_used manual_key_unknown : RunMessage
  task_run_not_found task_run_id_required status_not_final : RunMessage
  operator_key_invalid operator_key_used task_run_id_not_positive task_id_not_positive : RunMessage
  not_failed no_failed_list nothing_to_retry : RunMessage
  already_pending : Text → RunMessage
  unresolved : RetryMessage → RunMessage
  not_executable : ExecutabilityMessage → RunMessage

pub record TaskRunCreateResult : Type 0 where
  pub status : Status RunMessage
  pub id : Text
  pub replayed : Bool
  pub run_status : Text

pub record ManualTaskRunResult : Type 0 where
  pub status : Status RunMessage
  pub task_run_id : Text
  pub run_status : Text
  pub replayed : Bool

-- '0'..'9', 'a'..'f', 'A'..'F'
abbrev pub is_hex_byte : ℕ → Bool
is_hex_byte ch = is_digit ch || leb 97 ch && leb ch 102 || leb 65 ch && leb ch 70

unfoldable pub is_operator_idempotency_key : Text → Bool
is_operator_idempotency_key key = length key == 32 && all is_hex_byte key

abbrev pub start_failure : StatusCode → RunMessage → TaskRunCreateResult
start_failure code message = record {
  status = failure code message;
  id = [];
  replayed = false;
  run_status = [];
}

abbrev pub manual_failure : StatusCode → RunMessage → ManualTaskRunResult
manual_failure code message = record {
  status = failure code message;
  task_run_id = [];
  run_status = [];
  replayed = false;
}

abbrev pub replay_result : TaskRunRecord → TaskRunCreateResult
replay_result run = record {
  status = success;
  id = run.id;
  replayed = true;
  run_status = to_storage run.status;
}

abbrev pub replayed_result : TaskRunRecord → ManualTaskRunResult
replayed_result run = record {
  status = success;
  task_run_id = run.id;
  run_status = to_storage run.status;
  replayed = true;
}

-- A result that comes with a table.
abbrev pub Replied : Type 0 → Type 0
Replied A = Stored (A × RunTable)
