-- ===== src/Server/Models.antt =====
-- core/include/labbridge/core/models.h and the repository records of the server that several of
-- its services share.
use lab_bridge.Prelude.{Bool, List, Text, codes}
use lab_bridge.Prelude.Int.{ℤ}

-- core::TaskRunStatus
pub data TaskRunStatus : Type 0 where
  pending running succeeded failed : TaskRunStatus

-- storage::to_storage
abbrev pub to_storage : TaskRunStatus → Text
to_storage pending = codes "pending"
to_storage running = codes "running"
to_storage succeeded = codes "succeeded"
to_storage failed = codes "failed"

pub record TaskRunFailedFile : Type 0 where
  pub source_path : Text
  pub original_name : Text
  pub stage : Text
  pub message : Text
  pub archive_raw_file_id : Text

pub record TaskRunRecord : Type 0 where
  pub id : Text
  pub task_id : Text
  pub node_code : Text
  pub status : TaskRunStatus
  pub started_at : Text
  pub finished_at : Text
  pub items_total : ℤ
  pub items_success : ℤ
  pub items_failed : ℤ
  pub error_summary : Text
  pub trigger_type : Text
  pub execution_key : Text
  pub scheduled_for : Text
  pub requested_at : Text
  pub retry_of_run_id : Text
  pub failed_files_json : Text
  pub failed_file_count : ℤ

pub record RawFileRecord : Type 0 where
  pub id : Text
  pub task_run_id : Text
  pub node_code : Text
  pub original_name : Text
  pub file_hash : Text
  pub storage_path : Text
  pub size_bytes : ℤ
  pub source_mtime : Text
  pub ingest_status : Text
  pub created_at : Text

pub record TaskRunRetryFile : Type 0 where
  pub input_type : Text
  pub source_path : Text
  pub original_name : Text
  pub archive_raw_file_id : Text
  pub storage_path : Text
  pub size_bytes : ℤ
  pub file_hash : Text
  pub source_mtime : Text

pub record TaskRecord : Type 0 where
  pub id : Text
  pub node_code : Text
  pub data_source_id : Text
  pub name : Text
  pub task_type : Text
  pub schedule_expr : Text
  pub parser_type : Text
  pub qc_profile : Text
  pub enabled : Bool
  pub qc_rule_ids : List Text
  pub created_at : Text
  pub updated_at : Text
