-- ===== src/Server/RetryFiles.antt =====
-- server/src/application/task_run_service.cpp, `resolve_retry_files`: the inputs that a retry fixes.
-- The raw files and the runs of the database are functions from an id.
pub mod Resolution
mod Samples
use lab_bridge.Prelude.{
  Bool, not, true, ◌||◌, List, [], ◌∷◌, ◌++◌, Option, none, some, Outcome, ok, err, ◌>>=◌, Text,
  codes, empty, text_eq, if◌then◌else◌,
}
use lab_bridge.Prelude.Int.{pos}
use lab_bridge.Server.Models.{TaskRunFailedFile, TaskRunRecord, RawFileRecord, TaskRunRetryFile}

-- The messages of the conflicts.
pub data RetryMessage : Type 0 where
  no_concrete_target other_node other_task missing_metadata : RetryMessage
  archive_not_available : Text → RetryMessage

abbrev pub source_file : TaskRunFailedFile → TaskRunRetryFile
source_file file = record {
  input_type = codes "source";
  source_path = file.source_path;
  original_name = file.original_name;
  archive_raw_file_id = [];
  storage_path = [];
  size_bytes = pos 0;
  file_hash = [];
  source_mtime = [];
}

abbrev pub archive_file : TaskRunFailedFile → RawFileRecord → TaskRunRetryFile
archive_file file raw_file = record {
  input_type = codes "archive";
  source_path = file.source_path;
  original_name = file.original_name;
  archive_raw_file_id = raw_file.id;
  storage_path = raw_file.storage_path;
  size_bytes = raw_file.size_bytes;
  file_hash = raw_file.file_hash;
  source_mtime = raw_file.source_mtime;
}

module _ (find_raw_file : Text → Option RawFileRecord)
    (find_by_id : Text → Option TaskRunRecord) where
  -- `!raw_run.has_value() || raw_run->task_id != parent_run.task_id`
  unfoldable pub is_other_task : TaskRunRecord → Text → Bool
  is_other_task parent_run task_run_id = elim (find_by_id task_run_id) [
    | none ↦ true
    | some raw_run ↦ not (text_eq raw_run.task_id parent_run.task_id)
  ]

  -- The checks of the archived file that is named.
  unfoldable pub resolve_archive :
      TaskRunRecord
      → TaskRunFailedFile
      → Option RawFileRecord
      → Outcome RetryMessage TaskRunRetryFile
  resolve_archive parent_run file none = err (archive_not_available file.archive_raw_file_id)
  resolve_archive parent_run file (some raw_file) =
      if not (text_eq raw_file.node_code parent_run.node_code)
      then err other_node
      else if is_other_task parent_run raw_file.task_run_id
      then err other_task
      else if empty raw_file.storage_path || empty raw_file.file_hash
      then err missing_metadata
      else ok (archive_file file raw_file)

  -- The body of the loop.
  unfoldable pub resolve_file :
      TaskRunRecord → TaskRunFailedFile → Outcome RetryMessage TaskRunRetryFile
  resolve_file parent_run file =
      if empty file.source_path || empty file.original_name
      then err no_concrete_target
      else if empty file.archive_raw_file_id
      then ok (source_file file)
      else resolve_archive parent_run file (find_raw_file file.archive_raw_file_id)

  -- The loop, with what was pushed before.
  unfoldable pub resolve_from :
      TaskRunRecord
      → List TaskRunRetryFile
      → List TaskRunFailedFile
      → Outcome RetryMessage (List TaskRunRetryFile)
  resolve_from parent_run retry_files [] = ok retry_files
  resolve_from parent_run retry_files (file ∷ files) =
      resolve_file parent_run file >>= λ retry_file.
      resolve_from parent_run (retry_files ++ retry_file ∷ []) files

  -- TaskRunService::resolve_retry_files, called with no files pushed yet.
  unfoldable pub resolve_retry_files :
      TaskRunRecord → List TaskRunFailedFile → Outcome RetryMessage (List TaskRunRetryFile)
  resolve_retry_files parent_run failed_files = resolve_from parent_run [] failed_files
