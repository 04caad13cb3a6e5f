-- ===== src/Server/ReportFiles.antt =====
-- server/src/application/agent_report_service.cpp, `validate_failed_files`: the list of failed files
-- that a report carries. The fixed inputs of the run and the raw files are read from the database.
pub mod Allowed
mod Samples
use lab_bridge.Prelude.{
  Bool, true, false, not, ◌&&◌, ◌||◌, List, [], ◌∷◌, Option, none, some, Text, codes, empty,
  text_eq, if◌then◌else◌,
}
use lab_bridge.Server.Models.{
  TaskRunStatus, succeeded, RawFileRecord, TaskRunFailedFile, TaskRunRetryFile,
}
use lab_bridge.Server.Status.{Status, success, failure, invalid_argument, conflict}

pub data FailedFilesMessage : Type 0 where
  succeeded_with_files not_in_retry_list repeated_source_path reference_dropped : FailedFilesMessage
  reference_of_other_run reference_not_allowed : FailedFilesMessage

abbrev pub is_succeeded : TaskRunStatus → Bool
is_succeeded succeeded = true
is_succeeded _ = false

-- `seen_paths.insert(...)` finds the path.
unfoldable pub seen : Text → List Text → Bool
seen path [] = false
seen path (other ∷ paths) = text_eq other path || seen path paths

-- The first fixed input of the path.
unfoldable pub find_target : Text → List TaskRunRetryFile → Option TaskRunRetryFile
find_target path [] = none
find_target path (file ∷ files) =
    if text_eq file.source_path path then some file else find_target path files

abbrev pub target_of : Text → Option (List TaskRunRetryFile) → Option TaskRunRetryFile
target_of path none = none
target_of path (some files) = find_target path files

-- A path that the fixed list, where there is one, does not have.
unfoldable pub is_foreign_path : Text → Option (List TaskRunRetryFile) → Bool
is_foreign_path path none = false
is_foreign_path path (some files) = elim (find_target path files) [
  | none ↦ true
  | some file ↦ false
]

unfoldable pub is_archive_target : Option TaskRunRetryFile → Bool
is_archive_target none = false
is_archive_target (some target) = text_eq target.input_type (codes "archive")

unfoldable pub is_inherited : Text → Option TaskRunRetryFile → Bool
unfolding is_archive_target
is_inherited archive_raw_file_id none = false
is_inherited archive_raw_file_id (some target) =
    text_eq target.input_type (codes "archive")
    && text_eq target.archive_raw_file_id archive_raw_file_id

unfoldable pub is_of_run : Text → Option RawFileRecord → Bool
is_of_run task_run_id none = false
is_of_run task_run_id (some raw_file) = text_eq raw_file.task_run_id task_run_id

abbrev pub is_there {ℓ} : {A : Type ℓ} → Option A → Bool
is_there none = false
is_there (some x) = true

module _ (find_raw_file : Text → Option RawFileRecord) (task_run_id : Text)
    (retry_files : Option (List TaskRunRetryFile)) where
  -- The body of the loop behind the checks of the path.
  unfoldable pub check_reference : TaskRunFailedFile → Status FailedFilesMessage
  check_reference failed =
      let target = target_of failed.source_path retry_files in
      let raw_file = find_raw_file failed.archive_raw_file_id in
      if empty failed.archive_raw_file_id
      then (if is_archive_target target then failure conflict reference_dropped else success)
      else if is_of_run task_run_id raw_file
      then success
      else if not (is_inherited failed.archive_raw_file_id target)
      then failure conflict
          (if is_there raw_file then reference_of_other_run else reference_not_allowed)
      else success

  unfoldable pub check_files : List Text → List TaskRunFailedFile → Status FailedFilesMessage
  check_files seen_paths [] = success
  check_files seen_paths (failed ∷ failed_files) =
      let rest = check_files (failed.source_path ∷ seen_paths) failed_files in
      if is_foreign_path failed.source_path retry_files
      then failure invalid_argument not_in_retry_list
      else if seen failed.source_path seen_paths
      then failure invalid_argument repeated_source_path
      else elim (check_reference failed) [
        | failure code message ↦ failure code message
        | success ↦ rest
      ]

  unfoldable pub validate_failed_files :
      TaskRunStatus → List TaskRunFailedFile → Status FailedFilesMessage
  validate_failed_files status [] = check_files [] []
  validate_failed_files status (failed ∷ failed_files) =
      if is_succeeded status
      then failure invalid_argument succeeded_with_files
      else check_files [] (failed ∷ failed_files)
