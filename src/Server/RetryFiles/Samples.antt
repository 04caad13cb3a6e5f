-- ===== src/Server/RetryFiles/Samples.antt =====
-- Tests of the retry inputs, and the theorem at a concrete input.
use lab_bridge.Prelude.{
  ◌≡◌, refl, ◌↔◌, List, [], ◌∷◌, Option, none, some, ok, err, Text, codes, text_eq, if◌then◌else◌,
}
use lab_bridge.Prelude.Int.{pos, negsuc}
use lab_bridge.Server.Models.{failed, TaskRunFailedFile, TaskRunRecord, RawFileRecord}
use lab_bridge.Server.RetryFiles.{
  other_task, source_file, archive_file, resolve_retry_files, resolve_from, resolve_file,
  resolve_archive, is_other_task,
}
use lab_bridge.Server.RetryFiles.Resolution.{AllResolved, resolve_retry_files-AllResolved}

abbrev run : Text → Text → TaskRunRecord
run id task_id = record {
  id = id;
  task_id = task_id;
  node_code = codes "n1";
  status = failed;
  started_at = [];
  finished_at = [];
  items_total = pos 2;
  items_success = pos 0;
  items_failed = pos 2;
  error_summary = [];
  trigger_type = codes "scheduled";
  execution_key = [];
  scheduled_for = [];
  requested_at = [];
  retry_of_run_id = [];
  failed_files_json = [];
  failed_file_count = negsuc 0;
}

abbrev raw_file : RawFileRecord
raw_file = record {
  id = codes "3";
  task_run_id = codes "7";
  node_code = codes "n1";
  original_name = codes "a.csv";
  file_hash = codes "ff";
  storage_path = codes "x/a.csv";
  size_bytes = pos 12;
  source_mtime = [];
  ingest_status = codes "collected";
  created_at = [];
}

abbrev find_raw_file : Text → Option RawFileRecord
find_raw_file id = if text_eq id (codes "3") then some raw_file else none

abbrev find_by_id : Text → Option TaskRunRecord
find_by_id id = if text_eq id (codes "7") then some (run id (codes "1")) else none

abbrev failed_file : Text → TaskRunFailedFile
failed_file archive = record {
  source_path = codes "in/a.csv";
  original_name = codes "a.csv";
  stage = codes "parse";
  message = [];
  archive_raw_file_id = archive;
}

abbrev files : List TaskRunFailedFile
files = failed_file [] ∷ failed_file (codes "3") ∷ []

resolved_files :
    resolve_retry_files find_raw_file find_by_id (run (codes "8") (codes "1")) files
    ≡ ok (source_file (failed_file []) ∷ archive_file (failed_file (codes "3")) raw_file ∷ [])
unfolding resolve_retry_files resolve_from resolve_file resolve_archive is_other_task text_eq
resolved_files = refl

refused_files :
    resolve_retry_files find_raw_file find_by_id (run (codes "8") (codes "2")) files
    ≡ err other_task
unfolding resolve_retry_files resolve_from resolve_file resolve_archive is_other_task text_eq
refused_files = refl

resolve_retry_files-AllResolved_example :
    (resolve_retry_files find_raw_file find_by_id (run (codes "8") (codes "1")) files
      ≡ ok (source_file (failed_file []) ∷ archive_file (failed_file (codes "3")) raw_file ∷ []))
    ↔ AllResolved find_raw_file find_by_id
        (run (codes "8") (codes "1"))
        files
        (source_file (failed_file []) ∷ archive_file (failed_file (codes "3")) raw_file ∷ [])
resolve_retry_files-AllResolved_example =
    resolve_retry_files-AllResolved find_raw_file find_by_id (run (codes "8") (codes "1")) files
      (source_file (failed_file []) ∷ archive_file (failed_file (codes "3")) raw_file ∷ [])
