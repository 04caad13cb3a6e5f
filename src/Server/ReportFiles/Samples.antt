-- ===== src/Server/ReportFiles/Samples.antt =====
-- Tests of the failed files of a report, and the theorem at a concrete input.
use lab_bridge.Prelude.{
  ◌≡◌, refl, ◌↔◌, true, List, [], ◌∷◌, Option, none, some, Text, codes, text_eq, if◌then◌else◌,
}
use lab_bridge.Prelude.Int.{pos}
use lab_bridge.Server.Models.{failed, RawFileRecord, TaskRunFailedFile, TaskRunRetryFile}
use lab_bridge.Server.Status.{success, failure, conflict}
use lab_bridge.Server.ReportFiles.{
  is_succeeded, reference_dropped, seen, find_target, is_foreign_path, is_archive_target,
  is_inherited, is_of_run, check_reference, check_files, validate_failed_files,
}
use lab_bridge.Server.ReportFiles.Allowed.{AreAllowed, validate_failed_files-AreAllowed}

abbrev raw_file : RawFileRecord
raw_file = record {
  id = codes "3";
  task_run_id = codes "7";
  node_code = codes "n1";
  original_name = codes "a.csv";
  file_hash = codes "ff";
  storage_path = codes "x/a.csv";
  size_bytes = pos 12;
  source_mtime = [];
  ingest_status = codes "collected";
  created_at = [];
}

abbrev find_raw_file : Text → Option RawFileRecord
find_raw_file id = if text_eq id (codes "3") then some raw_file else none

abbrev failed_file : Text → Text → TaskRunFailedFile
failed_file path archive = record {
  source_path = path;
  original_name = codes "a.csv";
  stage = codes "parse";
  message = [];
  archive_raw_file_id = archive;
}

abbrev fixed_file : TaskRunRetryFile
fixed_file = record {
  input_type = codes "archive";
  source_path = codes "in/a.csv";
  original_name = codes "a.csv";
  archive_raw_file_id = codes "3";
  storage_path = codes "x/a.csv";
  size_bytes = pos 12;
  file_hash = codes "ff";
  source_mtime = [];
}

abbrev first_run : List TaskRunFailedFile
first_run = failed_file (codes "in/a.csv") (codes "3") ∷ failed_file (codes "in/b.csv") [] ∷ []

accepted_list : validate_failed_files find_raw_file (codes "7") none failed first_run ≡ success
unfolding validate_failed_files check_files check_reference seen is_foreign_path is_archive_target
    is_inherited is_of_run text_eq
accepted_list = refl

-- A retry keeps the reference of its fixed input, and may not lose it.
inherited_reference :
    validate_failed_files find_raw_file
      (codes "8")
      (some (fixed_file ∷ []))
      failed
      (failed_file (codes "in/a.csv") (codes "3") ∷ [])
    ≡ success
unfolding validate_failed_files check_files check_reference seen find_target is_foreign_path
    is_archive_target is_inherited is_of_run text_eq
inherited_reference = refl

lost_reference :
    validate_failed_files find_raw_file
      (codes "8")
      (some (fixed_file ∷ []))
      failed
      (failed_file (codes "in/a.csv") [] ∷ [])
    ≡ failure conflict reference_dropped
unfolding validate_failed_files check_files check_reference seen find_target is_foreign_path
    is_archive_target is_inherited is_of_run text_eq
lost_reference = refl

validate_failed_files-AreAllowed_example :
    (validate_failed_files find_raw_file (codes "7") none failed first_run ≡ success) ↔ (
      (is_succeeded failed ≡ true → first_run ≡ [])
      × AreAllowed find_raw_file (codes "7") none first_run)
validate_failed_files-AreAllowed_example =
    validate_failed_files-AreAllowed find_raw_file (codes "7") none failed first_run
