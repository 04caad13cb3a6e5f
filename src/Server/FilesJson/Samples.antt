-- ===== src/Server/FilesJson/Samples.antt =====
-- The lists of files at concrete inputs.
use lab_bridge.Prelude.{
  ◌≡◌, refl, sym, ap, true, false, [], ◌∷◌, Option, none, some, ok, Text, codes, text_eq,
  to_decimal, decimal_value, to_decimal-value, all, arith, if◌then◌else◌, List,
}
use lab_bridge.Prelude.Int.{pos, negsuc}
use lab_bridge.Json.{Json, array}
use lab_bridge.Server.Models.{running, failed, TaskRunRecord, TaskRunRetryFile}
use lab_bridge.Server.Status.{success}
use lab_bridge.Server.FilesJson.{
  encode_failed_file, encode_retry_file, items_of, to_retry_files_json, parse_retry_files_json,
  files_json, is_input_type,
}
use lab_bridge.Server.FilesJson.RoundTrip.{
  is_retry_input, parse_retry_files_json-to_retry_files_json,
}
use lab_bridge.Server.TaskRuns.Table.{RunRow, RunTable, Database, key_of, find_row, update_rows}
use lab_bridge.Server.TaskRuns.Repository.{
  run_row, find_by_id, finish, finish_row, find_failed_files,
}
use lab_bridge.Server.TaskRuns.Requests.{FinishTaskRunRequest}
use lab_bridge.Server.TaskRuns.Operator.{finish_run, finished_record}
use lab_bridge.Server.TaskRuns.Invariant.{IsValid}
use lab_bridge.Server.TaskRuns.FailedFiles.{finish_run-find_failed_files}

abbrev retry_file : TaskRunRetryFile
retry_file = record {
  input_type = codes "archive";
  source_path = codes "in/a.csv";
  original_name = codes "a.csv";
  archive_raw_file_id = codes "3";
  storage_path = codes "x/a.csv";
  size_bytes = pos 12;
  file_hash = codes "ff";
  source_mtime = [];
}

abbrev negative_file : TaskRunRetryFile
negative_file = record retry_file { size_bytes = negsuc 0 }

-- A library that knows one value.
abbrev dump : Json → Text
dump value = codes "[1]"

abbrev parse : Json → Text → Option Json
parse value text = if text_eq text (codes "[1]") then some value else none

abbrev retry_value : Json
retry_value = array (items_of encode_retry_file (retry_file ∷ []))

parse_retry_files_json-to_retry_files_json_example :
    parse_retry_files_json
      (parse retry_value)
      dump
      (to_retry_files_json (parse retry_value) dump (retry_file ∷ []))
    ≡ (if all is_retry_input (retry_file ∷ []) then some (retry_file ∷ []) else none)
unfolding text_eq
parse_retry_files_json-to_retry_files_json_example =
    parse_retry_files_json-to_retry_files_json (parse retry_value) dump (retry_file ∷ [])
      (omega arith, tt) refl refl

accepted : all is_retry_input (retry_file ∷ []) ≡ true
unfolding is_retry_input is_input_type text_eq
accepted = refl

refused_size : all is_retry_input (retry_file ∷ negative_file ∷ []) ≡ false
unfolding is_retry_input is_input_type text_eq
refused_size = refl

abbrev first_row : List RunRow → Option RunRow
first_row [] = none
first_row (row ∷ rows) = some row

abbrev db : Database
db = record {
  tasks = [];
  bigint = λ t. some (decimal_value 0 t);
  utc_text = λ t. t;
  jsonb = λ t. t;
  now = codes "2024-01-02T03:04:05Z";
  limit_one = first_row;
}

abbrev run : TaskRunRecord
run = record {
  id = [];
  task_id = codes "5";
  node_code = codes "n1";
  status = running;
  started_at = codes "2024-01-02T03:04:05Z";
  finished_at = [];
  items_total = pos 0;
  items_success = pos 0;
  items_failed = pos 0;
  error_summary = [];
  trigger_type = codes "scheduled";
  execution_key = [];
  scheduled_for = [];
  requested_at = [];
  retry_of_run_id = [];
  failed_files_json = [];
  failed_file_count = negsuc 0;
}

abbrev row : RunRow
row = run_row db 1 5 run

abbrev table : RunTable
table = record { rows = row ∷ []; next_key = 2 }

table-IsValid : IsValid table
unfolding run_row
table-IsValid = record {
  rows_valid = (record { used = omega arith; printed = refl; printed_task = refl }, tt);
  rows_apart = (tt, tt);
}

abbrev request : FinishTaskRunRequest
request = record {
  task_run_id = codes "1";
  status = failed;
  finished_at = codes "2024-01-02T03:05:00Z";
  items_total = pos 1;
  items_success = pos 0;
  items_failed = pos 1;
  error_summary = codes "unreadable";
  has_failed_files = true;
  failed_files =
      record {
        source_path = codes "in/a.csv";
        original_name = codes "a.csv";
        stage = codes "parse";
        message = codes "no header";
        archive_raw_file_id = codes "3";
      }
      ∷ [];
}

abbrev failed_value : Json
failed_value = array (items_of encode_failed_file request.failed_files)

abbrev finished_table : RunTable
finished_table = record {
  rows =
      finish_row db (finished_record (files_json (parse failed_value) dump) request row.run) row
      ∷ [];
  next_key = 2;
}

finished :
    finish_run db (files_json (parse failed_value) dump) request table
    ≡ ok (success, finished_table)
unfolding finish_run find_by_id key_of find_row finish finished_record update_rows finish_row
    run_row to_decimal text_eq
finished = refl

one : to_decimal 1 ≡ codes "1"
unfolding to_decimal
one = refl

finish_run-find_failed_files_example :
    find_failed_files db (files_json (parse failed_value) dump) (codes "1") finished_table
    ≡ ok (some request.failed_files)
unfolding text_eq
finish_run-find_failed_files_example =
    finish_run-find_failed_files (parse failed_value) dump db request 1 table finished_table
      (λ n. ap some (to_decimal-value n)) table-IsValid (sym one) refl refl refl refl finished
