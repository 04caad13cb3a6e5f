-- ===== src/Server/Executability/Samples.antt =====
-- Tests of the check of a task, and the theorem at a concrete input.
use lab_bridge.Prelude.{
  ◌≡◌, refl, ◌↔◌, Bool, true, [], ◌∷◌, Option, none, some, Text, codes, text_eq, if◌then◌else◌,
}
use lab_bridge.Json.{
  Json, string, object, member, no_members, find_field, find_member, string_of, is_object,
}
use lab_bridge.Server.Models.{TaskRecord}
use lab_bridge.Server.Status.{success, failure, conflict}
use lab_bridge.Server.Executability.{
  DataSourceRecord, QcRuleRecord, local_directory, source_config_unsupported,
  is_supported_rule_type, is_blank, has_root_path, has_csv_extension, is_empty_object,
  parse_json_object, is_csv_config, is_empty_config, check_rule, check_rules, check_source,
  validate_task_executable,
}
use lab_bridge.Server.Executability.Conditions.{IsExecutable, validate_task_executable-IsExecutable}

abbrev task : TaskRecord
task = record {
  id = codes "5";
  node_code = codes "n1";
  data_source_id = codes "2";
  name = codes "imports";
  task_type = [];
  schedule_expr = [];
  parser_type = [];
  qc_profile = [];
  enabled = true;
  qc_rule_ids = codes "7" ∷ [];
  created_at = [];
  updated_at = [];
}

abbrev source : Text → DataSourceRecord
source config_json = record {
  id = codes "2";
  node_code = codes "n1";
  source_type = local_directory;
  name = codes "inbox";
  config_json = config_json;
  enabled = true;
  created_at = [];
  updated_at = [];
}

abbrev rule : QcRuleRecord
rule = record {
  id = codes "7";
  name = codes "fields";
  rule_type = codes "required_fields";
  rule_config_json = codes "{}";
  enabled = true;
  created_at = [];
}

-- Two texts that the library reads.
abbrev parse : Text → Option Json
parse text =
    if text_eq text (codes "{}")
    then some (object no_members)
    else if text_eq text (codes "{config}")
    then some (
        object (
          member (codes "extension") (string (codes ".csv"))
            (member (codes "root_path") (string (codes "/data")) no_members)))
    else none

abbrev has_node : Text → Bool
has_node code = text_eq code (codes "n1")

abbrev find_source : Text → Text → Option DataSourceRecord
find_source config_json id = if text_eq id (codes "2") then some (source config_json) else none

abbrev find_rule : Text → Option QcRuleRecord
find_rule id = if text_eq id (codes "7") then some rule else none

executable :
    validate_task_executable parse has_node
      (find_source (codes "{config}"))
      find_rule
      task
      (codes "7" ∷ [])
    ≡ success
unfolding validate_task_executable check_source check_rules check_rule is_csv_config is_empty_config
    parse_json_object has_root_path has_csv_extension is_empty_object is_supported_rule_type
    is_blank find_field find_member string_of is_object text_eq
executable = refl

no_root_path :
    validate_task_executable parse has_node
      (find_source (codes "{}"))
      find_rule
      task
      (codes "7" ∷ [])
    ≡ failure conflict source_config_unsupported
unfolding validate_task_executable check_source is_csv_config parse_json_object has_root_path
    find_field find_member string_of is_object text_eq
no_root_path = refl

validate_task_executable-IsExecutable_example :
    (validate_task_executable parse has_node
        (find_source (codes "{config}"))
        find_rule
        task
        (codes "7" ∷ [])
      ≡ success)
    ↔ IsExecutable parse has_node (find_source (codes "{config}")) find_rule task (codes "7" ∷ [])
validate_task_executable-IsExecutable_example =
    validate_task_executable-IsExecutable parse has_node (find_source (codes "{config}")) find_rule
      task (codes "7" ∷ [])
