-- ===== src/Server/Executability.antt =====
-- server/src/application/task_executability.cpp: whether a task can be run, by its node, its data
-- source and its quality rules. The reads of the repositories and Json::parse are parameters.
pub mod Conditions
mod Samples
use lab_bridge.Prelude.{
  Bool, true, false, not, ◌&&◌, ◌||◌, List, [], ◌∷◌, Option, none, some, Text, codes, all, is_space,
  text_eq, if◌then◌else◌,
}
use lab_bridge.Json.{Json, object, no_members, find_field, string_of, is_object}
use lab_bridge.Server.Models.{TaskRecord}
use lab_bridge.Server.Status.{Status, success, failure, not_found, conflict}

-- core::SourceType
pub data SourceType : Type 0 where
  local_directory ftp oracle : SourceType

pub record DataSourceRecord : Type 0 where
  pub id : Text
  pub node_code : Text
  pub source_type : SourceType
  pub name : Text
  pub config_json : Text
  pub enabled : Bool
  pub created_at : Text
  pub updated_at : Text

pub record QcRuleRecord : Type 0 where
  pub id : Text
  pub name : Text
  pub rule_type : Text
  pub rule_config_json : Text
  pub enabled : Bool
  pub created_at : Text

pub data ExecutabilityMessage : Type 0 where
  node_not_found source_not_found other_node source_disabled source_type_unsupported :
      ExecutabilityMessage
  source_config_unsupported rule_not_found rule_disabled rule_type_unsupported :
      ExecutabilityMessage
  rule_config_unsupported : ExecutabilityMessage

unfoldable pub is_supported_rule_type : Text → Bool
is_supported_rule_type rule_type =
    text_eq rule_type (codes "required_fields")
    || text_eq rule_type (codes "basic_timestamp_format")

unfoldable pub is_blank : Text → Bool
is_blank value = all is_space value

abbrev pub is_local_directory : SourceType → Bool
is_local_directory local_directory = true
is_local_directory _ = false

-- The tests of `root_path` and of `extension`, once the text is an object.
unfoldable pub has_root_path : Json → Bool
has_root_path config = elim (string_of (find_field (codes "root_path") config)) [
  | none ↦ false
  | some path ↦ not (is_blank path)
]

unfoldable pub has_csv_extension : Json → Bool
has_csv_extension config = elim (string_of (find_field (codes "extension") config)) [
  | none ↦ false
  | some extension ↦ text_eq extension (codes ".csv")
]

-- `value.empty()` of an object
unfoldable pub is_empty_object : Json → Bool
is_empty_object (object no_members) = true
is_empty_object _ = false

module _ (json_parse : Text → Option Json) (has_node : Text → Bool)
    (find_data_source : Text → Option DataSourceRecord)
    (find_rule : Text → Option QcRuleRecord) where
  unfoldable pub parse_json_object : Text → Option Json
  parse_json_object text = elim (json_parse text) [
    | none ↦ none
    | some value ↦ if is_object value then some value else none
  ]

  unfoldable pub is_csv_config : Text → Bool
  is_csv_config text = elim (parse_json_object text) [
    | none ↦ false
    | some config ↦ has_root_path config && has_csv_extension config
  ]

  unfoldable pub is_empty_config : Text → Bool
  is_empty_config text = elim (parse_json_object text) [
    | none ↦ false
    | some config ↦ is_empty_object config
  ]

  -- The body of the loop over the rules, for a rule that was found.
  unfoldable pub check_rule : QcRuleRecord → Status ExecutabilityMessage
  check_rule rule =
      if not rule.enabled
      then failure conflict rule_disabled
      else if not (is_supported_rule_type rule.rule_type)
      then failure conflict rule_type_unsupported
      else if not (is_empty_config rule.rule_config_json)
      then failure conflict rule_config_unsupported
      else success

  unfoldable pub check_rules : List Text → Status ExecutabilityMessage
  check_rules [] = success
  check_rules (qc_rule_id ∷ qc_rule_ids) = elim (find_rule qc_rule_id) [
    | none ↦ failure not_found rule_not_found
    | some rule ↦ elim (check_rule rule) [
      | success ↦ check_rules qc_rule_ids
      | failure code message ↦ failure code message
    ]
  ]

  unfoldable pub check_source :
      TaskRecord → DataSourceRecord → List Text → Status ExecutabilityMessage
  check_source task source qc_rule_ids =
      if not (text_eq source.node_code task.node_code)
      then failure conflict other_node
      else if not source.enabled
      then failure conflict source_disabled
      else if not (is_local_directory source.source_type)
      then failure conflict source_type_unsupported
      else if not (is_csv_config source.config_json)
      then failure conflict source_config_unsupported
      else check_rules qc_rule_ids

  unfoldable pub validate_task_executable : TaskRecord → List Text → Status ExecutabilityMessage
  validate_task_executable task qc_rule_ids =
      if not (has_node task.node_code)
      then failure not_found node_not_found
      else elim (find_data_source task.data_source_id) [
        | none ↦ failure not_found source_not_found
        | some source ↦ check_source task source qc_rule_ids
      ]
