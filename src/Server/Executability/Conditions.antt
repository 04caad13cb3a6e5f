-- ===== src/Server/Executability/Conditions.antt =====
-- task_executability.cpp: the conditions on a task that can be run.
use lab_bridge.Prelude.{
  ◌≡◌, refl, ap, ◌∙◌, ◌↔◌, ◌⊎◌, inl, inr, Bool, true, false, List, [], ◌∷◌, Option, some, Text,
  codes, All, text_eq, text_eq_sound, text_eq_refl, Bool-cases, Option-cases, arith,
}
use lab_bridge.Json.{Json, string, object, no_members, find_field, string_of, is_object}
use lab_bridge.Server.Models.{TaskRecord}
use lab_bridge.Server.Status.{success}
use lab_bridge.Server.Executability.{
  DataSourceRecord, QcRuleRecord, local_directory, SourceType, is_supported_rule_type, is_blank,
  is_local_directory, has_root_path, has_csv_extension, is_empty_object, parse_json_object,
  is_csv_config, is_empty_config, check_rule, check_rules, check_source, validate_task_executable,
}

-- An object with a root path that is not blank and the extension of CSV files.
pub record IsCsvObject (config : Json) : Type 0 where
  pub root_path : Text
  pub has_root : find_field (codes "root_path") config ≡ some (string root_path)
  pub not_blank : is_blank root_path ≡ false
  pub is_csv : find_field (codes "extension") config ≡ some (string (codes ".csv"))

string_found : (o : Option Json) (t : Text) → string_of o ≡ some t → o ≡ some (string t)
unfolding string_of
string_found o t h = ground arith

object_found :
    (config : Json) (field : Text) (value : Json)
    → find_field field config ≡ some value
    → is_object config ≡ true
unfolding find_field is_object
object_found config field value h = ground arith

has_root_path-found :
    (config : Json)
    → has_root_path config ≡ true
    → (path : Text) × (find_field (codes "root_path") config ≡ some (string path))
      × (is_blank path ≡ false)
unfolding has_root_path
has_root_path-found config h =
    elim (Option-cases (string_of (find_field (codes "root_path") config))) [
      | inl e ↦ ground arith
      | inr (path, e) ↦
          (path, string_found (find_field (codes "root_path") config) path e, ground arith)
    ]

has_csv_extension-found :
    (config : Json)
    → has_csv_extension config ≡ true
    → find_field (codes "extension") config ≡ some (string (codes ".csv"))
unfolding has_csv_extension
has_csv_extension-found config h =
    elim (Option-cases (string_of (find_field (codes "extension") config))) [
      | inl e ↦ ground arith
      | inr (extension, e) ↦
          string_found (find_field (codes "extension") config) extension e
          ∙ ap (λ t. some (string t)) (text_eq_sound extension (codes ".csv") (ground arith))
    ]

found-has_root_path : (config : Json) → IsCsvObject config → has_root_path config ≡ true
unfolding has_root_path string_of
found-has_root_path config c = rw (c.has_root, has_root_path) (rw (c.not_blank) refl)

found-has_csv_extension : (config : Json) → IsCsvObject config → has_csv_extension config ≡ true
unfolding has_csv_extension string_of
found-has_csv_extension config c = rw (c.is_csv, has_csv_extension) (text_eq_refl (codes ".csv"))

is_empty_object-same : (config : Json) → is_empty_object config ≡ true → config ≡ object no_members
unfolding is_empty_object
is_empty_object-same config h = ground arith

is_local_directory-same : (t : SourceType) → is_local_directory t ≡ true → t ≡ local_directory
is_local_directory-same t h = ground arith

type_supported :
    (t : Text)
    → is_supported_rule_type t ≡ true
    → (t ≡ codes "required_fields") ⊎ (t ≡ codes "basic_timestamp_format")
unfolding is_supported_rule_type
type_supported t e = elim (Bool-cases (text_eq t (codes "required_fields"))) [
  | inl a ↦ inl (text_eq_sound t (codes "required_fields") a)
  | inr a ↦ inr (text_eq_sound t (codes "basic_timestamp_format") (ground arith))
]

supported_type :
    (t : Text)
    → (t ≡ codes "required_fields") ⊎ (t ≡ codes "basic_timestamp_format")
    → is_supported_rule_type t ≡ true
unfolding is_supported_rule_type
supported_type t (inl e) = rw (e, text_eq_refl (codes "required_fields")) refl
supported_type t (inr e) =
    let r = text_eq_refl (codes "basic_timestamp_format") in rw e (ground arith)

module _ (json_parse : Text → Option Json) (has_node : Text → Bool)
    (find_data_source : Text → Option DataSourceRecord)
    (find_rule : Text → Option QcRuleRecord) where
  -- A rule that is there and enabled, of one of the two types, with an empty object for configuration.
  pub record IsUsable (qc_rule_id : Text) : Type 0 where
    pub rule : QcRuleRecord
    pub found : find_rule qc_rule_id ≡ some rule
    pub enabled : rule.enabled ≡ true
    pub known_type :
        (rule.rule_type ≡ codes "required_fields")
        ⊎ (rule.rule_type ≡ codes "basic_timestamp_format")
    pub no_config : json_parse rule.rule_config_json ≡ some (object no_members)

  -- An enabled source of the node of the task, which is a local directory of CSV files.
  pub record IsSource (node_code : Text) (source : DataSourceRecord) : Type 0 where
    pub same_node : source.node_code ≡ node_code
    pub enabled : source.enabled ≡ true
    pub is_directory : source.source_type ≡ local_directory
    pub config : Json
    pub parsed : json_parse source.config_json ≡ some config
    pub csv : IsCsvObject config

  -- A task of a known node with a source and rules that can be run.
  pub record IsExecutable (task : TaskRecord) (qc_rule_ids : List Text) : Type 0 where
    pub known_node : has_node task.node_code ≡ true
    pub source : DataSourceRecord
    pub found : find_data_source task.data_source_id ≡ some source
    pub source_valid : IsSource task.node_code source
    pub rules_valid : All IsUsable qc_rule_ids

  parse_json_object-found :
      (text : Text) (config : Json)
      → parse_json_object json_parse has_node find_data_source find_rule text ≡ some config
      → json_parse text ≡ some config
  unfolding parse_json_object
  parse_json_object-found text config h = ground arith

  found-parse_json_object :
      (text : Text) (config : Json)
      → json_parse text ≡ some config
      → is_object config ≡ true
      → parse_json_object json_parse has_node find_data_source find_rule text ≡ some config
  unfolding parse_json_object
  found-parse_json_object text config p o = rw (p, parse_json_object) (rw o refl)

  is_csv_config-found :
      (text : Text)
      → is_csv_config json_parse has_node find_data_source find_rule text ≡ true
      → (config : Json) × (json_parse text ≡ some config) × IsCsvObject config
  unfolding is_csv_config
  is_csv_config-found text h =
      elim (Option-cases (parse_json_object json_parse has_node find_data_source find_rule text)) [
        | inl e ↦ ground arith
        | inr (config, e) ↦
            let (path, found, filled) = has_root_path-found config (ground arith) in
            (
              config,
              parse_json_object-found text config e,
              record {
                root_path = path;
                has_root = found;
                not_blank = filled;
                is_csv = has_csv_extension-found config (ground arith);
              },
            )
      ]

  found-is_csv_config :
      (text : Text) (config : Json)
      → json_parse text ≡ some config
      → IsCsvObject config
      → is_csv_config json_parse has_node find_data_source find_rule text ≡ true
  unfolding is_csv_config
  found-is_csv_config text config p c =
      let o = object_found config (codes "root_path") (string (c.root_path)) c.has_root in
      rw (found-parse_json_object text config p o, is_csv_config)
        (rw (found-has_root_path config c) (found-has_csv_extension config c))

  is_empty_config-found :
      (text : Text)
      → is_empty_config json_parse has_node find_data_source find_rule text ≡ true
      → json_parse text ≡ some (object no_members)
  unfolding is_empty_config
  is_empty_config-found text h =
      elim (Option-cases (parse_json_object json_parse has_node find_data_source find_rule text)) [
        | inl e ↦ ground arith
        | inr (config, e) ↦
            parse_json_object-found text config e
            ∙ ap some (is_empty_object-same config (ground arith))
      ]

  found-is_empty_config :
      (text : Text)
      → json_parse text ≡ some (object no_members)
      → is_empty_config json_parse has_node find_data_source find_rule text ≡ true
  unfolding is_empty_config is_object is_empty_object
  found-is_empty_config text p =
      rw (found-parse_json_object text (object no_members) p refl, is_empty_config) refl

  check_rule-found :
      (qc_rule_id : Text) (rule : QcRuleRecord)
      → find_rule qc_rule_id ≡ some rule
      → check_rule json_parse has_node find_data_source find_rule rule ≡ success
      → IsUsable qc_rule_id
  unfolding check_rule
  check_rule-found qc_rule_id rule found h = record {
    rule = rule;
    found = found;
    enabled = ground arith;
    known_type = type_supported rule.rule_type (ground arith);
    no_config = is_empty_config-found rule.rule_config_json (ground arith);
  }

  found-check_rule :
      (rule : QcRuleRecord)
      → rule.enabled ≡ true
      → (rule.rule_type ≡ codes "required_fields")
        ⊎ (rule.rule_type ≡ codes "basic_timestamp_format")
      → json_parse rule.rule_config_json ≡ some (object no_members)
      → check_rule json_parse has_node find_data_source find_rule rule ≡ success
  unfolding check_rule
  found-check_rule rule e t c = rw e (
      rw (supported_type rule.rule_type t)
        (rw (found-is_empty_config rule.rule_config_json c) refl))

  check_rules-IsUsable :
      (qc_rule_ids : List Text)
      → check_rules json_parse has_node find_data_source find_rule qc_rule_ids ≡ success
      → All IsUsable qc_rule_ids
  unfolding check_rules
  check_rules-IsUsable [] h = tt
  check_rules-IsUsable (qc_rule_id ∷ qc_rule_ids) h = elim (Option-cases (find_rule qc_rule_id)) [
    | inl e ↦ ground arith
    | inr (rule, e) ↦ (
      check_rule-found qc_rule_id rule e (ground arith),
      check_rules-IsUsable qc_rule_ids (ground arith),
    )
  ]

  IsUsable-check_rules :
      (qc_rule_ids : List Text)
      → All IsUsable qc_rule_ids
      → check_rules json_parse has_node find_data_source find_rule qc_rule_ids ≡ success
  unfolding check_rules
  IsUsable-check_rules [] h = refl
  IsUsable-check_rules (qc_rule_id ∷ qc_rule_ids) (h, hs) =
      rw (h.found, check_rules)
        (rw (found-check_rule h.rule h.enabled h.known_type h.no_config)
          (IsUsable-check_rules qc_rule_ids hs))

  check_source-found :
      (task : TaskRecord) (source : DataSourceRecord) (qc_rule_ids : List Text)
      → check_source json_parse has_node find_data_source find_rule task source qc_rule_ids
        ≡ success
      → IsSource task.node_code source × All IsUsable qc_rule_ids
  unfolding check_source
  check_source-found task source qc_rule_ids h =
      let (config, parsed, csv) = is_csv_config-found source.config_json (ground arith) in
      (
        record {
          same_node = text_eq_sound source.node_code task.node_code (ground arith);
          enabled = ground arith;
          is_directory = is_local_directory-same source.source_type (ground arith);
          config = config;
          parsed = parsed;
          csv = csv;
        },
        check_rules-IsUsable qc_rule_ids (ground arith),
      )

  found-check_source :
      (task : TaskRecord) (source : DataSourceRecord) (qc_rule_ids : List Text)
      → IsSource task.node_code source
      → All IsUsable qc_rule_ids
      → check_source json_parse has_node find_data_source find_rule task source qc_rule_ids
        ≡ success
  unfolding check_source
  found-check_source task source qc_rule_ids s rules = rw (s.same_node) (
      rw (text_eq_refl task.node_code) (
        rw (s.enabled) (
          rw (s.is_directory) (
            rw (found-is_csv_config source.config_json s.config s.parsed s.csv)
              (IsUsable-check_rules qc_rule_ids rules)))))

  -- A task can be run exactly where its node is known, its data source is known, enabled, of the same
  -- node and a local directory whose configuration is an object with a root path that is not blank and
  -- the extension `.csv`, and each of its quality rules is known, enabled, of one of the two types, and
  -- configured by an empty object.
  pub validate_task_executable-IsExecutable :
      (task : TaskRecord) (qc_rule_ids : List Text)
      → (validate_task_executable json_parse has_node find_data_source find_rule task qc_rule_ids
          ≡ success)
        ↔ IsExecutable task qc_rule_ids
  unfolding validate_task_executable
  validate_task_executable-IsExecutable task qc_rule_ids = (
    λ h. elim (Option-cases (find_data_source task.data_source_id)) [
      | inl e ↦ ground arith
      | inr (source, e) ↦
          let (s, rules) = check_source-found task source qc_rule_ids (ground arith) in
          record {
            known_node = ground arith;
            source = source;
            found = e;
            source_valid = s;
            rules_valid = rules;
          }
    ],
    λ t.
        rw (t.known_node) (
          rw (t.found) (found-check_source task t.source qc_rule_ids t.source_valid t.rules_valid)),
  )
