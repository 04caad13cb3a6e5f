-- ===== src/Server/Fingerprint.antt =====
-- server/src/application/agent_report_service.cpp: the canonical text of a request and its
-- fingerprint. The SHA-256 of OpenSSL is a parameter, with nothing where it fails.
pub mod Encoding
pub mod Manifest
pub mod Report
mod Samples
use lab_bridge.Prelude.{
  ℕ, suc, ◌+◌, ◌/◌, ◌%◌, Bool, true, false, List, [], ◌∷◌, ◌++◌, map, Option, none, some, Outcome,
  ok, err, Text, codes, empty, length, ltb, to_decimal, if◌then◌else◌,
}
use lab_bridge.Prelude.Int.{ℤ, pos, negsuc}
use lab_bridge.Agent.Csv.{ParsedRecord}
use lab_bridge.Server.Models.{TaskRunStatus, TaskRunFailedFile, to_storage}

-- std::to_string of a signed number
unfoldable pub signed_decimal : ℤ → Text
signed_decimal (pos n) = to_decimal n
signed_decimal (negsuc n) = b'-' ∷ to_decimal (suc n)

-- FingerprintBuilder::append, with the text that was there.
pub append : Text → Text → Text
append canonical value = canonical ++ to_decimal (length value) ++ b':' ∷ value

-- The calls of `append` in their order.
unfoldable pub append_all : Text → List Text → Text
unfolding append
append_all canonical [] = canonical
append_all canonical (value ∷ values) = append_all (append canonical value) values

abbrev pub hex_digit : ℕ → ℕ
hex_digit n = if ltb n 10 then 48 + n else 87 + n

unfoldable pub hex_text : Text → Text
hex_text [] = []
hex_text (byte ∷ bytes) = hex_digit (byte / 16) ∷ hex_digit (byte % 16) ∷ hex_text bytes

-- The runtime error that `finish` throws.
pub data FingerprintError : Type 0 where
  digest_failed : FingerprintError

pub record RawFileManifestEntry : Type 0 where
  pub original_name : Text
  pub file_hash : Text
  pub storage_path : Text
  pub size_bytes : ℤ
  pub source_mtime : Text
  pub ingest_status : Text

pub record RawFileManifestRequest : Type 0 where
  pub task_run_id : Text
  pub node_code : Text
  pub idempotency_key : Text
  pub files : List RawFileManifestEntry

pub record TaskRunReportQcResult : Type 0 where
  pub qc_rule_id : Text
  pub level : Text
  pub result : Text
  pub message : Text

pub record TaskRunReportParsedRecord : Type 0 where
  pub raw_file_id : Text
  pub parsed : ParsedRecord
  pub parse_status : Text
  pub qc_results : List TaskRunReportQcResult

pub record TaskRunReportRequest : Type 0 where
  pub task_run_id : Text
  pub node_code : Text
  pub idempotency_key : Text
  pub status : TaskRunStatus
  pub finished_at : Text
  pub items_total : ℤ
  pub items_success : ℤ
  pub items_failed : ℤ
  pub error_summary : Text
  pub parsed_records : List TaskRunReportParsedRecord
  pub has_failed_files : Bool
  pub failed_files : List TaskRunFailedFile

-- `value.empty() ? other : value`
unfoldable pub or_default : Text → Text → Text
or_default value other = if empty value then other else value

-- What a loop appends, one element after the other.
abbrev pub each {ℓ} : {A : Type ℓ} → (A → List Text) → List A → List Text
each values [] = []
each values (x ∷ xs) = values x ++ each values xs

abbrev pub count {ℓ} : {A : Type ℓ} → List A → Text
count xs = signed_decimal (pos (length xs))

unfoldable pub file_values : RawFileManifestEntry → List Text
file_values file =
    file.original_name
    ∷ file.file_hash
    ∷ file.storage_path
    ∷ signed_decimal file.size_bytes
    ∷ file.source_mtime
    ∷ or_default file.ingest_status (codes "collected")
    ∷ []

-- The values that `manifest_fingerprint` appends.
unfoldable pub manifest_values : RawFileManifestRequest → List Text
manifest_values request =
    codes "raw_file_manifest"
    ∷ request.task_run_id
    ∷ request.node_code
    ∷ count request.files
    ∷ each file_values request.files

unfoldable pub qc_values : TaskRunReportQcResult → List Text
qc_values qc = qc.qc_rule_id ∷ qc.level ∷ qc.result ∷ qc.message ∷ []

unfoldable pub parsed_values : TaskRunReportParsedRecord → List Text
parsed_values item =
    item.raw_file_id
    ∷ item.parsed.station_code
    ∷ item.parsed.device_code
    ∷ item.parsed.record_time
    ∷ item.parsed.payload_json
    ∷ or_default item.parse_status (codes "parsed")
    ∷ count item.qc_results
    ∷ each qc_values item.qc_results

unfoldable pub failed_values : TaskRunFailedFile → List Text
failed_values item =
    item.source_path ∷ item.original_name ∷ item.stage ∷ item.message ∷ item.archive_raw_file_id
    ∷ []

-- The block under `has_failed_files`.
unfoldable pub failed_block : Bool → List TaskRunFailedFile → List Text
failed_block has files =
    if has then codes "failed_files_v1" ∷ count files ∷ each failed_values files else []

-- The values that `report_fingerprint` appends.
unfoldable pub report_values : TaskRunReportRequest → List Text
report_values request =
    codes "task_run_report"
      ∷ request.task_run_id
      ∷ request.node_code
      ∷ to_storage request.status
      ∷ request.finished_at
      ∷ signed_decimal request.items_total
      ∷ signed_decimal request.items_success
      ∷ signed_decimal request.items_failed
      ∷ request.error_summary
      ∷ count request.parsed_records
      ∷ each parsed_values request.parsed_records
    ++ failed_block request.has_failed_files request.failed_files

module _ (sha256 : Text → Option Text) where
  -- FingerprintBuilder::finish
  unfoldable pub finish : Text → Outcome FingerprintError Text
  finish canonical = elim (sha256 canonical) [
    | none ↦ err digest_failed
    | some digest ↦ ok (hex_text digest)
  ]

  unfoldable pub manifest_fingerprint : RawFileManifestRequest → Outcome FingerprintError Text
  manifest_fingerprint request = finish (append_all [] (manifest_values request))

  unfoldable pub report_fingerprint : TaskRunReportRequest → Outcome FingerprintError Text
  report_fingerprint request = finish (append_all [] (report_values request))
