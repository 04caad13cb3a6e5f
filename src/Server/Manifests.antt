-- ===== src/Server/Manifests.antt =====
-- server/src/application/agent_report_service.cpp, `accept_raw_file_manifest`, in the transaction of
-- server/src/postgres/agent_report_executor.cpp. The receipts are those of Receipts.antt. Of the other
-- services a call reads the run and records the raw files; they are parameters over a state of their
-- own, which may throw.
pub mod Replays
mod Samples
use lab_bridge.Prelude.{
  Bool, true, false, not, List, [], ◌∷◌, ◌++◌, Option, none, some, Outcome, ok, err, ◌>>=◌, Text,
  empty, length, ltb, text_eq, if◌then◌else◌,
}
use lab_bridge.Prelude.Int.{ℤ}
use lab_bridge.Server.Models.{TaskRunRecord}
use lab_bridge.Server.Status.{
  Status, StatusCode, success, failure, invalid_argument, not_found, conflict,
}
use lab_bridge.Server.Fingerprint.{
  FingerprintError, RawFileManifestEntry, RawFileManifestRequest, manifest_fingerprint,
}
use lab_bridge.Server.Receipts.{
  raw_file_manifest, AgentReportReceiptClaim, AgentReportReceiptResponse,
  AgentReportReceiptClaimResult, AgentReportReceiptClaimState, acquired, replay,
  idempotency_conflict, task_run_conflict, ReceiptThrow, ReceiptTable, ReceiptDatabase, claim,
  complete,
}

-- What ends a call without a result; `service_threw` stands for the other services.
pub data ManifestThrow : Type 0 where
  receipt_threw : ReceiptThrow → ManifestThrow
  fingerprint_threw : FingerprintError → ManifestThrow
  service_threw : ManifestThrow

-- The texts of the failures; `service` is one of another service.
pub data ManifestMessage (M : Type 0) : Type 0 where
  key_required key_too_long task_run_id_required node_code_required : ManifestMessage M
  task_run_not_found other_node key_used run_reported : ManifestMessage M
  service : M → ManifestMessage M

pub record RecordRawFileRequest : Type 0 where
  pub task_run_id : Text
  pub node_code : Text
  pub original_name : Text
  pub file_hash : Text
  pub storage_path : Text
  pub size_bytes : ℤ
  pub source_mtime : Text
  pub ingest_status : Text

pub record ResultCreateResult (M : Type 0) : Type 0 where
  pub status : Status M
  pub id : Text

pub record RawFileManifestResult (M : Type 0) : Type 0 where
  pub status : Status (ManifestMessage M)
  pub raw_file_ids : List Text
  pub replayed : Bool

module _ {M : Type 0} where
  unfoldable pub validate_idempotency_key : Text → Status (ManifestMessage M)
  validate_idempotency_key key =
      if empty key
      then failure invalid_argument key_required
      else if ltb 128 (length key)
      then failure invalid_argument key_too_long
      else success

  -- `validate_task_run_node`, with what was found of the run.
  unfoldable pub check_owner : Text → Option TaskRunRecord → Status (ManifestMessage M)
  check_owner node_code none = failure not_found task_run_not_found
  check_owner node_code (some run) =
      if not (text_eq run.node_code node_code) then failure conflict other_node else success

  abbrev pub manifest_failure : StatusCode → ManifestMessage M → RawFileManifestResult M
  manifest_failure code message = record {
    status = failure code message;
    raw_file_ids = [];
    replayed = false;
  }

-- The errors of a component, as errors of the call.
unfoldable pub lifted : {E A : Type 0} → (E → ManifestThrow) → Outcome E A → Outcome ManifestThrow A
lifted throw (ok a) = ok a
lifted throw (err e) = err (throw e)

-- What the call takes from the other services, over a state of theirs.
pub record ManifestServices (W M : Type 0) : Type 1 where
  pub find_run : Text → W → Outcome ManifestThrow (Option TaskRunRecord)
  pub record_raw_file : RecordRawFileRequest → W → Outcome ManifestThrow (ResultCreateResult M × W)

abbrev pub response_of : List Text → AgentReportReceiptResponse
response_of ids = record {
  raw_file_ids = ids;
  parsed_record_ids = [];
  qc_result_ids = [];
  alert_ids = [];
}

module _ {W M : Type 0} (sv : ManifestServices W M) (db : ReceiptDatabase)
    (sha256 : Text → Option Text) where
  unfoldable pub validate_task_run_node :
      Text → Text → W → Outcome ManifestThrow (Status (ManifestMessage M))
  validate_task_run_node task_run_id node_code world =
      if empty task_run_id
      then ok (failure invalid_argument task_run_id_required)
      else if empty node_code
      then ok (failure invalid_argument node_code_required)
      else (sv.find_run task_run_id world >>= λ run. ok (check_owner node_code run))

  abbrev pub raw_file_request : RawFileManifestRequest → RawFileManifestEntry → RecordRawFileRequest
  raw_file_request request file = record {
    task_run_id = request.task_run_id;
    node_code = request.node_code;
    original_name = file.original_name;
    file_hash = file.file_hash;
    storage_path = file.storage_path;
    size_bytes = file.size_bytes;
    source_mtime = file.source_mtime;
    ingest_status = file.ingest_status;
  }

  -- The loop over the files: the status, and the ids that were collected.
  unfoldable pub record_files :
      RawFileManifestRequest
      → List Text
      → List RawFileManifestEntry
      → W
      → Outcome ManifestThrow ((Status (ManifestMessage M) × List Text) × W)
  record_files request ids [] world = ok ((success, ids), world)
  record_files request ids (file ∷ files) world =
      sv.record_raw_file (raw_file_request request file) world >>= λ (created, world').
      elim (created.status) [
        | failure code message ↦ ok ((failure code (service message), ids), world')
        | success ↦ record_files request (ids ++ created.id ∷ []) files world'
      ]

  -- The part of the call behind a claim that was acquired.
  unfoldable pub record_manifest :
      RawFileManifestRequest
      → Text
      → ReceiptTable
      → W
      → Outcome ManifestThrow (RawFileManifestResult M × (ReceiptTable × W))
  record_manifest request receipt_id receipts world =
      record_files request [] request.files world >>= λ ((status, ids), world'). elim status [
        | failure code message ↦ ok (
          record { status = failure code message; raw_file_ids = ids; replayed = false },
          (receipts, world'),
        )
        | success ↦
            lifted receipt_threw (complete db receipt_id (response_of ids) receipts)
            >>= λ receipts'. ok (
              record { status = success; raw_file_ids = ids; replayed = false },
              (receipts', world'),
            )
      ]

  unfoldable pub accept_claimed :
      RawFileManifestRequest
      → AgentReportReceiptClaimResult
      → ReceiptTable
      → W
      → Outcome ManifestThrow (RawFileManifestResult M × (ReceiptTable × W))
  accept_claimed request result receipts world = elim (result.state) [
    | acquired ↦ record_manifest request result.receipt.id receipts world
    | replay ↦ ok (
      record {
        status = success;
        raw_file_ids = result.receipt.response.raw_file_ids;
        replayed = true;
      },
      (receipts, world),
    )
    | idempotency_conflict ↦ ok (manifest_failure conflict key_used, (receipts, world))
    | task_run_conflict ↦ ok (manifest_failure conflict run_reported, (receipts, world))
  ]

  abbrev pub manifest_claim : RawFileManifestRequest → Text → AgentReportReceiptClaim
  manifest_claim request fingerprint = record {
    task_run_id = request.task_run_id;
    node_code = request.node_code;
    request_type = raw_file_manifest;
    idempotency_key = request.idempotency_key;
    request_fingerprint = fingerprint;
  }

  -- AgentReportService::accept_raw_file_manifest
  unfoldable pub accept_raw_file_manifest :
      RawFileManifestRequest
      → ReceiptTable × W
      → Outcome ManifestThrow (RawFileManifestResult M × (ReceiptTable × W))
  accept_raw_file_manifest request (receipts, world) =
      elim (validate_idempotency_key {M = M} request.idempotency_key) [
        | failure code message ↦ ok (manifest_failure code message, (receipts, world))
        | success ↦ validate_task_run_node request.task_run_id request.node_code world >>= λ owner.
            elim owner [
              | failure code message ↦ ok (manifest_failure code message, (receipts, world))
              | success ↦
                  lifted fingerprint_threw (manifest_fingerprint sha256 request) >>= λ fingerprint.
                  lifted receipt_threw (claim db (manifest_claim request fingerprint) receipts)
                  >>= λ (result, receipts'). accept_claimed request result receipts' world
            ]
      ]

  -- PostgresAgentReportExecutor::accept_raw_file_manifest: only a success is committed.
  unfoldable pub accept_in_transaction :
      RawFileManifestRequest
      → ReceiptTable × W
      → Outcome ManifestThrow (RawFileManifestResult M × (ReceiptTable × W))
  accept_in_transaction request state =
      accept_raw_file_manifest request state >>= λ (result, state'). elim (result.status) [
        | success ↦ ok (result, state')
        | failure code message ↦ ok (result, state)
      ]
