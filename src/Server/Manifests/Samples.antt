-- ===== src/Server/Manifests/Samples.antt =====
-- The acceptance of a manifest at a concrete input.
use lab_bridge.Prelude.{
  ℕ, ◌+◌, ◌==◌, ◌≡◌, refl, ap, Bool, true, false, [], ◌∷◌, Option, none, some, ok, Text, codes,
  text_eq, to_decimal, decimal_value, to_decimal-value, if◌then◌else◌,
}
use lab_bridge.Prelude.Int.{pos, negsuc}
use lab_bridge.Server.Models.{running, TaskRunRecord}
use lab_bridge.Server.Status.{success}
use lab_bridge.Server.Fingerprint.{RawFileManifestRequest, manifest_fingerprint, finish, hex_text}
use lab_bridge.Server.Receipts.{
  ReceiptTable, ReceiptDatabase, claim_row, claim, complete, complete_row, any_receipt, has_run,
  receipt_key_of, join_response, join_ids, join_from, update_receipts,
}
use lab_bridge.Server.Receipts.Steps.{done}
use lab_bridge.Server.Manifests.{
  RawFileManifestResult, ManifestServices, validate_idempotency_key, check_owner, lifted,
  validate_task_run_node, record_files, record_manifest, accept_claimed, accept_raw_file_manifest,
  accept_in_transaction, manifest_claim,
}
use lab_bridge.Server.Manifests.Replays.{accept_in_transaction_replays}

abbrev run : TaskRunRecord
run = record {
  id = codes "5";
  task_id = codes "1";
  node_code = codes "n1";
  status = running;
  started_at = [];
  finished_at = [];
  items_total = pos 0;
  items_success = pos 0;
  items_failed = pos 0;
  error_summary = [];
  trigger_type = codes "scheduled";
  execution_key = [];
  scheduled_for = [];
  requested_at = [];
  retry_of_run_id = [];
  failed_files_json = [];
  failed_file_count = negsuc 0;
}

-- A result service that numbers the raw files.
abbrev sv : ManifestServices ℕ Bool
sv = record {
  find_run = λ _ _. ok (some run);
  record_raw_file = λ _ n. ok (record { status = success; id = to_decimal n }, n + 1);
}

abbrev db : ReceiptDatabase
db = record {
  bigint = λ t. some (decimal_value 0 t);
  run_node = λ n. if n == 5 then some (codes "n1") else none;
}

abbrev sha256 : Text → Option Text
sha256 _ = some (255 ∷ [])

abbrev manifest : RawFileManifestRequest
manifest = record {
  task_run_id = codes "5";
  node_code = codes "n1";
  idempotency_key = codes "k";
  files =
      record {
        original_name = codes "a.csv";
        file_hash = codes "ff";
        storage_path = codes "x/a.csv";
        size_bytes = pos 12;
        source_mtime = [];
        ingest_status = codes "collected";
      }
      ∷ [];
}

abbrev receipts : ReceiptTable
receipts = record { rows = []; next_key = 1 }

abbrev result : RawFileManifestResult Bool
result = record { status = success; raw_file_ids = codes "8" ∷ []; replayed = false }

abbrev receipts' : ReceiptTable
receipts' = record {
  rows =
      record (claim_row 1 5 (manifest_claim sv db sha256 manifest (codes "ff"))) {
        completed = true;
        raw_file_ids = codes "8";
      }
      ∷ [];
  next_key = 2;
}

accepted : accept_in_transaction sv db sha256 manifest (receipts, 8) ≡ ok (result, (receipts', 9))
unfolding accept_in_transaction accept_raw_file_manifest validate_idempotency_key
    validate_task_run_node check_owner lifted manifest_fingerprint finish hex_text claim
    receipt_key_of has_run any_receipt accept_claimed record_manifest record_files complete
    join_response join_ids join_from update_receipts complete_row to_decimal text_eq
accepted = refl

accept_in_transaction_replays_example :
    accept_in_transaction sv db sha256 manifest (receipts', 9)
    ≡ ok (
      record { status = success; raw_file_ids = codes "8" ∷ []; replayed = true },
      (receipts', 9),
    )
accept_in_transaction_replays_example =
    accept_in_transaction_replays sv db sha256 manifest receipts receipts' receipts' 8 9 9 result
      run (λ n. ap some (to_decimal-value n)) accepted refl refl done refl refl
