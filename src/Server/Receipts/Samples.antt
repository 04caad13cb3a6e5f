-- ===== src/Server/Receipts/Samples.antt =====
-- Tests of the receipts, and the theorems at concrete inputs.
use lab_bridge.Prelude.{
  ◌==◌, ◌≡◌, refl, ap, true, List, [], ◌∷◌, none, some, ok, err, Text, codes, text_eq, to_decimal,
  decimal_value, to_decimal-value, if◌then◌else◌,
}
use lab_bridge.Server.Receipts.{
  task_run_report, AgentReportReceiptClaim, AgentReportReceiptResponse, AgentReportReceipt,
  acquired, replay, task_run_conflict, AgentReportReceiptClaimResult, ReceiptRow, ReceiptTable,
  ReceiptDatabase, fresh_receipt, claim_row, complete_row, find_receipt, has_idempotency,
  any_receipt, collides, is_report_of, has_run, receipt_key_of, claim, claim_report, complete,
  join_response, join_ids, join_from, split_ids, split_from, update_receipts, to_receipt,
  request_type_from_value, invalid_id,
}
use lab_bridge.Server.Receipts.Ids.{AreIds, join_ids-split_ids}
use lab_bridge.Server.Receipts.Steps.{Steps, done, then_step, claimed}
use lab_bridge.Server.Receipts.Replays.{claim_replays}

abbrev ids : List Text
ids = codes "7" ∷ codes "12" ∷ []

joined : join_ids ids ≡ ok (codes "7,12")
unfolding join_ids join_from
joined = refl

no_number : join_ids (codes "7" ∷ codes "x" ∷ []) ≡ err invalid_id
unfolding join_ids join_from
no_number = refl

join_ids-split_ids_example : AreIds ids × (split_ids (codes "7,12") ≡ ids)
join_ids-split_ids_example = join_ids-split_ids ids (codes "7,12") joined

abbrev db : ReceiptDatabase
db = record {
  bigint = λ t. some (decimal_value 0 t);
  run_node = λ n. if n == 5 then some (codes "n1") else none;
}

abbrev request : Text → AgentReportReceiptClaim
request idempotency_key = record {
  task_run_id = codes "5";
  node_code = codes "n1";
  request_type = task_run_report;
  idempotency_key = idempotency_key;
  request_fingerprint = codes "ff";
}

abbrev response : AgentReportReceiptResponse
response = record {
  raw_file_ids = [];
  parsed_record_ids = ids;
  qc_result_ids = codes "3" ∷ [];
  alert_ids = [];
}

abbrev empty_receipts : ReceiptTable
empty_receipts = record { rows = []; next_key = 1 }

abbrev first_row : ReceiptRow
first_row = claim_row 1 5 (request (codes "k"))

abbrev first_table : ReceiptTable
first_table = record { rows = first_row ∷ []; next_key = 2 }

abbrev first_claim : AgentReportReceiptClaimResult
first_claim = record { state = acquired; receipt = fresh_receipt 1 (request (codes "k")) }

claim_first : claim db (request (codes "k")) empty_receipts ≡ ok (first_claim, first_table)
unfolding claim receipt_key_of has_run any_receipt text_eq
claim_first = refl

abbrev last_row : ReceiptRow
last_row = record first_row {
  completed = true;
  parsed_record_ids = codes "7,12";
  qc_result_ids = codes "3";
}

abbrev last_table : ReceiptTable
last_table = record { rows = last_row ∷ []; next_key = 2 }

complete_first : complete db (to_decimal 1) response first_table ≡ ok last_table
unfolding complete join_response join_ids join_from receipt_key_of any_receipt update_receipts
    complete_row to_decimal
complete_first = refl

-- A second report of the run under another key.
second_report :
    claim db (request (codes "other")) last_table
    ≡ ok (
      record {
        state = task_run_conflict;
        receipt = record {
          id = codes "1";
          claim = request (codes "k");
          response = response;
          completed = true;
        };
      },
      last_table,
    )
unfolding claim claim_report receipt_key_of has_run any_receipt collides has_idempotency
    is_report_of find_receipt to_receipt request_type_from_value split_ids split_from to_decimal
    text_eq
second_report = refl

second-Steps : Steps last_table last_table
second-Steps = then_step done (claimed db (request (codes "other")) _ second_report)

claim_replays_example :
    (receipt : AgentReportReceipt) × (claim db (request (codes "k")) last_table
      ≡ ok (record { state = replay; receipt = receipt }, last_table))
    × (receipt.id ≡ to_decimal 1)
    × (receipt.response ≡ response)
claim_replays_example =
    claim_replays db (request (codes "k")) response first_claim empty_receipts first_table
      last_table last_table (λ n. ap some (to_decimal-value n)) claim_first refl complete_first
      second-Steps
