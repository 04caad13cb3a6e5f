-- ===== src/Server/Receipts.antt =====
-- server/src/postgres/agent_report_receipt_repository.cpp over the table `agent_report_receipts` of
-- deploy/schema.sql. A row holds its lists of ids as the text that they are written from and read as,
-- and the code of the node in place of its key. A fingerprint has the 64 characters of its column.
pub mod Ids
pub mod Steps
pub mod Replays
mod Samples
use lab_bridge.Prelude.{
  ℕ, ◌+◌, ◌==◌, Bool, true, false, not, ◌&&◌, ◌||◌, List, [], ◌∷◌, ◌++◌, Option, none, some,
  Outcome, ok, err, ◌>>=◌, Text, codes, empty, text_eq, to_decimal, all, is_digit, if◌then◌else◌,
}

pub data AgentReportRequestType : Type 0 where
  raw_file_manifest task_run_report : AgentReportRequestType

pub record AgentReportReceiptClaim : Type 0 where
  pub task_run_id : Text
  pub node_code : Text
  pub request_type : AgentReportRequestType
  pub idempotency_key : Text
  pub request_fingerprint : Text

pub record AgentReportReceiptResponse : Type 0 where
  pub raw_file_ids : List Text
  pub parsed_record_ids : List Text
  pub qc_result_ids : List Text
  pub alert_ids : List Text

pub record AgentReportReceipt : Type 0 where
  pub id : Text
  pub claim : AgentReportReceiptClaim
  pub response : AgentReportReceiptResponse
  pub completed : Bool

pub data AgentReportReceiptClaimState : Type 0 where
  acquired replay idempotency_conflict task_run_conflict : AgentReportReceiptClaimState

pub record AgentReportReceiptClaimResult : Type 0 where
  pub state : AgentReportReceiptClaimState
  pub receipt : AgentReportReceipt

pub data ReceiptThrow : Type 0 where
  unknown_request_type empty_id invalid_id invalid_bigint incomplete not_claimed not_completed :
      ReceiptThrow

-- A row of `agent_report_receipts`; the lists are empty until it is completed.
pub record ReceiptRow : Type 0 where
  pub key : ℕ
  pub task_run_key : ℕ
  pub node_code : Text
  pub request_type : Text
  pub idempotency_key : Text
  pub request_fingerprint : Text
  pub completed : Bool
  pub raw_file_ids : Text
  pub parsed_record_ids : Text
  pub qc_result_ids : Text
  pub alert_ids : Text

pub record ReceiptTable : Type 0 where
  pub rows : List ReceiptRow
  pub next_key : ℕ

-- What the statements take from PostgreSQL: the key that a text names, and the node of a run.
pub record ReceiptDatabase : Type 0 where
  pub bigint : Text → Option ℕ
  pub run_node : ℕ → Option Text

abbrev pub request_type_value : AgentReportRequestType → Text
request_type_value raw_file_manifest = codes "raw_file_manifest"
request_type_value task_run_report = codes "task_run_report"

unfoldable pub request_type_from_value : Text → Outcome ReceiptThrow AgentReportRequestType
request_type_from_value value =
    if text_eq value (codes "raw_file_manifest")
    then ok raw_file_manifest
    else if text_eq value (codes "task_run_report")
    then ok task_run_report
    else err unknown_request_type

-- The loop of `split_ids`, with the bytes since `begin`.
unfoldable pub split_from : Text → Text → List Text
split_from piece [] = piece ∷ []
split_from piece (c ∷ rest) = elim (c == b',') [
  | true ↦ piece ∷ elim (empty rest) [ true ↦ [] | false ↦ split_from [] rest ]
  | false ↦ split_from (piece ++ c ∷ []) rest
]

unfoldable pub split_ids : Text → List Text
unfolding split_from
split_ids value = if empty value then [] else split_from [] value

-- The loop of `join_ids`.
unfoldable pub join_from : Text → List Text → Outcome ReceiptThrow Text
join_from joined [] = ok joined
join_from joined (id ∷ ids) =
    let rest = join_from ((if empty joined then [] else joined ++ b',' ∷ []) ++ id) ids in
    if empty id then err empty_id else if not (all is_digit id) then err invalid_id else rest

unfoldable pub join_ids : List Text → Outcome ReceiptThrow Text
unfolding join_from
join_ids = join_from []

abbrev pub no_response : AgentReportReceiptResponse
no_response = record {
  raw_file_ids = [];
  parsed_record_ids = [];
  qc_result_ids = [];
  alert_ids = [];
}

unfoldable pub to_receipt : ReceiptRow → Outcome ReceiptThrow AgentReportReceipt
to_receipt row = request_type_from_value row.request_type >>= λ request_type. ok (record {
  id = to_decimal row.key;
  claim = record {
    task_run_id = to_decimal row.task_run_key;
    node_code = row.node_code;
    request_type = request_type;
    idempotency_key = row.idempotency_key;
    request_fingerprint = row.request_fingerprint;
  };
  response = record {
    raw_file_ids = split_ids row.raw_file_ids;
    parsed_record_ids = split_ids row.parsed_record_ids;
    qc_result_ids = split_ids row.qc_result_ids;
    alert_ids = split_ids row.alert_ids;
  };
  completed = row.completed;
})

unfoldable pub receipt_key_of : ReceiptDatabase → Text → Outcome ReceiptThrow ℕ
receipt_key_of db id = elim (db.bigint id) [ none ↦ err invalid_bigint | some key ↦ ok key ]

unfoldable pub find_receipt : (ReceiptRow → Bool) → List ReceiptRow → Option ReceiptRow
find_receipt test [] = none
find_receipt test (row ∷ rows) = if test row then some row else find_receipt test rows

-- The columns of the index `agent_report_receipts_idempotency_uidx`.
unfoldable pub has_idempotency : Text → Text → Text → ReceiptRow → Bool
has_idempotency node_code request_type idempotency_key row =
    text_eq row.node_code node_code
    && text_eq row.request_type request_type
    && text_eq row.idempotency_key idempotency_key

-- The condition and the column of `agent_report_receipts_task_run_report_uidx`.
unfoldable pub is_report_of : ℕ → ReceiptRow → Bool
is_report_of task_run_key row =
    row.task_run_key == task_run_key && text_eq row.request_type (codes "task_run_report")

-- A row that one of the two unique indexes keeps from another.
unfoldable pub collides : ReceiptRow → ReceiptRow → Bool
unfolding has_idempotency is_report_of
collides row other =
    has_idempotency row.node_code row.request_type row.idempotency_key other
    || text_eq row.request_type (codes "task_run_report") && is_report_of row.task_run_key other

unfoldable pub any_receipt : (ReceiptRow → Bool) → List ReceiptRow → Bool
any_receipt test [] = false
any_receipt test (row ∷ rows) = test row || any_receipt test rows

abbrev pub claim_row : ℕ → ℕ → AgentReportReceiptClaim → ReceiptRow
claim_row key task_run_key request = record {
  key = key;
  task_run_key = task_run_key;
  node_code = request.node_code;
  request_type = request_type_value request.request_type;
  idempotency_key = request.idempotency_key;
  request_fingerprint = request.request_fingerprint;
  completed = false;
  raw_file_ids = [];
  parsed_record_ids = [];
  qc_result_ids = [];
  alert_ids = [];
}

-- `tr.id = $1 AND n.node_code = $2`
unfoldable pub has_run : ReceiptDatabase → ℕ → Text → Bool
has_run db task_run_key node_code = elim (db.run_node task_run_key) [
  | none ↦ false
  | some code ↦ text_eq code node_code
]

abbrev pub Claimed : Type 0
Claimed = Outcome ReceiptThrow (AgentReportReceiptClaimResult × ReceiptTable)

-- The part of `claim` for a receipt under the same key.
unfoldable pub claim_same_key : AgentReportReceiptClaim → ReceiptRow → ReceiptTable → Claimed
claim_same_key request row table = to_receipt row >>= λ receipt.
    if not (text_eq receipt.claim.request_fingerprint request.request_fingerprint)
    then ok (record { state = idempotency_conflict; receipt = receipt }, table)
    else if not receipt.completed
    then err incomplete
    else ok (record { state = replay; receipt = receipt }, table)

-- The part of `claim` behind the search by the key.
unfoldable pub claim_report : AgentReportRequestType → ℕ → ReceiptTable → Claimed
claim_report raw_file_manifest task_run_key table = err not_claimed
claim_report task_run_report task_run_key table =
    elim (find_receipt (is_report_of task_run_key) table.rows) [
      | none ↦ err not_claimed
      | some row ↦ to_receipt row >>= λ receipt.
          ok (record { state = task_run_conflict; receipt = receipt }, table)
    ]

abbrev pub fresh_receipt : ℕ → AgentReportReceiptClaim → AgentReportReceipt
fresh_receipt key request = record {
  id = to_decimal key;
  claim = request;
  response = no_response;
  completed = false;
}

-- PostgresAgentReportReceiptRepository::claim
unfoldable pub claim : ReceiptDatabase → AgentReportReceiptClaim → ReceiptTable → Claimed
claim db request table = receipt_key_of db request.task_run_id >>= λ task_run_key.
    let row = claim_row table.next_key task_run_key request in
    if has_run db task_run_key request.node_code && not (any_receipt (collides row) table.rows)
    then ok (
      record { state = acquired; receipt = fresh_receipt table.next_key request },
      record { rows = table.rows ++ row ∷ []; next_key = table.next_key + 1 },
    )
    else elim (find_receipt
        (has_idempotency request.node_code (request_type_value request.request_type)
          request.idempotency_key)
        table.rows) [
          | some same ↦ claim_same_key request same table
          | none ↦ claim_report request.request_type task_run_key table
        ]

-- The four lists as `complete` passes them.
pub record JoinedIds : Type 0 where
  pub raw_file_ids : Text
  pub parsed_record_ids : Text
  pub qc_result_ids : Text
  pub alert_ids : Text

unfoldable pub join_response : AgentReportReceiptResponse → Outcome ReceiptThrow JoinedIds
join_response response = join_ids response.raw_file_ids >>= λ raw_file_ids.
    join_ids response.parsed_record_ids >>= λ parsed_record_ids.
    join_ids response.qc_result_ids >>= λ qc_result_ids.
    join_ids response.alert_ids >>= λ alert_ids. ok (record {
      raw_file_ids = raw_file_ids;
      parsed_record_ids = parsed_record_ids;
      qc_result_ids = qc_result_ids;
      alert_ids = alert_ids;
    })

-- `id = $1 AND completed_at IS NULL`
abbrev pub is_incomplete : ℕ → ReceiptRow → Bool
is_incomplete key row = row.key == key && not row.completed

unfoldable pub complete_row : JoinedIds → ReceiptRow → ReceiptRow
complete_row ids row = record row {
  completed = true;
  raw_file_ids = ids.raw_file_ids;
  parsed_record_ids = ids.parsed_record_ids;
  qc_result_ids = ids.qc_result_ids;
  alert_ids = ids.alert_ids;
}

unfoldable pub update_receipts :
    (ReceiptRow → Bool) → (ReceiptRow → ReceiptRow) → List ReceiptRow → List ReceiptRow
update_receipts test change [] = []
update_receipts test change (row ∷ rows) =
    (if test row then change row else row) ∷ update_receipts test change rows

-- PostgresAgentReportReceiptRepository::complete
unfoldable pub complete :
    ReceiptDatabase
    → Text
    → AgentReportReceiptResponse
    → ReceiptTable
    → Outcome ReceiptThrow ReceiptTable
complete db receipt_id response table = join_response response >>= λ ids.
    receipt_key_of db receipt_id >>= λ key.
    if any_receipt (is_incomplete key) table.rows
    then ok
        (record table { rows = update_receipts (is_incomplete key) (complete_row ids) table.rows })
    else err not_completed
