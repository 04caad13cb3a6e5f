-- ===== src/Server/Receipts/Steps.antt =====
-- agent_report_receipt_repository.cpp: the calls as steps of the table. A completed receipt stays.
use lab_bridge.Prelude.{
  subst, ℕ, ◌≡◌, ap, ◌∙◌, Bool, true, not, ◌&&◌, List, [], ◌∷◌, ◌++◌, some, ok, Text, text_eq,
  Bool-cases, inl, inr, arith, if◌then◌else◌, bind-ok,
}
use lab_bridge.Server.Receipts.{
  AgentReportReceiptClaim, AgentReportReceiptResponse, AgentReportReceiptClaimResult, ReceiptRow,
  ReceiptTable, ReceiptDatabase, claim_same_key, claim_report, claim_row, find_receipt,
  has_idempotency, any_receipt, collides, request_type_value, is_incomplete, complete_row,
  update_receipts, join_response, JoinedIds, receipt_key_of, has_run, to_receipt, is_report_of,
  claim, complete, AgentReportRequestType, raw_file_manifest, task_run_report,
}
use lab_bridge.Server.Returns.{
  Returns, threw, returned, Returns-ok, if-Returns, option-Returns, refusal-Returns, read-Returns,
}

-- One call that returned.
pub data Step : ReceiptTable → ReceiptTable → Type 0 where
  claimed :
      {table table' : ReceiptTable} (db : ReceiptDatabase) (request : AgentReportReceiptClaim)
      (r : AgentReportReceiptClaimResult)
      → claim db request table ≡ ok (r, table')
      → Step table table'
  completed :
      {table table' : ReceiptTable} (db : ReceiptDatabase) (receipt_id : Text)
      (response : AgentReportReceiptResponse)
      → complete db receipt_id response table ≡ ok table'
      → Step table table'

pub data Steps : ReceiptTable → ReceiptTable → Type 0 where
  done : {table : ReceiptTable} → Steps table table
  then_step :
      {first middle last : ReceiptTable} → Steps first middle → Step middle last → Steps first last

-- What a call does to the rows.
pub data Change (table : ReceiptTable) : ReceiptTable → Type 0 where
  unchanged : Change table table
  inserted :
      {next_key : ℕ} (row : ReceiptRow)
      → Change table (record { rows = table.rows ++ row ∷ []; next_key = next_key })
  updated :
      (key : ℕ) (ids : JoinedIds)
      → Change table (record table {
        rows = update_receipts (is_incomplete key) (complete_row ids) table.rows;
      })

abbrev Stays : {A : Type 0} → ReceiptTable → A → ReceiptTable → Type 0
Stays table r table' = Change table table'

claim_same_key-Change :
    (request : AgentReportReceiptClaim) (row : ReceiptRow) (table : ReceiptTable)
    → Returns (Stays table) (claim_same_key request row table)
unfolding claim_same_key
claim_same_key-Change request row table = read-Returns (to_receipt row) (λ receipt _.
    if-Returns (not (text_eq receipt.claim.request_fingerprint request.request_fingerprint))
      (returned unchanged) (if-Returns (not receipt.completed) threw (returned unchanged)))

claim_report-Change :
    (request_type : AgentReportRequestType) (key : ℕ) (table : ReceiptTable)
    → Returns (Stays table) (claim_report request_type key table)
unfolding claim_report
claim_report-Change raw_file_manifest key table = threw
claim_report-Change task_run_report key table =
    option-Returns (find_receipt (is_report_of key) table.rows) threw
      (λ row. read-Returns (to_receipt row) (λ receipt _. returned unchanged))

claim-Change :
    (db : ReceiptDatabase) (request : AgentReportReceiptClaim) (table : ReceiptTable)
    → Returns (Stays table) (claim db request table)
unfolding claim
claim-Change db request table = read-Returns (receipt_key_of db request.task_run_id) (λ key _.
    if-Returns
      (has_run db key request.node_code
        && not (any_receipt (collides (claim_row table.next_key key request)) table.rows))
      (returned (inserted (claim_row table.next_key key request)))
      (refusal-Returns
        (find_receipt
          (has_idempotency request.node_code (request_type_value request.request_type)
            request.idempotency_key)
          table.rows)
        (λ same _. claim_same_key-Change request same table)
        (λ _. claim_report-Change request.request_type key table)))

complete-Change :
    (db : ReceiptDatabase) (receipt_id : Text) (response : AgentReportReceiptResponse)
    (table table' : ReceiptTable)
    → complete db receipt_id response table ≡ ok table'
    → Change table table'
unfolding complete
complete-Change db receipt_id response table table' h =
    let record { value = ids; first = _; second = rest } = bind-ok _ (join_response response) h in
    let record { value = key; first = _; second = last } =
      bind-ok _ (receipt_key_of db receipt_id) rest in
    elim (Bool-cases (any_receipt (is_incomplete key) table.rows)) [
      | inl e ↦ subst (Change table) (ground arith) (updated key ids)
      | inr e ↦ ground arith
    ]

Step-Change : (table table' : ReceiptTable) → Step table table' → Change table table'
Step-Change table table' (claimed db request r h) =
    Returns-ok _ r table' (claim-Change db request table) h
Step-Change table table' (completed db receipt_id response h) =
    complete-Change db receipt_id response table table' h

-- The row that a claim with this key finds.
abbrev pub same_key : AgentReportReceiptClaim → ReceiptRow → Bool
same_key request =
    has_idempotency request.node_code (request_type_value request.request_type)
      request.idempotency_key

find_receipt-append :
    (test : ReceiptRow → Bool) (rows : List ReceiptRow) (last row : ReceiptRow)
    → find_receipt test rows ≡ some row
    → find_receipt test (rows ++ last ∷ []) ≡ some row
unfolding find_receipt
find_receipt-append test [] last row h = ground arith
find_receipt-append test (first ∷ rows) last row h =
    let rest = find_receipt-append test rows last row in ground arith

-- The row that is found after an update is the change of the row that was found.
pub find_receipt-update :
    (request : AgentReportReceiptClaim) (key : ℕ) (ids : JoinedIds) (rows : List ReceiptRow)
    (row : ReceiptRow)
    → find_receipt (same_key request) rows ≡ some row
    → find_receipt (same_key request) (update_receipts (is_incomplete key) (complete_row ids) rows)
      ≡ some (if is_incomplete key row then complete_row ids row else row)
unfolding find_receipt update_receipts has_idempotency complete_row
find_receipt-update request key ids [] row h = ground arith
find_receipt-update request key ids (first ∷ rows) row h =
    let rest = find_receipt-update request key ids rows row in ground arith

pub Steps-keep_completed :
    (request : AgentReportReceiptClaim) (row : ReceiptRow) (table table' : ReceiptTable)
    → Steps table table'
    → row.completed ≡ true
    → find_receipt (same_key request) table.rows ≡ some row
    → find_receipt (same_key request) table'.rows ≡ some row
Steps-keep_completed request row table table' done c h = h
Steps-keep_completed request row table table' (then_step {first} {middle} {last} before step) c h =
    kept middle table' (Step-Change middle table' step)
      (Steps-keep_completed request row table middle before c h)
  where
    untouched :
        (key : ℕ) (ids : JoinedIds)
        → row.completed ≡ true
        → (if is_incomplete key row then complete_row ids row else row) ≡ row
    untouched key ids c = ground arith

    kept :
        (t t' : ReceiptTable)
        → Change t t'
        → find_receipt (same_key request) t.rows ≡ some row
        → find_receipt (same_key request) t'.rows ≡ some row
    kept t t' unchanged f = f
    kept t t' (inserted last) f = find_receipt-append (same_key request) t.rows last row f
    kept t t' (updated key ids) f =
        find_receipt-update request key ids t.rows row f ∙ ap some (untouched key ids c)
