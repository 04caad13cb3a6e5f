-- ===== src/Server/Receipts/Replays.antt =====
-- agent_report_receipt_repository.cpp: a claim that is sent again after it was completed.
use lab_bridge.Prelude.{
  subst, ℕ, ◌+◌, ◌≡◌, refl, sym, ap, ◌∙◌, Bool, true, false, not, ◌&&◌, List, [], ◌∷◌, ◌++◌, Option,
  none, some, ok, Text, text_eq, text_eq_refl, to_decimal, Bool-cases, inl, inr, arith,
  if◌then◌else◌, bind-ok,
}
use lab_bridge.Server.Receipts.{
  AgentReportRequestType, raw_file_manifest, task_run_report, AgentReportReceiptClaim,
  AgentReportReceiptResponse, AgentReportReceipt, acquired, replay, AgentReportReceiptClaimResult,
  ReceiptRow, ReceiptTable, ReceiptDatabase, fresh_receipt, claim_same_key, claim_report, claim_row,
  find_receipt, has_idempotency, any_receipt, collides, request_type_value, request_type_from_value,
  is_incomplete, complete_row, update_receipts, join_response, JoinedIds, receipt_key_of, has_run,
  to_receipt, is_report_of, claim, complete, split_ids,
}
use lab_bridge.Server.Receipts.Ids.{IsJoined, join_response-IsJoined}
use lab_bridge.Server.Receipts.Steps.{Steps, same_key, find_receipt-update, Steps-keep_completed}
use lab_bridge.Server.Returns.{
  Returns, threw, returned, Returns-ok, if-Returns, test-Returns, option-Returns, refusal-Returns,
  read-Returns,
}

-- PostgreSQL reads back the keys that it prints.
abbrev pub ReadsReceiptKeys : ReceiptDatabase → Type 0
ReadsReceiptKeys db = (n : ℕ) → db.bigint (to_decimal n) ≡ some n

request_type-same :
    (t : AgentReportRequestType) → request_type_from_value (request_type_value t) ≡ ok t
unfolding request_type_from_value text_eq
request_type-same raw_file_manifest = refl
request_type-same task_run_report = refl

-- The row that a claim adds.
abbrev claimed_table : ReceiptTable → ReceiptRow → ReceiptTable
claimed_table table row = record { rows = table.rows ++ row ∷ []; next_key = table.next_key + 1 }

abbrev found_none : Option ReceiptRow → Bool
found_none none = true
found_none (some row) = false

place_free :
    (rows : List ReceiptRow) (key run_key : ℕ) (request : AgentReportReceiptClaim)
    → any_receipt (collides (claim_row key run_key request)) rows ≡ false
    → find_receipt (same_key request) rows ≡ none
unfolding any_receipt collides find_receipt
place_free [] key run_key request h = refl
place_free (row ∷ rows) key run_key request h =
    let rest = place_free rows key run_key request in ground arith

place_taken :
    (rows : List ReceiptRow) (key run_key : ℕ) (request : AgentReportReceiptClaim)
    (found : ReceiptRow)
    → find_receipt (same_key request) rows ≡ some found
    → any_receipt (collides (claim_row key run_key request)) rows ≡ true
unfolding any_receipt collides find_receipt
place_taken [] key run_key request found h = ground arith
place_taken (row ∷ rows) key run_key request found h =
    let rest = place_taken rows key run_key request found in ground arith

find_last :
    (rows : List ReceiptRow) (test : ReceiptRow → Bool) (last : ReceiptRow)
    → find_receipt test rows ≡ none
    → test last ≡ true
    → find_receipt test (rows ++ last ∷ []) ≡ some last
unfolding find_receipt
find_last [] test last h t = rw t refl
find_last (row ∷ rows) test last h t = let rest = find_last rows test last in ground arith

same_key-claim_row :
    (key run_key : ℕ) (request : AgentReportReceiptClaim)
    → same_key request (claim_row key run_key request) ≡ true
unfolding has_idempotency
same_key-claim_row key run_key request =
    rw
      (
        text_eq_refl request.node_code,
        text_eq_refl (request_type_value request.request_type),
        text_eq_refl request.idempotency_key,
      )
      refl

-- What an acquired claim did.
record Acquired (db : ReceiptDatabase) (request : AgentReportReceiptClaim) (table : ReceiptTable)
    (r : AgentReportReceiptClaimResult) (table' : ReceiptTable) : Type 0 where
  run_key : ℕ
  run_read : receipt_key_of db request.task_run_id ≡ ok run_key
  fresh : r.receipt ≡ fresh_receipt table.next_key request
  free : find_receipt (same_key request) table.rows ≡ none
  placed : table' ≡ claimed_table table (claim_row table.next_key run_key request)

abbrev IfAcquired :
    ReceiptDatabase
    → AgentReportReceiptClaim
    → ReceiptTable
    → AgentReportReceiptClaimResult
    → ReceiptTable
    → Type 0
IfAcquired db request table r table' = r.state ≡ acquired → Acquired db request table r table'

claim-IfAcquired :
    (db : ReceiptDatabase) (request : AgentReportReceiptClaim) (table : ReceiptTable)
    → Returns (IfAcquired db request table) (claim db request table)
unfolding claim claim_same_key claim_report
claim-IfAcquired db request table =
    read-Returns (receipt_key_of db request.task_run_id) (λ key read.
      test-Returns
        (has_run db key request.node_code
          && not (any_receipt (collides (claim_row table.next_key key request)) table.rows))
        (λ t. returned (λ _. record {
          run_key = key;
          run_read = read;
          fresh = refl;
          free = place_free table.rows table.next_key key request (ground arith);
          placed = refl;
        }))
        (λ _.
          refusal-Returns (find_receipt (same_key request) table.rows)
            (λ same _. read-Returns (to_receipt same) (λ receipt _.
              if-Returns
                (not (text_eq receipt.claim.request_fingerprint request.request_fingerprint))
                (returned (λ s. cc))
                (if-Returns (not receipt.completed) threw (returned (λ s. cc)))))
            (λ _.
              elim (request.request_type)
                as (λ t. Returns (IfAcquired db request table) (claim_report t key table)) [
                  | raw_file_manifest ↦ threw
                  | task_run_report ↦
                      option-Returns (find_receipt (is_report_of key) table.rows) threw
                        (λ row. read-Returns (to_receipt row) (λ receipt _. returned (λ s. cc)))
                ])))

-- What a completion did.
record Completed (response : AgentReportReceiptResponse) (key : ℕ) (table table' : ReceiptTable)
    : Type 0 where
  ids : JoinedIds
  joined : IsJoined response ids
  written :
      table'
      ≡ record table { rows = update_receipts (is_incomplete key) (complete_row ids) table.rows }

key_same :
    (db : ReceiptDatabase) (id : Text) (key found : ℕ)
    → db.bigint id ≡ some key
    → receipt_key_of db id ≡ ok found
    → found ≡ key
unfolding receipt_key_of
key_same db id key found h r = ground arith

complete-Completed :
    (db : ReceiptDatabase) (key : ℕ) (receipt_id : Text) (response : AgentReportReceiptResponse)
    (table table' : ReceiptTable)
    → db.bigint receipt_id ≡ some key
    → complete db receipt_id response table ≡ ok table'
    → Completed response key table table'
unfolding complete
complete-Completed db key receipt_id response table table' reads h =
    let record { value = ids; first = joined; second = rest } =
      bind-ok _ (join_response response) h in
    let record { value = found; first = read; second = last } =
      bind-ok _ (receipt_key_of db receipt_id) rest in
    elim (Bool-cases (any_receipt (is_incomplete found) table.rows)) [
      | inr e ↦ ground arith
      | inl e ↦ record {
        ids = ids;
        joined = join_response-IsJoined response ids joined;
        written =
            subst
              (λ k. table' ≡ record table {
                rows = update_receipts (is_incomplete k) (complete_row ids) table.rows;
              })
              (key_same db receipt_id key found reads read) (ground arith);
      }
    ]

-- The receipt that the completed row reads as.
abbrev replayed_receipt : ℕ → ℕ → AgentReportReceiptClaim → JoinedIds → AgentReportReceipt
replayed_receipt key run_key request ids = record {
  id = to_decimal key;
  claim = record request { task_run_id = to_decimal run_key };
  response = record {
    raw_file_ids = split_ids ids.raw_file_ids;
    parsed_record_ids = split_ids ids.parsed_record_ids;
    qc_result_ids = split_ids ids.qc_result_ids;
    alert_ids = split_ids ids.alert_ids;
  };
  completed = true;
}

read_completed :
    (key run_key : ℕ) (request : AgentReportReceiptClaim) (ids : JoinedIds)
    → to_receipt (complete_row ids (claim_row key run_key request))
      ≡ ok (replayed_receipt key run_key request ids)
unfolding to_receipt complete_row
read_completed key run_key request ids = rw (request_type-same request.request_type) refl

claim_again :
    (db : ReceiptDatabase) (request : AgentReportReceiptClaim) (later : ReceiptTable)
    (key run_key : ℕ) (ids : JoinedIds)
    → receipt_key_of db request.task_run_id ≡ ok run_key
    → find_receipt (same_key request) later.rows
      ≡ some (complete_row ids (claim_row key run_key request))
    → claim db request later
      ≡ ok (record { state = replay; receipt = replayed_receipt key run_key request ids }, later)
unfolding claim claim_same_key
claim_again db request later key run_key ids read found = rw read (
    rw (place_taken later.rows later.next_key run_key request _ found) (
      rw (and_false (has_run db run_key request.node_code)) (
        rw found (
          rw (read_completed key run_key request ids)
            (rw (text_eq_refl request.request_fingerprint) refl)))))
  where
    and_false : (b : Bool) → (b && false) ≡ false
    and_false b = ground arith

response_same :
    (response : AgentReportReceiptResponse) (ids : JoinedIds) (key run_key : ℕ)
    (request : AgentReportReceiptClaim)
    → IsJoined response ids
    → (replayed_receipt key run_key request ids).response ≡ response
response_same response ids key run_key request j =
    rw (j.raw_files, j.parsed_records, j.qc_results, j.alerts) refl

completed_now :
    (key run_key : ℕ) (request : AgentReportReceiptClaim) (ids : JoinedIds)
    → (if is_incomplete key (claim_row key run_key request)
        then complete_row ids (claim_row key run_key request)
        else claim_row key run_key request)
      ≡ complete_row ids (claim_row key run_key request)
completed_now key run_key request ids = ground arith

row_completed : (ids : JoinedIds) (row : ReceiptRow) → (complete_row ids row).completed ≡ true
unfolding complete_row
row_completed ids row = refl

-- The completed row stands in the table behind both calls.
found-Completed :
    {db : ReceiptDatabase} {request : AgentReportReceiptClaim}
    {response : AgentReportReceiptResponse} {r : AgentReportReceiptClaimResult}
    {table first_table last_table : ReceiptTable} (a : Acquired db request table r first_table)
    (c : Completed response table.next_key first_table last_table)
    → find_receipt (same_key request) last_table.rows
      ≡ some (complete_row c.ids (claim_row table.next_key a.run_key request))
found-Completed {db} {request} {response} {r} {table} {first_table} {last_table} a c =
    let row = claim_row table.next_key a.run_key request in
    let found =
      subst (λ t. find_receipt (same_key request) t.rows ≡ some row) (sym a.placed)
        (find_last table.rows (same_key request) row a.free
          (same_key-claim_row table.next_key a.run_key request)) in
    subst (λ t. find_receipt (same_key request) t.rows ≡ some (complete_row c.ids row))
      (sym c.written)
      (find_receipt-update request table.next_key c.ids first_table.rows row found
        ∙ ap some (completed_now table.next_key a.run_key request c.ids))

-- A report is accepted once: after a claim was acquired and its receipt completed, the same claim
-- changes nothing and returns the receipt with the lists of ids that the first one was completed with,
-- whatever claims and completions came between. PostgreSQL reads back the keys that it prints.
pub claim_replays :
    (db : ReceiptDatabase) (request : AgentReportReceiptClaim)
    (response : AgentReportReceiptResponse) (r : AgentReportReceiptClaimResult)
    (table first_table last_table later : ReceiptTable)
    → ReadsReceiptKeys db
    → claim db request table ≡ ok (r, first_table)
    → r.state ≡ acquired
    → complete db r.receipt.id response first_table ≡ ok last_table
    → Steps last_table later
    → (receipt : AgentReportReceipt) × (claim db request later
        ≡ ok (record { state = replay; receipt = receipt }, later))
      × (receipt.id ≡ r.receipt.id)
      × (receipt.response ≡ response)
claim_replays db request response r table first_table last_table later reads claimed state completed
      steps =
    let a = Returns-ok _ r first_table (claim-IfAcquired db request table) claimed state in
    let same_id = ap (λ receipt. receipt.id) a.fresh in
    let row = claim_row table.next_key a.run_key request in
    let reads_id =
      subst (λ id. db.bigint id ≡ some table.next_key) (sym same_id) (reads table.next_key) in
    let c =
      complete-Completed db table.next_key r.receipt.id response first_table last_table reads_id
        completed in
    let found =
      Steps-keep_completed request (complete_row c.ids row) last_table later steps
        (row_completed c.ids row) (found-Completed a c) in
    (
      replayed_receipt table.next_key a.run_key request c.ids,
      claim_again db request later table.next_key a.run_key c.ids a.run_read found,
      sym same_id,
      response_same response c.ids table.next_key a.run_key request c.joined,
    )
