-- ===== src/Server/Manifests/Replays.antt =====
-- agent_report_service.cpp: a manifest that is sent again.
use lab_bridge.Prelude.{
  ◌≡◌, refl, ap, ◌∙◌, true, false, List, [], Option, some, Outcome, ok, err, Text, empty,
  text_eq_refl, arith, bind-ok,
}
use lab_bridge.Server.Models.{TaskRunRecord}
use lab_bridge.Server.Status.{success, failure, conflict}
use lab_bridge.Server.Fingerprint.{RawFileManifestRequest, manifest_fingerprint}
use lab_bridge.Server.Receipts.{
  AgentReportReceipt, AgentReportReceiptClaimResult, acquired, replay, idempotency_conflict,
  task_run_conflict, ReceiptTable, ReceiptDatabase, claim, complete,
}
use lab_bridge.Server.Receipts.Steps.{Steps}
use lab_bridge.Server.Receipts.Replays.{ReadsReceiptKeys, claim_replays}
use lab_bridge.Server.Returns.{
  Returns, returned, Returns-ok, Returns-weaken, read-Returns, checked-Returns,
}
use lab_bridge.Server.Manifests.{
  ManifestThrow, receipt_threw, fingerprint_threw, key_used, run_reported, RawFileManifestResult,
  validate_idempotency_key, check_owner, manifest_failure, lifted, ManifestServices, response_of,
  validate_task_run_node, record_files, record_manifest, accept_claimed, manifest_claim,
  accept_raw_file_manifest, accept_in_transaction,
}

lifted-ok :
    {E A : Type 0} (throw : E → ManifestThrow) (m : Outcome E A) (a : A)
    → lifted throw m ≡ ok a
    → m ≡ ok a
unfolding lifted
lifted-ok throw (ok b) a h = ground arith
lifted-ok throw (err e) a h = cc

module _ {W M : Type 0} (sv : ManifestServices W M) (db : ReceiptDatabase)
    (sha256 : Text → Option Text) (request : RawFileManifestRequest) where
  -- What a manifest that was accepted did to the receipts.
  record Accepted (receipts : ReceiptTable) (r : RawFileManifestResult M) (receipts' : ReceiptTable)
      : Type 0 where
    key_valid : validate_idempotency_key {M = M} request.idempotency_key ≡ success
    run_named : empty request.task_run_id ≡ false
    node_named : empty request.node_code ≡ false
    fingerprint : Text
    fingerprinted : manifest_fingerprint sha256 request ≡ ok fingerprint
    result : AgentReportReceiptClaimResult
    between : ReceiptTable
    claimed :
        claim db (manifest_claim sv db sha256 request fingerprint) receipts ≡ ok (result, between)
    state : result.state ≡ acquired
    completed : complete db result.receipt.id (response_of r.raw_file_ids) between ≡ ok receipts'

  abbrev IfAccepted : ReceiptTable → RawFileManifestResult M → ReceiptTable × W → Type 0
  IfAccepted receipts r st = r.status ≡ success → r.replayed ≡ false → Accepted receipts r st.0

  -- A manifest whose claim was acquired.
  abbrev IfRecorded :
      AgentReportReceiptClaimResult
      → ReceiptTable
      → RawFileManifestResult M
      → ReceiptTable × W
      → Type 0
  IfRecorded result between r st =
      r.status ≡ success
      → r.replayed ≡ false
      → (result.state ≡ acquired)
        × (complete db result.receipt.id (response_of r.raw_file_ids) between ≡ ok (st.0))

  record_manifest-IfRecorded :
      (result : AgentReportReceiptClaimResult) (between : ReceiptTable) (world : W)
      → result.state ≡ acquired
      → Returns
          (IfRecorded result between)
          (record_manifest sv db sha256 request result.receipt.id between world)
  unfolding record_manifest
  record_manifest-IfRecorded result between world state =
      read-Returns (record_files sv db sha256 request [] request.files world)
        (λ ((status, ids), world') _.
          checked-Returns status (λ code message. returned (λ s. cc))
            (λ _.
              read-Returns
                (lifted receipt_threw (complete db result.receipt.id (response_of ids) between))
                (λ receipts' c. returned (λ _ _. (state, lifted-ok receipt_threw _ receipts' c)))))

  accept_claimed-IfRecorded :
      (result : AgentReportReceiptClaimResult) (between : ReceiptTable) (world : W)
      → Returns
          (IfRecorded result between)
          (accept_claimed sv db sha256 request result between world)
  unfolding accept_claimed
  accept_claimed-IfRecorded result between world =
      elim (result.state)
          as (λ s.
            result.state ≡ s
            → Returns (IfRecorded result between) (elim s [
              | acquired ↦ record_manifest sv db sha256 request result.receipt.id between world
              | replay ↦ ok (
                record {
                  status = success;
                  raw_file_ids = result.receipt.response.raw_file_ids;
                  replayed = true;
                },
                (between, world),
              )
              | idempotency_conflict ↦ ok (manifest_failure conflict key_used, (between, world))
              | task_run_conflict ↦ ok (manifest_failure conflict run_reported, (between, world))
            ])) [
              | acquired ↦ λ e. record_manifest-IfRecorded result between world e
              | replay ↦ λ e. returned (λ s f. cc)
              | idempotency_conflict ↦ λ e. returned (λ s. cc)
              | task_run_conflict ↦ λ e. returned (λ s. cc)
            ]
        refl

  owner_named :
      (world : W)
      → validate_task_run_node sv db sha256 request.task_run_id request.node_code world ≡ ok success
      → (empty request.task_run_id ≡ false) × (empty request.node_code ≡ false)
  unfolding validate_task_run_node
  owner_named world h = (ground arith, ground arith)

  accept-IfAccepted :
      (receipts : ReceiptTable) (world : W)
      → Returns
          (IfAccepted receipts)
          (accept_raw_file_manifest sv db sha256 request (receipts, world))
  unfolding accept_raw_file_manifest
  accept-IfAccepted receipts world =
      checked-Returns (validate_idempotency_key {M = M} request.idempotency_key)
        (λ code message. returned (λ s. cc))
        (λ key.
          read-Returns
            (validate_task_run_node sv db sha256 request.task_run_id request.node_code world)
            (λ owner o.
              checked-Returns owner (λ code message. returned (λ s. cc))
                (λ success_owner.
                  read-Returns (lifted fingerprint_threw (manifest_fingerprint sha256 request))
                    (λ fingerprint f.
                      read-Returns
                        (lifted receipt_threw
                          (claim db (manifest_claim sv db sha256 request fingerprint) receipts))
                        (λ (result, between) c.
                          Returns-weaken (accept_claimed sv db sha256 request result between world)
                            (λ r st recorded s fresh.
                              let (state, done) = recorded s fresh in
                              let named = owner_named world (o ∙ ap ok success_owner) in
                              record {
                                key_valid = key;
                                run_named = named.0;
                                node_named = named.1;
                                fingerprint = fingerprint;
                                fingerprinted = lifted-ok fingerprint_threw _ fingerprint f;
                                result = result;
                                between = between;
                                claimed = lifted-ok receipt_threw _ (result, between) c;
                                state = state;
                                completed = done;
                              })
                            (accept_claimed-IfRecorded result between world))))))

  -- The check of the run for a run of the node.
  owner_checked :
      (world : W) (run : TaskRunRecord)
      → empty request.task_run_id ≡ false
      → empty request.node_code ≡ false
      → sv.find_run request.task_run_id world ≡ ok (some run)
      → run.node_code ≡ request.node_code
      → validate_task_run_node sv db sha256 request.task_run_id request.node_code world ≡ ok success
  unfolding validate_task_run_node check_owner
  owner_checked world run t n found same =
      rw t (rw n (rw found (rw same (rw (text_eq_refl request.node_code) refl))))

  abbrev again : List Text → RawFileManifestResult M
  again ids = record { status = success; raw_file_ids = ids; replayed = true }

  accept_again :
      (later : ReceiptTable) (world : W) (fingerprint : Text) (receipt : AgentReportReceipt)
      → validate_idempotency_key {M = M} request.idempotency_key ≡ success
      → validate_task_run_node sv db sha256 request.task_run_id request.node_code world ≡ ok success
      → manifest_fingerprint sha256 request ≡ ok fingerprint
      → claim db (manifest_claim sv db sha256 request fingerprint) later
        ≡ ok (record { state = replay; receipt = receipt }, later)
      → accept_raw_file_manifest sv db sha256 request (later, world)
        ≡ ok (again receipt.response.raw_file_ids, (later, world))
  unfolding accept_raw_file_manifest accept_claimed lifted
  accept_again later world fingerprint receipt k o f c =
      rw (k, accept_raw_file_manifest) (rw o (rw f (rw c refl)))

  -- A success is committed as the service returned it.
  committed :
      (r0 r : RawFileManifestResult M) (state st0 st : ReceiptTable × W)
      → ◌≡◌ {A = Outcome ManifestThrow (RawFileManifestResult M × (ReceiptTable × W))}
          (elim (r0.status) [ success ↦ ok (r0, st0) | failure code message ↦ ok (r0, state) ])
          (ok (r, st))
      → r.status ≡ success
      → ◌≡◌ {A = RawFileManifestResult M × (ReceiptTable × W)} (r0, st0) (r, st)
  committed r0 r state st0 st h s =
      elim (r0.status)
          as (λ t.
            r0.status ≡ t
            → ◌≡◌ {A = Outcome ManifestThrow (RawFileManifestResult M × (ReceiptTable × W))}
                (elim t [ success ↦ ok (r0, st0) | failure code message ↦ ok (r0, state) ])
                (ok (r, st))
            → ◌≡◌ {A = RawFileManifestResult M × (ReceiptTable × W)} (r0, st0) (r, st)) [
              | success ↦ λ e h. cc
              | failure code message ↦ λ e h. cc
            ]
        refl h

  success_from :
      (state st : ReceiptTable × W) (r : RawFileManifestResult M)
      → accept_in_transaction sv db sha256 request state ≡ ok (r, st)
      → r.status ≡ success
      → accept_raw_file_manifest sv db sha256 request state ≡ ok (r, st)
  unfolding accept_in_transaction
  success_from state st r h s =
      let record { value = reply; first = e; second = rest } =
        bind-ok _ (accept_raw_file_manifest sv db sha256 request state) h in
      e ∙ ap ok (committed reply.0 r state reply.1 st rest s)

  success_committed :
      (state : ReceiptTable × W) (ids : List Text)
      → accept_raw_file_manifest sv db sha256 request state ≡ ok (again ids, state)
      → accept_in_transaction sv db sha256 request state ≡ ok (again ids, state)
  unfolding accept_in_transaction
  success_committed state ids h = rw (h, accept_in_transaction) refl

  -- A manifest is accepted once: after a manifest was accepted, the same request, with the same key,
  -- returns the same ids of raw files, marked as a replay, and records nothing, whatever claims and
  -- completions of receipts came between. The run is still found with its node, and PostgreSQL reads
  -- back the keys that it prints.
  pub accept_in_transaction_replays :
      (receipts receipts' later : ReceiptTable) (world world' later_world : W)
      (r : RawFileManifestResult M) (run : TaskRunRecord)
      → ReadsReceiptKeys db
      → accept_in_transaction sv db sha256 request (receipts, world) ≡ ok (r, (receipts', world'))
      → r.status ≡ success
      → r.replayed ≡ false
      → Steps receipts' later
      → sv.find_run request.task_run_id later_world ≡ ok (some run)
      → run.node_code ≡ request.node_code
      → accept_in_transaction sv db sha256 request (later, later_world)
        ≡ ok (
          record { status = success; raw_file_ids = r.raw_file_ids; replayed = true },
          (later, later_world),
        )
  accept_in_transaction_replays receipts receipts' later world world' later_world r run reads h s
        fresh steps found same =
      let a =
        Returns-ok _ r (receipts', world') (accept-IfAccepted receipts world)
          (success_from (receipts, world) (receipts', world') r h s) s fresh in
      let (receipt, replayed, _, response) =
        claim_replays db (manifest_claim sv db sha256 request a.fingerprint)
          (response_of r.raw_file_ids) a.result receipts a.between receipts' later reads a.claimed
          a.state a.completed steps in
      let owner = owner_checked later_world run a.run_named a.node_named found same in
      success_committed (later, later_world) r.raw_file_ids
        (accept_again later later_world a.fingerprint receipt a.key_valid owner a.fingerprinted
            replayed
          ∙ ap (λ q. ok (again q.raw_file_ids, (later, later_world))) response)
