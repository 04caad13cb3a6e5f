-- ===== src/Server/TaskRuns/Refusals.antt =====
-- task_run_service.cpp: calls that are refused.
use lab_bridge.Prelude.{
  ok, ◌⊎◌, inl, inr, ◌≡◌, ◌≢◌, refl, ◌&&◌, to_decimal, true, false, not, ◌||◌, List, [], ◌∷◌,
  Option, none, some, Text, empty, text_eq, length, ltb,
}
use lab_bridge.Server.Models.{TaskRunRecord, TaskRunFailedFile, TaskRecord}
use lab_bridge.Server.Status.{Status, success, is_positive_id}
use lab_bridge.Server.Timestamp.{is_rfc3339_utc}
use lab_bridge.Server.RetryFiles.{resolve_retry_files}
use lab_bridge.Server.TaskRuns.Table.{
  RunTable, Stored, key_of, any_row, conflicts, added, same_execution_key, same_node_key, find_row,
  Database, is_pending, is_operator_trigger,
}
use lab_bridge.Server.TaskRuns.Repository.{
  FilesJson, ManualTaskRunStart, ManualTaskRunRequest, has_task, run_row, manual_row,
  create_or_find_manual, find_scheduled, create, create_or_find_scheduled, find_by_id,
  find_by_execution_key, find_failed_files, find_pending_manual_by_task, lock_task, lock_by_id,
  mark_manual_running,
}
use lab_bridge.Server.TaskRuns.Requests.{
  Services, RunMessage, TaskRunCreateResult, ManualTaskRunResult, StartTaskRunRequest,
  is_operator_idempotency_key,
}
use lab_bridge.Server.TaskRuns.Start.{
  start, start_manual, start_found, start_pending, start_locked, start_checked, start_run,
  start_record, is_scheduled_start, schedule_refusal, find_task, started, scheduled_reply,
}
use lab_bridge.Server.TaskRuns.Operator.{
  ManualRun, apply_manual_run, apply_new, apply_to_task, create_manual, manual_result, operator_key,
  differs, other_pending, request_manual_run, request_retry_run, retry_new, retry_parent,
  retry_files_of, run_by_id, is_failed, is_other_retry,
}
use lab_bridge.Server.Returns.{
  Returns, Returns-weaken, threw, returned, Returns-ok, if-Returns, write-Returns, option-Returns,
  refusal-Returns, read-Returns, then-Returns, bind-Returns, outcome-Returns, status-Returns,
}
use lab_bridge.Server.TaskRuns.Calls.{create-Effects}

-- A call that is refused leaves the table as it was.
abbrev pub Keeping :
    {A : Type 0} → RunTable → (A → Status RunMessage) → Stored (A × RunTable) → Type 0
Keeping table status = Returns (λ r table'. status r ≢ success → table' ≡ table)

success_absurd : {t table : RunTable} {M : Type 0} → ◌≢◌ {A = Status M} success success → t ≡ table
success_absurd n = elim (n refl) [ ]

module _ (db : Database) (request : StartTaskRunRequest) (table : RunTable) where
  created_reply :
      (run : TaskRunRecord)
      → (scheduled_reply request (record { task_run = run; created = true })).status ≡ success
  unfolding scheduled_reply
  created_reply run = refl

  placed :
      Returns
        (λ run_start table'. (scheduled_reply request run_start).status ≢ success → table' ≡ table)
        (create_or_find_scheduled db (start_record request) table)
  unfolding create_or_find_scheduled find_scheduled
  placed = read-Returns (key_of db (start_record request).task_id) (λ task_key e.
      if-Returns
        (has_task db task_key (start_record request).node_code
          && not (
              any_row
                (same_execution_key (run_row db table.next_key task_key (start_record request)))
                table.rows))
        (returned (λ n. elim (n (created_reply _)) [ ]))
        (option-Returns
          (find_row
            (same_node_key (start_record request).node_code (start_record request).execution_key)
            table.rows)
          threw (λ row. returned (λ _. refl))))

  start_run-Keeping : Keeping table (λ r. r.status) (start_run db request table)
  unfolding start_run start_record
  start_run-Keeping =
      if-Returns (not (is_scheduled_start request))
        (then-Returns (create db (start_record request) table) (λ id. started id false)
          (Returns-weaken (create db (start_record request) table)
            (λ id table' e n. success_absurd n)
            (create-Effects db (start_record request) table refl)))
        (then-Returns (create_or_find_scheduled db (start_record request) table)
          (scheduled_reply request) placed)

  start_checked-Keeping : Keeping table (λ r. r.status) (start_checked db request table)
  unfolding start_checked
  start_checked-Keeping = read-Returns (find_task db request.task_id) (λ found e.
      option-Returns found (returned (λ _. refl)) (λ task.
        if-Returns (not task.enabled) (returned (λ _. refl)) (
          if-Returns (not (text_eq task.node_code request.node_code)) (returned (λ _. refl))
            start_run-Keeping)))

  start_locked-Keeping :
      (run locked : TaskRunRecord)
      → Keeping table (λ r. r.status) (start_locked db request run locked table)
  unfolding start_locked
  start_locked-Keeping run locked =
      if-Returns (not (is_pending locked.status)) (returned (λ _. refl)) (
        write-Returns (mark_manual_running db run.id request.started_at table)
          (started run.id false) (λ table' e n. success_absurd n))

  start_pending-Keeping :
      (run : TaskRunRecord) → Keeping table (λ r. r.status) (start_pending db request run table)
  unfolding start_pending
  start_pending-Keeping run = read-Returns (lock_task db run.task_id) (λ known e.
      if-Returns (not known) (returned (λ _. refl)) (
        read-Returns (lock_by_id db run.id table)
          (λ found f. option-Returns found (returned (λ _. refl)) (start_locked-Keeping run))))

  start_found-Keeping :
      (run : TaskRunRecord) → Keeping table (λ r. r.status) (start_found db request run table)
  unfolding start_found
  start_found-Keeping run =
      if-Returns
        (not (text_eq run.node_code request.node_code)
          || not (text_eq run.task_id request.task_id)
          || not (text_eq run.trigger_type request.trigger_type))
        (returned (λ _. refl))
        (if-Returns (not (is_pending run.status)) (returned (λ _. refl))
          (start_pending-Keeping run))

  pub start_manual-Keeping : Keeping table (λ r. r.status) (start_manual db request table)
  unfolding start_manual
  start_manual-Keeping =
      if-Returns (empty request.execution_key || ltb 128 (length request.execution_key))
        (returned (λ _. refl))
        (if-Returns (not (empty request.scheduled_for)) (returned (λ _. refl)) (
          if-Returns (not (is_rfc3339_utc request.started_at)) (returned (λ _. refl)) (
            option-Returns (find_by_execution_key db request.execution_key table)
              (returned (λ _. refl)) start_found-Keeping)))

  pub start-Keeping : Keeping table (λ r. r.status) (start db request table)
  unfolding start
  start-Keeping = if-Returns (empty request.node_code) (returned (λ _. refl)) (
      if-Returns (empty request.task_id) (returned (λ _. refl)) (
        if-Returns (is_operator_trigger request.trigger_type) start_manual-Keeping (
          refusal-Returns (schedule_refusal request) (λ message _. returned (λ _. refl))
            (λ _. start_checked-Keeping))))

-- No run was created where no run is returned.
create_or_find_manual-None :
    (db : Database) (files : FilesJson) (request : ManualTaskRunRequest) (table : RunTable)
    → Returns
        (λ found table'. found ≡ none → table' ≡ table)
        (create_or_find_manual db files request table)
unfolding create_or_find_manual
create_or_find_manual-None db files request table =
    read-Returns (key_of db request.task_id) (λ task_key e.
      if-Returns
        (has_task db task_key request.node_code
          && not (
              any_row (conflicts (manual_row db files table.next_key task_key request)) table.rows))
        (read-Returns
          (find_by_id db (to_decimal table.next_key)
            (added (manual_row db files table.next_key task_key request) table))
          (λ found f. option-Returns found threw (λ run. returned (λ n. cc))))
        (option-Returns (find_by_execution_key db request.execution_key table)
          (returned (λ _. refl)) (λ run. returned (λ _. refl))))

manual_result-Keeping :
    (db : Database) (task_id : Text) (found : Option ManualTaskRunStart) (table table' : RunTable)
    → (found ≡ none → table' ≡ table)
    → Keeping table (λ r. r.status) (manual_result db task_id (found, table'))
unfolding manual_result
manual_result-Keeping db task_id (some run_start) table table' e = returned (λ n. success_absurd n)
manual_result-Keeping db task_id none table table' e =
    read-Returns (find_pending_manual_by_task db task_id table')
      (λ raced _. refusal-Returns raced (λ run _. returned (λ _. e refl)) (λ _. threw))

module _ (sv : Services) (table : RunTable) where
  create_manual-Keeping :
      (manual : ManualRun) (execution_key : Text) (task : TaskRecord)
      → Keeping table (λ r. r.status) (create_manual sv.db sv.files manual execution_key task table)
  unfolding create_manual
  create_manual-Keeping manual execution_key task =
      bind-Returns _ (manual_result sv.db manual.task_id) (λ found table' e.
        manual_result-Keeping sv.db manual.task_id found table table'
          (Returns-ok _ found table' (create_or_find_manual-None sv.db sv.files _ table) e))

  apply_to_task-Keeping :
      (manual : ManualRun) (execution_key : Text) (task : TaskRecord)
      → Keeping table (λ r. r.status) (apply_to_task sv manual execution_key task table)
  unfolding apply_to_task
  apply_to_task-Keeping manual execution_key task =
      if-Returns (not task.enabled) (returned (λ _. refl)) (
        status-Returns (sv.executable task) (λ code message. returned (λ _. refl))
          (read-Returns (find_pending_manual_by_task sv.db manual.task_id table) (λ found e.
            refusal-Returns (other_pending execution_key found) (λ run _. returned (λ _. refl))
              (λ _. create_manual-Keeping manual execution_key task))))

  apply_new-Keeping :
      (manual : ManualRun) (execution_key : Text)
      → Keeping table (λ r. r.status) (apply_new sv manual execution_key table)
  unfolding apply_new
  apply_new-Keeping manual execution_key =
      if-Returns (not (is_positive_id manual.task_id)) (returned (λ _. refl)) (
        read-Returns (lock_task sv.db manual.task_id) (λ known e.
          if-Returns (not known) (returned (λ _. refl)) (
            read-Returns (find_task sv.db manual.task_id) (λ found f.
              option-Returns found (returned (λ _. refl))
                (apply_to_task-Keeping manual execution_key)))))

  pub apply_manual_run-Keeping :
      (manual : ManualRun) (idempotency_key : Text)
      → Keeping table (λ r. r.status) (apply_manual_run sv manual idempotency_key table)
  unfolding apply_manual_run
  apply_manual_run-Keeping manual idempotency_key =
      if-Returns (not (is_operator_idempotency_key idempotency_key)) (returned (λ _. refl)) (
        refusal-Returns (find_by_execution_key sv.db (operator_key idempotency_key) table)
          (λ run _. if-Returns (differs manual run) (returned (λ _. refl)) (returned (λ _. refl)))
          (λ _. apply_new-Keeping manual (operator_key idempotency_key)))

  pub request_manual_run-Keeping :
      (task_id idempotency_key : Text)
      → Keeping table (λ r. r.status) (request_manual_run sv task_id idempotency_key table)
  unfolding request_manual_run
  request_manual_run-Keeping task_id idempotency_key = apply_manual_run-Keeping _ idempotency_key

  retry_files_of-Keeping :
      (idempotency_key : Text) (parent_run : TaskRunRecord) (files : List TaskRunFailedFile)
      → Keeping table (λ r. r.status) (retry_files_of sv idempotency_key parent_run files table)
  unfolding retry_files_of
  retry_files_of-Keeping idempotency_key parent_run [] = returned (λ _. refl)
  retry_files_of-Keeping idempotency_key parent_run (file ∷ files) =
      outcome-Returns
        (resolve_retry_files sv.find_raw_file (run_by_id sv.db table) parent_run (file ∷ files))
        (λ message. returned (λ _. refl))
        (λ retry_files. apply_manual_run-Keeping _ idempotency_key)

  retry_parent-Keeping :
      (task_run_id idempotency_key : Text) (parent_run : TaskRunRecord)
      → Keeping table (λ r. r.status) (retry_parent sv task_run_id idempotency_key parent_run table)
  unfolding retry_parent
  retry_parent-Keeping task_run_id idempotency_key parent_run =
      if-Returns (not (is_failed parent_run.status)) (returned (λ _. refl)) (
        read-Returns (find_failed_files sv.db sv.files task_run_id table) (λ found e.
          option-Returns found (returned (λ _. refl))
            (retry_files_of-Keeping idempotency_key parent_run)))

  pub request_retry_run-Keeping :
      (task_run_id idempotency_key : Text)
      → Keeping table (λ r. r.status) (request_retry_run sv task_run_id idempotency_key table)
  unfolding request_retry_run retry_new
  request_retry_run-Keeping task_run_id idempotency_key =
      if-Returns (not (is_operator_idempotency_key idempotency_key)) (returned (λ _. refl)) (
        refusal-Returns (find_by_execution_key sv.db (operator_key idempotency_key) table)
          (λ run _.
            if-Returns (is_other_retry task_run_id run) (returned (λ _. refl))
              (returned (λ _. refl)))
          (λ _. if-Returns (not (is_positive_id task_run_id)) (returned (λ _. refl)) (
            read-Returns (find_by_id sv.db task_run_id table) (λ found e.
              option-Returns found (returned (λ _. refl))
                (retry_parent-Keeping task_run_id idempotency_key)))))

  -- A request of an operator that is refused, for a manual run or for a retry, leaves the table as it was.
  pub refused_requests_unchanged :
      (task_id task_run_id idempotency_key : Text) (table' : RunTable) (r : ManualTaskRunResult)
      → (request_manual_run sv task_id idempotency_key table ≡ ok (r, table'))
        ⊎ (request_retry_run sv task_run_id idempotency_key table ≡ ok (r, table'))
      → r.status ≢ success
      → table' ≡ table
  refused_requests_unchanged task_id task_run_id idempotency_key table' r (inl h) refused =
      Returns-ok _ r table' (request_manual_run-Keeping task_id idempotency_key) h refused
  refused_requests_unchanged task_id task_run_id idempotency_key table' r (inr h) refused =
      Returns-ok _ r table' (request_retry_run-Keeping task_run_id idempotency_key) h refused

-- A start that is refused, scheduled or by an operator, leaves the table as it was.
pub refused_start_unchanged :
    (db : Database) (request : StartTaskRunRequest) (table table' : RunTable)
    (r : TaskRunCreateResult)
    → start db request table ≡ ok (r, table')
    → r.status ≢ success
    → table' ≡ table
refused_start_unchanged db request table table' r h refused =
    Returns-ok _ r table' (start-Keeping db request table) h refused
