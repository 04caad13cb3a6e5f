-- ===== src/Server/TaskRuns/ServiceCalls.antt =====
-- task_run_service.cpp: the effect of each method of the service on the table.
use lab_bridge.Prelude.{
  ◌≡◌, refl, true, false, not, ◌||◌, List, [], ◌∷◌, Option, none, some, Text, empty, text_eq,
  length, ltb,
}
use lab_bridge.Server.Models.{TaskRunRecord, TaskRunFailedFile, TaskRecord}
use lab_bridge.Server.Status.{success, is_positive_id}
use lab_bridge.Server.Timestamp.{is_rfc3339_utc}
use lab_bridge.Server.RetryFiles.{resolve_retry_files}
use lab_bridge.Server.TaskRuns.Table.{RunTable, Database, is_pending, is_operator_trigger}
use lab_bridge.Server.TaskRuns.Repository.{
  FilesJson, ManualTaskRunStart, create, create_or_find_scheduled, find_by_id,
  find_by_execution_key, find_failed_files, find_pending_manual_by_task, finish, lock_task,
  lock_by_id, mark_manual_running,
}
use lab_bridge.Server.TaskRuns.Requests.{
  Services, StartTaskRunRequest, FinishTaskRunRequest, is_operator_idempotency_key,
}
use lab_bridge.Server.TaskRuns.Start.{
  start, start_manual, start_found, start_pending, start_locked, start_checked, start_run,
  start_record, is_scheduled_start, schedule_refusal, find_task, started, scheduled_reply,
}
use lab_bridge.Server.TaskRuns.Operator.{
  ManualRun, finish_run, finished_record, is_final, apply_manual_run, apply_new, apply_to_task,
  create_manual, manual_result, operator_key, differs, other_pending, request_manual_run,
  request_retry_run, retry_new, retry_parent, retry_files_of, run_by_id, is_failed, is_other_retry,
}
use lab_bridge.Server.TaskRuns.Effects.{Effect, Effects, same_table}
use lab_bridge.Server.Returns.{
  threw, returned, Returns-ok, if-Returns, not-Returns, write-Returns, option-Returns,
  refusal-Returns, read-Returns, then-Returns, bind-Returns, outcome-Returns, status-Returns,
}
use lab_bridge.Server.TaskRuns.Calls.{
  create-Effects, create_or_find_scheduled-Effects, create_or_find_manual-Effects, finish-Effect,
  mark_manual_running-Effect,
}

module _ (db : Database) (request : StartTaskRunRequest) (table : RunTable) where
  start_run-Effects : Effects table (start_run db request table)
  unfolding start_run start_record
  start_run-Effects =
      if-Returns (not (is_scheduled_start request))
        (then-Returns (create db (start_record request) table) (λ id. started id false)
          (create-Effects db (start_record request) table refl))
        (then-Returns (create_or_find_scheduled db (start_record request) table)
          (scheduled_reply request)
          (create_or_find_scheduled-Effects db (start_record request) table refl))

  start_checked-Effects : Effects table (start_checked db request table)
  unfolding start_checked
  start_checked-Effects = read-Returns (find_task db request.task_id) (λ found e.
      option-Returns found (same_table _) (λ task. if-Returns (not task.enabled) (same_table _) (
        if-Returns (not (text_eq task.node_code request.node_code)) (same_table _)
          start_run-Effects)))

  start_locked-Effects :
      (run locked : TaskRunRecord) → Effects table (start_locked db request run locked table)
  unfolding start_locked
  start_locked-Effects run locked = if-Returns (not (is_pending locked.status)) (same_table _) (
      write-Returns (mark_manual_running db run.id request.started_at table) (started run.id false)
        (mark_manual_running-Effect db run.id request.started_at table))

  start_pending-Effects : (run : TaskRunRecord) → Effects table (start_pending db request run table)
  unfolding start_pending
  start_pending-Effects run = read-Returns (lock_task db run.task_id) (λ known e.
      if-Returns (not known) (same_table _) (
        read-Returns (lock_by_id db run.id table)
          (λ found f. option-Returns found (same_table _) (start_locked-Effects run))))

  start_found-Effects : (run : TaskRunRecord) → Effects table (start_found db request run table)
  unfolding start_found
  start_found-Effects run =
      if-Returns
        (not (text_eq run.node_code request.node_code)
          || not (text_eq run.task_id request.task_id)
          || not (text_eq run.trigger_type request.trigger_type))
        (same_table _)
        (if-Returns (not (is_pending run.status)) (same_table _) (start_pending-Effects run))

  pub start_manual-Effects : Effects table (start_manual db request table)
  unfolding start_manual
  start_manual-Effects =
      if-Returns (empty request.execution_key || ltb 128 (length request.execution_key))
        (same_table _)
        (if-Returns (not (empty request.scheduled_for)) (same_table _) (
          if-Returns (not (is_rfc3339_utc request.started_at)) (same_table _) (
            option-Returns (find_by_execution_key db request.execution_key table) (same_table _)
              start_found-Effects)))

  pub start-Effects : Effects table (start db request table)
  unfolding start
  start-Effects = if-Returns (empty request.node_code) (same_table _) (
      if-Returns (empty request.task_id) (same_table _) (
        if-Returns (is_operator_trigger request.trigger_type) start_manual-Effects (
          refusal-Returns (schedule_refusal request) (λ message _. same_table _)
            (λ _. start_checked-Effects))))

-- The answer leaves the table that the repository returned.
manual_result-Effects :
    {table : RunTable} (db : Database) (task_id : Text) (found : Option ManualTaskRunStart)
    (table' : RunTable)
    → Effect table table'
    → Effects table (manual_result db task_id (found, table'))
unfolding manual_result
manual_result-Effects db task_id (some run_start) table' e = returned e
manual_result-Effects db task_id none table' e =
    read-Returns (find_pending_manual_by_task db task_id table')
      (λ raced _. refusal-Returns raced (λ run _. returned e) (λ _. threw))

final_record :
    (files : FilesJson) (request : FinishTaskRunRequest) (task_run : TaskRunRecord)
    → is_final request.status ≡ true
    → is_final (finished_record files request task_run).status ≡ true
unfolding finished_record
final_record files request task_run h = h

module _ (sv : Services) (table : RunTable) where
  create_manual-Effects :
      (manual : ManualRun) (execution_key : Text) (task : TaskRecord)
      → Effects table (create_manual sv.db sv.files manual execution_key task table)
  unfolding create_manual
  create_manual-Effects manual execution_key task =
      bind-Returns _ (manual_result sv.db manual.task_id) (λ found table' e.
        manual_result-Effects sv.db manual.task_id found table'
          (Returns-ok _ found table' (create_or_find_manual-Effects sv.db sv.files _ table) e))

  apply_to_task-Effects :
      (manual : ManualRun) (execution_key : Text) (task : TaskRecord)
      → Effects table (apply_to_task sv manual execution_key task table)
  unfolding apply_to_task
  apply_to_task-Effects manual execution_key task = if-Returns (not task.enabled) (same_table _) (
      status-Returns (sv.executable task) (λ code message. same_table _)
        (read-Returns (find_pending_manual_by_task sv.db manual.task_id table) (λ found e.
          refusal-Returns (other_pending execution_key found) (λ run _. same_table _)
            (λ _. create_manual-Effects manual execution_key task))))

  apply_new-Effects :
      (manual : ManualRun) (execution_key : Text)
      → Effects table (apply_new sv manual execution_key table)
  unfolding apply_new
  apply_new-Effects manual execution_key =
      if-Returns (not (is_positive_id manual.task_id)) (same_table _) (
        read-Returns (lock_task sv.db manual.task_id) (λ known e.
          if-Returns (not known) (same_table _) (
            read-Returns (find_task sv.db manual.task_id) (λ found f.
              option-Returns found (same_table _) (apply_to_task-Effects manual execution_key)))))

  pub apply_manual_run-Effects :
      (manual : ManualRun) (idempotency_key : Text)
      → Effects table (apply_manual_run sv manual idempotency_key table)
  unfolding apply_manual_run
  apply_manual_run-Effects manual idempotency_key =
      if-Returns (not (is_operator_idempotency_key idempotency_key)) (same_table _) (
        refusal-Returns (find_by_execution_key sv.db (operator_key idempotency_key) table)
          (λ run _. if-Returns (differs manual run) (same_table _) (same_table _))
          (λ _. apply_new-Effects manual (operator_key idempotency_key)))

  pub request_manual_run-Effects :
      (task_id idempotency_key : Text)
      → Effects table (request_manual_run sv task_id idempotency_key table)
  unfolding request_manual_run
  request_manual_run-Effects task_id idempotency_key = apply_manual_run-Effects _ idempotency_key

  retry_files_of-Effects :
      (idempotency_key : Text) (parent_run : TaskRunRecord) (files : List TaskRunFailedFile)
      → Effects table (retry_files_of sv idempotency_key parent_run files table)
  unfolding retry_files_of
  retry_files_of-Effects idempotency_key parent_run [] = same_table _
  retry_files_of-Effects idempotency_key parent_run (file ∷ files) =
      outcome-Returns
        (resolve_retry_files sv.find_raw_file (run_by_id sv.db table) parent_run (file ∷ files))
        (λ message. same_table _) (λ retry_files. apply_manual_run-Effects _ idempotency_key)

  retry_parent-Effects :
      (task_run_id idempotency_key : Text) (parent_run : TaskRunRecord)
      → Effects table (retry_parent sv task_run_id idempotency_key parent_run table)
  unfolding retry_parent
  retry_parent-Effects task_run_id idempotency_key parent_run =
      if-Returns (not (is_failed parent_run.status)) (same_table _) (
        read-Returns (find_failed_files sv.db sv.files task_run_id table) (λ found e.
          option-Returns found (same_table _) (retry_files_of-Effects idempotency_key parent_run)))

  pub request_retry_run-Effects :
      (task_run_id idempotency_key : Text)
      → Effects table (request_retry_run sv task_run_id idempotency_key table)
  unfolding request_retry_run retry_new
  request_retry_run-Effects task_run_id idempotency_key =
      if-Returns (not (is_operator_idempotency_key idempotency_key)) (same_table _) (
        refusal-Returns (find_by_execution_key sv.db (operator_key idempotency_key) table)
          (λ run _. if-Returns (is_other_retry task_run_id run) (same_table _) (same_table _))
          (λ _. if-Returns (not (is_positive_id task_run_id)) (same_table _) (
            read-Returns (find_by_id sv.db task_run_id table) (λ found e.
              option-Returns found (same_table _)
                (retry_parent-Effects task_run_id idempotency_key)))))

  pub finish_run-Effects :
      (request : FinishTaskRunRequest) → Effects table (finish_run sv.db sv.files request table)
  unfolding finish_run
  finish_run-Effects request = if-Returns (empty request.task_run_id) (same_table _) (
      not-Returns (is_final request.status) (λ _. same_table _)
        (λ final. read-Returns (find_by_id sv.db request.task_run_id table) (λ found e.
          option-Returns found (same_table _) (λ task_run.
            write-Returns (finish sv.db (finished_record sv.files request task_run) table) success
              (λ table'.
                finish-Effect sv.db (finished_record sv.files request task_run) table table'
                  (final_record sv.files request task_run final))))))
