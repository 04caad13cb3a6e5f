-- ===== src/Server/TaskRuns/Calls.antt =====
-- task_run_service.cpp: the effect of each call on the table.
use lab_bridge.Prelude.{
  ◌≡◌, refl, ◌∙◌, Bool, true, false, not, ◌&&◌, List, [], ◌∷◌, ok, Text, empty, to_decimal, bind-ok,
  arith,
}
use lab_bridge.Server.Models.{TaskRunStatus, pending, running, succeeded, failed, TaskRunRecord}
use lab_bridge.Server.TaskRuns.Table.{
  RunRow, RunTable, Database, Stored, key_of, update, has_key, is_pending, is_pending_manual,
  same_execution_key, same_pending_task, conflicts, any_row, added,
}
use lab_bridge.Server.TaskRuns.Repository.{
  FilesJson, ManualTaskRunRequest, create, has_task, run_row, create_or_find_scheduled,
  find_scheduled, create_or_find_manual, manual_row, find_by_id, find_by_execution_key, finish,
  finish_row, mark_manual_running, run_row_at, fail_pending_manual_runs, fail_row, is_pending_of,
}
use lab_bridge.Server.TaskRuns.Operator.{is_final}
use lab_bridge.Server.TaskRuns.Effects.{Keeps, Effect, inserted, updated, Effects, same_table}
use lab_bridge.Server.Returns.{
  threw, returned, if-Returns, test-Returns, option-Returns, read-Returns,
}

final_not_pending :
    (status : TaskRunStatus)
    → is_final status ≡ true
    → is_pending status ≡ true
    → (s : TaskRunStatus) → is_pending s ≡ true
final_not_pending pending f h s = cc
final_not_pending running f h s = cc
final_not_pending succeeded f h s = cc
final_not_pending failed f h s = cc

module _ (db : Database) where
  -- A started run is no pending one.
  running-conflicts :
      (row : RunRow) (rows : List RunRow)
      → is_pending row.run.status ≡ false
      → any_row (conflicts row) rows ≡ any_row (same_execution_key row) rows
  unfolding any_row conflicts same_pending_task is_pending_manual
  running-conflicts row [] h = refl
  running-conflicts row (other ∷ rows) h = let rest = running-conflicts row rows h in ground arith

  no_key_no_conflict :
      (row : RunRow) (rows : List RunRow)
      → empty row.run.execution_key ≡ true
      → any_row (same_execution_key row) rows ≡ false
  unfolding any_row same_execution_key
  no_key_no_conflict row [] h = refl
  no_key_no_conflict row (other ∷ rows) h = let rest = no_key_no_conflict row rows h in ground arith

  pub create-Effects :
      (run : TaskRunRecord) (table : RunTable)
      → is_pending run.status ≡ false
      → Effects table (create db run table)
  unfolding create run_row
  create-Effects run table h = read-Returns (key_of db run.task_id) (λ task_key e.
      if-Returns (has_task db task_key run.node_code)
        (returned (
          inserted _
            (record {
              next = refl;
              printed = refl;
              printed_task = refl;
              admitted = running-conflicts _ table.rows h ∙ no_key_no_conflict _ table.rows refl;
            })
            refl))
        threw)

  find_scheduled-Effects :
      (run : TaskRunRecord) (table : RunTable) → Effects table (find_scheduled run table)
  unfolding find_scheduled
  find_scheduled-Effects run table = option-Returns _ threw (λ row. same_table _)

  free_key : (a b : Bool) → (a && not b) ≡ true → b ≡ false
  free_key a b h = ground arith

  pub create_or_find_scheduled-Effects :
      (run : TaskRunRecord) (table : RunTable)
      → is_pending run.status ≡ false
      → Effects table (create_or_find_scheduled db run table)
  unfolding create_or_find_scheduled run_row
  create_or_find_scheduled-Effects run table h = read-Returns (key_of db run.task_id) (λ task_key e.
      let row = run_row db table.next_key task_key run in
      let taken = any_row (same_execution_key row) table.rows in
      test-Returns (has_task db task_key run.node_code && not taken)
        (λ t. returned (
          inserted row
            (record {
              next = refl;
              printed = refl;
              printed_task = refl;
              admitted =
                  running-conflicts row table.rows h
                  ∙ free_key (has_task db task_key run.node_code) taken t;
            })
            refl))
        (λ _. find_scheduled-Effects run table))

  pub create_or_find_manual-Effects :
      (files : FilesJson) (request : ManualTaskRunRequest) (table : RunTable)
      → Effects table (create_or_find_manual db files request table)
  unfolding create_or_find_manual manual_row
  create_or_find_manual-Effects files request table =
      read-Returns (key_of db request.task_id) (λ task_key e.
        let row = manual_row db files table.next_key task_key request in
        let taken = any_row (conflicts row) table.rows in
        test-Returns (has_task db task_key request.node_code && not taken)
          (λ t.
            read-Returns (find_by_id db (to_decimal table.next_key) (added row table)) (λ found f.
              option-Returns found threw (λ run. returned (
                inserted row
                  (record {
                    next = refl;
                    printed = refl;
                    printed_task = refl;
                    admitted = free_key (has_task db task_key request.node_code) taken t;
                  })
                  refl))))
          (λ _.
            option-Returns (find_by_execution_key db request.execution_key table) (same_table _)
              (λ run. same_table _)))

  finish_row-Keeps :
      (task_run : TaskRunRecord) (row : RunRow)
      → is_final task_run.status ≡ true
      → Keeps row (finish_row db task_run row)
  unfolding finish_row
  finish_row-Keeps task_run row final = record {
    same_key = refl;
    same_task_key = refl;
    same_id = refl;
    same_task = refl;
    same_node = refl;
    same_trigger = refl;
    same_execution = refl;
    same_scheduled = refl;
    same_parent = refl;
    same_retry_files = refl;
    still_pending = λ h. final_not_pending task_run.status final h row.run.status;
  }

  run_row_at-Keeps : (started_at : Text) (row : RunRow) → Keeps row (run_row_at started_at row)
  unfolding run_row_at
  run_row_at-Keeps started_at row = record {
    same_key = refl;
    same_task_key = refl;
    same_id = refl;
    same_task = refl;
    same_node = refl;
    same_trigger = refl;
    same_execution = refl;
    same_scheduled = refl;
    same_parent = refl;
    same_retry_files = refl;
    still_pending = λ h. cc;
  }

  fail_row-Keeps : (error_summary : Text) (row : RunRow) → Keeps row (fail_row db error_summary row)
  unfolding fail_row
  fail_row-Keeps error_summary row = record {
    same_key = refl;
    same_task_key = refl;
    same_id = refl;
    same_task = refl;
    same_node = refl;
    same_trigger = refl;
    same_execution = refl;
    same_scheduled = refl;
    same_parent = refl;
    same_retry_files = refl;
    still_pending = λ h. cc;
  }

  ok_table : {s t : RunTable} → ◌≡◌ {A = Stored RunTable} (ok s) (ok t) → t ≡ s
  ok_table h = cc

  -- An update that leaves the keys of the rows it changes and makes none of them pending.
  pub finish-Effect :
      (task_run : TaskRunRecord) (table table' : RunTable)
      → is_final task_run.status ≡ true
      → finish db task_run table ≡ ok table'
      → Effect table table'
  unfolding finish
  finish-Effect task_run table table' final h =
      let record { value = key; first = e; second = same } =
        bind-ok (λ key. ok (update (has_key key) (finish_row db task_run) table))
          (key_of db task_run.id) h in
      updated (has_key key) (finish_row db task_run) (λ row _. finish_row-Keeps task_run row final)
        (ok_table same)

  pub mark_manual_running-Effect :
      (task_run_id started_at : Text) (table table' : RunTable)
      → mark_manual_running db task_run_id started_at table ≡ ok table'
      → Effect table table'
  unfolding mark_manual_running
  mark_manual_running-Effect task_run_id started_at table table' h =
      let record { value = key; first = e; second = same } =
        bind-ok
          (λ key. ok (
            update (λ row. has_key key row && is_pending row.run.status)
              (run_row_at (db.utc_text started_at)) table))
          (key_of db task_run_id) h in
      updated (λ row. has_key key row && is_pending row.run.status)
        (run_row_at (db.utc_text started_at))
        (λ row _. run_row_at-Keeps (db.utc_text started_at) row) (ok_table same)

  pub fail_pending_manual_runs-Effect :
      (task_id error_summary : Text) (table table' : RunTable)
      → fail_pending_manual_runs db task_id error_summary table ≡ ok table'
      → Effect table table'
  unfolding fail_pending_manual_runs
  fail_pending_manual_runs-Effect task_id error_summary table table' h =
      let record { value = key; first = e; second = same } =
        bind-ok (λ key. ok (update (is_pending_of key) (fail_row db error_summary) table))
          (key_of db task_id) h in
      updated (is_pending_of key) (fail_row db error_summary)
        (λ row _. fail_row-Keeps error_summary row) (ok_table same)
