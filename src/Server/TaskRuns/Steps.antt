-- ===== src/Server/TaskRuns/Steps.antt =====
-- task_run_service.cpp and task_run_repository.cpp: the steps of the table, one for each call.
use lab_bridge.Prelude.{◌≡◌, ok, Text}
use lab_bridge.Server.Status.{Status}
use lab_bridge.Server.TaskRuns.Table.{RunTable, Database}
use lab_bridge.Server.TaskRuns.Repository.{fail_pending_manual_runs}
use lab_bridge.Server.TaskRuns.Requests.{
  Services, StartTaskRunRequest, FinishTaskRunRequest, RunMessage, TaskRunCreateResult,
  ManualTaskRunResult,
}
use lab_bridge.Server.TaskRuns.Start.{start}
use lab_bridge.Server.TaskRuns.Operator.{finish_run, request_manual_run, request_retry_run}
use lab_bridge.Server.TaskRuns.Effects.{Effect}
use lab_bridge.Server.Returns.{Returns-ok}
use lab_bridge.Server.TaskRuns.Calls.{fail_pending_manual_runs-Effect}
use lab_bridge.Server.TaskRuns.ServiceCalls.{
  start-Effects, finish_run-Effects, request_manual_run-Effects, request_retry_run-Effects,
}

-- One call that returned: a method of the service, or the end of the pending runs of a task that is
-- disabled. The other components and the database may differ from call to call.
pub data Step : RunTable → RunTable → Type 0 where
  started :
      {table table' : RunTable} (db : Database) (request : StartTaskRunRequest)
      (r : TaskRunCreateResult)
      → start db request table ≡ ok (r, table')
      → Step table table'
  finished :
      {table table' : RunTable} (sv : Services) (request : FinishTaskRunRequest)
      (r : Status RunMessage)
      → finish_run sv.db sv.files request table ≡ ok (r, table')
      → Step table table'
  requested :
      {table table' : RunTable} (sv : Services) (task_id key : Text) (r : ManualTaskRunResult)
      → request_manual_run sv task_id key table ≡ ok (r, table')
      → Step table table'
  retried :
      {table table' : RunTable} (sv : Services) (task_run_id key : Text) (r : ManualTaskRunResult)
      → request_retry_run sv task_run_id key table ≡ ok (r, table')
      → Step table table'
  stopped :
      {table table' : RunTable} (db : Database) (task_id error_summary : Text)
      → fail_pending_manual_runs db task_id error_summary table ≡ ok table'
      → Step table table'

pub data Steps : RunTable → RunTable → Type 0 where
  done : {table : RunTable} → Steps table table
  then_step :
      {first middle last : RunTable} → Steps first middle → Step middle last → Steps first last

pub Step-effect : (table table' : RunTable) → Step table table' → Effect table table'
Step-effect table table' (started db request r h) =
    Returns-ok _ r table' (start-Effects db request table) h
Step-effect table table' (finished sv request r h) =
    Returns-ok _ r table' (finish_run-Effects sv table request) h
Step-effect table table' (requested sv task_id key r h) =
    Returns-ok _ r table' (request_manual_run-Effects sv table task_id key) h
Step-effect table table' (retried sv task_run_id key r h) =
    Returns-ok _ r table' (request_retry_run-Effects sv table task_run_id key) h
Step-effect table table' (stopped db task_id error_summary h) =
    fail_pending_manual_runs-Effect db task_id error_summary table table' h
