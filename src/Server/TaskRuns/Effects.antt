-- ===== src/Server/TaskRuns/Effects.antt =====
-- What a call does to the table `task_runs`: nothing, one new row that the unique indexes admit, or an
-- update that keeps what identifies a run.
use lab_bridge.Prelude.{◌≡◌, refl, ◌∙◌, Bool, true, false, ok, to_decimal}
use lab_bridge.Server.Returns.{Returns, returned}
use lab_bridge.Server.TaskRuns.Table.{
  RunRow, RunTable, Stored, update, conflicts, is_pending, any_row, added,
}

-- What an update keeps of a row, and a pending run only where there was one.
pub record Keeps (row row' : RunRow) : Type 0 where
  pub same_key : row.key ≡ row'.key
  pub same_task_key : row.task_key ≡ row'.task_key
  pub same_id : row.run.id ≡ row'.run.id
  pub same_task : row.run.task_id ≡ row'.run.task_id
  pub same_node : row.run.node_code ≡ row'.run.node_code
  pub same_trigger : row.run.trigger_type ≡ row'.run.trigger_type
  pub same_execution : row.run.execution_key ≡ row'.run.execution_key
  pub same_scheduled : row.run.scheduled_for ≡ row'.run.scheduled_for
  pub same_parent : row.run.retry_of_run_id ≡ row'.run.retry_of_run_id
  pub same_retry_files : row.retry_files ≡ row'.retry_files
  pub still_pending : is_pending row'.run.status ≡ true → is_pending row.run.status ≡ true

pub Keeps-refl : (row : RunRow) → Keeps row row
Keeps-refl row = record {
  same_key = refl;
  same_task_key = refl;
  same_id = refl;
  same_task = refl;
  same_node = refl;
  same_trigger = refl;
  same_execution = refl;
  same_scheduled = refl;
  same_parent = refl;
  same_retry_files = refl;
  still_pending = λ h. h;
}

pub Keeps-trans : (a b c : RunRow) → Keeps a b → Keeps b c → Keeps a c
Keeps-trans a b c p q = record {
  same_key = p.same_key ∙ q.same_key;
  same_task_key = p.same_task_key ∙ q.same_task_key;
  same_id = p.same_id ∙ q.same_id;
  same_task = p.same_task ∙ q.same_task;
  same_node = p.same_node ∙ q.same_node;
  same_trigger = p.same_trigger ∙ q.same_trigger;
  same_execution = p.same_execution ∙ q.same_execution;
  same_scheduled = p.same_scheduled ∙ q.same_scheduled;
  same_parent = p.same_parent ∙ q.same_parent;
  same_retry_files = p.same_retry_files ∙ q.same_retry_files;
  still_pending = λ h. p.still_pending (q.still_pending h);
}

-- The row that an INSERT adds: its id and its task as they read, and a run of an operator if it is
-- not started.
pub record IsNew (table : RunTable) (row : RunRow) : Type 0 where
  pub next : row.key ≡ table.next_key
  pub printed : row.run.id ≡ to_decimal row.key
  pub printed_task : row.run.task_id ≡ to_decimal row.task_key
  pub admitted : any_row (conflicts row) table.rows ≡ false

pub data Effect (table table' : RunTable) : Type 0 where
  unchanged : table' ≡ table → Effect table table'
  inserted : (row : RunRow) → IsNew table row → table' ≡ added row table → Effect table table'
  updated :
      (test : RunRow → Bool) (change : RunRow → RunRow)
      → ((row : RunRow) → test row ≡ true → Keeps row (change row))
      → table' ≡ update test change table
      → Effect table table'

-- The effect of a call that returns, and none of one that throws.
abbrev pub Effects : {A : Type 0} → RunTable → Stored (A × RunTable) → Type 0
Effects table = Returns (λ _ table'. Effect table table')

module _ {A : Type 0} {table : RunTable} where
  pub same_table : (r : A) → Effects table (ok (r, table))
  same_table r = returned (unchanged refl)
