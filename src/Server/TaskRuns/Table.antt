-- ===== src/Server/TaskRuns/Table.antt =====
-- server/src/postgres/task_run_repository.cpp over the tables `task_runs` and `tasks` of
-- deploy/schema.sql. A row is what `task_run_select` reads of it, with its keys and its JSON columns.
-- An empty text stands for NULL. A statement that PostgreSQL refuses is a thrown error.
use lab_bridge.Prelude.{
  ℕ, ◌+◌, ◌==◌, Bool, true, false, not, ◌&&◌, ◌||◌, List, [], ◌∷◌, ◌++◌, Option, none, some,
  Outcome, ok, err, Text, codes, empty, text_eq, if◌then◌else◌,
}
use lab_bridge.Server.Models.{TaskRunStatus, pending, TaskRunRecord, TaskRecord}

-- A row of `tasks`, with its key.
pub record TaskRow : Type 0 where
  pub key : ℕ
  pub task : TaskRecord

-- A row of `task_runs`. The columns `failed_files` and `retry_files` are the text that they read as.
pub record RunRow : Type 0 where
  pub key : ℕ
  pub task_key : ℕ
  pub run : TaskRunRecord
  pub failed_files : Text
  pub retry_files : Text

pub record RunTable : Type 0 where
  pub rows : List RunRow
  pub next_key : ℕ

-- What a statement takes from PostgreSQL: the key that a text names (nothing where the cast fails),
-- the text that a stored time and a stored JSON text read as, `now()` as it reads, and the row that
-- LIMIT 1 without an order takes of those that match.
pub record Database : Type 0 where
  pub tasks : List TaskRow
  pub bigint : Text → Option ℕ
  pub utc_text : Text → Text
  pub jsonb : Text → Text
  pub now : Text
  pub limit_one : List RunRow → Option RunRow

pub data RunThrow : Type 0 where
  invalid_bigint create_failed scheduled_not_found manual_not_readable manual_not_created : RunThrow

abbrev pub Stored : Type 0 → Type 0
Stored A = Outcome RunThrow A

-- NULLIF(value, '') of a time and of a JSON text, as they read.
unfoldable pub time_or_null : Database → Text → Text
time_or_null db value = if empty value then [] else db.utc_text value

unfoldable pub jsonb_or_null : Database → Text → Text
jsonb_or_null db value = if empty value then [] else db.jsonb value

unfoldable pub find_task_row : ℕ → List TaskRow → Option TaskRecord
find_task_row key [] = none
find_task_row key (row ∷ rows) = if row.key == key then some row.task else find_task_row key rows

-- `id = $1::bigint`
unfoldable pub key_of : Database → Text → Stored ℕ
key_of db id = elim (db.bigint id) [ none ↦ err invalid_bigint | some key ↦ ok key ]

-- The row of a query that at most one row matches. Rows stand in the order of their keys.
unfoldable pub find_row : (RunRow → Bool) → List RunRow → Option RunRow
find_row test [] = none
find_row test (row ∷ rows) = if test row then some row else find_row test rows

-- The rows that a WHERE clause leaves.
unfoldable pub matching : (RunRow → Bool) → List RunRow → List RunRow
matching test [] = []
matching test (row ∷ rows) = if test row then row ∷ matching test rows else matching test rows

abbrev pub run_of : Option RunRow → Option TaskRunRecord
run_of none = none
run_of (some row) = some row.run

unfoldable pub update_rows : (RunRow → Bool) → (RunRow → RunRow) → List RunRow → List RunRow
update_rows test change [] = []
update_rows test change (row ∷ rows) =
    (if test row then change row else row) ∷ update_rows test change rows

abbrev pub update : (RunRow → Bool) → (RunRow → RunRow) → RunTable → RunTable
update test change table = record table { rows = update_rows test change table.rows }

abbrev pub has_key : ℕ → RunRow → Bool
has_key key row = row.key == key

abbrev pub is_pending : TaskRunStatus → Bool
is_pending pending = true
is_pending _ = false

-- trigger_type IN ('manual', 'retry')
unfoldable pub is_operator_trigger : Text → Bool
is_operator_trigger trigger_type =
    text_eq trigger_type (codes "manual") || text_eq trigger_type (codes "retry")

-- The condition of the index `task_runs_task_manual_pending_uidx`.
unfoldable pub is_pending_manual : RunRow → Bool
is_pending_manual row = is_pending row.run.status && is_operator_trigger row.run.trigger_type

unfoldable pub same_node_key : Text → Text → RunRow → Bool
same_node_key node_code execution_key row =
    text_eq row.run.node_code node_code && text_eq row.run.execution_key execution_key

-- Two rows that `task_runs_node_execution_key_uidx` keeps apart.
unfoldable pub same_execution_key : RunRow → RunRow → Bool
unfolding same_node_key
same_execution_key row other =
    not (empty row.run.execution_key) && same_node_key row.run.node_code row.run.execution_key other

-- Two rows that `task_runs_task_manual_pending_uidx` keeps apart.
unfoldable pub same_pending_task : RunRow → RunRow → Bool
same_pending_task row other =
    row.task_key == other.task_key && is_pending_manual row && is_pending_manual other

unfoldable pub conflicts : RunRow → RunRow → Bool
unfolding same_execution_key same_pending_task
conflicts row other = same_execution_key row other || same_pending_task row other

unfoldable pub any_row : (RunRow → Bool) → List RunRow → Bool
any_row test [] = false
any_row test (row ∷ rows) = test row || any_row test rows

-- The row joins the table and takes the next key, in its number and in the id that it reads as.
unfoldable pub added : RunRow → RunTable → RunTable
added row table = record { rows = table.rows ++ row ∷ []; next_key = table.next_key + 1 }
