-- ===== src/Server/Alerts.antt =====
-- server/src/application/alert_service.cpp over server/src/postgres/alert_repository.cpp. The table
-- of alerts is explicit state; a statement's `now()` is an argument, and the tables of the other
-- repositories are functions. A message is a value that names its text.
pub mod Rows
pub mod Disposition
pub mod Lifecycle
pub mod Keys
pub mod Consistency
mod Samples
use lab_bridge.Prelude.{
  ℕ, suc, ◌+◌, Bool, true, false, not, ◌&&◌, ◌||◌, List, [], ◌∷◌, ◌++◌, map, Option, none, some,
  Outcome, ok, err, ◌>>=◌, Text, codes, empty, text_eq, ◌==◌, decimal_value, to_decimal,
  if◌then◌else◌,
}
use lab_bridge.Server.Status.{
  Status, success, failure, StatusCode, invalid_argument, not_found, conflict, is_positive_id,
}

pub record QcResultRecord : Type 0 where
  pub id : Text
  pub parsed_record_id : Text
  pub level : Text
  pub result : Text
  pub message : Text

-- AlertRecord, without the time of creation, which the queries of this repository do not read. An
-- empty time stands for NULL.
pub record AlertRecord : Type 0 where
  pub id : Text
  pub node_code : Text
  pub task_run_id : Text
  pub alert_type : Text
  pub severity : Text
  pub message : Text
  pub status : Text
  pub acknowledged_at : Text
  pub closed_at : Text

-- A row of `alerts`: the number of its key, and the rest as it is read.
pub record AlertRow : Type 0 where
  pub key : ℕ
  pub alert : AlertRecord

-- The table, with the next value of its BIGSERIAL.
pub record AlertTable : Type 0 where
  pub rows : List AlertRow
  pub next_key : ℕ

-- The exceptions of the repository and of the service.
pub data AlertThrow : Type 0 where
  create_failed update_not_readable : AlertThrow

unfoldable pub find_row : ℕ → List AlertRow → Option AlertRecord
find_row key [] = none
find_row key (row ∷ rows) = if row.key == key then some row.alert else find_row key rows

-- UPDATE alerts SET ... WHERE id = key
unfoldable pub update_rows : (AlertRecord → AlertRecord) → ℕ → List AlertRow → List AlertRow
update_rows change key [] = []
update_rows change key (row ∷ rows) =
    (if row.key == key then record row { alert = change row.alert } else row)
    ∷ update_rows change key rows

-- lock_by_id and read_by_id
unfoldable pub read_by_id : Text → AlertTable → Option AlertRecord
read_by_id alert_id table = find_row (decimal_value 0 alert_id) table.rows

-- COALESCE(time, now())
unfoldable pub coalesce : Text → Text → Text
coalesce time now = if empty time then now else time

unfoldable pub set_acknowledged : Text → AlertRecord → AlertRecord
set_acknowledged now alert = record alert {
  status = codes "acknowledged";
  acknowledged_at = coalesce alert.acknowledged_at now;
}

unfoldable pub set_closed : Text → AlertRecord → AlertRecord
set_closed now alert = record alert {
  status = codes "closed";
  closed_at = coalesce alert.closed_at now;
}

-- The record that a save reads back, nothing where no row was updated, and the table.
pub record Saved : Type 0 where
  pub saved : Option AlertRecord
  pub after : AlertTable

unfoldable pub save : (AlertRecord → AlertRecord) → Text → AlertTable → Saved
save change alert_id table = elim (read_by_id alert_id table) [
  | none ↦ record { saved = none; after = table }
  | some _ ↦
      let table' = record table {
        rows = update_rows change (decimal_value 0 alert_id) table.rows;
      } in
      record { saved = read_by_id alert_id table'; after = table' }
]

unfoldable pub save_acknowledged : Text → Text → AlertTable → Saved
save_acknowledged now = save (set_acknowledged now)

unfoldable pub save_closed : Text → Text → AlertTable → Saved
save_closed now = save (set_closed now)

pub data AlertMessage : Type 0 where
  alert_id_not_positive alert_not_found already_closed : AlertMessage
  qc_result_id_required qc_result_not_found no_alert_required : AlertMessage
  parsed_record_not_found task_run_not_found : AlertMessage

pub record AlertDispositionResult : Type 0 where
  pub status : Status AlertMessage
  pub alert : Option AlertRecord

abbrev pub disposition_failure : StatusCode → AlertMessage → AlertDispositionResult
disposition_failure code message = record { status = failure code message; alert = none }

-- The result of a call, and the table behind it.
abbrev pub Disposed : Type 0
Disposed = Outcome AlertThrow (AlertDispositionResult × AlertTable)

-- The write and what is returned of it.
unfoldable pub write_disposition : Saved → Disposed
write_disposition result = elim result.saved [
  | none ↦ err update_not_readable
  | some alert ↦ ok (record { status = success; alert = some alert }, result.after)
]

-- The part of `dispose_alert` behind the lock.
unfoldable pub dispose_locked : Bool → Text → Text → AlertTable → AlertRecord → Disposed
dispose_locked acknowledge now alert_id table alert =
    if acknowledge
    then if text_eq alert.status (codes "closed")
      then ok (disposition_failure conflict already_closed, table)
      else if text_eq alert.status (codes "acknowledged")
      then ok (record { status = success; alert = some alert }, table)
      else write_disposition (save_acknowledged now alert_id table)
    else if text_eq alert.status (codes "closed")
    then ok (record { status = success; alert = some alert }, table)
    else write_disposition (save_closed now alert_id table)

unfoldable pub dispose_alert : Bool → Text → Text → AlertTable → Disposed
dispose_alert acknowledge now alert_id table =
    if not (is_positive_id alert_id)
    then ok (disposition_failure invalid_argument alert_id_not_positive, table)
    else elim (read_by_id alert_id table) [
      | none ↦ ok (disposition_failure not_found alert_not_found, table)
      | some alert ↦ dispose_locked acknowledge now alert_id table alert
    ]

unfoldable pub acknowledge_alert : Text → Text → AlertTable → Disposed
acknowledge_alert = dispose_alert true

unfoldable pub close_alert : Text → Text → AlertTable → Disposed
close_alert = dispose_alert false

unfoldable pub is_alert_qc_result : QcResultRecord → Bool
is_alert_qc_result result =
    text_eq result.level (codes "warning")
    || text_eq result.level (codes "failed")
    || text_eq result.result (codes "warning")
    || text_eq result.result (codes "failed")

unfoldable pub alert_severity : QcResultRecord → Text
alert_severity result =
    if text_eq result.level (codes "warning") || text_eq result.level (codes "failed")
    then result.level
    else result.result

unfoldable pub alert_message : QcResultRecord → Text
alert_message result =
    if empty result.message
    then codes "qc result " ++ result.id ++ codes " is " ++ result.result
    else result.message

pub record AlertCreateResult : Type 0 where
  pub status : Status AlertMessage
  pub id : Text

abbrev pub Created : Type 0
Created = Outcome AlertThrow (AlertCreateResult × AlertTable)

abbrev pub create_failure : StatusCode → AlertMessage → AlertTable → Created
create_failure code message table = ok (record { status = failure code message; id = [] }, table)

-- NULLIF(value, '')::bigint of the id of a run, as it reads, for a text of digits; the sign and the
-- blanks that PostgreSQL reads too are not modelled.
unfoldable pub cast_run_id : Text → Text
cast_run_id value = if empty value then [] else to_decimal (decimal_value 0 value)

-- The row that the INSERT adds, with the defaults of the columns.
unfoldable pub inserted : ℕ → AlertRecord → AlertRecord
inserted key alert = record alert {
  id = to_decimal key;
  task_run_id = cast_run_id alert.task_run_id;
  status = if empty alert.status then codes "open" else alert.status;
  acknowledged_at = [];
  closed_at = [];
}

unfoldable pub insert : AlertRecord → AlertTable → AlertTable
insert alert table = record {
  rows = table.rows ++ record { key = table.next_key; alert = inserted table.next_key alert } ∷ [];
  next_key = table.next_key + 1;
}

-- `belongs` says whether a node is known and, unless the run is empty, has that run; a text that is no
-- id of a run fails in the cast, which is an exception as well.
module _ (belongs : Text → Text → Bool) where
  -- PostgresAlertRepository::create
  unfoldable pub create : AlertRecord → AlertTable → Outcome AlertThrow (Text × AlertTable)
  create alert table =
      if belongs alert.node_code alert.task_run_id
      then ok (to_decimal table.next_key, insert alert table)
      else err create_failed

  unfoldable pub write_alert : QcResultRecord → Text → Text → AlertTable → Created
  write_alert qc_result task_run_id node_code table =
      create
        (record {
          id = [];
          node_code = node_code;
          task_run_id = task_run_id;
          alert_type = codes "qc_result";
          severity = alert_severity qc_result;
          message = alert_message qc_result;
          status = codes "open";
          acknowledged_at = [];
          closed_at = [];
        })
        table
      >>= λ (id, table'). ok (record { status = success; id = id }, table')

  unfoldable pub create_alert : QcResultRecord → Text → Text → AlertTable → Created
  create_alert qc_result task_run_id node_code table =
      if not (is_alert_qc_result qc_result)
      then ok (record { status = success; id = [] }, table)
      else write_alert qc_result task_run_id node_code table

-- The three reads of `create_from_lookup`: a quality result, the run of a parsed record, and the node of a run.
module _ (belongs : Text → Text → Bool) (find_result : Text → Option QcResultRecord)
    (run_of_parsed_record : Text → Option Text) (node_of_run : Text → Option Text) where
  -- create_from_qc_result with `only_fail`, and create_from_qc_result_if_needed without.
  unfoldable pub create_from_lookup : Text → Bool → AlertTable → Created
  create_from_lookup qc_result_id only_fail table =
      if empty qc_result_id
      then create_failure invalid_argument qc_result_id_required table
      else elim (find_result qc_result_id) [
        | none ↦ create_failure not_found qc_result_not_found table
        | some qc_result ↦
            if not (is_alert_qc_result qc_result)
            then if only_fail
              then create_failure conflict no_alert_required table
              else ok (record { status = success; id = [] }, table)
            else elim (run_of_parsed_record qc_result.parsed_record_id) [
              | none ↦ create_failure not_found parsed_record_not_found table
              | some task_run_id ↦ elim (node_of_run task_run_id) [
                | none ↦ create_failure not_found task_run_not_found table
                | some node_code ↦ write_alert belongs qc_result task_run_id node_code table
              ]
            ]
      ]
