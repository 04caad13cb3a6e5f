-- ===== src/Server/Alerts/Samples.antt =====
-- Tests of the alerts, and the theorems at concrete inputs.
use lab_bridge.Prelude.{
  ◌≡◌, ◌≢◌, refl, ◌⊎◌, Bool, true, false, All, [], ◌∷◌, some, ok, Text, codes, to_decimal, text_eq,
}
use lab_bridge.Server.Status.{success, conflict, is_positive_id}
use lab_bridge.Server.Alerts.{
  AlertRecord, AlertTable, AlertDispositionResult, QcResultRecord, create_alert, write_alert,
  create, insert, cast_run_id, inserted, is_alert_qc_result, alert_severity, alert_message,
  find_row, update_rows, read_by_id, dispose_alert, dispose_locked, write_disposition, save,
  save_acknowledged, set_acknowledged, coalesce, disposition_failure, already_closed,
}
use lab_bridge.Server.Alerts.Disposition.{Reached, dispose_alert_idem, dispose_alert-known}
use lab_bridge.Server.Alerts.Lifecycle.{
  Steps, done, then_step, Step, created, disposed, Later, new_alert, Steps-keeps,
}
use lab_bridge.Server.Alerts.Consistency.{
  empty_table, IsConsistent, Steps-IsConsistent, create_alert-read_by_id,
}
use lab_bridge.Server.Alerts.Keys.{OwnKeys}

abbrev result : QcResultRecord
result = record {
  id = codes "5";
  parsed_record_id = codes "9";
  level = codes "warning";
  result = codes "failed";
  message = [];
}

abbrev all_belong : Text → Text → Bool
all_belong node_code task_run_id = true

abbrev noon : Text
noon = codes "2024-02-29T12:00:00Z"

abbrev new_one : AlertRecord
new_one = record {
  id = codes "1";
  node_code = codes "n1";
  task_run_id = codes "7";
  alert_type = codes "qc_result";
  severity = codes "warning";
  message = codes "qc result 5 is failed";
  status = codes "open";
  acknowledged_at = [];
  closed_at = [];
}

abbrev one_open : AlertTable
one_open = record { rows = record { key = 1; alert = new_one } ∷ []; next_key = 2 }

abbrev acknowledged_one : AlertRecord
acknowledged_one = record new_one { status = codes "acknowledged"; acknowledged_at = noon }

abbrev one_acknowledged : AlertTable
one_acknowledged = record { rows = record { key = 1; alert = acknowledged_one } ∷ []; next_key = 2 }

created_one :
    create_alert all_belong result (codes "7") (codes "n1") empty_table
    ≡ ok (record { status = success; id = codes "1" }, one_open)
unfolding create_alert write_alert create insert cast_run_id inserted is_alert_qc_result
    alert_severity alert_message text_eq to_decimal
created_one = refl

acknowledged_open :
    dispose_alert true noon (codes "1") one_open
    ≡ ok (record { status = success; alert = some acknowledged_one }, one_acknowledged)
unfolding dispose_alert dispose_locked write_disposition save save_acknowledged set_acknowledged
    coalesce is_positive_id read_by_id find_row update_rows text_eq
acknowledged_open = refl

found_open : find_row 1 one_open.rows ≡ some new_one
unfolding find_row
found_open = refl

found_acknowledged : find_row 1 one_acknowledged.rows ≡ some acknowledged_one
unfolding find_row
found_acknowledged = refl

to_open : Steps empty_table one_open
to_open = then_step done (
    created all_belong result (codes "7") (codes "n1") (record { status = success; id = codes "1" })
      created_one)

acknowledge-Step : Step one_open one_acknowledged
acknowledge-Step =
    disposed true noon (codes "1") (record { status = success; alert = some acknowledged_one }) refl
      acknowledged_open

dispose_alert_idem_example :
    (r : AlertDispositionResult) × (table' : AlertTable) × (dispose_alert true noon
        (codes "1")
        one_open
      ≡ ok (r, table'))
    × (dispose_alert true (codes "later") (codes "1") table' ≡ ok (r, table'))
dispose_alert_idem_example = dispose_alert_idem true noon (codes "later") (codes "1") one_open

one_is_positive : is_positive_id (codes "1") ≡ true
unfolding is_positive_id
one_is_positive = refl

read_open : read_by_id (codes "1") one_open ≡ some new_one
unfolding read_by_id find_row
read_open = refl

dispose_alert-known_example :
    ((true ≡ true)
      × (new_one.status ≡ codes "closed")
      × (dispose_alert true noon (codes "1") one_open
          ≡ ok (disposition_failure conflict already_closed, one_open)))
    ⊎ (((true ≡ false) ⊎ (new_one.status ≢ codes "closed"))
        × Reached true noon (codes "1") one_open)
dispose_alert-known_example =
    dispose_alert-known true noon (codes "1") one_open new_one one_is_positive read_open

Steps-keeps_example :
    (b : AlertRecord) × (find_row 1 one_acknowledged.rows ≡ some b) × Later new_one b
Steps-keeps_example =
    Steps-keeps one_open one_acknowledged 1 new_one (then_step done acknowledge-Step) found_open

Steps-IsConsistent_example :
    OwnKeys one_acknowledged.rows
    × All (λ row. IsConsistent 2 row.key row.alert) one_acknowledged.rows
Steps-IsConsistent_example =
    Steps-IsConsistent one_acknowledged (then_step to_open acknowledge-Step)

needs_alert : is_alert_qc_result result ≡ true
unfolding is_alert_qc_result text_eq
needs_alert = refl

create_alert-read_by_id_example :
    (id : Text) × (table' : AlertTable) × (create_alert all_belong result
        (to_decimal 7)
        (codes "n1")
        one_open
      ≡ ok (record { status = success; id = id }, table'))
    × (read_by_id id table'
        ≡ some (record (new_alert result (to_decimal 7) (codes "n1")) { id = id }))
create_alert-read_by_id_example =
    create_alert-read_by_id all_belong result 7 (codes "n1") one_open to_open needs_alert refl
