-- ===== src/Server/TaskRuns/Replays.antt =====
-- task_run_service.cpp: a request of an operator that is sent again.
use lab_bridge.Prelude.{
  ◌≡◌, refl, sym, ap, ◌∙◌, true, false, [], some, ok, Text, codes, to_decimal, Bool-cases, inl, inr,
  ℕ, arith,
}
use lab_bridge.Server.Models.{TaskRunRecord}
use lab_bridge.Server.Status.{success}
use lab_bridge.Server.TaskRuns.Table.{RunRow, RunTable, run_of}
use lab_bridge.Server.TaskRuns.Repository.{find_by_execution_key}
use lab_bridge.Server.TaskRuns.Requests.{
  Services, ManualTaskRunResult, is_operator_idempotency_key, replayed_result,
}
use lab_bridge.Server.TaskRuns.Operator.{
  ManualRun, apply_manual_run, operator_key, differs, request_manual_run,
}
use lab_bridge.Server.Returns.{Returns-ok}
use lab_bridge.Server.TaskRuns.Effects.{Keeps, Effect}
use lab_bridge.Server.TaskRuns.Invariant.{IsValid, Apart, Effect-IsValid, Steps-keep_IsValid}
use lab_bridge.Server.TaskRuns.OneNode.{
  TakesOne, OfNode, OfNode-before, OfNode-before_effect, find_by_execution_key-first,
}
use lab_bridge.Server.TaskRuns.Steps.{Steps, Step-effect, requested}
use lab_bridge.Server.TaskRuns.History.{Steps-keep_key}
use lab_bridge.Server.TaskRuns.Granted.{
  ReadsKeys, Granted, refused, granted, apply_manual_run-GrantedIf,
}

abbrev manual_of : ℕ → ManualRun
manual_of task_key = record {
  trigger_type = codes "manual";
  task_id = to_decimal task_key;
  retry_of_run_id = [];
  retry_files = [];
}

differs-Keeps :
    (manual : ManualRun) (row row' : RunRow)
    → Keeps row row'
    → differs manual row.run ≡ false
    → differs manual row'.run ≡ false
unfolding differs
differs-Keeps manual row row' k h = ground arith

-- The answer for a key whose run is as asked.
replay_of_key :
    (sv : Services) (manual : ManualRun) (idempotency_key : Text) (row : RunRow) (later : RunTable)
    → is_operator_idempotency_key idempotency_key ≡ true
    → find_by_execution_key sv.db (operator_key idempotency_key) later ≡ run_of (some row)
    → differs manual row.run ≡ false
    → apply_manual_run sv manual idempotency_key later ≡ ok (replayed_result row.run, later)
unfolding apply_manual_run
replay_of_key sv manual idempotency_key row later key found as_asked =
    rw key (rw found (rw as_asked refl))

success_key :
    (sv : Services) (manual : ManualRun) (idempotency_key : Text) (table table' : RunTable)
    (r : ManualTaskRunResult)
    → apply_manual_run sv manual idempotency_key table ≡ ok (r, table')
    → r.status ≡ success
    → is_operator_idempotency_key idempotency_key ≡ true
unfolding apply_manual_run
success_key sv manual idempotency_key table table' r h s =
    elim (Bool-cases (is_operator_idempotency_key idempotency_key)) [
      | inl e ↦ e
      | inr e ↦ ground arith
    ]

Granted-kept :
    (sv : Services) (manual : ManualRun) (idempotency_key id node_code : Text)
    (table' later : RunTable)
    → TakesOne sv.db
    → Apart later.rows
    → OfNode (operator_key idempotency_key) node_code later.rows
    → is_operator_idempotency_key idempotency_key ≡ true
    → Granted manual (operator_key idempotency_key) id table'
    → Steps table' later
    → (run : TaskRunRecord) × (apply_manual_run sv manual idempotency_key later
        ≡ ok (replayed_result run, later))
      × (run.id ≡ id)
Granted-kept sv manual idempotency_key id node_code table' later takes apart of_node key g steps =
    let first =
      find_by_execution_key-first (operator_key idempotency_key) node_code refl sv.db later takes
        apart of_node in
    let (row, found, k) =
      Steps-keep_key table' later (operator_key idempotency_key) g.row steps g.found in
    (
      row.run,
      replay_of_key sv manual idempotency_key row later key (first ∙ ap run_of found)
          (differs-Keeps manual g.row row k g.as_asked),
      sym (k.same_id) ∙ sym (g.same_id),
    )

request_manual_run-Effect :
    (sv : Services) (task_key : ℕ) (idempotency_key : Text) (table table' : RunTable)
    (r : ManualTaskRunResult)
    → request_manual_run sv (to_decimal task_key) idempotency_key table ≡ ok (r, table')
    → Effect table table'
request_manual_run-Effect sv task_key idempotency_key table table' r h =
    Step-effect table table' (requested sv (to_decimal task_key) idempotency_key r h)

-- A manual run that was granted is granted again: after any calls, and whatever has become of the
-- task, the same request with the same key returns the run of the first one and changes nothing,
-- where all the runs under its key then belong to one node, since the query by the key takes any row
-- that matches. The id of the task is written as the server prints it, and PostgreSQL reads the keys
-- that it prints.
pub request_manual_run_replays :
    (sv sv' : Services) (task_key : ℕ) (idempotency_key node_code : Text)
    (table table' later : RunTable) (r : ManualTaskRunResult)
    → ReadsKeys sv.db
    → TakesOne sv.db
    → TakesOne sv'.db
    → IsValid table
    → request_manual_run sv (to_decimal task_key) idempotency_key table ≡ ok (r, table')
    → r.status ≡ success
    → Steps table' later
    → OfNode (operator_key idempotency_key) node_code later.rows
    → (run : TaskRunRecord) × (request_manual_run sv' (to_decimal task_key) idempotency_key later
        ≡ ok (replayed_result run, later))
      × (run.id ≡ r.task_run_id)
unfolding request_manual_run
request_manual_run_replays sv sv' task_key idempotency_key node_code table table' later r reads
      takes takes' valid h s steps of_node =
    let manual = manual_of task_key in
    let effect = request_manual_run-Effect sv task_key idempotency_key table table' r h in
    let of_node' =
      OfNode-before (operator_key idempotency_key) node_code table' later steps of_node in
    let valid' = Steps-keep_IsValid table' later steps (Effect-IsValid table table' effect valid) in
    let key = success_key sv manual idempotency_key table table' r h s in
    elim (Returns-ok _ r table'
      (apply_manual_run-GrantedIf sv reads table valid manual task_key refl idempotency_key takes
        node_code
        (OfNode-before_effect (operator_key idempotency_key) node_code table table' effect
          of_node'))
      h) [
        | refused e ↦ cc (e, s)
        | granted g ↦
            Granted-kept sv' manual idempotency_key r.task_run_id node_code table' later takes'
              valid'.rows_apart of_node key g steps
      ]
