-- ===== src/Server/TaskRuns/Scheduled.antt =====
-- task_run_service.cpp, `start`: a scheduled start that is sent again.
use lab_bridge.Prelude.{
  subst, ℕ, ◌≡◌, refl, sym, ap, ◌∙◌, Bool, true, false, not, ◌&&◌, List, [], ◌∷◌, none, some, ok,
  err, Text, empty, text_eq, text_eq_sound, text_eq_refl, to_decimal, Bool-cases, Option-cases, inl,
  inr, arith,
}
use lab_bridge.Server.Models.{TaskRunRecord}
use lab_bridge.Server.Status.{StatusCode, success, conflict, invalid_argument, not_found}
use lab_bridge.Server.Timestamp.{is_rfc3339_utc}
use lab_bridge.Server.TaskRuns.Table.{
  RunRow, RunTable, RunThrow, Database, key_of, time_or_null, find_row, run_of, same_node_key,
  same_execution_key, any_row, added, is_operator_trigger,
}
use lab_bridge.Server.TaskRuns.Repository.{
  ScheduledTaskRunStart, has_task, run_row, create_or_find_scheduled, find_scheduled,
}
use lab_bridge.Server.TaskRuns.Requests.{
  StartTaskRunRequest, TaskRunCreateResult, RunMessage, start_failure, node_code_required,
  task_id_required, task_not_found, task_disabled, other_node,
}
use lab_bridge.Server.TaskRuns.Start.{
  start, start_checked, start_run, start_record, is_scheduled_start, schedule_refusal, find_task,
  started, scheduled_reply,
}
use lab_bridge.Server.Returns.{
  Returns, threw, returned, Returns-ok, Returns-weaken, not-Returns, then-Returns, test-Returns,
  read-Returns,
}
use lab_bridge.Server.TaskRuns.Steps.{Steps}
use lab_bridge.Server.TaskRuns.History.{Steps-keep_node_key}
use lab_bridge.Server.TaskRuns.Granted.{ReadsKeys, find_row-none}

and_false : (b : Bool) → (b && false) ≡ false
and_false true = refl
and_false false = refl

reply_asked :
    (request : StartTaskRunRequest) (run_start : ScheduledTaskRunStart)
    → run_start.created ≡ false
    → (scheduled_reply request run_start).status ≡ success
    → (run_start.task_run.task_id ≡ request.task_id)
      × (run_start.task_run.scheduled_for ≡ request.scheduled_for)
unfolding scheduled_reply
reply_asked request run_start c s =
    elim (Bool-cases (text_eq run_start.task_run.task_id request.task_id)) [
      | inr t ↦ ground arith
      | inl t ↦ elim (Bool-cases (text_eq run_start.task_run.scheduled_for request.scheduled_for)) [
        | inr f ↦ ground arith
        | inl f ↦ (
          text_eq_sound run_start.task_run.task_id request.task_id t,
          text_eq_sound run_start.task_run.scheduled_for request.scheduled_for f,
        )
      ]
    ]

reply_id :
    (request : StartTaskRunRequest) (run_start : ScheduledTaskRunStart)
    → (scheduled_reply request run_start).status ≡ success
    → (scheduled_reply request run_start).id ≡ run_start.task_run.id
unfolding scheduled_reply
reply_id request run_start s = ground arith

-- What the checks of a scheduled start say of its fields.
refusal_none :
    (request : StartTaskRunRequest)
    → is_scheduled_start request ≡ true
    → schedule_refusal request ≡ none
    → (empty request.execution_key ≡ false) × (is_rfc3339_utc request.scheduled_for ≡ true)
unfolding schedule_refusal
refusal_none request scheduled h = ground arith

module _ (db : Database) (request : StartTaskRunRequest) where
  -- The checks of a start do not look at the table: each call is refused, or fails, or comes to the
  -- repository, whatever the table.
  data Gate : Type 0 where
    shut :
        (code : StatusCode) (message : RunMessage)
        → ((table : RunTable) → start db request table ≡ ok (start_failure code message, table))
        → Gate
    broken : (e : RunThrow) → ((table : RunTable) → start db request table ≡ err e) → Gate
    passed :
        schedule_refusal request ≡ none
        → ((table : RunTable) → start db request table ≡ start_run db request table)
        → Gate

  checked_gate :
      empty request.node_code ≡ false
      → empty request.task_id ≡ false
      → is_operator_trigger request.trigger_type ≡ false
      → schedule_refusal request ≡ none
      → Gate
  unfolding start start_checked
  checked_gate n t o s =
      elim (find_task db request.task_id) as (λ m. find_task db request.task_id ≡ m → Gate) [
        | err e ↦ λ f. broken e (λ table. rw n (rw t (rw o (rw s (rw f refl)))))
        | ok none ↦
            λ f. shut not_found task_not_found (λ table. rw n (rw t (rw o (rw s (rw f refl)))))
        | ok (some task) ↦ λ f. elim (Bool-cases (task.enabled)) [
          | inr e ↦
              shut conflict task_disabled (λ table. rw n (rw t (rw o (rw s (rw f (rw e refl))))))
          | inl e ↦ elim (Bool-cases (text_eq task.node_code request.node_code)) [
            | inr c ↦
                shut conflict other_node
                  (λ table. rw n (rw t (rw o (rw s (rw f (rw e (rw c refl)))))))
            | inl c ↦ passed s (λ table. rw n (rw t (rw o (rw s (rw f (rw e (rw c refl)))))))
          ]
        ]
      ]
        refl

  gate : is_operator_trigger request.trigger_type ≡ false → Gate
  unfolding start
  gate o = elim (Bool-cases (empty request.node_code)) [
    | inl n ↦ shut invalid_argument node_code_required (λ table. rw n refl)
    | inr n ↦ elim (Bool-cases (empty request.task_id)) [
      | inl t ↦ shut invalid_argument task_id_required (λ table. rw n (rw t refl))
      | inr t ↦ elim (Option-cases (schedule_refusal request)) [
        | inl s ↦ checked_gate n t o s
        | inr (message, s) ↦ shut invalid_argument message (λ table. rw n (rw t (rw o (rw s refl))))
      ]
    ]
  ]

  -- What the repository returns: the run under the node and the key, which is new and as asked, or as
  -- it was found.
  record Placed (run_start : ScheduledTaskRunStart) (table : RunTable) : Type 0 where
    row : RunRow
    found : find_row (same_node_key request.node_code request.execution_key) table.rows ≡ some row
    same_id : run_start.task_run.id ≡ row.run.id
    as_asked :
        (run_start.created ≡ false → row.run ≡ run_start.task_run)
        × (run_start.created ≡ true
            → (row.run.task_id ≡ request.task_id) × (row.run.scheduled_for ≡ request.scheduled_for))

  -- The run under the node and the key is the one asked for.
  record Asked (id : Text) (table : RunTable) : Type 0 where
    row : RunRow
    found : find_row (same_node_key request.node_code request.execution_key) table.rows ≡ some row
    same_id : id ≡ row.run.id
    same_task : row.run.task_id ≡ request.task_id
    same_time : row.run.scheduled_for ≡ request.scheduled_for

  module _ (reads : ReadsKeys db) (task_key : ℕ) (canonical : request.task_id ≡ to_decimal task_key)
      (time_kept : time_or_null db request.scheduled_for ≡ request.scheduled_for)
      (keyed : empty request.execution_key ≡ false) where
    key_printed : (key : ℕ) → key_of db request.task_id ≡ ok key → to_decimal key ≡ request.task_id
    unfolding key_of
    key_printed key h =
        let known = subst (λ t. db.bigint t ≡ some task_key) (sym canonical) (reads task_key) in
        ap to_decimal (ground arith) ∙ sym canonical

    free_place :
        (rows : List RunRow) (row : RunRow)
        → row.run.node_code ≡ request.node_code
        → row.run.execution_key ≡ request.execution_key
        → any_row (same_execution_key row) rows ≡ false
        → run_of (find_row (same_node_key request.node_code request.execution_key) rows) ≡ none
    unfolding any_row same_execution_key find_row
    free_place [] row n k h = refl
    free_place (other ∷ rows) row n k h = let rest = free_place rows row n k in ground arith

    taken_place :
        (rows : List RunRow) (row found : RunRow)
        → row.run.node_code ≡ request.node_code
        → row.run.execution_key ≡ request.execution_key
        → find_row (same_node_key request.node_code request.execution_key) rows ≡ some found
        → any_row (same_execution_key row) rows ≡ true
    unfolding any_row same_execution_key find_row
    taken_place [] row found n k h = ground arith
    taken_place (other ∷ rows) row found n k h =
        let rest = taken_place rows row found n k in ground arith

    abbrev new_row : ℕ → RunTable → RunRow
    new_row key table = run_row db table.next_key key (start_record request)

    found_Placed : (table : RunTable) → Returns Placed (find_scheduled (start_record request) table)
    unfolding find_scheduled start_record
    found_Placed table =
        elim (Option-cases
          (find_row (same_node_key request.node_code request.execution_key) table.rows)) [
            | inl e ↦ rw (e, find_scheduled) threw
            | inr (row, e) ↦
                rw (e, find_scheduled)
                  (returned (record {
                    row = row;
                    found = e;
                    same_id = refl;
                    as_asked = (λ _. refl, λ c. cc);
                  }))
          ]

    create_or_find_scheduled-Placed :
        (table : RunTable)
        → Returns Placed (create_or_find_scheduled db (start_record request) table)
    unfolding create_or_find_scheduled start_record run_row added same_node_key
    create_or_find_scheduled-Placed table = read-Returns (key_of db request.task_id) (λ key k.
        let row = new_row key table in
        let taken = any_row (same_execution_key row) table.rows in
        test-Returns (has_task db key request.node_code && not taken)
          (λ t. returned (record {
            row = row;
            found =
                find_row-none (same_node_key request.node_code request.execution_key) table.rows row
                  (free_place table.rows row refl refl (ground arith))
                  (rw (text_eq_refl request.node_code, text_eq_refl request.execution_key) refl);
            same_id = refl;
            as_asked = (λ c. cc, λ _. (key_printed key k, time_kept));
          }))
          (λ _. found_Placed table))

    -- A start that was not refused found or made a run as asked.
    Placed-asked :
        (run_start : ScheduledTaskRunStart) (table : RunTable) (p : Placed run_start table)
        → (scheduled_reply request run_start).status ≡ success
        → (p.row.run.task_id ≡ request.task_id) × (p.row.run.scheduled_for ≡ request.scheduled_for)
    unfolding scheduled_reply
    Placed-asked run_start table p s = elim (Bool-cases (run_start.created)) [
      | inl c ↦ p.as_asked.1 c
      | inr c ↦ found_asked run_start p.row.run c (p.as_asked.0 c) s
    ]
      where
        found_asked :
            (run_start : ScheduledTaskRunStart) (run : TaskRunRecord)
            → run_start.created ≡ false
            → run ≡ run_start.task_run
            → (scheduled_reply request run_start).status ≡ success
            → (run.task_id ≡ request.task_id) × (run.scheduled_for ≡ request.scheduled_for)
        found_asked run_start run c e s =
            let (a, b) = reply_asked request run_start c s in
            (ap (λ r. r.task_id) e ∙ a, ap (λ r. r.scheduled_for) e ∙ b)

    taken_again :
        (key : ℕ) (later : RunTable) (row : RunRow)
        → find_row (same_node_key request.node_code request.execution_key) later.rows ≡ some row
        → any_row (same_execution_key (new_row key later)) later.rows ≡ true
    unfolding start_record run_row
    taken_again key later row found = taken_place later.rows (new_row key later) row refl refl found

    find_again :
        (later : RunTable) (row : RunRow)
        → find_row (same_node_key request.node_code request.execution_key) later.rows ≡ some row
        → find_scheduled (start_record request) later
          ≡ ok (record { task_run = row.run; created = false }, later)
    unfolding find_scheduled start_record
    find_again later row found = rw (found, find_scheduled) refl

    -- The second start finds the run of the first.
    second_start :
        (key : ℕ) (later : RunTable) (row : RunRow)
        → key_of db request.task_id ≡ ok key
        → find_row (same_node_key request.node_code request.execution_key) later.rows ≡ some row
        → create_or_find_scheduled db (start_record request) later
          ≡ ok (record { task_run = row.run; created = false }, later)
    unfolding create_or_find_scheduled start_record
    second_start key later row k found = rw k (
        rw (taken_again key later row found)
          (rw (and_false (has_task db key request.node_code)) (find_again later row found)))

    second_reply :
        (row : RunRow)
        → row.run.task_id ≡ request.task_id
        → row.run.scheduled_for ≡ request.scheduled_for
        → scheduled_reply request (record { task_run = row.run; created = false })
          ≡ started row.run.id true
    unfolding scheduled_reply
    second_reply row t f =
        rw (t, f, text_eq_refl request.task_id, text_eq_refl request.scheduled_for) refl

    Placed-reply :
        (run_start : ScheduledTaskRunStart) (table : RunTable)
        → Placed run_start table
        → (scheduled_reply request run_start).status ≡ success
        → Asked (scheduled_reply request run_start).id table
    Placed-reply run_start table p s =
        let (t, f) = Placed-asked run_start table p s in
        record {
          row = p.row;
          found = p.found;
          same_id = reply_id request run_start s ∙ p.same_id;
          same_task = t;
          same_time = f;
        }

    -- A start that succeeded left the run that it names in the table.
    start_run-Asked :
        (table : RunTable)
        → is_scheduled_start request ≡ true
        → Returns (λ r table'. r.status ≡ success → Asked r.id table') (start_run db request table)
    unfolding start_run
    start_run-Asked table scheduled =
        not-Returns (is_scheduled_start request) (λ e. cc (scheduled, e))
          (λ _.
            then-Returns (create_or_find_scheduled db (start_record request) table)
              (scheduled_reply request)
              (Returns-weaken (create_or_find_scheduled db (start_record request) table)
                Placed-reply (create_or_find_scheduled-Placed table)))

    start_run-again :
        (key : ℕ) (later : RunTable) (row : RunRow)
        → key_of db request.task_id ≡ ok key
        → is_scheduled_start request ≡ true
        → find_row (same_node_key request.node_code request.execution_key) later.rows ≡ some row
        → row.run.task_id ≡ request.task_id
        → row.run.scheduled_for ≡ request.scheduled_for
        → start_run db request later ≡ ok (started row.run.id true, later)
    unfolding start_run
    start_run-again key later row k scheduled found t f =
        rw scheduled (rw (second_start key later row k found) (rw (second_reply row t f) refl))

    key_known : key_of db request.task_id ≡ ok task_key
    unfolding key_of
    key_known =
        rw (subst (λ t. db.bigint t ≡ some task_key) (sym canonical) (reads task_key), key_of) refl

    start_again :
        (table table' later : RunTable) (r : TaskRunCreateResult)
        → is_scheduled_start request ≡ true
        → start_run db request table ≡ ok (r, table')
        → r.status ≡ success
        → Steps table' later
        → start_run db request later ≡ ok (started r.id true, later)
    start_again table table' later r scheduled h s steps =
        let asked = Returns-ok _ r table' (start_run-Asked table scheduled) h s in
        let (row, found, k) =
          Steps-keep_node_key table' later request.node_code request.execution_key asked.row steps
            asked.found in
        start_run-again task_key later row key_known scheduled found
          (sym (k.same_task) ∙ asked.same_task) (sym (k.same_scheduled) ∙ asked.same_time)
        ∙ ap (λ id. ok (started id true, later)) (sym (k.same_id) ∙ sym (asked.same_id))

-- PostgreSQL reads back a time in UTC that it was given to the second.
abbrev pub ReadsTimes : Database → Type 0
ReadsTimes db = (t : Text) → is_rfc3339_utc t ≡ true → db.utc_text t ≡ t

time_read :
    (db : Database) (t : Text) → ReadsTimes db → is_rfc3339_utc t ≡ true → time_or_null db t ≡ t
unfolding time_or_null
time_read db [] times h = refl
time_read db (c ∷ t) times h = times (c ∷ t) h

-- A scheduled start is idempotent: once it succeeded, the same request returns the run of the first
-- one, marked as a replay, and changes nothing, whatever calls came between. The tasks are as they
-- were, the id of the task is written as the server prints it, and PostgreSQL reads back the keys and
-- the times that it was given.
pub start_replays :
    (db : Database) (request : StartTaskRunRequest) (task_key : ℕ) (table table' later : RunTable)
    (r : TaskRunCreateResult)
    → ReadsKeys db
    → ReadsTimes db
    → request.task_id ≡ to_decimal task_key
    → is_operator_trigger request.trigger_type ≡ false
    → is_scheduled_start request ≡ true
    → start db request table ≡ ok (r, table')
    → r.status ≡ success
    → Steps table' later
    → start db request later ≡ ok (started r.id true, later)
start_replays db request task_key table table' later r reads times canonical trigger scheduled h s
      steps =
    elim (gate db request trigger) [
      | shut code message refused ↦ cc (refused table, h, s)
      | broken e fails ↦ cc (fails table, h)
      | passed none_refused same ↦
          let (keyed, utc) = refusal_none request scheduled none_refused in
          same later
          ∙ start_again db request reads task_key canonical
              (time_read db request.scheduled_for times utc) keyed table table' later r scheduled
              (sym (same table) ∙ h) s steps
    ]
