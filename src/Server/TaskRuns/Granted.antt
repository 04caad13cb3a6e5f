-- ===== src/Server/TaskRuns/Granted.antt =====
-- task_run_service.cpp: the run that a successful request of an operator names.
use lab_bridge.Prelude.{
  subst, ℕ, ◌≡◌, refl, sym, ap, ◌∙◌, ◌==◌, Bool, true, false, not, ◌&&◌, List, [], ◌∷◌, ◌++◌,
  Option, none, some, ok, err, ◌>>=◌, Text, text_eq_refl, to_decimal, empty, All, arith, Bool-cases,
  inl, inr, if◌then◌else◌,
}
use lab_bridge.Server.Models.{TaskRunRecord, TaskRecord}
use lab_bridge.Server.Status.{StatusCode, failure, is_positive_id}
use lab_bridge.Server.TaskRuns.Table.{
  RunRow, RunTable, Database, Stored, key_of, find_row, run_of, has_key, conflicts, any_row, added,
  invalid_bigint, manual_not_readable,
}
use lab_bridge.Server.TaskRuns.Repository.{
  ManualTaskRunStart, has_task, manual_row, create_or_find_manual, find_by_id,
  find_by_execution_key, has_execution_key, lock_task, find_pending_manual_by_task,
}
use lab_bridge.Server.TaskRuns.Requests.{
  Services, ManualTaskRunResult, RunMessage, is_operator_idempotency_key,
}
use lab_bridge.Server.TaskRuns.Start.{find_task}
use lab_bridge.Server.TaskRuns.Operator.{
  ManualRun, apply_manual_run, apply_new, apply_to_task, create_manual, manual_result,
  manual_request, operator_key, differs, other_pending,
}
use lab_bridge.Server.Returns.{
  Returns, threw, returned, Returns-ok, if-Returns, test-Returns, not-Returns, option-Returns,
  refusal-Returns, read-Returns, bind-Returns, status-Returns,
}
use lab_bridge.Server.TaskRuns.Invariant.{IsValid, IsRow}
use lab_bridge.Server.TaskRuns.OneNode.{TakesOne, OfNode, find_by_execution_key-first}

-- PostgreSQL reads back the keys that it prints.
abbrev pub ReadsKeys : Database → Type 0
ReadsKeys db = (n : ℕ) → db.bigint (to_decimal n) ≡ some n

-- The first run of the key is the one asked for, and its id is returned.
pub record Granted (manual : ManualRun) (execution_key : Text) (id : Text) (table : RunTable)
    : Type 0 where
  pub row : RunRow
  pub found : find_row (has_execution_key execution_key) table.rows ≡ some row
  pub as_asked : differs manual row.run ≡ false
  pub same_id : id ≡ row.run.id

-- A refusal is not a success.
pub data GrantedIf (manual : ManualRun) (execution_key : Text) (r : ManualTaskRunResult)
    (table : RunTable) : Type 0 where
  refused :
      {code : StatusCode} {message : RunMessage}
      → r.status ≡ failure code message
      → GrantedIf manual execution_key r table
  granted :
      Granted manual execution_key r.task_run_id table → GrantedIf manual execution_key r table

found_something : (row : RunRow) → ¬ (run_of (some row) ≡ none)
found_something row h = cc

data GrantedStart (manual : ManualRun) (execution_key : Text)
    : Option ManualTaskRunStart → RunTable → Type 0 where
  none_there : {table : RunTable} → GrantedStart manual execution_key none table
  start_there :
      {table : RunTable} (run_start : ManualTaskRunStart)
      → Granted manual execution_key run_start.task_run.id table
      → GrantedStart manual execution_key (some run_start) table

pub find_row-none :
    (test : RunRow → Bool) (rows : List RunRow) (last : RunRow)
    → run_of (find_row test rows) ≡ none
    → test last ≡ true
    → find_row test (rows ++ last ∷ []) ≡ some last
unfolding find_row
find_row-none test [] last h t = rw t refl
find_row-none test (row ∷ rows) last h t = elim (Bool-cases (test row)) [
  | inl e ↦
      elim (found_something row
        (subst (λ b. run_of (if b then some row else find_row test rows) ≡ none) e h)) [ ]
  | inr e ↦ rw e (
      find_row-none test rows last
        (subst (λ b. run_of (if b then some row else find_row test rows) ≡ none) e h) t)
]

fresh_key :
    (next_key : ℕ) (rows : List RunRow)
    → All (IsRow next_key) rows
    → run_of (find_row (has_key next_key) rows) ≡ none
unfolding find_row
fresh_key next_key [] h = refl
fresh_key next_key (row ∷ rows) (h, hs) =
    let rest = fresh_key next_key rows hs in let used = h.used in ground arith

row_of_run :
    (o : Option RunRow) (run : TaskRunRecord)
    → run_of o ≡ some run
    → (row : RunRow) × (o ≡ some row) × (row.run ≡ run)
row_of_run none run h = cc
row_of_run (some row) run h = (row, refl, cc)

key_same : (m n : ℕ) → m ≡ n → (m == n) ≡ true
key_same m n h = ground arith

found_run :
    (row : RunRow) (run : TaskRunRecord)
    → ◌≡◌ {A = Stored (Option TaskRunRecord)} (ok (run_of (some row))) (ok (some run))
    → run ≡ row.run
found_run row run h = cc

module _ (sv : Services) (reads : ReadsKeys sv.db) (table : RunTable) (valid : IsValid table)
    (manual : ManualRun) (task_key : ℕ) (canonical : manual.task_id ≡ to_decimal task_key)
    (execution_key : Text) (takes : TakesOne sv.db) (named : empty execution_key ≡ false)
    (node_code : Text) (of_node : OfNode execution_key node_code table.rows) where
  abbrev new_row : TaskRecord → ℕ → RunRow
  new_row task key =
      manual_row sv.db sv.files table.next_key key (manual_request manual execution_key task)

  read_new :
      (row : RunRow) (run : TaskRunRecord)
      → row.key ≡ table.next_key
      → find_by_id sv.db (to_decimal table.next_key) (added row table) ≡ ok (some run)
      → run ≡ row.run
  unfolding find_by_id key_of added
  read_new row run k h =
      let found =
        find_row-none (has_key table.next_key) table.rows row
          (fresh_key table.next_key table.rows valid.rows_valid)
          (key_same row.key table.next_key k) in
      let known = reads table.next_key in
      found_run row run (
        subst (λ o. ◌≡◌ {A = Stored (Option TaskRunRecord)} (ok (run_of o)) (ok (some run))) found
          (subst
            (λ o.
              (elim o [ none ↦ err invalid_bigint | some key ↦ ok key ] >>= λ key.
              ok (run_of (find_row (has_key key) (table.rows ++ row ∷ []))))
              ≡ ok (some run))
            known h))

  key_of_canonical :
      (key : ℕ) → key_of sv.db manual.task_id ≡ ok key → to_decimal key ≡ manual.task_id
  unfolding key_of
  key_of_canonical key h =
      let known = subst (λ t. sv.db.bigint t ≡ some task_key) (sym canonical) (reads task_key) in
      ap to_decimal (ground arith) ∙ sym canonical

  new_as_asked :
      (task : TaskRecord) (key : ℕ)
      → key_of sv.db manual.task_id ≡ ok key
      → differs manual (new_row task key).run ≡ false
  unfolding differs manual_row
  new_as_asked task key h =
      rw
        (
          key_of_canonical key h,
          text_eq_refl manual.task_id,
          text_eq_refl manual.trigger_type,
          text_eq_refl manual.retry_of_run_id,
        )
        refl

  -- The run that is created is the first of its key.
  created_Granted :
      (task : TaskRecord) (key : ℕ) (run : TaskRunRecord)
      → key_of sv.db manual.task_id ≡ ok key
      → find_by_execution_key sv.db execution_key table ≡ none
      → find_by_id sv.db (to_decimal table.next_key) (added (new_row task key) table)
        ≡ ok (some run)
      → Granted manual execution_key run.id (added (new_row task key) table)
  unfolding added manual_row
  created_Granted task key run k free found =
      let first =
        sym (
          find_by_execution_key-first execution_key node_code named sv.db table takes
            valid.rows_apart of_node)
        ∙ free in
      record {
        row = new_row task key;
        found =
            find_row-none (has_execution_key execution_key) table.rows (new_row task key) first
              (text_eq_refl execution_key);
        as_asked = new_as_asked task key k;
        same_id = ap (λ r. r.id) (read_new (new_row task key) run refl found);
      }

  created_start :
      (task : TaskRecord)
      → find_by_execution_key sv.db execution_key table ≡ none
      → Returns
          (GrantedStart manual execution_key)
          (create_or_find_manual sv.db sv.files (manual_request manual execution_key task) table)
  unfolding create_or_find_manual
  created_start task free = read-Returns (key_of sv.db manual.task_id) (λ key k.
      test-Returns
        (has_task sv.db key task.node_code
          && not (any_row (conflicts (new_row task key)) table.rows))
        (λ _.
          read-Returns
            (find_by_id sv.db (to_decimal table.next_key) (added (new_row task key) table))
            (λ found e. new_start task key k free found e))
        (λ _. rw free (returned none_there)))
    where
      new_start :
          (task : TaskRecord) (key : ℕ)
          → key_of sv.db manual.task_id ≡ ok key
          → find_by_execution_key sv.db execution_key table ≡ none
          → (found : Option TaskRunRecord)
          → find_by_id sv.db (to_decimal table.next_key) (added (new_row task key) table) ≡ ok found
          → Returns (GrantedStart manual execution_key) (elim found [
            | none ↦ err manual_not_readable
            | some run ↦
                ok
                  (some (record { task_run = run; created = true }), added (new_row task key) table)
          ])
      new_start task key k free none e = threw
      new_start task key k free (some run) e = returned (
          start_there (record { task_run = run; created = true })
            (created_Granted task key run k free e))

  manual_result-GrantedIf :
      (found : Option ManualTaskRunStart) (table' : RunTable)
      → GrantedStart manual execution_key found table'
      → Returns
          (GrantedIf manual execution_key)
          (manual_result sv.db manual.task_id (found, table'))
  unfolding manual_result
  manual_result-GrantedIf none table' g =
      read-Returns (find_pending_manual_by_task sv.db manual.task_id table')
        (λ raced _. refusal-Returns raced (λ run _. returned (refused refl)) (λ _. threw))
  manual_result-GrantedIf (some run_start) table' (start_there _ g) = returned (granted g)

  create_manual-GrantedIf :
      (task : TaskRecord)
      → find_by_execution_key sv.db execution_key table ≡ none
      → Returns
          (GrantedIf manual execution_key)
          (create_manual sv.db sv.files manual execution_key task table)
  unfolding create_manual
  create_manual-GrantedIf task free =
      bind-Returns _ (manual_result sv.db manual.task_id) (λ found table' e.
        manual_result-GrantedIf found table'
          (Returns-ok _ found table' (created_start task free) e))

  apply_new-GrantedIf :
      find_by_execution_key sv.db execution_key table ≡ none
      → Returns (GrantedIf manual execution_key) (apply_new sv manual execution_key table)
  unfolding apply_new apply_to_task
  apply_new-GrantedIf free =
      if-Returns (not (is_positive_id manual.task_id)) (returned (refused refl)) (
        read-Returns (lock_task sv.db manual.task_id) (λ known _.
          if-Returns (not known) (returned (refused refl)) (
            read-Returns (find_task sv.db manual.task_id) (λ found _.
              option-Returns found (returned (refused refl)) (λ task.
                if-Returns (not task.enabled) (returned (refused refl)) (
                  status-Returns (sv.executable task) (λ code message. returned (refused refl))
                    (read-Returns (find_pending_manual_by_task sv.db manual.task_id table)
                      (λ pending _.
                        refusal-Returns (other_pending execution_key pending)
                          (λ run _. returned (refused refl))
                          (λ _. create_manual-GrantedIf task free)))))))))

module _ (sv : Services) (reads : ReadsKeys sv.db) (table : RunTable) (valid : IsValid table)
    (manual : ManualRun) (task_key : ℕ) (canonical : manual.task_id ≡ to_decimal task_key)
    (idempotency_key : Text) (takes : TakesOne sv.db) (node_code : Text)
    (of_node : OfNode (operator_key idempotency_key) node_code table.rows) where
  -- What the query by the key finds is the first run of the key.
  first_of_key :
      (found : Option TaskRunRecord)
      → find_by_execution_key sv.db (operator_key idempotency_key) table ≡ found
      → run_of (find_row (has_execution_key (operator_key idempotency_key)) table.rows) ≡ found
  first_of_key found e =
      sym (
        find_by_execution_key-first (operator_key idempotency_key) node_code refl sv.db table takes
          valid.rows_apart of_node)
      ∙ e

  existing_GrantedIf :
      (run : TaskRunRecord)
      → find_by_execution_key sv.db (operator_key idempotency_key) table ≡ some run
      → differs manual run ≡ false
      → Granted manual (operator_key idempotency_key) run.id table
  existing_GrantedIf run e d =
      let (row, found, same) = row_of_run _ run (first_of_key (some run) e) in
      record {
        row = row;
        found = found;
        as_asked = subst (λ r. differs manual r ≡ false) (sym same) d;
        same_id = ap (λ r. r.id) (sym same);
      }

  pub apply_manual_run-GrantedIf :
      Returns
        (GrantedIf manual (operator_key idempotency_key))
        (apply_manual_run sv manual idempotency_key table)
  unfolding apply_manual_run
  apply_manual_run-GrantedIf =
      not-Returns (is_operator_idempotency_key idempotency_key) (λ _. returned (refused refl))
        (λ _.
          refusal-Returns (find_by_execution_key sv.db (operator_key idempotency_key) table)
            (λ run e.
              test-Returns (differs manual run) (λ _. returned (refused refl))
                (λ d. returned (granted (existing_GrantedIf run e d))))
            (apply_new-GrantedIf sv reads table valid manual task_key canonical
              (operator_key idempotency_key) takes refl node_code of_node))
