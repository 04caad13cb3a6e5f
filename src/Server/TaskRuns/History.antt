-- ===== src/Server/TaskRuns/History.antt =====
-- task_run_service.cpp: what a run keeps through any calls.
use lab_bridge.Prelude.{
  subst, ℕ, ◌≡◌, refl, sym, ap, ◌∙◌, ◌==◌, Bool, List, [], ◌∷◌, ◌++◌, some, Text, text_eq, arith,
  Bool-cases, inl, inr, if◌then◌else◌,
}
use lab_bridge.Server.TaskRuns.Table.{
  RunRow, RunTable, update_rows, added, find_row, has_key, same_node_key,
}
use lab_bridge.Server.TaskRuns.Repository.{has_execution_key}
use lab_bridge.Server.TaskRuns.Effects.{
  Keeps, Keeps-refl, Keeps-trans, Effect, unchanged, inserted, updated,
}
use lab_bridge.Server.TaskRuns.Steps.{Steps, done, then_step, Step-effect}
use lab_bridge.Server.TaskRuns.Invariant.{changed-Keeps}

some_row : (r s : RunRow) → some r ≡ some s → r ≡ s
some_row r s e = cc

find_row-append :
    (test : RunRow → Bool) (rows : List RunRow) (last row : RunRow)
    → find_row test rows ≡ some row
    → find_row test (rows ++ last ∷ []) ≡ some row
unfolding find_row
find_row-append test [] last row e = ground arith
find_row-append test (first ∷ rows) last row e =
    let rest = find_row-append test rows last row in ground arith

-- A query by what an update keeps.
module _ (query : RunRow → Bool) (stable : (r r' : RunRow) → Keeps r r' → query r ≡ query r') where
  abbrev Kept : RunRow → RunTable → Type 0
  Kept row table = (row' : RunRow) × (find_row query table.rows ≡ some row') × Keeps row row'

  -- The row that is found is the change of the row that was found.
  find_row-update :
      (test : RunRow → Bool) (change : RunRow → RunRow) (rows : List RunRow) (row : RunRow)
      → ((row : RunRow) → Keeps row (if test row then change row else row))
      → find_row query rows ≡ some row
      → find_row query (update_rows test change rows) ≡ some (if test row then change row else row)
  unfolding find_row update_rows
  find_row-update test change [] row keep e = ground arith
  find_row-update test change (first ∷ rows) row keep e =
      let s = stable first (if test first then change first else first) (keep first) in
      let rest = find_row-update test change rows row keep in
      elim (Bool-cases (query first)) [
        | inl h ↦
            let same =
              some_row first row
                (subst (λ b. (if b then some first else find_row query rows) ≡ some row) h e) in
            rw (sym s ∙ h) (ap (λ r. some (if test r then change r else r)) same)
        | inr h ↦
            rw (sym s ∙ h)
              (rest (subst (λ b. (if b then some first else find_row query rows) ≡ some row) h e))
      ]

  Effect-keeps :
      (table table' : RunTable) (row : RunRow)
      → Effect table table'
      → find_row query table.rows ≡ some row
      → Kept row table'
  unfolding added
  Effect-keeps table table' row (unchanged e) f = subst (Kept row) (sym e) (row, f, Keeps-refl row)
  Effect-keeps table table' row (inserted last _ e) f =
      subst (Kept row) (sym e) (row, find_row-append query table.rows last row f, Keeps-refl row)
  Effect-keeps table table' row (updated test change keep e) f =
      let all_keep = changed-Keeps test change keep in
      subst (Kept row) (sym e)
        (_, find_row-update test change table.rows row all_keep f, all_keep row)

  pub Steps-keep_found :
      (table table' : RunTable) (row : RunRow)
      → Steps table table'
      → find_row query table.rows ≡ some row
      → (row' : RunRow) × (find_row query table'.rows ≡ some row') × Keeps row row'
  Steps-keep_found table table' row done e = (row, e, Keeps-refl row)
  Steps-keep_found table table' row (then_step {first} {middle} {last} before step) e =
      let (b, f, p) = Steps-keep_found table middle row before e in
      let (c, g, q) = Effect-keeps middle table' b (Step-effect middle table' step) f in
      (c, g, Keeps-trans row b c p q)

-- Through any calls a run stays under its key, with its node, task, trigger, execution key, parent and
-- fixed inputs, and once it is not pending it is never pending again.
pub Steps-Keeps_run :
    (table table' : RunTable) (key : ℕ) (row : RunRow)
    → Steps table table'
    → find_row (has_key key) table.rows ≡ some row
    → (row' : RunRow) × (find_row (has_key key) table'.rows ≡ some row') × Keeps row row'
Steps-Keeps_run table table' key row =
    Steps-keep_found (has_key key) (λ r r' k. ap (λ n. n == key) (k.same_key)) table table' row

-- The first run of an execution key stays the first.
pub Steps-keep_key :
    (table table' : RunTable) (execution_key : Text) (row : RunRow)
    → Steps table table'
    → find_row (has_execution_key execution_key) table.rows ≡ some row
    → (row' : RunRow) × (find_row (has_execution_key execution_key) table'.rows ≡ some row')
      × Keeps row row'
Steps-keep_key table table' execution_key row =
    Steps-keep_found (has_execution_key execution_key)
      (λ r r' k. ap (λ e. text_eq e execution_key) (k.same_execution)) table table' row

same_node_key-Keeps :
    (node_code execution_key : Text) (r r' : RunRow)
    → Keeps r r'
    → same_node_key node_code execution_key r ≡ same_node_key node_code execution_key r'
unfolding same_node_key
same_node_key-Keeps node_code execution_key r r' k = rw (k.same_node, k.same_execution) refl

-- The first run of a node and an execution key stays the first.
pub Steps-keep_node_key :
    (table table' : RunTable) (node_code execution_key : Text) (row : RunRow)
    → Steps table table'
    → find_row (same_node_key node_code execution_key) table.rows ≡ some row
    → (row' : RunRow) × (find_row (same_node_key node_code execution_key) table'.rows ≡ some row')
      × Keeps row row'
Steps-keep_node_key table table' node_code execution_key row =
    Steps-keep_found (same_node_key node_code execution_key)
      (λ r r' k. same_node_key-Keeps node_code execution_key r r' k) table table' row
