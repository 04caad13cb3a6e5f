-- ===== src/Server/TaskRuns/Invariant.antt =====
-- task_run_service.cpp and task_run_repository.cpp: what holds of the table after any calls.
use lab_bridge.Prelude.{
  subst, ℕ, ◌+◌, ◌<◌, ◌≡◌, sym, ap, ◌∙◌, Bool, true, false, List, [], ◌∷◌, ◌++◌, to_decimal, All,
  arith, Bool-cases, inl, inr, if◌then◌else◌,
}
use lab_bridge.Server.TaskRuns.Table.{
  RunRow, RunTable, update_rows, conflicts, same_node_key, same_execution_key, same_pending_task,
  is_pending_manual, any_row, added,
}
use lab_bridge.Server.TaskRuns.Effects.{
  Keeps, Keeps-refl, IsNew, Effect, unchanged, inserted, updated,
}
use lab_bridge.Server.TaskRuns.Steps.{Steps, done, then_step, Step-effect}

-- A row under its key, with the ids that it reads as.
pub record IsRow (next_key : ℕ) (row : RunRow) : Type 0 where
  pub used : row.key < next_key
  pub printed : row.run.id ≡ to_decimal row.key
  pub printed_task : row.run.task_id ≡ to_decimal row.task_key

-- A later row has a greater key, and the unique indexes admit it beside the earlier one.
abbrev pub IsApart : RunRow → RunRow → Type 0
IsApart earlier later = (earlier.key < later.key) × (conflicts later earlier ≡ false)

abbrev pub Apart : List RunRow → Type 0
Apart [] = Unit
Apart (row ∷ rows) = All (IsApart row) rows × Apart rows

pub record IsValid (table : RunTable) : Type 0 where
  pub rows_valid : All (IsRow table.next_key) table.rows
  pub rows_apart : Apart table.rows

All-update :
    (P : RunRow → Type 0) (test : RunRow → Bool) (change : RunRow → RunRow) (rows : List RunRow)
    → ((row : RunRow) → P row → P (if test row then change row else row))
    → All P rows
    → All P (update_rows test change rows)
unfolding update_rows
All-update P test change [] keep h = tt
All-update P test change (row ∷ rows) keep (h, hs) =
    (keep row h, All-update P test change rows keep hs)

All-last :
    (P : RunRow → Type 0) (rows : List RunRow) (row : RunRow)
    → All P rows
    → P row
    → All P (rows ++ row ∷ [])
All-last P [] row h p = (p, tt)
All-last P (other ∷ rows) row (h, hs) p = (h, All-last P rows row hs p)

All-weaken :
    (P Q : RunRow → Type 0) (rows : List RunRow)
    → ((row : RunRow) → P row → Q row)
    → All P rows
    → All Q rows
All-weaken P Q [] f h = tt
All-weaken P Q (row ∷ rows) f (h, hs) = (f row h, All-weaken P Q rows f hs)

-- Rows that are kept conflict only if they did.
conflicts-Keeps :
    (r r' s s' : RunRow) → Keeps r r' → Keeps s s' → conflicts s r ≡ false → conflicts s' r' ≡ false
unfolding conflicts same_execution_key same_node_key same_pending_task is_pending_manual
conflicts-Keeps r r' s s' p q h = ground (arith, p.still_pending, q.still_pending)

-- The row after an update, whether it was changed or not.
pub changed-Keeps :
    (test : RunRow → Bool) (change : RunRow → RunRow)
    → ((row : RunRow) → test row ≡ true → Keeps row (change row))
    → (row : RunRow) → Keeps row (if test row then change row else row)
changed-Keeps test change keep row = elim (Bool-cases (test row)) [
  | inl e ↦ rw e (keep row e)
  | inr e ↦ rw e (Keeps-refl row)
]

Apart-update :
    (test : RunRow → Bool) (change : RunRow → RunRow) (rows : List RunRow)
    → ((row : RunRow) → Keeps row (if test row then change row else row))
    → Apart rows
    → Apart (update_rows test change rows)
unfolding update_rows
Apart-update test change [] keep h = tt
Apart-update test change (row ∷ rows) keep (h, hs) =
    (IsApart-update rows h, Apart-update test change rows keep hs)
  where
    IsApart-update :
        (others : List RunRow)
        → All (IsApart row) others
        → All (IsApart (if test row then change row else row)) (update_rows test change others)
    IsApart-update [] h = tt
    IsApart-update (other ∷ others) ((lt, free), hs) =
        let p = keep row in
        let q = keep other in
        (
          (
            subst (λ n. (if test row then change row else row).key < n) (q.same_key)
                (subst (λ n. n < other.key) (p.same_key) lt),
            conflicts-Keeps row (if test row then change row else row) other
                (if test other then change other else other) p q free,
          ),
          IsApart-update others hs,
        )

Apart-last :
    (rows : List RunRow) (row : RunRow)
    → Apart rows
    → All (λ other. IsApart other row) rows
    → Apart (rows ++ row ∷ [])
Apart-last [] row h p = (tt, tt)
Apart-last (other ∷ rows) row (h, hs) (p, ps) =
    (All-last (IsApart other) rows row h p, Apart-last rows row hs ps)

-- A row with a free place in the indexes and a new key is apart from the others.
admitted-IsApart :
    (next_key : ℕ) (rows : List RunRow) (row : RunRow)
    → row.key ≡ next_key
    → All (IsRow next_key) rows
    → any_row (conflicts row) rows ≡ false
    → All (λ other. IsApart other row) rows
unfolding any_row
admitted-IsApart next_key [] row k h e = tt
admitted-IsApart next_key (other ∷ rows) row k (h, hs) e = (
  (omega (arith, h.used, k), ground arith),
  admitted-IsApart next_key rows row k hs (ground arith),
)

IsRow-Keeps :
    (next_key : ℕ) (row row' : RunRow) → Keeps row row' → IsRow next_key row → IsRow next_key row'
IsRow-Keeps next_key row row' k h = record {
  used = subst (λ n. n < next_key) (k.same_key) (h.used);
  printed = sym (k.same_id) ∙ h.printed ∙ ap to_decimal (k.same_key);
  printed_task = sym (k.same_task) ∙ h.printed_task ∙ ap to_decimal (k.same_task_key);
}

IsRow-later : (next_key : ℕ) (row : RunRow) → IsRow next_key row → IsRow (next_key + 1) row
IsRow-later next_key row h = record {
  used = omega (arith, h.used);
  printed = h.printed;
  printed_task = h.printed_task;
}

IsRow-new : (table : RunTable) (row : RunRow) → IsNew table row → IsRow (table.next_key + 1) row
IsRow-new table row new = record {
  used = omega (arith, new.next);
  printed = new.printed;
  printed_task = new.printed_task;
}

pub Effect-IsValid :
    (table table' : RunTable) → Effect table table' → IsValid table → IsValid table'
unfolding added
Effect-IsValid table table' (unchanged e) v = subst IsValid (sym e) v
Effect-IsValid table table' (inserted row new e) v = subst IsValid (sym e) (record {
  rows_valid =
      All-last (IsRow (table.next_key + 1)) table.rows row
        (All-weaken (IsRow table.next_key) (IsRow (table.next_key + 1)) table.rows
          (IsRow-later table.next_key) v.rows_valid)
        (IsRow-new table row new);
  rows_apart =
      Apart-last table.rows row v.rows_apart
        (admitted-IsApart table.next_key table.rows row new.next v.rows_valid new.admitted);
})
Effect-IsValid table table' (updated test change keep e) v = subst IsValid (sym e) (record {
  rows_valid =
      All-update (IsRow table.next_key) test change table.rows
        (λ row h. IsRow-Keeps table.next_key row _ (changed-Keeps test change keep row) h)
        v.rows_valid;
  rows_apart = Apart-update test change table.rows (changed-Keeps test change keep) v.rows_apart;
})

pub Steps-keep_IsValid :
    (table table' : RunTable) → Steps table table' → IsValid table → IsValid table'
Steps-keep_IsValid table table' done v = v
Steps-keep_IsValid table table' (then_step {first} {middle} {last} before step) v =
    Effect-IsValid middle table' (Step-effect middle table' step)
      (Steps-keep_IsValid table middle before v)

abbrev pub empty_table : RunTable
empty_table = record { rows = []; next_key = 1 }

-- In a table that calls built from the empty one the rows stand in the order of their keys, which
-- were drawn, and read as their own id and task; no two runs of a node have the same execution key;
-- and no two pending runs that an operator asked for belong to the same task.
pub Steps-IsValid : (table : RunTable) → Steps empty_table table → IsValid table
Steps-IsValid table steps =
    Steps-keep_IsValid empty_table table steps (record { rows_valid = tt; rows_apart = tt })
