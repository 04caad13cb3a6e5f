-- ===== src/Server/TaskRuns/OneNode.antt =====
-- task_run_repository.cpp, `find_by_execution_key`: a key that the runs of one node have.
use lab_bridge.Prelude.{
  ◌≡◌, refl, sym, ap, ◌∙◌, Bool, true, false, List, [], ◌∷◌, ◌++◌, Option, none, some, Text, empty,
  text_eq, text_eq_sound, text_eq_refl, All, Bool-cases, ◌⊎◌, inl, inr, if◌then◌else◌, subst,
}
use lab_bridge.Server.TaskRuns.Table.{
  RunRow, RunTable, Database, find_row, run_of, matching, conflicts, same_execution_key,
  same_node_key, added, update_rows,
}
use lab_bridge.Server.TaskRuns.Repository.{has_execution_key, find_by_execution_key}
use lab_bridge.Server.TaskRuns.Effects.{Keeps, Effect, unchanged, inserted, updated}
use lab_bridge.Server.TaskRuns.Steps.{Steps, done, then_step, Step-effect}
use lab_bridge.Server.TaskRuns.Invariant.{Apart, IsApart, changed-Keeps}

abbrev pub Among : RunRow → List RunRow → Type 0
Among one [] = ⊥
Among one (row ∷ rows) = (one ≡ row) ⊎ Among one rows

-- A row that LIMIT 1 may take.
abbrev pub IsTaken : List RunRow → Option RunRow → Type 0
IsTaken [] taken = taken ≡ none
IsTaken (row ∷ rows) taken = (one : RunRow) × (taken ≡ some one) × Among one (row ∷ rows)

-- LIMIT 1 takes a row of those that match, whichever, and nothing only where none does.
abbrev pub TakesOne : Database → Type 0
TakesOne db = (rows : List RunRow) → IsTaken rows (db.limit_one rows)

-- The runs under the key belong to the node.
abbrev pub OfNode : Text → Text → List RunRow → Type 0
OfNode execution_key node_code =
    All (λ row. has_execution_key execution_key row ≡ true → row.run.node_code ≡ node_code)

module _ (execution_key node_code : Text) (named : empty execution_key ≡ false) where
  clash :
      (row other : RunRow)
      → has_execution_key execution_key row ≡ true
      → has_execution_key execution_key other ≡ true
      → row.run.node_code ≡ node_code
      → other.run.node_code ≡ node_code
      → conflicts other row ≡ true
  unfolding conflicts same_execution_key same_node_key
  clash row other h k p q =
      let a = text_eq_sound row.run.execution_key execution_key h in
      let b = text_eq_sound other.run.execution_key execution_key k in
      rw (a, b, p, q, named, text_eq_refl execution_key, text_eq_refl node_code) refl

  -- No later row has the key.
  none_matching :
      (row : RunRow) (rows : List RunRow)
      → has_execution_key execution_key row ≡ true
      → row.run.node_code ≡ node_code
      → All (IsApart row) rows
      → OfNode execution_key node_code rows
      → matching (has_execution_key execution_key) rows ≡ []
  unfolding matching
  none_matching row [] h p apart of_node = refl
  none_matching row (other ∷ rows) h p (apart, aparts) (of_node, of_nodes) =
      elim (Bool-cases (has_execution_key execution_key other)) [
        | inl k ↦ let c = clash row other h k p (of_node k) in let d = apart.1 in absurd (cc)
        | inr k ↦ rw (k, matching) (none_matching row rows h p aparts of_nodes)
      ]

  -- At most one row has the key.
  one_matching :
      (rows : List RunRow)
      → Apart rows
      → OfNode execution_key node_code rows
      → ((matching (has_execution_key execution_key) rows ≡ [])
          × (find_row (has_execution_key execution_key) rows ≡ none))
        ⊎ ((row : RunRow) × (matching (has_execution_key execution_key) rows ≡ row ∷ [])
            × (find_row (has_execution_key execution_key) rows ≡ some row))
  unfolding matching find_row
  one_matching [] apart of_node = inl (refl, refl)
  one_matching (row ∷ rows) (apart, aparts) (of_node, of_nodes) =
      elim (Bool-cases (has_execution_key execution_key row)) [
        | inl k ↦
            let rest = none_matching row rows k (of_node k) apart of_nodes in
            inr (row, rw k (ap (λ t. row ∷ t) rest), rw k refl)
        | inr k ↦ rw k (one_matching rows aparts of_nodes)
      ]

  taken_only : (row : RunRow) (taken : Option RunRow) → IsTaken (row ∷ []) taken → taken ≡ some row
  taken_only row taken (one, e, inl same) = e ∙ ap some same
  taken_only row taken (one, e, inr m) = absurd m

  -- Whichever row LIMIT 1 takes, it is the only one.
  pub find_by_execution_key-first :
      (db : Database) (table : RunTable)
      → TakesOne db
      → Apart table.rows
      → OfNode execution_key node_code table.rows
      → find_by_execution_key db execution_key table
        ≡ run_of (find_row (has_execution_key execution_key) table.rows)
  unfolding find_by_execution_key
  find_by_execution_key-first db table takes apart of_node =
      elim (one_matching table.rows apart of_node) [
        | inl (m, f) ↦ rw (m, f) (ap run_of (takes []))
        | inr (row, m, f) ↦ rw (m, f) (ap run_of (taken_only row _ (takes (row ∷ []))))
      ]

-- The runs of a table are those of its later one, and perhaps fewer.
module _ (P : RunRow → Type 0)
    (stable : (row row' : RunRow) → Keeps row row' → P row' → P row) where
  All-init : (rows : List RunRow) (last : RunRow) → All P (rows ++ last ∷ []) → All P rows
  All-init [] last h = tt
  All-init (row ∷ rows) last (h, hs) = (h, All-init rows last hs)

  All-before_update :
      (test : RunRow → Bool) (change : RunRow → RunRow) (rows : List RunRow)
      → ((row : RunRow) → Keeps row (if test row then change row else row))
      → All P (update_rows test change rows)
      → All P rows
  unfolding update_rows
  All-before_update test change [] keep h = tt
  All-before_update test change (row ∷ rows) keep (h, hs) =
      (stable row _ (keep row) h, All-before_update test change rows keep hs)

  pub Effect-All_before :
      (table table' : RunTable) → Effect table table' → All P table'.rows → All P table.rows
  unfolding added
  Effect-All_before table table' (unchanged e) h = subst (λ t. All P t.rows) e h
  Effect-All_before table table' (inserted row _ e) h =
      All-init table.rows row (subst (λ t. All P t.rows) e h)
  Effect-All_before table table' (updated test change keep e) h =
      All-before_update test change table.rows (changed-Keeps test change keep)
        (subst (λ t. All P t.rows) e h)

  pub Steps-All_before :
      (table table' : RunTable) → Steps table table' → All P table'.rows → All P table.rows
  Steps-All_before table table' done h = h
  Steps-All_before table table' (then_step {first} {middle} {last} before step) h =
      Steps-All_before table middle before
        (Effect-All_before middle table' (Step-effect middle table' step) h)

module _ (execution_key node_code : Text) where
  OfNode-stable :
      (row row' : RunRow)
      → Keeps row row'
      → (has_execution_key execution_key row' ≡ true → row'.run.node_code ≡ node_code)
      → has_execution_key execution_key row ≡ true
      → row.run.node_code ≡ node_code
  OfNode-stable row row' k h e =
      k.same_node ∙ h (sym (ap (λ t. text_eq t execution_key) k.same_execution) ∙ e)

  pub OfNode-before :
      (table table' : RunTable)
      → Steps table table'
      → OfNode execution_key node_code table'.rows
      → OfNode execution_key node_code table.rows
  OfNode-before = Steps-All_before _ OfNode-stable

  pub OfNode-before_effect :
      (table table' : RunTable)
      → Effect table table'
      → OfNode execution_key node_code table'.rows
      → OfNode execution_key node_code table.rows
  OfNode-before_effect = Effect-All_before _ OfNode-stable
