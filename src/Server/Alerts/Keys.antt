-- ===== src/Server/Alerts/Keys.antt =====
-- alert_repository.cpp: the keys of the rows of the table.
use lab_bridge.Prelude.{
  All, subst, ℕ, ◌+◌, ◌<◌, ◌≡◌, sym, List, [], ◌∷◌, ◌++◌, some, Text, ◌==◌, decimal_value,
  Bool-cases, inl, inr, arith,
}
use lab_bridge.Server.Alerts.{
  AlertRecord, AlertRow, AlertTable, find_row, update_rows, inserted, insert,
}
use lab_bridge.Server.Alerts.Rows.{updated}
use lab_bridge.Server.Alerts.Disposition.{change_of}
use lab_bridge.Server.Alerts.Lifecycle.{
  looked_up, create_from_lookup-split, Step, created, disposed, Steps, done, then_step, new_alert,
  create_alert-split, dispose_alert-split,
}

-- The keys of the rows grow, and were drawn.
abbrev pub OwnKeys : List AlertRow → Type 0
OwnKeys [] = Unit
OwnKeys (row ∷ rows) = All (λ later. row.key < later.key) rows × OwnKeys rows

abbrev KeysBelow : ℕ → List AlertRow → Type 0
KeysBelow next_key = All (λ row. row.key < next_key)

pub record HasKeys (table : AlertTable) : Type 0 where
  pub own : OwnKeys table.rows
  pub below : KeysBelow table.next_key table.rows

All-last_row :
    (P : AlertRow → Type 0) (rows : List AlertRow) (row : AlertRow)
    → All P rows
    → P row
    → All P (rows ++ row ∷ [])
All-last_row P [] row h p = (p, tt)
All-last_row P (other ∷ rows) row (h, hs) p = (h, All-last_row P rows row hs p)

OwnKeys-last :
    (rows : List AlertRow) (row : AlertRow)
    → OwnKeys rows
    → KeysBelow row.key rows
    → OwnKeys (rows ++ row ∷ [])
OwnKeys-last [] row own below = (tt, tt)
OwnKeys-last (first ∷ rows) row (o, own) (b, below) =
    (All-last_row (λ later. first.key < later.key) rows row o b, OwnKeys-last rows row own below)

KeysBelow-suc : (n : ℕ) (rows : List AlertRow) → KeysBelow n rows → KeysBelow (n + 1) rows
KeysBelow-suc n [] h = tt
KeysBelow-suc n (row ∷ rows) (b, h) = (omega arith, KeysBelow-suc n rows h)

insert-HasKeys :
    (alert : AlertRecord) (table : AlertTable) → HasKeys table → HasKeys (insert alert table)
unfolding insert
insert-HasKeys alert table h =
    let row : AlertRow = record { key = table.next_key; alert = inserted table.next_key alert } in
    record {
      own = OwnKeys-last table.rows row h.own h.below;
      below =
          All-last_row (λ row. row.key < table.next_key + 1) table.rows row
            (KeysBelow-suc table.next_key table.rows h.below) (omega arith);
    }

All-update_keys :
    (P : ℕ → Type 0) (change : AlertRecord → AlertRecord) (key : ℕ) (rows : List AlertRow)
    → All (λ row. P row.key) rows
    → All (λ row. P row.key) (update_rows change key rows)
unfolding update_rows
All-update_keys P change key [] h = tt
All-update_keys P change key (row ∷ rows) (p, h) = (
  elim (Bool-cases (row.key == key)) [ inl e ↦ rw e p | inr e ↦ rw e p ],
  All-update_keys P change key rows h,
)

OwnKeys-update :
    (change : AlertRecord → AlertRecord) (key : ℕ) (rows : List AlertRow)
    → OwnKeys rows
    → OwnKeys (update_rows change key rows)
unfolding update_rows
OwnKeys-update change key [] h = tt
OwnKeys-update change key (row ∷ rows) (o, own) =
    let rest = OwnKeys-update change key rows own in
    let before = All-update_keys (λ k. row.key < k) change key rows o in
    elim (Bool-cases (row.key == key)) [ inl e ↦ rw e (before, rest) | inr e ↦ rw e (before, rest) ]

update-HasKeys :
    (change : AlertRecord → AlertRecord) (alert_id : Text) (table : AlertTable)
    → HasKeys table
    → HasKeys (updated change alert_id table)
update-HasKeys change alert_id table h = record {
  own = OwnKeys-update change (decimal_value 0 alert_id) table.rows h.own;
  below =
      All-update_keys (λ k. k < table.next_key) change (decimal_value 0 alert_id) table.rows
        h.below;
}

Step-HasKeys : (table table' : AlertTable) → Step table table' → HasKeys table → HasKeys table'
Step-HasKeys table table' (created belongs result task_run_id node_code r h) keys =
    elim (create_alert-split belongs result task_run_id node_code table table' r h) [
      | inl same ↦ subst HasKeys (sym same) keys
      | inr (_, added) ↦
          subst HasKeys (sym added)
            (insert-HasKeys (new_alert result task_run_id node_code) table keys)
    ]
Step-HasKeys table table'
      (looked_up belongs find_result run_of_parsed_record node_of_run qc_result_id only_fail r h)
      keys =
    elim (create_from_lookup-split belongs find_result run_of_parsed_record node_of_run qc_result_id
      only_fail table table' r h) [
        | inl same ↦ subst HasKeys (sym same) keys
        | inr (result, task_run_id, node_code, _, added) ↦
            subst HasKeys (sym added)
              (insert-HasKeys (new_alert result task_run_id node_code) table keys)
      ]
Step-HasKeys table table' (disposed acknowledge now alert_id r filled h) keys =
    elim (dispose_alert-split acknowledge now alert_id table table' r h) [
      | inl same ↦ subst HasKeys (sym same) keys
      | inr (_, changed) ↦
          subst HasKeys (sym changed)
            (update-HasKeys (change_of acknowledge now) alert_id table keys)
    ]

pub Steps-HasKeys :
    (table table' : AlertTable) → Steps table table' → HasKeys table → HasKeys table'
Steps-HasKeys table table' done h = h
Steps-HasKeys table table' (then_step {first} {middle} {last} before step) h =
    Step-HasKeys middle table' step (Steps-HasKeys table middle before h)

found_above :
    (low key : ℕ) (rows : List AlertRow) (a : AlertRecord)
    → All (λ later. low < later.key) rows
    → find_row key rows ≡ some a
    → low < key
unfolding find_row
found_above low key [] a h e = absurd (ground arith)
found_above low key (row ∷ rows) a (b, h) e = elim (Bool-cases (row.key == key)) [
  | inl k ↦ ground arith
  | inr k ↦ found_above low key rows a h (ground arith)
]

-- With its own key each row is the one that is found under it.
pub each_row :
    (P : ℕ → AlertRecord → Type 0) (rows : List AlertRow)
    → OwnKeys rows
    → ((key : ℕ) (a : AlertRecord) → find_row key rows ≡ some a → P key a)
    → All (λ row. P row.key row.alert) rows
unfolding find_row
each_row P [] own h = tt
each_row P (row ∷ rows) (o, own) h = (
  h row.key row.alert (ground arith),
  each_row P rows own
      (λ key a e. let above = found_above row.key key rows a o e in h key a (ground arith)),
)
