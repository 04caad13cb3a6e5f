-- ===== src/Server/Alerts/Consistency.antt =====
-- alert_service.cpp and alert_repository.cpp: what every alert of the table satisfies.
use lab_bridge.Prelude.{
  Option-cases, All, to_decimal-value, subst, ℕ, ◌+◌, ◌<◌, ◌≡◌, refl, sym, ap, ◌∙◌, Bool, true,
  false, List, [], ◌∷◌, ◌++◌, none, some, ok, Text, codes, empty, text_eq, text_eq_sound,
  text_eq_refl, ◌||◌, ◌==◌, decimal_value, to_decimal, Bool-cases, inl, inr, ◌⊎◌, arith,
}
use lab_bridge.Server.Alerts.{
  AlertRecord, AlertRow, AlertTable, QcResultRecord, find_row, update_rows, read_by_id, coalesce,
  set_acknowledged, set_closed, is_alert_qc_result, alert_severity, cast_run_id, inserted, insert,
  create, write_alert, create_alert,
}
use lab_bridge.Server.Status.{success}
use lab_bridge.Server.Alerts.Rows.{
  updated, find_row-update_rows, find_row-update_other, update_option,
}
use lab_bridge.Server.Alerts.Disposition.{Change, change_of}
use lab_bridge.Server.Alerts.Lifecycle.{
  looked_up, create_from_lookup-split, Step, created, disposed, Steps, done, then_step, new_alert,
  create_alert-split, dispose_alert-split, key_eq, key_neq, some_alert,
}
use lab_bridge.Server.Alerts.Keys.{OwnKeys, Steps-HasKeys, each_row}

-- The times fit the status.
pub data Times (a : AlertRecord) : Type 0 where
  when_open : a.status ≡ codes "open" → a.acknowledged_at ≡ [] → a.closed_at ≡ [] → Times a
  when_acknowledged :
      a.status ≡ codes "acknowledged" → empty a.acknowledged_at ≡ false → a.closed_at ≡ [] → Times a
  when_closed : a.status ≡ codes "closed" → empty a.closed_at ≡ false → Times a

-- An alert of the table under a key.
pub record IsConsistent (next_key key : ℕ) (a : AlertRecord) : Type 0 where
  pub used_key : key < next_key
  pub printed_key : a.id ≡ to_decimal key
  pub severe : (a.severity ≡ codes "warning") ⊎ (a.severity ≡ codes "failed")
  pub times : Times a

coalesce_filled : (time now : Text) → empty now ≡ false → empty (coalesce time now) ≡ false
unfolding coalesce
coalesce_filled [] now h = h
coalesce_filled (c ∷ time) now h = refl

status_closed :
    (a : AlertRecord) → a.status ≡ codes "closed" → ¬ (text_eq a.status (codes "closed") ≡ false)
status_closed a e h =
    let h' = subst (λ s. text_eq s (codes "closed") ≡ false) e h in
    ground (arith, text_eq_refl (codes "closed"))

Times-change :
    (acknowledge : Bool) (now : Text) (a : AlertRecord)
    → empty now ≡ false
    → text_eq a.status (codes "closed") ≡ false
    → Times a
    → Times (change_of acknowledge now a)
unfolding set_acknowledged set_closed
Times-change true now a filled c (when_open _ _ h) =
    when_acknowledged refl (coalesce_filled a.acknowledged_at now filled) h
Times-change true now a filled c (when_acknowledged _ _ h) =
    when_acknowledged refl (coalesce_filled a.acknowledged_at now filled) h
Times-change true now a filled c (when_closed h _) = elim (status_closed a h c) [ ]
Times-change false now a filled c _ = when_closed refl (coalesce_filled a.closed_at now filled)

IsConsistent-change :
    (acknowledge : Bool) (now : Text) (next_key key : ℕ) (a : AlertRecord)
    → empty now ≡ false
    → text_eq a.status (codes "closed") ≡ false
    → IsConsistent next_key key a
    → IsConsistent next_key key (change_of acknowledge now a)
unfolding set_acknowledged set_closed
IsConsistent-change true now next_key key a filled c h = record {
  used_key = h.used_key;
  printed_key = h.printed_key;
  severe = h.severe;
  times = Times-change true now a filled c h.times;
}
IsConsistent-change false now next_key key a filled c h = record {
  used_key = h.used_key;
  printed_key = h.printed_key;
  severe = h.severe;
  times = Times-change false now a filled c h.times;
}

severe_result :
    (s : Text)
    → (text_eq s (codes "warning") || text_eq s (codes "failed")) ≡ true
    → (s ≡ codes "warning") ⊎ (s ≡ codes "failed")
severe_result s h = elim (Bool-cases (text_eq s (codes "warning"))) [
  | inl e ↦ inl (text_eq_sound s (codes "warning") e)
  | inr e ↦ inr (text_eq_sound s (codes "failed") (ground arith))
]

severity_of_result :
    (result : QcResultRecord)
    → is_alert_qc_result result ≡ true
    → (alert_severity result ≡ codes "warning") ⊎ (alert_severity result ≡ codes "failed")
unfolding is_alert_qc_result alert_severity
severity_of_result result h = elim (Bool-cases (text_eq result.level (codes "warning"))) [
  | inl a ↦ rw a (inl (text_eq_sound result.level (codes "warning") a))
  | inr a ↦ elim (Bool-cases (text_eq result.level (codes "failed"))) [
    | inl b ↦ rw (a, b) (inr (text_eq_sound result.level (codes "failed") b))
    | inr b ↦ rw (a, b) (severe_result result.result (ground arith))
  ]
]

find_row-appended :
    (key : ℕ) (rows : List AlertRow) (row : AlertRow) (a : AlertRecord)
    → find_row key (rows ++ row ∷ []) ≡ some a
    → (find_row key rows ≡ some a) ⊎ ((row.key ≡ key) × (row.alert ≡ a))
unfolding find_row
find_row-appended key [] row a e = ground arith
find_row-appended key (first ∷ rows) row a e = elim (Bool-cases (first.key == key)) [
  | inl h ↦ rw h (inl (ground arith))
  | inr h ↦ rw h (find_row-appended key rows row a (ground arith))
]

-- Every alert that is found is consistent.
abbrev AllConsistent : AlertTable → Type 0
AllConsistent table =
    (key : ℕ) (a : AlertRecord)
    → find_row key table.rows ≡ some a
    → IsConsistent table.next_key key a

insert-consistent :
    (result : QcResultRecord) (task_run_id node_code : Text) (table : AlertTable)
    → is_alert_qc_result result ≡ true
    → AllConsistent table
    → AllConsistent (insert (new_alert result task_run_id node_code) table)
unfolding insert inserted
insert-consistent result task_run_id node_code table alerts all_consistent key a e =
    elim (find_row-appended key table.rows _ a e) [
      | inl old ↦
          let h = all_consistent key a old in
          record {
            used_key = omega (arith, h.used_key);
            printed_key = h.printed_key;
            severe = h.severe;
            times = h.times;
          }
      | inr (k, same) ↦ subst (IsConsistent (table.next_key + 1) key) same (record {
        used_key = omega arith;
        printed_key = ap to_decimal k;
        severe = severity_of_result result alerts;
        times = when_open refl refl refl;
      })
    ]

update-consistent :
    (acknowledge : Bool) (now alert_id : Text) (table : AlertTable)
    → empty now ≡ false
    → Change acknowledge alert_id table
    → AllConsistent table
    → AllConsistent (updated (change_of acknowledge now) alert_id table)
unfolding read_by_id
update-consistent acknowledge now alert_id table filled c all_consistent key a e =
    let n = decimal_value 0 alert_id in
    let change = change_of acknowledge now in
    elim (Bool-cases (n == key)) [
      | inl h ↦
          let same = key_eq n key h in
          let e' =
            subst (λ k. find_row k (update_rows change n table.rows) ≡ some a) (sym same) e in
          let found = some_alert (change c.before) a (
            sym (find_row-update_rows change n table.rows ∙ ap (update_option change) c.known)
            ∙ e') in
          let before =
            all_consistent key c.before
              (subst (λ k. find_row k table.rows ≡ some c.before) same c.known) in
          subst (IsConsistent table.next_key key) found (
            IsConsistent-change acknowledge now table.next_key key c.before filled c.not_closed
              before)
      | inr h ↦
          all_consistent key a
            (sym (find_row-update_other change n key table.rows (key_neq n key h)) ∙ e)
    ]

Step-consistent :
    (table table' : AlertTable) → Step table table' → AllConsistent table → AllConsistent table'
Step-consistent table table' (created belongs result task_run_id node_code r h) all_consistent =
    elim (create_alert-split belongs result task_run_id node_code table table' r h) [
      | inl same ↦ subst AllConsistent (sym same) all_consistent
      | inr (alerts, added) ↦
          subst AllConsistent (sym added)
            (insert-consistent result task_run_id node_code table alerts all_consistent)
    ]
Step-consistent table table'
      (looked_up belongs find_result run_of_parsed_record node_of_run qc_result_id only_fail r h)
      all_consistent =
    elim (create_from_lookup-split belongs find_result run_of_parsed_record node_of_run qc_result_id
      only_fail table table' r h) [
        | inl same ↦ subst AllConsistent (sym same) all_consistent
        | inr (result, task_run_id, node_code, alerts, added) ↦
            subst AllConsistent (sym added)
              (insert-consistent result task_run_id node_code table alerts all_consistent)
      ]
Step-consistent table table' (disposed acknowledge now alert_id r filled h) all_consistent =
    elim (dispose_alert-split acknowledge now alert_id table table' r h) [
      | inl same ↦ subst AllConsistent (sym same) all_consistent
      | inr (c, changed) ↦
          subst AllConsistent (sym changed)
            (update-consistent acknowledge now alert_id table filled c all_consistent)
    ]

Steps-consistent :
    (table table' : AlertTable) → Steps table table' → AllConsistent table → AllConsistent table'
Steps-consistent table table' done h = h
Steps-consistent table table' (then_step {first} {middle} {last} before step) h =
    Step-consistent middle table' step (Steps-consistent table middle before h)

abbrev pub empty_table : AlertTable
empty_table = record { rows = []; next_key = 1 }

found-IsConsistent :
    (table : AlertTable) (key : ℕ) (a : AlertRecord)
    → Steps empty_table table
    → find_row key table.rows ≡ some a
    → IsConsistent table.next_key key a
unfolding find_row
found-IsConsistent table key a steps found =
    Steps-consistent empty_table table steps (λ k b e. ground arith) key a found

-- In a table that calls of the service built from the empty one, the keys of the alerts grow, so that
-- no two are equal, and were drawn; and every alert reads its key as its id, is warning or failed, and
-- has the times of its status: none while it is open, only the first while it is acknowledged, and the
-- second once it is closed.
pub Steps-IsConsistent :
    (table : AlertTable)
    → Steps empty_table table
    → OwnKeys table.rows × All (λ row. IsConsistent table.next_key row.key row.alert) table.rows
Steps-IsConsistent table steps =
    let keys = Steps-HasKeys empty_table table steps (record { own = tt; below = tt }) in
    (
      keys.own,
      each_row (IsConsistent table.next_key) table.rows keys.own
          (λ key a e. found-IsConsistent table key a steps e),
    )

find_row-last :
    (key : ℕ) (rows : List AlertRow) (a : AlertRecord)
    → find_row key rows ≡ none
    → find_row key (rows ++ record { key = key; alert = a } ∷ []) ≡ some a
unfolding find_row
find_row-last key [] a h = ground arith
find_row-last key (first ∷ rows) a h = let rest = find_row-last key rows a in ground arith

fresh_key :
    (table : AlertTable) → Steps empty_table table → find_row table.next_key table.rows ≡ none
fresh_key table steps = elim (Option-cases (find_row table.next_key table.rows)) [
  | inl e ↦ e
  | inr (a, e) ↦
      let c = found-IsConsistent table table.next_key a steps e in
      let used = c.used_key in ground arith
]

cast_printed : (n : ℕ) → cast_run_id (to_decimal n) ≡ to_decimal n
unfolding cast_run_id
cast_printed n = elim (Bool-cases (empty (to_decimal n))) [
  | inl e ↦ rw e (sym (empty_same (to_decimal n) e))
  | inr e ↦ rw e (ap to_decimal (to_decimal-value n))
]
  where
    empty_same : (t : Text) → empty t ≡ true → t ≡ []
    empty_same [] h = refl
    empty_same (c ∷ t) h = cc

-- In a table that calls of the service built from the empty one, an alert that is created for a
-- quality result of a known run is read back under the returned id: open, for that node and run,
-- with the severity and the message of the result. The id of the run is written as the server prints
-- it.
pub create_alert-read_by_id :
    (belongs : Text → Text → Bool) (result : QcResultRecord) (run_key : ℕ) (node_code : Text)
    (table : AlertTable)
    → Steps empty_table table
    → is_alert_qc_result result ≡ true
    → belongs node_code (to_decimal run_key) ≡ true
    → (id : Text) × (table' : AlertTable) × (create_alert belongs result
          (to_decimal run_key)
          node_code
          table
        ≡ ok (record { status = success; id = id }, table'))
      × (read_by_id id table'
          ≡ some (record (new_alert result (to_decimal run_key) node_code) { id = id }))
unfolding create_alert write_alert create read_by_id insert inserted
create_alert-read_by_id belongs result run_key node_code table steps alerts known =
    let added = record (new_alert result (to_decimal run_key) node_code) {
      id = to_decimal table.next_key;
    } in
    (
      to_decimal table.next_key,
      insert (new_alert result (to_decimal run_key) node_code) table,
      rw alerts (rw known refl),
      rw (cast_printed run_key, to_decimal-value table.next_key)
          (find_row-last table.next_key table.rows added (fresh_key table steps)),
    )
