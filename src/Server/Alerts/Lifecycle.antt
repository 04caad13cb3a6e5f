-- ===== src/Server/Alerts/Lifecycle.antt =====
-- alert_service.cpp: the steps of the table of alerts, and what an alert keeps through them.
use lab_bridge.Prelude.{
  Option, Option-cases, subst, ℕ, ◌≤◌, ◌≡◌, ◌≢◌, refl, sym, ap, ◌∙◌, Bool, true, false, List, [],
  ◌∷◌, ◌++◌, some, ok, Text, codes, empty, text_eq, text_eq_refl, ◌==◌, if◌then◌else◌,
  decimal_value, Bool-cases, inl, inr, ◌⊎◌, arith,
}
use lab_bridge.Server.Alerts.{
  AlertRecord, AlertRow, AlertTable, AlertDispositionResult, AlertCreateResult, QcResultRecord,
  find_row, update_rows, read_by_id, coalesce, set_acknowledged, set_closed, dispose_alert,
  is_alert_qc_result, alert_severity, alert_message, insert, create, write_alert, create_alert,
  create_from_lookup,
}
use lab_bridge.Server.Alerts.Rows.{
  updated, find_row-update_rows, find_row-update_other, update_option,
}
use lab_bridge.Server.Alerts.Disposition.{
  Change, change_of, is_settled, dispose-split, dispose_changed,
}

-- One call: an alert for a quality result, given or looked up, or a disposition at a time that is not NULL.
pub data Step : AlertTable → AlertTable → Type 0 where
  created :
      {table table' : AlertTable} (belongs : Text → Text → Bool) (result : QcResultRecord)
      (task_run_id node_code : Text) (r : AlertCreateResult)
      → create_alert belongs result task_run_id node_code table ≡ ok (r, table')
      → Step table table'
  looked_up :
      {table table' : AlertTable} (belongs : Text → Text → Bool)
      (find_result : Text → Option QcResultRecord)
      (run_of_parsed_record node_of_run : Text → Option Text) (qc_result_id : Text)
      (only_fail : Bool) (r : AlertCreateResult)
      → create_from_lookup belongs find_result run_of_parsed_record node_of_run qc_result_id
          only_fail table
        ≡ ok (r, table')
      → Step table table'
  disposed :
      {table table' : AlertTable} (acknowledge : Bool) (now alert_id : Text)
      (r : AlertDispositionResult)
      → empty now ≡ false
      → dispose_alert acknowledge now alert_id table ≡ ok (r, table')
      → Step table table'

pub data Steps : AlertTable → AlertTable → Type 0 where
  done : {table : AlertTable} → Steps table table
  then_step :
      {first middle last : AlertTable} → Steps first middle → Step middle last → Steps first last

-- The alert that `write_alert` makes.
abbrev pub new_alert : QcResultRecord → Text → Text → AlertRecord
new_alert qc_result task_run_id node_code = record {
  id = [];
  node_code = node_code;
  task_run_id = task_run_id;
  alert_type = codes "qc_result";
  severity = alert_severity qc_result;
  message = alert_message qc_result;
  status = codes "open";
  acknowledged_at = [];
  closed_at = [];
}

-- A creation adds nothing, or one alert for a result that asks for it.
pub create_alert-split :
    (belongs : Text → Text → Bool) (result : QcResultRecord) (task_run_id node_code : Text)
    (table table' : AlertTable) (r : AlertCreateResult)
    → create_alert belongs result task_run_id node_code table ≡ ok (r, table')
    → (table' ≡ table)
      ⊎ ((is_alert_qc_result result ≡ true)
          × (table' ≡ insert (new_alert result task_run_id node_code) table))
unfolding create_alert write_alert create
create_alert-split belongs result task_run_id node_code table table' r h =
    elim (Bool-cases (is_alert_qc_result result)) [
      | inr e ↦ inl (ground arith)
      | inl e ↦ elim (Bool-cases (belongs node_code task_run_id)) [
        | inl b ↦ inr (e, ground arith)
        | inr b ↦ ground arith
      ]
    ]

-- A table is unchanged, or one alert for a result that asks for it is added.
abbrev pub Added : AlertTable → AlertTable → Type 0
Added table table' =
    (table' ≡ table)
    ⊎ ((result : QcResultRecord) × (task_run_id : Text) × (node_code : Text) × (is_alert_qc_result
            result
          ≡ true)
        × (table' ≡ insert (new_alert result task_run_id node_code) table))

write_alert-split :
    (belongs : Text → Text → Bool) (result : QcResultRecord) (task_run_id node_code : Text)
    (table table' : AlertTable) (r : AlertCreateResult)
    → is_alert_qc_result result ≡ true
    → write_alert belongs result task_run_id node_code table ≡ ok (r, table')
    → Added table table'
unfolding create_alert
write_alert-split belongs result task_run_id node_code table table' r e h =
    elim (create_alert-split belongs result task_run_id node_code table table' r (rw e h)) [
      | inl same ↦ inl same
      | inr (_, added) ↦ inr (result, task_run_id, node_code, e, added)
    ]

pub create_from_lookup-split :
    (belongs : Text → Text → Bool) (find_result : Text → Option QcResultRecord)
    (run_of_parsed_record node_of_run : Text → Option Text) (qc_result_id : Text) (only_fail : Bool)
    (table table' : AlertTable) (r : AlertCreateResult)
    → create_from_lookup belongs find_result run_of_parsed_record node_of_run qc_result_id only_fail
        table
      ≡ ok (r, table')
    → Added table table'
unfolding create_from_lookup
create_from_lookup-split belongs find_result run_of_parsed_record node_of_run qc_result_id only_fail
      table table' r h =
    elim (Bool-cases (empty qc_result_id)) [
      | inl e ↦ inl (ground arith)
      | inr e ↦ elim (Option-cases (find_result qc_result_id)) [
        | inl f ↦ inl (ground arith)
        | inr (result, f) ↦ elim (Bool-cases (is_alert_qc_result result)) [
          | inr a ↦ inl (ground arith)
          | inl a ↦ elim (Option-cases (run_of_parsed_record result.parsed_record_id)) [
            | inl g ↦ inl (ground arith)
            | inr (task_run_id, g) ↦ elim (Option-cases (node_of_run task_run_id)) [
              | inl n ↦ inl (ground arith)
              | inr (node_code, n) ↦
                  write_alert-split belongs result task_run_id node_code table table' r a
                    (ground arith)
            ]
          ]
        ]
      ]
    ]

-- A disposition changes nothing, or the one alert.
pub dispose_alert-split :
    (acknowledge : Bool) (now alert_id : Text) (table table' : AlertTable)
    (r : AlertDispositionResult)
    → dispose_alert acknowledge now alert_id table ≡ ok (r, table')
    → (table' ≡ table)
      ⊎ (Change acknowledge alert_id table
          × (table' ≡ updated (change_of acknowledge now) alert_id table))
dispose_alert-split acknowledge now alert_id table table' r h =
    elim (dispose-split acknowledge alert_id table) [
      | inl (r', same) ↦ let e = same now in inl cc
      | inr c ↦
          let e =
            dispose_changed acknowledge now alert_id table c.before c.positive c.known c.not_closed
              c.not_settled in
          inr (c, cc)
    ]

-- open, acknowledged, closed
unfoldable pub stage : AlertRecord → ℕ
stage a =
    if text_eq a.status (codes "closed")
    then 2
    else if text_eq a.status (codes "acknowledged")
    then 1
    else 0

-- What holds between an alert and the same alert later.
pub record Later (a b : AlertRecord) : Type 0 where
  pub same_id : a.id ≡ b.id
  pub same_node : a.node_code ≡ b.node_code
  pub same_run : a.task_run_id ≡ b.task_run_id
  pub same_type : a.alert_type ≡ b.alert_type
  pub same_severity : a.severity ≡ b.severity
  pub same_message : a.message ≡ b.message
  pub forward : stage a ≤ stage b
  pub first_acknowledged :
      (empty a.acknowledged_at ≡ true) ⊎ (a.acknowledged_at ≡ b.acknowledged_at)
  pub first_closed : (empty a.closed_at ≡ true) ⊎ (a.closed_at ≡ b.closed_at)

kept_trans :
    (s t u : Text)
    → (empty s ≡ true) ⊎ (s ≡ t)
    → (empty t ≡ true) ⊎ (t ≡ u)
    → (empty s ≡ true) ⊎ (s ≡ u)
kept_trans s t u (inl e) q = inl e
kept_trans s t u (inr e) (inl f) = inl (ap empty e ∙ f)
kept_trans s t u (inr e) (inr f) = inr (e ∙ f)

coalesce_keeps : (s now : Text) → (empty s ≡ true) ⊎ (s ≡ coalesce s now)
unfolding coalesce
coalesce_keeps [] now = inl refl
coalesce_keeps (c ∷ s) now = inr refl

Later-refl : (a : AlertRecord) → Later a a
Later-refl a = record {
  same_id = refl;
  same_node = refl;
  same_run = refl;
  same_type = refl;
  same_severity = refl;
  same_message = refl;
  forward = omega arith;
  first_acknowledged = inr refl;
  first_closed = inr refl;
}

Later-trans : (a b c : AlertRecord) → Later a b → Later b c → Later a c
Later-trans a b c p q = record {
  same_id = p.same_id ∙ q.same_id;
  same_node = p.same_node ∙ q.same_node;
  same_run = p.same_run ∙ q.same_run;
  same_type = p.same_type ∙ q.same_type;
  same_severity = p.same_severity ∙ q.same_severity;
  same_message = p.same_message ∙ q.same_message;
  forward = omega (arith, p.forward, q.forward);
  first_acknowledged =
      kept_trans a.acknowledged_at b.acknowledged_at c.acknowledged_at p.first_acknowledged
        q.first_acknowledged;
  first_closed = kept_trans a.closed_at b.closed_at c.closed_at p.first_closed q.first_closed;
}

stage_change :
    (acknowledge : Bool) (now : Text) (a : AlertRecord)
    → text_eq a.status (codes "closed") ≡ false
    → is_settled acknowledge a ≡ false
    → stage a ≤ stage (change_of acknowledge now a)
unfolding stage set_acknowledged set_closed
stage_change true now a c s = rw (c, s) (omega arith)
stage_change false now a c s = rw (c, text_eq_refl (codes "closed")) (ground arith)

Later-change :
    (acknowledge : Bool) (now : Text) (a : AlertRecord)
    → text_eq a.status (codes "closed") ≡ false
    → is_settled acknowledge a ≡ false
    → Later a (change_of acknowledge now a)
unfolding set_acknowledged set_closed
Later-change true now a c s = record {
  same_id = refl;
  same_node = refl;
  same_run = refl;
  same_type = refl;
  same_severity = refl;
  same_message = refl;
  forward = stage_change true now a c s;
  first_acknowledged = coalesce_keeps a.acknowledged_at now;
  first_closed = inr refl;
}
Later-change false now a c s = record {
  same_id = refl;
  same_node = refl;
  same_run = refl;
  same_type = refl;
  same_severity = refl;
  same_message = refl;
  forward = stage_change false now a c s;
  first_acknowledged = inr refl;
  first_closed = coalesce_keeps a.closed_at now;
}

find_row-append :
    (key : ℕ) (rows : List AlertRow) (row : AlertRow) (a : AlertRecord)
    → find_row key rows ≡ some a
    → find_row key (rows ++ row ∷ []) ≡ some a
unfolding find_row
find_row-append key [] row a e = ground arith
find_row-append key (first ∷ rows) row a e =
    let rest = find_row-append key rows row a in ground arith

pub key_eq : (m n : ℕ) → (m == n) ≡ true → m ≡ n
key_eq m n h = ground arith

pub key_neq : (m n : ℕ) → (m == n) ≡ false → m ≢ n
key_neq m n h e = ground arith

pub some_alert : (a b : AlertRecord) → some a ≡ some b → a ≡ b
some_alert a b e = cc

-- What a table keeps of the alert under a key.
abbrev pub Kept : ℕ → AlertRecord → AlertTable → Type 0
Kept key a table = (b : AlertRecord) × (find_row key table.rows ≡ some b) × Later a b

Kept-updated :
    (acknowledge : Bool) (now alert_id : Text) (table : AlertTable) (key : ℕ) (a : AlertRecord)
    → (c : Change acknowledge alert_id table) → find_row key table.rows ≡ some a
    → Kept key a (updated (change_of acknowledge now) alert_id table)
unfolding read_by_id
Kept-updated acknowledge now alert_id table key a c e =
    let n = decimal_value 0 alert_id in
    let change = change_of acknowledge now in
    elim (Bool-cases (n == key)) [
      | inl h ↦
          let same = key_eq n key h in
          let e' = subst (λ k. find_row k table.rows ≡ some a) (sym same) e in
          let before = some_alert c.before a (sym c.known ∙ e') in
          (
            change a,
            subst (λ k. find_row k (update_rows change n table.rows) ≡ some (change a)) same
                (find_row-update_rows change n table.rows ∙ ap (update_option change) e'),
            subst (λ x. Later x (change x)) before
                (Later-change acknowledge now c.before c.not_closed c.not_settled),
          )
      | inr h ↦
          (a, find_row-update_other change n key table.rows (key_neq n key h) ∙ e, Later-refl a)
    ]

Step-keeps :
    (table table' : AlertTable) (key : ℕ) (a : AlertRecord)
    → Step table table'
    → find_row key table.rows ≡ some a
    → Kept key a table'
unfolding insert
Step-keeps table table' key a (created belongs result task_run_id node_code r h) e =
    elim (create_alert-split belongs result task_run_id node_code table table' r h) [
      | inl same ↦ subst (Kept key a) (sym same) (a, e, Later-refl a)
      | inr (_, added) ↦
          subst (Kept key a) (sym added) (a, find_row-append key table.rows _ a e, Later-refl a)
    ]
Step-keeps table table' key a
      (looked_up belongs find_result run_of_parsed_record node_of_run qc_result_id only_fail r h)
      e =
    elim (create_from_lookup-split belongs find_result run_of_parsed_record node_of_run qc_result_id
      only_fail table table' r h) [
        | inl same ↦ subst (Kept key a) (sym same) (a, e, Later-refl a)
        | inr (_, _, _, _, added) ↦
            subst (Kept key a) (sym added) (a, find_row-append key table.rows _ a e, Later-refl a)
      ]
Step-keeps table table' key a (disposed acknowledge now alert_id r _ h) e =
    elim (dispose_alert-split acknowledge now alert_id table table' r h) [
      | inl same ↦ subst (Kept key a) (sym same) (a, e, Later-refl a)
      | inr (c, changed) ↦
          subst (Kept key a) (sym changed) (Kept-updated acknowledge now alert_id table key a c e)
    ]

-- Through any calls of the service an alert stays in the table with its key, its node, run, type,
-- severity and message; its stage never goes back from closed to acknowledged or open, nor from
-- acknowledged to open; and the first times of acknowledgement and of closing are kept.
pub Steps-keeps :
    (table table' : AlertTable) (key : ℕ) (a : AlertRecord)
    → Steps table table'
    → find_row key table.rows ≡ some a
    → (b : AlertRecord) × (find_row key table'.rows ≡ some b) × Later a b
Steps-keeps table table' key a done e = (a, e, Later-refl a)
Steps-keeps table table' key a (then_step {first} {middle} {last} before step) e =
    let (b, f, p) = Steps-keeps table middle key a before e in
    let (c, g, q) = Step-keeps middle table' key b step f in (c, g, Later-trans a b c p q)
