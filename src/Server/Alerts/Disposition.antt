-- ===== src/Server/Alerts/Disposition.antt =====
-- alert_service.cpp, `dispose_alert`: the outcome of a call, and of the same call again.
use lab_bridge.Prelude.{
  ◌≡◌, ◌≢◌, subst, refl, text_eq_refl, Bool, true, false, none, some, ok, Text, codes, text_eq,
  text_eq_sound, if◌then◌else◌, Bool-cases, Option-cases, inl, inr, ◌⊎◌, arith,
}
use lab_bridge.Server.Status.{success, conflict, not_found, invalid_argument, is_positive_id}
use lab_bridge.Server.Alerts.{
  AlertRecord, AlertTable, AlertDispositionResult, disposition_failure, already_closed,
  alert_id_not_positive, alert_not_found, read_by_id, set_acknowledged, set_closed,
  save_acknowledged, save_closed, dispose_locked, dispose_alert,
}
use lab_bridge.Server.Alerts.Rows.{updated, read-updated, write_disposition-found}

-- The change that a call makes, and the test that there is none to make.
abbrev pub change_of : Bool → Text → AlertRecord → AlertRecord
change_of acknowledge now a = if acknowledge then set_acknowledged now a else set_closed now a

abbrev pub is_settled : Bool → AlertRecord → Bool
is_settled acknowledge a =
    text_eq a.status (if acknowledge then codes "acknowledged" else codes "closed")

-- A known alert: refused, kept or changed.
pub dispose_closed :
    (now alert_id : Text) (table : AlertTable) (a : AlertRecord)
    → is_positive_id alert_id ≡ true
    → read_by_id alert_id table ≡ some a
    → text_eq a.status (codes "closed") ≡ true
    → dispose_alert true now alert_id table
      ≡ ok (disposition_failure conflict already_closed, table)
unfolding dispose_alert dispose_locked text_eq
dispose_closed now alert_id table a p e h = rw p (rw e (rw h refl))

pub dispose_settled :
    (acknowledge : Bool) (now alert_id : Text) (table : AlertTable) (a : AlertRecord)
    → is_positive_id alert_id ≡ true
    → read_by_id alert_id table ≡ some a
    → is_settled acknowledge a ≡ true
    → dispose_alert acknowledge now alert_id table
      ≡ ok (record { status = success; alert = some a }, table)
unfolding dispose_alert dispose_locked text_eq
dispose_settled true now alert_id table a p e h =
    rw p (rw e (rw (text_eq_sound a.status (codes "acknowledged") h) refl))
dispose_settled false now alert_id table a p e h = rw p (rw e (rw h refl))

pub dispose_changed :
    (acknowledge : Bool) (now alert_id : Text) (table : AlertTable) (a : AlertRecord)
    → is_positive_id alert_id ≡ true
    → read_by_id alert_id table ≡ some a
    → text_eq a.status (codes "closed") ≡ false
    → is_settled acknowledge a ≡ false
    → dispose_alert acknowledge now alert_id table
      ≡ ok (
        record { status = success; alert = some (change_of acknowledge now a) },
        updated (change_of acknowledge now) alert_id table,
      )
unfolding dispose_alert dispose_locked save_acknowledged save_closed
dispose_changed true now alert_id table a p e c h =
    rw p (rw e (rw c (rw h (write_disposition-found (set_acknowledged now) alert_id table a e))))
dispose_changed false now alert_id table a p e c h =
    rw p (rw e (rw h (write_disposition-found (set_closed now) alert_id table a e)))

dispose_bad_id :
    (acknowledge : Bool) (now alert_id : Text) (table : AlertTable)
    → is_positive_id alert_id ≡ false
    → dispose_alert acknowledge now alert_id table
      ≡ ok (disposition_failure invalid_argument alert_id_not_positive, table)
unfolding dispose_alert
dispose_bad_id acknowledge now alert_id table p = rw p refl

dispose_unknown :
    (acknowledge : Bool) (now alert_id : Text) (table : AlertTable)
    → is_positive_id alert_id ≡ true
    → read_by_id alert_id table ≡ none
    → dispose_alert acknowledge now alert_id table
      ≡ ok (disposition_failure not_found alert_not_found, table)
unfolding dispose_alert
dispose_unknown acknowledge now alert_id table p e = rw p (rw e refl)

-- A call that changes the table: the alert is known, and not yet where the call takes it.
pub record Change (acknowledge : Bool) (alert_id : Text) (table : AlertTable) : Type 0 where
  pub before : AlertRecord
  pub positive : is_positive_id alert_id ≡ true
  pub known : read_by_id alert_id table ≡ some before
  pub not_closed : text_eq before.status (codes "closed") ≡ false
  pub not_settled : is_settled acknowledge before ≡ false

closed_kept :
    (acknowledge : Bool) (alert_id : Text) (table : AlertTable) (a : AlertRecord)
    → is_positive_id alert_id ≡ true
    → read_by_id alert_id table ≡ some a
    → text_eq a.status (codes "closed") ≡ true
    → (r : AlertDispositionResult) × ((now : Text)
        → dispose_alert acknowledge now alert_id table ≡ ok (r, table))
closed_kept true alert_id table a p e c = (_, λ now. dispose_closed now alert_id table a p e c)
closed_kept false alert_id table a p e c =
    (_, λ now. dispose_settled false now alert_id table a p e c)

known_split :
    (acknowledge : Bool) (alert_id : Text) (table : AlertTable) (a : AlertRecord)
    → is_positive_id alert_id ≡ true
    → read_by_id alert_id table ≡ some a
    → ((r : AlertDispositionResult) × ((now : Text)
          → dispose_alert acknowledge now alert_id table ≡ ok (r, table)))
      ⊎ Change acknowledge alert_id table
known_split acknowledge alert_id table a p e = elim (Bool-cases (is_settled acknowledge a)) [
  | inl s ↦ inl (_, λ now. dispose_settled acknowledge now alert_id table a p e s)
  | inr s ↦ elim (Bool-cases (text_eq a.status (codes "closed"))) [
    | inl c ↦ inl (closed_kept acknowledge alert_id table a p e c)
    | inr c ↦ inr (record { before = a; positive = p; known = e; not_closed = c; not_settled = s })
  ]
]

-- A call changes nothing, whatever the time, or it changes one known alert.
pub dispose-split :
    (acknowledge : Bool) (alert_id : Text) (table : AlertTable)
    → ((r : AlertDispositionResult) × ((now : Text)
          → dispose_alert acknowledge now alert_id table ≡ ok (r, table)))
      ⊎ Change acknowledge alert_id table
dispose-split acknowledge alert_id table = elim (Bool-cases (is_positive_id alert_id)) [
  | inr p ↦ inl (_, λ now. dispose_bad_id acknowledge now alert_id table p)
  | inl p ↦ elim (Option-cases (read_by_id alert_id table)) [
    | inl e ↦ inl (_, λ now. dispose_unknown acknowledge now alert_id table p e)
    | inr (a, e) ↦ known_split acknowledge alert_id table a p e
  ]
]

settled_change :
    (acknowledge : Bool) (now : Text) (a : AlertRecord)
    → is_settled acknowledge (change_of acknowledge now a) ≡ true
unfolding set_acknowledged set_closed text_eq
settled_change true now a = refl
settled_change false now a = refl

-- A call does not throw, and the same call at a later time returns the same result and changes
-- nothing more.
pub dispose_alert_idem :
    (acknowledge : Bool) (now later alert_id : Text) (table : AlertTable)
    → (r : AlertDispositionResult) × (table' : AlertTable) × (dispose_alert acknowledge now alert_id
          table
        ≡ ok (r, table'))
      × (dispose_alert acknowledge later alert_id table' ≡ ok (r, table'))
dispose_alert_idem acknowledge now later alert_id table =
    elim (dispose-split acknowledge alert_id table) [
      | inl (r, same) ↦ (r, table, same now, same later)
      | inr c ↦
          let change = change_of acknowledge now in
          (
            _,
            updated change alert_id table,
            dispose_changed acknowledge now alert_id table c.before c.positive c.known c.not_closed
                c.not_settled,
            dispose_settled acknowledge later alert_id (updated change alert_id table)
                (change c.before) c.positive (read-updated change alert_id table c.before c.known)
                (settled_change acknowledge now c.before),
          )
    ]

-- A call that succeeded: the alert it returns is the one that the table holds, in the status asked.
pub record Reached (acknowledge : Bool) (now alert_id : Text) (table : AlertTable) : Type 0 where
  pub alert : AlertRecord
  pub after : AlertTable
  pub returned :
      dispose_alert acknowledge now alert_id table
      ≡ ok (record { status = success; alert = some alert }, after)
  pub stored : read_by_id alert_id after ≡ some alert
  pub settled : is_settled acknowledge alert ≡ true

not_closed_status :
    (acknowledge : Bool) (a : AlertRecord)
    → (acknowledge ≡ false) ⊎ (a.status ≢ codes "closed")
    → is_settled acknowledge a ≡ false
    → text_eq a.status (codes "closed") ≡ false
not_closed_status false a (inl e) s = s
not_closed_status true a (inl e) s = cc
not_closed_status acknowledge a (inr other) s =
    elim (Bool-cases (text_eq a.status (codes "closed"))) [
      | inl c ↦ elim (other (text_eq_sound a.status (codes "closed") c)) [ ]
      | inr c ↦ c
    ]

not_closed :
    (a : AlertRecord) → text_eq a.status (codes "closed") ≡ false → a.status ≢ codes "closed"
not_closed a c closed =
    let c' = subst (λ s. text_eq s (codes "closed") ≡ false) closed c in
    ground (arith, text_eq_refl (codes "closed"))

not_settled_outcome :
    (acknowledge : Bool) (now alert_id : Text) (table : AlertTable) (a : AlertRecord)
    → is_positive_id alert_id ≡ true
    → read_by_id alert_id table ≡ some a
    → text_eq a.status (codes "closed") ≡ false
    → is_settled acknowledge a ≡ false
    → Reached acknowledge now alert_id table
not_settled_outcome acknowledge now alert_id table a p e c s =
    let change = change_of acknowledge now in
    record {
      alert = change a;
      after = updated change alert_id table;
      returned = dispose_changed acknowledge now alert_id table a p e c s;
      stored = read-updated change alert_id table a e;
      settled = settled_change acknowledge now a;
    }

reached :
    (acknowledge : Bool) (now alert_id : Text) (table : AlertTable) (a : AlertRecord)
    → is_positive_id alert_id ≡ true
    → read_by_id alert_id table ≡ some a
    → (acknowledge ≡ false) ⊎ (a.status ≢ codes "closed")
    → Reached acknowledge now alert_id table
reached acknowledge now alert_id table a p e way = elim (Bool-cases (is_settled acknowledge a)) [
  | inl s ↦ record {
    alert = a;
    after = table;
    returned = dispose_settled acknowledge now alert_id table a p e s;
    stored = e;
    settled = s;
  }
  | inr s ↦
      not_settled_outcome acknowledge now alert_id table a p e
        (not_closed_status acknowledge a way s) s
]

-- A call for a known alert either is to acknowledge a closed alert, and then returns a conflict and
-- changes nothing, or is to close, or the alert is not closed, and then it succeeds with the alert that
-- the table then holds, which is closed or acknowledged as the call asks.
pub dispose_alert-known :
    (acknowledge : Bool) (now alert_id : Text) (table : AlertTable) (a : AlertRecord)
    → is_positive_id alert_id ≡ true
    → read_by_id alert_id table ≡ some a
    → ((acknowledge ≡ true)
        × (a.status ≡ codes "closed")
        × (dispose_alert acknowledge now alert_id table
            ≡ ok (disposition_failure conflict already_closed, table)))
      ⊎ (((acknowledge ≡ false) ⊎ (a.status ≢ codes "closed"))
          × Reached acknowledge now alert_id table)
dispose_alert-known false now alert_id table a p e =
    inr (inl refl, reached false now alert_id table a p e (inl refl))
dispose_alert-known true now alert_id table a p e =
    elim (Bool-cases (text_eq a.status (codes "closed"))) [
      | inl c ↦ inl (
        refl,
        text_eq_sound a.status (codes "closed") c,
        dispose_closed now alert_id table a p e c,
      )
      | inr c ↦
          let other = not_closed a c in
          inr (inr other, reached true now alert_id table a p e (inr other))
    ]
