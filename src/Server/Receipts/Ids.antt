-- ===== src/Server/Receipts/Ids.antt =====
-- agent_report_receipt_repository.cpp: the lists of ids as text.
use lab_bridge.Prelude.{
  subst, ℕ, ◌==◌, ◌≡◌, refl, sym, ap, ◌∙◌, Bool, true, false, ◌&&◌, List, [], ◌∷◌, ◌++◌, Outcome,
  ok, Text, empty, all, is_digit, Bool-cases, inl, inr, arith, bind-ok,
}
use mathlib.Core.List.{append-nil, append_assoc}
use lab_bridge.Server.Receipts.{
  AgentReportReceiptResponse, ReceiptThrow, split_from, split_ids, join_from, join_ids, JoinedIds,
  join_response,
}

-- The ids behind the first one, each behind a comma.
abbrev tail_text : List Text → Text
tail_text [] = []
tail_text (id ∷ ids) = b',' ∷ (id ++ tail_text ids)

-- Every id is digits, and at least one.
abbrev pub AreIds : List Text → Type 0
AreIds [] = Unit
AreIds (id ∷ ids) = (empty id ≡ false) × (all is_digit id ≡ true) × AreIds ids

split_step :
    (c : ℕ) (rest piece : Text)
    → (c == b',') ≡ false
    → split_from piece (c ∷ rest) ≡ split_from (piece ++ c ∷ []) rest
unfolding split_from
split_step c rest piece e = rw (e, split_from) refl

split_piece :
    (rest : Text) (out : List Text)
    → ((piece : Text) → split_from piece rest ≡ piece ∷ out)
    → (s piece : Text) → all is_digit s ≡ true
    → split_from piece (s ++ rest) ≡ (piece ++ s) ∷ out
unfolding split_from
split_piece rest out h [] piece d = h piece ∙ ap (λ p. p ∷ out) (sym (append-nil piece))
split_piece rest out h (c ∷ s) piece d =
    let digit = and_left (is_digit c) (all is_digit s) d in
    let next =
      split_piece rest out h s (piece ++ c ∷ []) (and_right (is_digit c) (all is_digit s) d) in
    split_step c (s ++ rest) piece (no_comma c digit)
    ∙ next
    ∙ ap (λ p. p ∷ out) (append_assoc piece (c ∷ []) s)
  where
    and_left : (a b : Bool) → (a && b) ≡ true → a ≡ true
    and_left a b h = ground arith

    and_right : (a b : Bool) → (a && b) ≡ true → b ≡ true
    and_right a b h = ground arith

    no_comma : (c : ℕ) → is_digit c ≡ true → (c == 44) ≡ false
    no_comma c h = ground arith

empty_front : (s t : Text) → empty s ≡ false → empty (s ++ t) ≡ false
empty_front [] t h = cc
empty_front (c ∷ s) t h = refl

split_tail :
    (ids : List Text) → AreIds ids → (piece : Text) → split_from piece (tail_text ids) ≡ piece ∷ ids
unfolding split_from
split_tail [] h piece = refl
split_tail (id ∷ ids) (e, d, hs) piece =
    rw (empty_front id (tail_text ids) e)
      (ap (λ out. piece ∷ out) (split_piece (tail_text ids) ids (split_tail ids hs) id [] d))

with_comma :
    (joined id rest : Text)
    → (joined ++ b',' ∷ []) ++ (id ++ rest) ≡ joined ++ (b',' ∷ (id ++ rest))
with_comma joined id rest = append_assoc joined (b',' ∷ []) (id ++ rest)

ok_same : (s t : Text) → ◌≡◌ {A = Outcome ReceiptThrow Text} (ok s) (ok t) → t ≡ s
ok_same s t h = cc

not_empty_last : (s id : Text) → empty id ≡ false → empty (s ++ id) ≡ false
not_empty_last [] id e = e
not_empty_last (c ∷ s) id e = refl

join_step :
    (joined id : Text) (ids : List Text)
    → empty joined ≡ false
    → empty id ≡ false
    → all is_digit id ≡ true
    → join_from joined (id ∷ ids) ≡ join_from ((joined ++ b',' ∷ []) ++ id) ids
unfolding join_from
join_step joined id ids e i d = rw i (rw d (rw e refl))

join_first :
    (id : Text) (ids : List Text)
    → empty id ≡ false
    → all is_digit id ≡ true
    → join_from [] (id ∷ ids) ≡ join_from id ids
unfolding join_from
join_first id ids i d = rw i (rw d refl)

join_tail :
    (ids : List Text) (joined t : Text)
    → empty joined ≡ false
    → join_from joined ids ≡ ok t
    → AreIds ids × (t ≡ joined ++ tail_text ids)
unfolding join_from
join_tail [] joined t e h = (tt, ok_same joined t h ∙ sym (append-nil joined))
join_tail (id ∷ ids) joined t e h = elim (Bool-cases (empty id)) [
  | inl i ↦ ground arith
  | inr i ↦ elim (Bool-cases (all is_digit id)) [
    | inr d ↦ ground arith
    | inl d ↦
        let (a, b) =
          join_tail ids ((joined ++ b',' ∷ []) ++ id) t (not_empty_last (joined ++ b',' ∷ []) id i)
            (sym (join_step joined id ids e i d) ∙ h) in
        (
          (i, d, a),
          b
              ∙ append_assoc (joined ++ b',' ∷ []) id (tail_text ids)
              ∙ with_comma joined id (tail_text ids),
        )
  ]
]

-- `join_ids` returns a text only for ids that are one or more digits, and that text is split again
-- into the same list of ids.
pub join_ids-split_ids :
    (ids : List Text) (t : Text) → join_ids ids ≡ ok t → AreIds ids × (split_ids t ≡ ids)
unfolding join_ids join_from split_ids
join_ids-split_ids [] t h = (tt, rw (ok_same [] t h) refl)
join_ids-split_ids (id ∷ ids) t h = elim (Bool-cases (empty id)) [
  | inl i ↦ ground arith
  | inr i ↦ elim (Bool-cases (all is_digit id)) [
    | inr d ↦ ground arith
    | inl d ↦
        let (a, b) = join_tail ids id t i (sym (join_first id ids i d) ∙ h) in
        (
          (i, d, a),
          rw b (
              rw (empty_front id (tail_text ids) i)
                (split_piece (tail_text ids) ids (split_tail ids a) id [] d)),
        )
  ]
]

-- The lists that `join_response` joined.
pub record IsJoined (response : AgentReportReceiptResponse) (ids : JoinedIds) : Type 0 where
  pub raw_files : split_ids ids.raw_file_ids ≡ response.raw_file_ids
  pub parsed_records : split_ids ids.parsed_record_ids ≡ response.parsed_record_ids
  pub qc_results : split_ids ids.qc_result_ids ≡ response.qc_result_ids
  pub alerts : split_ids ids.alert_ids ≡ response.alert_ids

pub join_response-IsJoined :
    (response : AgentReportReceiptResponse) (ids : JoinedIds)
    → join_response response ≡ ok ids
    → IsJoined response ids
unfolding join_response
join_response-IsJoined response ids h =
    let record { value = a; first = fa; second = ha } =
      bind-ok _ (join_ids response.raw_file_ids) h in
    let record { value = b; first = fb; second = hb } =
      bind-ok _ (join_ids response.parsed_record_ids) ha in
    let record { value = c; first = fc; second = hc } =
      bind-ok _ (join_ids response.qc_result_ids) hb in
    let record { value = d; first = fd; second = hd } =
      bind-ok _ (join_ids response.alert_ids) hc in
    subst (IsJoined response) (ok_ids _ ids hd) (record {
      raw_files = (join_ids-split_ids response.raw_file_ids a fa).1;
      parsed_records = (join_ids-split_ids response.parsed_record_ids b fb).1;
      qc_results = (join_ids-split_ids response.qc_result_ids c fc).1;
      alerts = (join_ids-split_ids response.alert_ids d fd).1;
    })
  where
    ok_ids : (a b : JoinedIds) → ◌≡◌ {A = Outcome ReceiptThrow JoinedIds} (ok a) (ok b) → a ≡ b
    ok_ids a b e = cc
