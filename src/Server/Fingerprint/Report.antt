-- ===== src/Server/Fingerprint/Report.antt =====
-- agent_report_service.cpp, `report_fingerprint`: what a fingerprint says of its request.
use lab_bridge.Prelude.{
  ◌<◌, ◌≡◌, refl, sym, ap, ◌∙◌, ◌⊎◌, inl, inr, ◌≢◌, Bool, true, false, List, [], ◌∷◌, ◌++◌, map,
  Option, some, ok, Text, codes, All, if◌then◌else◌, arith,
}
use lab_bridge.Server.Models.{
  TaskRunFailedFile, TaskRunStatus, pending, running, succeeded, failed, to_storage,
}
use lab_bridge.Server.Fingerprint.{
  TaskRunReportQcResult, TaskRunReportParsedRecord, TaskRunReportRequest, qc_values, parsed_values,
  failed_values, failed_block, report_values, report_fingerprint, append_all, or_default,
}
use lab_bridge.Server.Fingerprint.Encoding.{
  each_inj, each_inj_all, each-normal, length-map, count-inj, or_default_idem, signed_decimal-inj,
  finish-inj,
}

-- A record with its status spelled out.
unfoldable pub normal_parsed : TaskRunReportParsedRecord → TaskRunReportParsedRecord
normal_parsed item = record item { parse_status = or_default item.parse_status (codes "parsed") }

-- A request without its idempotency key and without a list of failed files that is not sent, with
-- the status of each record spelled out.
unfoldable pub normal_report : TaskRunReportRequest → TaskRunReportRequest
normal_report request = record request {
  idempotency_key = [];
  parsed_records = map normal_parsed request.parsed_records;
  failed_files = if request.has_failed_files then request.failed_files else [];
}

abbrev same {ℓ} : {A : Type ℓ} → A → A
same x = x

map-same {ℓ} : {A : Type ℓ} (xs : List A) → map same xs ≡ xs
map-same [] = refl
map-same (x ∷ xs) = rw (map-same xs) refl

qc_values-inj :
    (x y : TaskRunReportQcResult) (s t : List Text)
    → qc_values x ++ s ≡ qc_values y ++ t
    → (same x ≡ same y) × (s ≡ t)
unfolding qc_values
qc_values-inj x y s t e = (cc, cc)

failed_values-inj :
    (x y : TaskRunFailedFile) (s t : List Text)
    → failed_values x ++ s ≡ failed_values y ++ t
    → (same x ≡ same y) × (s ≡ t)
unfolding failed_values
failed_values-inj x y s t e = (cc, cc)

parsed_values-inj :
    (x y : TaskRunReportParsedRecord) (s t : List Text)
    → parsed_values x ++ s ≡ parsed_values y ++ t
    → (normal_parsed x ≡ normal_parsed y) × (s ≡ t)
unfolding parsed_values normal_parsed
parsed_values-inj x y s t e =
    let n = count-inj x.qc_results y.qc_results cc in
    let (results, rest) =
      each_inj qc_values same qc_values-inj x.qc_results y.qc_results s t n cc in
    let mx = map-same x.qc_results in let my = map-same y.qc_results in (cc, rest)

parsed_values-normal :
    (x : TaskRunReportParsedRecord) → parsed_values (normal_parsed x) ≡ parsed_values x
unfolding parsed_values normal_parsed
parsed_values-normal x = rw (or_default_idem x.parse_status (codes "parsed")) refl

failed_block-inj :
    (p q : Bool) (xs ys : List TaskRunFailedFile)
    → failed_block p xs ≡ failed_block q ys
    → (p ≡ q) × ((if p then xs else []) ≡ (if q then ys else []))
unfolding failed_block
failed_block-inj true true xs ys e =
    let n = count-inj xs ys cc in
    let files = each_inj_all failed_values same failed_values-inj xs ys n cc in
    (refl, sym (map-same xs) ∙ files ∙ map-same ys)
failed_block-inj true false xs ys e = ground arith
failed_block-inj false true xs ys e = ground arith
failed_block-inj false false xs ys e = (refl, refl)

to_storage-inj : (s t : TaskRunStatus) → to_storage s ≡ to_storage t → s ≡ t
to_storage-inj pending pending e = refl
to_storage-inj pending running e = ground arith
to_storage-inj pending succeeded e = ground arith
to_storage-inj pending failed e = ground arith
to_storage-inj running pending e = ground arith
to_storage-inj running running e = refl
to_storage-inj running succeeded e = ground arith
to_storage-inj running failed e = ground arith
to_storage-inj succeeded pending e = ground arith
to_storage-inj succeeded running e = ground arith
to_storage-inj succeeded succeeded e = refl
to_storage-inj succeeded failed e = ground arith
to_storage-inj failed pending e = ground arith
to_storage-inj failed running e = ground arith
to_storage-inj failed succeeded e = ground arith
to_storage-inj failed failed e = refl

report_values-inj :
    (a b : TaskRunReportRequest)
    → report_values a ≡ report_values b
    → normal_report a ≡ normal_report b
unfolding report_values normal_report
report_values-inj a b e =
    let n = count-inj a.parsed_records b.parsed_records cc in
    let total = signed_decimal-inj a.items_total b.items_total cc in
    let good = signed_decimal-inj a.items_success b.items_success cc in
    let bad = signed_decimal-inj a.items_failed b.items_failed cc in
    let status = to_storage-inj a.status b.status cc in
    let (records, rest) =
      each_inj parsed_values normal_parsed parsed_values-inj a.parsed_records b.parsed_records
        (failed_block a.has_failed_files a.failed_files)
        (failed_block b.has_failed_files b.failed_files) n cc in
    let (has, files) =
      failed_block-inj a.has_failed_files b.has_failed_files a.failed_files b.failed_files rest in
    cc

failed_block-normal :
    (has : Bool) (xs : List TaskRunFailedFile)
    → failed_block has (if has then xs else []) ≡ failed_block has xs
unfolding failed_block
failed_block-normal true xs = refl
failed_block-normal false xs = refl

report_values-normal :
    (a : TaskRunReportRequest) → report_values (normal_report a) ≡ report_values a
unfolding report_values normal_report
report_values-normal a =
    rw
      (
        length-map normal_parsed a.parsed_records,
        each-normal parsed_values normal_parsed parsed_values-normal a.parsed_records,
        failed_block-normal a.has_failed_files a.failed_files,
      )
      refl

-- Two reports that agree up to their idempotency keys, an empty parse status read as "parsed" and a
-- list of failed files only where it is sent, have the same fingerprint.
pub report_fingerprint-normal :
    (sha256 : Text → Option Text) (a b : TaskRunReportRequest)
    → normal_report a ≡ normal_report b
    → report_fingerprint sha256 a ≡ report_fingerprint sha256 b
unfolding report_fingerprint
report_fingerprint-normal sha256 a b e =
    let equal = sym (report_values-normal a) ∙ ap report_values e ∙ report_values-normal b in cc

-- Where SHA-256 yields bytes, two reports with the same fingerprint agree up to their idempotency
-- keys, an empty parse status read as "parsed" and a list of failed files only where it is sent, or
-- else their two canonical texts differ and SHA-256 collides on them.
pub report_fingerprint_inj :
    (sha256 : Text → Option Text)
    → ((s d : Text) → sha256 s ≡ some d → All (λ c. c < 256) d)
    → (a b : TaskRunReportRequest) (f : Text) → report_fingerprint sha256 a ≡ ok f
    → report_fingerprint sha256 b ≡ ok f
    → (normal_report a ≡ normal_report b)
      ⊎ ((append_all [] (report_values a) ≢ append_all [] (report_values b))
          × (sha256 (append_all [] (report_values a)) ≡ sha256 (append_all [] (report_values b))))
unfolding report_fingerprint
report_fingerprint_inj sha256 is_bytes a b f ha hb =
    elim (finish-inj sha256 is_bytes (report_values a) (report_values b) f ha hb) [
      | inl e ↦ inl (report_values-inj a b e)
      | inr collision ↦ inr collision
    ]
