-- ===== src/Server/Fingerprint/Manifest.antt =====
-- agent_report_service.cpp, `manifest_fingerprint`: what a fingerprint says of its request.
use lab_bridge.Prelude.{
  ◌<◌, ◌≡◌, refl, sym, ap, ◌∙◌, ◌⊎◌, inl, inr, ◌≢◌, List, [], ◌++◌, map, Option, some, ok, Text,
  codes, All,
}
use lab_bridge.Server.Fingerprint.{
  RawFileManifestEntry, RawFileManifestRequest, file_values, manifest_values, manifest_fingerprint,
  append_all, or_default,
}
use lab_bridge.Server.Fingerprint.Encoding.{
  each_inj_all, each-normal, length-map, count-inj, or_default_idem, signed_decimal-inj, finish-inj,
}

-- An entry with its status spelled out.
unfoldable pub normal_file : RawFileManifestEntry → RawFileManifestEntry
normal_file file = record file { ingest_status = or_default file.ingest_status (codes "collected") }

-- A request without its idempotency key, with the status of each file spelled out.
unfoldable pub normal_manifest : RawFileManifestRequest → RawFileManifestRequest
normal_manifest request = record request {
  idempotency_key = [];
  files = map normal_file request.files;
}

file_values-inj :
    (x y : RawFileManifestEntry) (s t : List Text)
    → file_values x ++ s ≡ file_values y ++ t
    → (normal_file x ≡ normal_file y) × (s ≡ t)
unfolding file_values normal_file
file_values-inj x y s t e = let size = signed_decimal-inj x.size_bytes y.size_bytes cc in (cc, cc)

file_values-normal : (x : RawFileManifestEntry) → file_values (normal_file x) ≡ file_values x
unfolding file_values normal_file
file_values-normal x = rw (or_default_idem x.ingest_status (codes "collected")) refl

manifest_values-inj :
    (a b : RawFileManifestRequest)
    → manifest_values a ≡ manifest_values b
    → normal_manifest a ≡ normal_manifest b
unfolding manifest_values normal_manifest
manifest_values-inj a b e =
    let n = count-inj a.files b.files cc in
    let files = each_inj_all file_values normal_file file_values-inj a.files b.files n cc in cc

manifest_values-normal :
    (a : RawFileManifestRequest) → manifest_values (normal_manifest a) ≡ manifest_values a
unfolding manifest_values normal_manifest
manifest_values-normal a =
    rw
      (
        length-map normal_file a.files,
        each-normal file_values normal_file file_values-normal a.files,
      )
      refl

-- Two manifests that agree up to their idempotency keys, an empty status of a file read as
-- "collected", have the same fingerprint.
pub manifest_fingerprint-normal :
    (sha256 : Text → Option Text) (a b : RawFileManifestRequest)
    → normal_manifest a ≡ normal_manifest b
    → manifest_fingerprint sha256 a ≡ manifest_fingerprint sha256 b
unfolding manifest_fingerprint
manifest_fingerprint-normal sha256 a b e =
    let same = sym (manifest_values-normal a) ∙ ap manifest_values e ∙ manifest_values-normal b in
    cc

-- Where SHA-256 yields bytes, two manifests with the same fingerprint agree up to their
-- idempotency keys, an empty status of a file read as "collected", or else their two canonical
-- texts differ and SHA-256 collides on them.
pub manifest_fingerprint_inj :
    (sha256 : Text → Option Text)
    → ((s d : Text) → sha256 s ≡ some d → All (λ c. c < 256) d)
    → (a b : RawFileManifestRequest) (f : Text) → manifest_fingerprint sha256 a ≡ ok f
    → manifest_fingerprint sha256 b ≡ ok f
    → (normal_manifest a ≡ normal_manifest b)
      ⊎ ((append_all [] (manifest_values a) ≢ append_all [] (manifest_values b))
          × (sha256 (append_all [] (manifest_values a))
              ≡ sha256 (append_all [] (manifest_values b))))
unfolding manifest_fingerprint
manifest_fingerprint_inj sha256 is_bytes a b f ha hb =
    elim (finish-inj sha256 is_bytes (manifest_values a) (manifest_values b) f ha hb) [
      | inl e ↦ inl (manifest_values-inj a b e)
      | inr collision ↦ inr collision
    ]
