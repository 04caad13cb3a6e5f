-- ===== src/Server/Fingerprint/Samples.antt =====
-- Tests of the fingerprints, and the theorems at concrete inputs. `plain_digest` stands for the
-- digest: the bytes of the text themselves.
use lab_bridge.Prelude.{
  to_decimal, ◌%◌, ◌<◌, ◌≡◌, refl, ◌⊎◌, ◌≢◌, false, List, [], ◌∷◌, Option, some, ok, Text, codes,
  All, map, subst, arith,
}
use lab_bridge.Prelude.Int.{pos, negsuc}
use lab_bridge.Server.Models.{TaskRunFailedFile, succeeded}
use lab_bridge.Server.Fingerprint.{
  RawFileManifestEntry, RawFileManifestRequest, TaskRunReportRequest, TaskRunReportParsedRecord,
  manifest_values, manifest_fingerprint, report_values, report_fingerprint, append_all, append,
  hex_text, finish, file_values, or_default, signed_decimal,
}
use lab_bridge.Server.Fingerprint.Manifest.{
  normal_manifest, normal_file, manifest_fingerprint-normal, manifest_fingerprint_inj,
}
use lab_bridge.Server.Fingerprint.Report.{
  normal_report, normal_parsed, report_fingerprint-normal, report_fingerprint_inj,
}

abbrev plain_digest : Text → Option Text
plain_digest s = some (map (λ c. c % 256) s)

map_bytes : (s : Text) → All (λ c. c < 256) (map (λ c. c % 256) s)
map_bytes [] = tt
map_bytes (c ∷ s) = (omega arith, map_bytes s)

some_inj : (s t : Text) → some s ≡ some t → s ≡ t
some_inj s t e = cc

plain_digest_bytes : (s d : Text) → plain_digest s ≡ some d → All (λ c. c < 256) d
plain_digest_bytes s d e =
    subst (λ t. All (λ c. c < 256) t) (some_inj (map (λ c. c % 256) s) d e) (map_bytes s)

abbrev entry : Text → RawFileManifestEntry
entry status = record {
  original_name = codes "a.csv";
  file_hash = codes "ff";
  storage_path = codes "x/a.csv";
  size_bytes = negsuc 11;
  source_mtime = [];
  ingest_status = status;
}

abbrev manifest : Text → Text → RawFileManifestRequest
manifest key status = record {
  task_run_id = codes "7";
  node_code = codes "n1";
  idempotency_key = key;
  files = entry status ∷ [];
}

file_text : append_all [] (file_values (entry [])) ≡ codes "5:a.csv2:ff7:x/a.csv3:-120:9:collected"
unfolding append_all append file_values or_default signed_decimal to_decimal
file_text = refl

hexadecimal : hex_text (0 ∷ 171 ∷ 255 ∷ []) ≡ codes "00abff"
unfolding hex_text
hexadecimal = refl

same_manifest :
    normal_manifest (manifest (codes "k1") [])
    ≡ normal_manifest (manifest (codes "k2") (codes "collected"))
unfolding normal_manifest normal_file or_default
same_manifest = refl

manifest_fingerprint-normal_example :
    manifest_fingerprint plain_digest (manifest (codes "k1") [])
    ≡ manifest_fingerprint plain_digest (manifest (codes "k2") (codes "collected"))
manifest_fingerprint-normal_example =
    manifest_fingerprint-normal plain_digest (manifest (codes "k1") [])
      (manifest (codes "k2") (codes "collected")) same_manifest

abbrev manifest_text : Text
manifest_text = hex_text (map (λ c. c % 256) (append_all [] (manifest_values (manifest [] []))))

manifest_found :
    (key : Text) → manifest_fingerprint plain_digest (manifest key []) ≡ ok manifest_text
unfolding manifest_fingerprint finish manifest_values
manifest_found key = refl

manifest_fingerprint_inj_example :
    (normal_manifest (manifest (codes "k1") []) ≡ normal_manifest (manifest (codes "k2") []))
    ⊎ ((append_all [] (manifest_values (manifest (codes "k1") []))
          ≢ append_all [] (manifest_values (manifest (codes "k2") [])))
        × (plain_digest (append_all [] (manifest_values (manifest (codes "k1") [])))
            ≡ plain_digest (append_all [] (manifest_values (manifest (codes "k2") [])))))
manifest_fingerprint_inj_example =
    manifest_fingerprint_inj plain_digest plain_digest_bytes (manifest (codes "k1") [])
      (manifest (codes "k2") []) manifest_text (manifest_found (codes "k1"))
      (manifest_found (codes "k2"))

abbrev parsed_item : Text → TaskRunReportParsedRecord
parsed_item status = record {
  raw_file_id = codes "3";
  parsed = record {
    station_code = codes "s1";
    device_code = codes "d1";
    record_time = codes "2024-02-29";
    payload_json = codes "{}";
  };
  parse_status = status;
  qc_results =
      record {
        qc_rule_id = codes "1";
        level = codes "warning";
        result = codes "failed";
        message = [];
      }
      ∷ [];
}

abbrev failed_item : TaskRunFailedFile
failed_item = record {
  source_path = codes "in/b.csv";
  original_name = codes "b.csv";
  stage = codes "parse";
  message = [];
  archive_raw_file_id = [];
}

-- A report with one record and a list of failed files that is not sent.
abbrev report : Text → Text → List TaskRunFailedFile → TaskRunReportRequest
report key status files = record {
  task_run_id = codes "7";
  node_code = codes "n1";
  idempotency_key = key;
  status = succeeded;
  finished_at = codes "2024-02-29T00:00:00Z";
  items_total = pos 1;
  items_success = pos 1;
  items_failed = pos 0;
  error_summary = [];
  parsed_records = parsed_item status ∷ [];
  has_failed_files = false;
  failed_files = files;
}

same_report :
    normal_report (report (codes "k1") [] [])
    ≡ normal_report (report (codes "k2") (codes "parsed") (failed_item ∷ []))
unfolding normal_report normal_parsed or_default
same_report = refl

report_fingerprint-normal_example :
    report_fingerprint plain_digest (report (codes "k1") [] [])
    ≡ report_fingerprint plain_digest (report (codes "k2") (codes "parsed") (failed_item ∷ []))
report_fingerprint-normal_example =
    report_fingerprint-normal plain_digest (report (codes "k1") [] [])
      (report (codes "k2") (codes "parsed") (failed_item ∷ [])) same_report

abbrev report_text : Text
report_text = hex_text (map (λ c. c % 256) (append_all [] (report_values (report [] [] []))))

report_found : (key : Text) → report_fingerprint plain_digest (report key [] []) ≡ ok report_text
unfolding report_fingerprint finish report_values
report_found key = refl

report_fingerprint_inj_example :
    (normal_report (report (codes "k1") [] []) ≡ normal_report (report (codes "k2") [] []))
    ⊎ ((append_all [] (report_values (report (codes "k1") [] []))
          ≢ append_all [] (report_values (report (codes "k2") [] [])))
        × (plain_digest (append_all [] (report_values (report (codes "k1") [] [])))
            ≡ plain_digest (append_all [] (report_values (report (codes "k2") [] [])))))
report_fingerprint_inj_example =
    report_fingerprint_inj plain_digest plain_digest_bytes (report (codes "k1") [] [])
      (report (codes "k2") [] []) report_text (report_found (codes "k1"))
      (report_found (codes "k2"))
