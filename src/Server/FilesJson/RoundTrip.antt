-- ===== src/Server/FilesJson/RoundTrip.antt =====
-- task_run_files_json.cpp: what is written is read back.
use lab_bridge.Prelude.{
  ℕ, ◌%◌, ◌<◌, ◌≡◌, refl, Bool, true, false, not, ◌&&◌, List, [], ◌∷◌, Option, none, some, Outcome,
  ok, err, Text, empty, text_eq, if◌then◌else◌, arith, all, All, Bool-cases, inl, inr,
}
use lab_bridge.Prelude.Int.{ℤ, pos, negsuc}
use lab_bridge.Json.{Json, integer, array, find_field, find_member, string_of, is_object}
use lab_bridge.Server.Models.{TaskRunFailedFile, TaskRunRetryFile}
use lab_bridge.Server.FilesJson.{
  FileThrow, unknown_input_type, not_a_size, encode_failed_file, encode_retry_file, required_string,
  to_long_long, size_of, required_size, decode_failed_file, is_input_type, decode_retry_file,
  items_of, decode_items, decode_array, caught, parse_files, parse_failed_files_json,
  to_retry_files_json, parse_retry_files_json,
}

decode-encode_failed_file :
    (file : TaskRunFailedFile) → decode_failed_file (encode_failed_file file) ≡ ok file
unfolding decode_failed_file encode_failed_file required_string string_of find_field find_member
    is_object text_eq
decode-encode_failed_file file = refl

-- A size as `long long` holds it, if it is not negative.
abbrev pub IsLongLong : ℤ → Type 0
IsLongLong (pos n) = n < 9223372036854775808
IsLongLong (negsuc n) = n < 9223372036854775808

abbrev pub not_negative : ℤ → Bool
not_negative (pos n) = true
not_negative (negsuc n) = false

-- An entry that a reader accepts.
unfoldable pub is_retry_input : TaskRunRetryFile → Bool
is_retry_input file = is_input_type file.input_type && not_negative file.size_bytes

mod_small : (n : ℕ) → n < 9223372036854775808 → n % 18446744073709551616 ≡ n
mod_small n h = omega arith

size_of-encoded :
    (z : ℤ)
    → IsLongLong z
    → size_of (some (integer z)) ≡ (if not_negative z then ok z else err not_a_size)
unfolding size_of to_long_long
size_of-encoded (pos n) h = let m = mod_small n h in rw m (ground arith)
size_of-encoded (negsuc n) h = refl

decode-encode_retry_file :
    (file : TaskRunRetryFile)
    → IsLongLong file.size_bytes
    → decode_retry_file (encode_retry_file file) ≡ (
        if not (is_input_type file.input_type)
        then err unknown_input_type
        else if not_negative file.size_bytes
        then ok file
        else err not_a_size)
unfolding decode_retry_file encode_retry_file required_string required_size string_of find_field
    find_member is_object text_eq
decode-encode_retry_file file h = elim (Bool-cases (is_input_type file.input_type)) [
  | inr e ↦ rw e refl
  | inl e ↦ rw e (
      rw (size_of-encoded file.size_bytes h) (elim (Bool-cases (not_negative file.size_bytes)) [
        | inl p ↦ rw p refl
        | inr p ↦ rw p refl
      ]))
]

abbrev outcome_of : TaskRunRetryFile → Outcome FileThrow TaskRunRetryFile
outcome_of file =
    if not (is_input_type file.input_type)
    then err unknown_input_type
    else if not_negative file.size_bytes
    then ok file
    else err not_a_size

decode_items-failed_files :
    (files : List TaskRunFailedFile)
    → decode_items decode_failed_file (items_of encode_failed_file files) ≡ ok files
unfolding decode_items items_of
decode_items-failed_files [] = refl
decode_items-failed_files (file ∷ files) =
    rw (decode-encode_failed_file file) (rw (decode_items-failed_files files) refl)

decode_items-retry_files :
    (files : List TaskRunRetryFile)
    → All (λ file. IsLongLong file.size_bytes) files
    → caught (decode_items decode_retry_file (items_of encode_retry_file files))
      ≡ (if all is_retry_input files then some files else none)
unfolding decode_items items_of is_retry_input
decode_items-retry_files [] h = refl
decode_items-retry_files (file ∷ files) (h, hs) =
    let one = decode-encode_retry_file file h in
    let rest = decode_items-retry_files files hs in ground arith

module _ (parse : Text → Option Json) (dump : Json → Text) where
  -- A text that reads as the list was written.
  pub read_failed_files :
      (text : Text) (files : List TaskRunFailedFile)
      → empty text ≡ false
      → parse text ≡ some (array (items_of encode_failed_file files))
      → parse_failed_files_json parse dump text ≡ some files
  unfolding parse_failed_files_json parse_files decode_array
  read_failed_files text files t p = rw t (rw p (rw (decode_items-failed_files files) refl))

  -- A list of fixed inputs is read back as it was written if each is an archived file or a source and
  -- no size is negative, and is not read at all if one is not; where the library reads the array that
  -- it printed, into a text that is not empty.
  pub parse_retry_files_json-to_retry_files_json :
      (files : List TaskRunRetryFile)
      → All (λ file. IsLongLong file.size_bytes) files
      → empty (dump (array (items_of encode_retry_file files))) ≡ false
      → parse (dump (array (items_of encode_retry_file files)))
        ≡ some (array (items_of encode_retry_file files))
      → parse_retry_files_json parse dump (to_retry_files_json parse dump files)
        ≡ (if all is_retry_input files then some files else none)
  unfolding parse_retry_files_json to_retry_files_json parse_files decode_array
  parse_retry_files_json-to_retry_files_json files h t p =
      rw t (rw p (decode_items-retry_files files h))
