-- ===== src/Server/FilesJson.antt =====
-- server/src/application/task_run_files_json.cpp: the lists of files of a run as JSON text. The
-- library's `Json::parse` (nothing where it throws) and `dump` are parameters; `dump` throws only on
-- text that is not UTF-8, which no text of a request is. The members of an object stand in the order
-- of their names, as the library keeps them, and an integer that is not negative is read as unsigned.
pub mod RoundTrip
mod Samples
use lab_bridge.Prelude.{
  ℕ, ◌-◌, ◌%◌, ◌==◌, Bool, true, false, not, ◌&&◌, ◌||◌, List, [], ◌∷◌, Option, none, some, Outcome,
  ok, err, ◌>>=◌, Text, codes, empty, text_eq, ltb, if◌then◌else◌,
}
use lab_bridge.Prelude.Int.{ℤ, pos, negsuc}
use lab_bridge.Json.{
  Json, Items, Members, string, integer, array, object, no_items, item, no_members, member,
  find_field, string_of, is_object,
}
use lab_bridge.Server.Models.{TaskRunFailedFile, TaskRunRetryFile}
use lab_bridge.Server.TaskRuns.Repository.{FilesJson}

-- What the readers throw or give up on; all of it is caught.
pub data FileThrow : Type 0 where
  not_json not_an_array not_an_object not_a_string not_a_size unknown_input_type : FileThrow

unfoldable pub encode_failed_file : TaskRunFailedFile → Json
encode_failed_file file = object (
    member (codes "archive_raw_file_id") (string file.archive_raw_file_id) (
      member (codes "message") (string file.message) (
        member (codes "original_name") (string file.original_name) (
          member (codes "source_path") (string file.source_path)
            (member (codes "stage") (string file.stage) no_members)))))

unfoldable pub encode_retry_file : TaskRunRetryFile → Json
encode_retry_file file = object (
    member (codes "archive_raw_file_id") (string file.archive_raw_file_id) (
      member (codes "file_hash") (string file.file_hash) (
        member (codes "input_type") (string file.input_type) (
          member (codes "original_name") (string file.original_name) (
            member (codes "size_bytes") (integer file.size_bytes) (
              member (codes "source_mtime") (string file.source_mtime) (
                member (codes "source_path") (string file.source_path)
                  (member (codes "storage_path") (string file.storage_path) no_members))))))))

unfoldable pub required_string : Json → Text → Outcome FileThrow Text
required_string payload field = elim (string_of (find_field field payload)) [
  | none ↦ err not_a_string
  | some value ↦ ok value
]

-- The conversion of an unsigned 64-bit number to `long long`.
unfoldable pub to_long_long : ℕ → ℤ
to_long_long n =
    if ltb (n % 18446744073709551616) 9223372036854775808
    then pos (n % 18446744073709551616)
    else negsuc (18446744073709551615 - n % 18446744073709551616)

unfoldable pub size_of : Option Json → Outcome FileThrow ℤ
unfolding to_long_long
size_of (some (integer (pos n))) = ok (to_long_long n)
size_of _ = err not_a_size

unfoldable pub required_size : Json → Outcome FileThrow ℤ
unfolding size_of
required_size payload = size_of (find_field (codes "size_bytes") payload)

-- The body of the loop of `parse_failed_files_json`.
unfoldable pub decode_failed_file : Json → Outcome FileThrow TaskRunFailedFile
decode_failed_file payload =
    if not (is_object payload)
    then err not_an_object
    else (required_string payload (codes "source_path") >>= λ source_path.
        required_string payload (codes "original_name") >>= λ original_name.
        required_string payload (codes "stage") >>= λ stage.
        required_string payload (codes "message") >>= λ message.
        required_string payload (codes "archive_raw_file_id") >>= λ archive_raw_file_id.
        ok (record {
          source_path = source_path;
          original_name = original_name;
          stage = stage;
          message = message;
          archive_raw_file_id = archive_raw_file_id;
        }))

unfoldable pub is_input_type : Text → Bool
is_input_type input_type =
    text_eq input_type (codes "archive") || text_eq input_type (codes "source")

-- The body of the loop of `parse_retry_files_json`.
unfoldable pub decode_retry_file : Json → Outcome FileThrow TaskRunRetryFile
decode_retry_file payload =
    if not (is_object payload)
    then err not_an_object
    else (required_string payload (codes "input_type") >>= λ input_type.
        if not (is_input_type input_type)
        then err unknown_input_type
        else (required_string payload (codes "source_path") >>= λ source_path.
            required_string payload (codes "original_name") >>= λ original_name.
            required_string payload (codes "archive_raw_file_id") >>= λ archive_raw_file_id.
            required_string payload (codes "storage_path") >>= λ storage_path.
            required_size payload >>= λ size_bytes.
            required_string payload (codes "file_hash") >>= λ file_hash.
            required_string payload (codes "source_mtime") >>= λ source_mtime. ok (record {
              input_type = input_type;
              source_path = source_path;
              original_name = original_name;
              archive_raw_file_id = archive_raw_file_id;
              storage_path = storage_path;
              size_bytes = size_bytes;
              file_hash = file_hash;
              source_mtime = source_mtime;
            })))

module _ {A : Type 0} where
  -- The loops of the writers and of the readers.
  unfoldable pub items_of : (A → Json) → List A → Items
  items_of encode [] = no_items
  items_of encode (file ∷ files) = item (encode file) (items_of encode files)

  unfoldable pub decode_items : (Json → Outcome FileThrow A) → Items → Outcome FileThrow (List A)
  decode_items decode no_items = ok []
  decode_items decode (item value rest) =
      decode value >>= λ file. decode_items decode rest >>= λ files. ok (file ∷ files)

  unfoldable pub decode_array : (Json → Outcome FileThrow A) → Json → Outcome FileThrow (List A)
  decode_array decode (array items) = decode_items decode items
  decode_array decode _ = err not_an_array

  -- The try block: a throw becomes nothing.
  abbrev pub caught : Outcome FileThrow (List A) → Option (List A)
  caught (ok files) = some files
  caught (err e) = none

  unfoldable pub parse_files :
      (Text → Option Json) → (Json → Outcome FileThrow A) → Text → Option (List A)
  parse_files parse decode json =
      if empty json
      then none
      else caught
          (elim (parse json) [ none ↦ err not_json | some payload ↦ decode_array decode payload ])

-- The functions of the file.
module _ (parse : Text → Option Json) (dump : Json → Text) where
  unfoldable pub to_failed_files_json : List TaskRunFailedFile → Text
  to_failed_files_json files = dump (array (items_of encode_failed_file files))

  unfoldable pub parse_failed_files_json : Text → Option (List TaskRunFailedFile)
  parse_failed_files_json = parse_files parse decode_failed_file

  unfoldable pub to_retry_files_json : List TaskRunRetryFile → Text
  to_retry_files_json files = dump (array (items_of encode_retry_file files))

  unfoldable pub parse_retry_files_json : Text → Option (List TaskRunRetryFile)
  parse_retry_files_json = parse_files parse decode_retry_file

  abbrev pub files_json : FilesJson
  files_json = record {
    to_failed_files_json = to_failed_files_json;
    parse_failed_files_json = parse_failed_files_json;
    to_retry_files_json = to_retry_files_json;
    parse_retry_files_json = parse_retry_files_json;
  }
