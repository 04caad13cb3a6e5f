-- ===== src/Server/ReportFiles/Allowed.antt =====
-- agent_report_service.cpp, `validate_failed_files`: which lists a report may carry.
use lab_bridge.Prelude.{
  subst, ◌≡◌, ◌≢◌, refl, ap, ◌↔◌, inl, inr, true, false, ◌||◌, List, [], ◌∷◌, Option, none, some,
  Text, codes, empty, All, text_eq, text_eq_sound, text_eq_refl, Bool-cases, Option-cases, arith,
  if◌then◌else◌,
}
use lab_bridge.Server.Models.{TaskRunStatus, RawFileRecord, TaskRunFailedFile, TaskRunRetryFile}
use lab_bridge.Server.Status.{Status, success, failure, invalid_argument}
use lab_bridge.Server.ReportFiles.{
  FailedFilesMessage, not_in_retry_list, repeated_source_path, is_succeeded, seen, find_target,
  target_of, is_foreign_path, is_archive_target, is_inherited, is_of_run, check_reference,
  check_files, validate_failed_files,
}

module _ (find_raw_file : Text → Option RawFileRecord) (task_run_id : Text)
    (retry_files : Option (List TaskRunRetryFile)) where
  -- What an entry may refer to: nothing, where its fixed input is not an archived file; a file that
  -- this run archived; or the archived file that its fixed input names.
  pub data Refers (failed : TaskRunFailedFile) : Type 0 where
    to_nothing :
        empty failed.archive_raw_file_id ≡ true
        → is_archive_target (target_of failed.source_path retry_files) ≡ false
        → Refers failed
    to_own :
        empty failed.archive_raw_file_id ≡ false
        → (raw_file : RawFileRecord) → find_raw_file failed.archive_raw_file_id ≡ some raw_file
        → raw_file.task_run_id ≡ task_run_id
        → Refers failed
    to_fixed :
        empty failed.archive_raw_file_id ≡ false
        → (target : TaskRunRetryFile) → target_of failed.source_path retry_files ≡ some target
        → target.input_type ≡ codes "archive"
        → target.archive_raw_file_id ≡ failed.archive_raw_file_id
        → Refers failed

  own_file :
      (o : Option RawFileRecord)
      → is_of_run task_run_id o ≡ true
      → (raw_file : RawFileRecord) × (o ≡ some raw_file) × (raw_file.task_run_id ≡ task_run_id)
  unfolding is_of_run
  own_file none h = cc
  own_file (some raw_file) h = (raw_file, refl, text_eq_sound raw_file.task_run_id task_run_id h)

  fixed_file :
      (o : Option TaskRunRetryFile) (id : Text)
      → is_inherited id o ≡ true
      → (target : TaskRunRetryFile) × (o ≡ some target)
        × (target.input_type ≡ codes "archive")
        × (target.archive_raw_file_id ≡ id)
  unfolding is_inherited
  fixed_file none id h = cc
  fixed_file (some target) id h = (
    target,
    refl,
    text_eq_sound target.input_type (codes "archive") (ground arith),
    text_eq_sound target.archive_raw_file_id id (ground arith),
  )

  check_reference-Refers :
      (failed : TaskRunFailedFile)
      → check_reference find_raw_file task_run_id retry_files failed ≡ success
      → Refers failed
  unfolding check_reference
  check_reference-Refers failed h = elim (Bool-cases (empty failed.archive_raw_file_id)) [
    | inl e ↦ to_nothing e (ground arith)
    | inr e ↦ elim (Bool-cases (is_of_run task_run_id (find_raw_file failed.archive_raw_file_id))) [
      | inl o ↦ let (raw_file, found, same) = own_file _ o in to_own e raw_file found same
      | inr o ↦
          let (target, found, t, same) =
            fixed_file (target_of failed.source_path retry_files) failed.archive_raw_file_id
              (ground arith) in
          to_fixed e target found t same
    ]
  ]

  own_of_run :
      (raw_file : RawFileRecord)
      → raw_file.task_run_id ≡ task_run_id
      → is_of_run task_run_id (some raw_file) ≡ true
  unfolding is_of_run
  own_of_run raw_file same = rw same (text_eq_refl task_run_id)

  inherited_target :
      (target : TaskRunRetryFile) (id : Text)
      → target.input_type ≡ codes "archive"
      → target.archive_raw_file_id ≡ id
      → is_inherited id (some target) ≡ true
  unfolding is_inherited
  inherited_target target id t same =
      rw (t, text_eq_refl (codes "archive"), same, text_eq_refl id) refl

  Refers-check_reference :
      (failed : TaskRunFailedFile)
      → Refers failed
      → check_reference find_raw_file task_run_id retry_files failed ≡ success
  unfolding check_reference
  Refers-check_reference failed (to_nothing e t) = rw e (rw t refl)
  Refers-check_reference failed (to_own e raw_file found same) =
      rw e (rw found (rw (own_of_run raw_file same) refl))
  Refers-check_reference failed (to_fixed e target found t same) =
      let i = inherited_target target failed.archive_raw_file_id t same in
      let f = ap (is_inherited failed.archive_raw_file_id) found in ground arith

  -- The path of an entry is one of the fixed list, where the run has one.
  pub IsFixed : TaskRunFailedFile → Option (List TaskRunRetryFile) → Type 0
  IsFixed failed none = Unit
  IsFixed failed (some files) =
      (target : TaskRunRetryFile) × (find_target failed.source_path files ≡ some target)

  is_foreign_path-IsFixed :
      (failed : TaskRunFailedFile) (o : Option (List TaskRunRetryFile))
      → is_foreign_path failed.source_path o ≡ false
      → IsFixed failed o
  unfolding is_foreign_path IsFixed
  is_foreign_path-IsFixed failed none h = tt
  is_foreign_path-IsFixed failed (some files) h =
      elim (Option-cases (find_target failed.source_path files)) [
        | inl e ↦ ground arith
        | inr (target, e) ↦ (target, e)
      ]

  IsFixed-is_foreign_path :
      (failed : TaskRunFailedFile) (o : Option (List TaskRunRetryFile))
      → IsFixed failed o
      → is_foreign_path failed.source_path o ≡ false
  unfolding is_foreign_path IsFixed
  IsFixed-is_foreign_path failed none h = refl
  IsFixed-is_foreign_path failed (some files) (target, e) = rw (e, is_foreign_path) refl

  abbrev Differ : TaskRunFailedFile → TaskRunFailedFile → Type 0
  Differ failed other = failed.source_path ≢ other.source_path

  abbrev pub DifferentPaths : List TaskRunFailedFile → Type 0
  DifferentPaths [] = Unit
  DifferentPaths (failed ∷ failed_files) =
      All (Differ failed) failed_files × DifferentPaths failed_files

  abbrev IsUnseen : List Text → TaskRunFailedFile → Type 0
  IsUnseen paths failed = seen failed.source_path paths ≡ false

  IsUnseen-Differ :
      (first : TaskRunFailedFile) (paths : List Text) (failed_files : List TaskRunFailedFile)
      → All (IsUnseen (first.source_path ∷ paths)) failed_files
      → All (Differ first) failed_files × All (IsUnseen paths) failed_files
  unfolding seen
  IsUnseen-Differ first paths [] h = (tt, tt)
  IsUnseen-Differ first paths (failed ∷ failed_files) (h, hs) =
      let (ds, us) = IsUnseen-Differ first paths failed_files hs in
      ((λ same. apart same h, ds), (ground arith, us))
    where
      apart :
          first.source_path ≡ failed.source_path
          → (text_eq first.source_path failed.source_path || seen failed.source_path paths) ≡ false
          → ⊥
      apart same h =
          let t =
            subst (λ p. text_eq first.source_path p ≡ true) same (text_eq_refl first.source_path) in
          ground arith

  Differ-IsUnseen :
      (first : TaskRunFailedFile) (paths : List Text) (failed_files : List TaskRunFailedFile)
      → All (Differ first) failed_files
      → All (IsUnseen paths) failed_files
      → All (IsUnseen (first.source_path ∷ paths)) failed_files
  unfolding seen
  Differ-IsUnseen first paths [] ds us = tt
  Differ-IsUnseen first paths (failed ∷ failed_files) (d, ds) (u, us) = (
    elim (Bool-cases (text_eq first.source_path failed.source_path)) [
      | inl e ↦ elim (d (text_eq_sound first.source_path failed.source_path e)) [ ]
      | inr e ↦ rw e u
    ],
    Differ-IsUnseen first paths failed_files ds us,
  )

  -- The conditions on a list.
  pub record AreAllowed (failed_files : List TaskRunFailedFile) : Type 0 where
    pub fixed : All (λ failed. IsFixed failed retry_files) failed_files
    pub refer : All Refers failed_files
    pub different : DifferentPaths failed_files

  check_files-conditions :
      (paths : List Text) (failed_files : List TaskRunFailedFile)
      → check_files find_raw_file task_run_id retry_files paths failed_files ≡ success
      → AreAllowed failed_files × All (IsUnseen paths) failed_files
  unfolding check_files
  check_files-conditions paths [] h = (record { fixed = tt; refer = tt; different = tt }, tt)
  check_files-conditions paths (failed ∷ failed_files) h =
      let r = first_success failed h in
      let (a, unseen) =
        check_files-conditions (failed.source_path ∷ paths) failed_files (rest_success failed h) in
      let (ds, us) = IsUnseen-Differ failed paths failed_files unseen in
      (
        record {
          fixed = (is_foreign_path-IsFixed failed retry_files (ground arith), a.fixed);
          refer = (check_reference-Refers failed r, a.refer);
          different = (ds, a.different);
        },
        (ground arith, us),
      )
    where
      chain : TaskRunFailedFile → Status FailedFilesMessage
      chain failed =
          if is_foreign_path failed.source_path retry_files
          then failure invalid_argument not_in_retry_list
          else if seen failed.source_path paths
          then failure invalid_argument repeated_source_path
          else elim (check_reference find_raw_file task_run_id retry_files failed) [
            | failure code message ↦ failure code message
            | success ↦
                check_files find_raw_file task_run_id retry_files (failed.source_path ∷ paths)
                  failed_files
          ]

      first_success :
          (failed : TaskRunFailedFile)
          → chain failed ≡ success
          → check_reference find_raw_file task_run_id retry_files failed ≡ success
      first_success failed h = ground arith

      rest_success :
          (failed : TaskRunFailedFile)
          → chain failed ≡ success
          → check_files find_raw_file task_run_id retry_files
              (failed.source_path ∷ paths)
              failed_files
            ≡ success
      rest_success failed h = ground arith

  conditions-check_files :
      (paths : List Text) (failed_files : List TaskRunFailedFile)
      → AreAllowed failed_files
      → All (IsUnseen paths) failed_files
      → check_files find_raw_file task_run_id retry_files paths failed_files ≡ success
  unfolding check_files
  conditions-check_files paths [] a unseen = refl
  conditions-check_files paths (failed ∷ failed_files) a (u, us) =
      rw (IsFixed-is_foreign_path failed retry_files (a.fixed.0)) (
        rw u (
          rw (Refers-check_reference failed (a.refer.0)) (
            conditions-check_files (failed.source_path ∷ paths) failed_files
              (record { fixed = a.fixed.1; refer = a.refer.1; different = a.different.1 })
              (Differ-IsUnseen failed paths failed_files (a.different.0) us))))

  nothing-IsUnseen : (failed_files : List TaskRunFailedFile) → All (IsUnseen []) failed_files
  unfolding seen
  nothing-IsUnseen [] = tt
  nothing-IsUnseen (failed ∷ failed_files) = (refl, nothing-IsUnseen failed_files)

  -- The list of failed files of a report is accepted exactly where a run that succeeded has none, no
  -- two entries name the same path, each path is one of the fixed inputs if the run has these, and
  -- each entry refers to nothing, unless its fixed input is an archived file, or to a file that the run
  -- archived, or to the archived file of its fixed input.
  pub validate_failed_files-AreAllowed :
      (status : TaskRunStatus) (failed_files : List TaskRunFailedFile)
      → (validate_failed_files find_raw_file task_run_id retry_files status failed_files ≡ success)
        ↔ ((is_succeeded status ≡ true → failed_files ≡ []) × AreAllowed failed_files)
  unfolding validate_failed_files
  validate_failed_files-AreAllowed status [] = (
    λ h. (λ _. refl, (check_files-conditions [] [] h).0),
    λ (e, a). conditions-check_files [] [] a tt,
  )
  validate_failed_files-AreAllowed status (failed ∷ failed_files) = (
    λ h. (λ e. ground arith, (check_files-conditions [] (failed ∷ failed_files) (ground arith)).0),
    λ (e, a). elim (Bool-cases (is_succeeded status)) [
      | inl s ↦ cc (e s)
      | inr s ↦ rw s (
          conditions-check_files [] (failed ∷ failed_files) a
            (nothing-IsUnseen (failed ∷ failed_files)))
    ],
  )
