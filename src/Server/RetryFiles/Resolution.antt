-- ===== src/Server/RetryFiles/Resolution.antt =====
-- task_run_service.cpp, `resolve_retry_files`: which inputs are accepted, and what is fixed of them.
use mathlib.Core.List.{append_assoc, append-nil}
use lab_bridge.Prelude.{
  subst, ◌≡◌, refl, sym, ap, ◌∙◌, ◌↔◌, inl, inr, true, false, ◌||◌, List, [], ◌∷◌, ◌++◌, Option,
  some, ok, bind-ok, Text, empty, text_eq, text_eq_sound, text_eq_refl, if◌then◌else◌, Bool-cases,
  Option-cases, arith,
}
use lab_bridge.Server.Models.{TaskRunFailedFile, TaskRunRecord, RawFileRecord, TaskRunRetryFile}
use lab_bridge.Server.RetryFiles.{
  source_file, archive_file, is_other_task, resolve_archive, resolve_file, resolve_from,
  resolve_retry_files,
}

module _ (find_raw_file : Text → Option RawFileRecord)
    (find_by_id : Text → Option TaskRunRecord) where
  -- An archived file of the node of the parent run and of its task, with its metadata.
  pub record IsArchived (parent_run : TaskRunRecord) (file : TaskRunFailedFile)
      (raw_file : RawFileRecord) : Type 0 where
    pub found : find_raw_file file.archive_raw_file_id ≡ some raw_file
    pub same_node : raw_file.node_code ≡ parent_run.node_code
    pub raw_run : TaskRunRecord
    pub run_found : find_by_id raw_file.task_run_id ≡ some raw_run
    pub same_task : raw_run.task_id ≡ parent_run.task_id
    pub stored : empty raw_file.storage_path ≡ false
    pub hashed : empty raw_file.file_hash ≡ false

  -- What a retry reads for a failed file: its archived content, or its source if none was archived.
  pub data Resolved (parent_run : TaskRunRecord) (file : TaskRunFailedFile)
      : TaskRunRetryFile → Type 0 where
    from_source :
        empty file.archive_raw_file_id ≡ true → Resolved parent_run file (source_file file)
    from_archive :
        {raw_file : RawFileRecord}
        → empty file.archive_raw_file_id ≡ false
        → IsArchived parent_run file raw_file
        → Resolved parent_run file (archive_file file raw_file)

  -- One input for each failed file, in order, each of which names its path and its file.
  abbrev pub AllResolved : TaskRunRecord → List TaskRunFailedFile → List TaskRunRetryFile → Type 0
  AllResolved parent_run [] [] = Unit
  AllResolved parent_run [] (x ∷ xs) = ⊥
  AllResolved parent_run (file ∷ files) [] = ⊥
  AllResolved parent_run (file ∷ files) (x ∷ xs) =
      (empty file.source_path ≡ false)
      × (empty file.original_name ≡ false)
      × Resolved parent_run file x
      × AllResolved parent_run files xs

module _ (find_raw_file : Text → Option RawFileRecord)
    (find_by_id : Text → Option TaskRunRecord) where
  same_task_run :
      (parent_run : TaskRunRecord) (task_run_id : Text)
      → is_other_task find_raw_file find_by_id parent_run task_run_id ≡ false
      → (raw_run : TaskRunRecord) × (find_by_id task_run_id ≡ some raw_run)
        × (raw_run.task_id ≡ parent_run.task_id)
  unfolding is_other_task
  same_task_run parent_run task_run_id h = elim (Option-cases (find_by_id task_run_id)) [
    | inl e ↦ ground arith
    | inr (raw_run, e) ↦
        (raw_run, e, text_eq_sound raw_run.task_id parent_run.task_id (ground arith))
  ]

  other_task_run :
      (parent_run raw_run : TaskRunRecord) (task_run_id : Text)
      → find_by_id task_run_id ≡ some raw_run
      → raw_run.task_id ≡ parent_run.task_id
      → is_other_task find_raw_file find_by_id parent_run task_run_id ≡ false
  unfolding is_other_task
  other_task_run parent_run raw_run task_run_id e same =
      rw (e, is_other_task) (rw (same, text_eq_refl parent_run.task_id) refl)

  resolve_archive_sound :
      (parent_run : TaskRunRecord) (file : TaskRunFailedFile) (raw_file : RawFileRecord)
      (x : TaskRunRetryFile)
      → find_raw_file file.archive_raw_file_id ≡ some raw_file
      → resolve_archive find_raw_file find_by_id parent_run file (some raw_file) ≡ ok x
      → IsArchived find_raw_file find_by_id parent_run file raw_file
        × (x ≡ archive_file file raw_file)
  unfolding resolve_archive
  resolve_archive_sound parent_run file raw_file x found h =
      elim (Bool-cases (text_eq raw_file.node_code parent_run.node_code)) [
        | inr n ↦ ground arith
        | inl n ↦
            elim (Bool-cases
              (is_other_task find_raw_file find_by_id parent_run raw_file.task_run_id)) [
                | inl t ↦ ground arith
                | inr t ↦
                    let (raw_run, e, same) = same_task_run parent_run raw_file.task_run_id t in
                    (
                      record {
                        found = found;
                        same_node = text_eq_sound raw_file.node_code parent_run.node_code n;
                        raw_run = raw_run;
                        run_found = e;
                        same_task = same;
                        stored = ground arith;
                        hashed = ground arith;
                      },
                      ground arith,
                    )
              ]
      ]

  resolve_archive_complete :
      (parent_run : TaskRunRecord) (file : TaskRunFailedFile) (raw_file : RawFileRecord)
      → IsArchived find_raw_file find_by_id parent_run file raw_file
      → resolve_archive find_raw_file find_by_id parent_run file
          (find_raw_file file.archive_raw_file_id)
        ≡ ok (archive_file file raw_file)
  unfolding resolve_archive
  resolve_archive_complete parent_run file raw_file a =
      let other =
        other_task_run parent_run a.raw_run raw_file.task_run_id a.run_found a.same_task in
      let node =
        subst (λ n. text_eq raw_file.node_code n ≡ true) a.same_node
          (text_eq_refl raw_file.node_code) in
      rw (a.found) (rw node (rw other (rw (a.stored) (rw (a.hashed) refl))))

  -- The part of `resolve_file` behind the check of the names.
  named_file :
      (parent_run : TaskRunRecord) (file : TaskRunFailedFile) (x : TaskRunRetryFile)
      → (if empty file.archive_raw_file_id
          then ok (source_file file)
          else resolve_archive find_raw_file find_by_id parent_run file
              (find_raw_file file.archive_raw_file_id))
        ≡ ok x
      → Resolved find_raw_file find_by_id parent_run file x
  unfolding resolve_archive
  named_file parent_run file x h = elim (Bool-cases (empty file.archive_raw_file_id)) [
    | inl e ↦
        subst (Resolved find_raw_file find_by_id parent_run file) (ground arith) (from_source e)
    | inr e ↦ elim (Option-cases (find_raw_file file.archive_raw_file_id)) [
      | inl f ↦ ground arith
      | inr (raw_file, f) ↦
          let (a, same) = resolve_archive_sound parent_run file raw_file x f (ground arith) in
          subst (Resolved find_raw_file find_by_id parent_run file) (sym same) (from_archive e a)
    ]
  ]

  resolve_file-Resolved :
      (parent_run : TaskRunRecord) (file : TaskRunFailedFile) (x : TaskRunRetryFile)
      → resolve_file find_raw_file find_by_id parent_run file ≡ ok x
      → (empty file.source_path ≡ false)
        × (empty file.original_name ≡ false)
        × Resolved find_raw_file find_by_id parent_run file x
  unfolding resolve_file resolve_archive
  resolve_file-Resolved parent_run file x h =
      elim (Bool-cases (empty file.source_path || empty file.original_name)) [
        | inl e ↦ ground arith
        | inr e ↦ (ground arith, ground arith, named_file parent_run file x (ground arith))
      ]

  Resolved-resolve_file :
      (parent_run : TaskRunRecord) (file : TaskRunFailedFile) (x : TaskRunRetryFile)
      → empty file.source_path ≡ false
      → empty file.original_name ≡ false
      → Resolved find_raw_file find_by_id parent_run file x
      → resolve_file find_raw_file find_by_id parent_run file ≡ ok x
  unfolding resolve_file
  Resolved-resolve_file parent_run file x p n (from_source e) = rw (p) (rw (n) (rw e refl))
  Resolved-resolve_file parent_run file x p n (from_archive {raw_file} e a) =
      rw (p) (rw (n) (rw e (resolve_archive_complete parent_run file raw_file a)))

  resolve_from-AllResolved :
      (parent_run : TaskRunRecord) (before : List TaskRunRetryFile) (files : List TaskRunFailedFile)
      (all_files : List TaskRunRetryFile)
      → resolve_from find_raw_file find_by_id parent_run before files ≡ ok all_files
      → (xs : List TaskRunRetryFile) × (all_files ≡ before ++ xs)
        × AllResolved find_raw_file find_by_id parent_run files xs
  unfolding resolve_from
  resolve_from-AllResolved parent_run before [] all_files h =
      let e = sym (append-nil before) in ([], cc, tt)
  resolve_from-AllResolved parent_run before (file ∷ files) all_files h =
      let record { value = x; first = one; second = rest } =
        bind-ok (λ x. resolve_from find_raw_file find_by_id parent_run (before ++ x ∷ []) files)
          (resolve_file find_raw_file find_by_id parent_run file) h in
      let (p, n, r) = resolve_file-Resolved parent_run file x one in
      let (xs, e, rs) =
        resolve_from-AllResolved parent_run (before ++ x ∷ []) files all_files rest in
      (x ∷ xs, e ∙ append_assoc before (x ∷ []) xs, (p, n, r, rs))

  AllResolved-resolve_from :
      (parent_run : TaskRunRecord) (before : List TaskRunRetryFile) (files : List TaskRunFailedFile)
      (xs : List TaskRunRetryFile)
      → AllResolved find_raw_file find_by_id parent_run files xs
      → resolve_from find_raw_file find_by_id parent_run before files ≡ ok (before ++ xs)
  unfolding resolve_from
  AllResolved-resolve_from parent_run before [] [] _ = ap ok (sym (append-nil before))
  AllResolved-resolve_from parent_run before [] (x ∷ xs) h = elim h [ ]
  AllResolved-resolve_from parent_run before (file ∷ files) [] h = elim h [ ]
  AllResolved-resolve_from parent_run before (file ∷ files) (x ∷ xs) (p, n, r, rs) =
      rw (Resolved-resolve_file parent_run file x p n r) (
        AllResolved-resolve_from parent_run (before ++ x ∷ []) files xs rs
        ∙ ap ok (append_assoc before (x ∷ []) xs))

  -- The inputs of a retry are resolved exactly where every failed file names its path and its file
  -- and, if it was archived, the archived file is known, belongs to the node of the parent run and to
  -- a run of its task, and has its metadata. They are then one input for each failed file, in order:
  -- the archived content, or the source of a file that was not archived.
  pub resolve_retry_files-AllResolved :
      (parent_run : TaskRunRecord) (failed_files : List TaskRunFailedFile)
      (retry_files : List TaskRunRetryFile)
      → (resolve_retry_files find_raw_file find_by_id parent_run failed_files ≡ ok retry_files)
        ↔ AllResolved find_raw_file find_by_id parent_run failed_files retry_files
  unfolding resolve_retry_files
  resolve_retry_files-AllResolved parent_run failed_files retry_files = (
    λ h.
        let (xs, e, r) = resolve_from-AllResolved parent_run [] failed_files retry_files h in
        subst (AllResolved find_raw_file find_by_id parent_run failed_files) (sym e) r,
    AllResolved-resolve_from parent_run [] failed_files retry_files,
  )
