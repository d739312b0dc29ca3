-- ===== src/Workspace/Store/Invariant.antt =====
-- The store of src/workspace.rs under `import_artifact_bytes`, whatever the system answers: objects
-- keep hashing to their names, and nothing that is stored is replaced or changed.
use evidence_workbench.Prelude.{
  Checked, ◌++◌, ◌≡◌, refl, sym, ◌∙◌, ap, inl, inr, List, [], ◌∷◌, append-nil, ok, err, panic,
  diverge, arith, Bool-cases, subst, length,
}
use evidence_workbench.Text.{Text, lit}
use evidence_workbench.Contracts.Run.{ArtifactDescriptor, ArtifactRecord}
use evidence_workbench.Workspace.Disk.{object, temporary, record_file, Disk, same_path}
use evidence_workbench.Workspace.Disk.Calls.{SameFiles-refl, same_path_eq, some_inj}
use evidence_workbench.Workspace.Objects.{commit_content_object}
use evidence_workbench.Workspace.Objects.Commit.{commit_shifts}
use evidence_workbench.Workspace.Objects.Shifts.{Shifted-of_Moved}
use evidence_workbench.Workspace.Steps.{Step, follow, check}
use evidence_workbench.Workspace.Store.{
  validate_storage_sha256, describe, commit_and_describe, validate_artifact_capture_contract,
  record_of, validate_storage_id, validate_real_dir, ensure_real_dir, validate_layout_shallow,
  object_path, write_temporary, record_temporary, artifact_path, publish_record, write_json_atomic,
  write_artifact_record, import_artifact_bytes,
}
use evidence_workbench.Workspace.Store.Kept.{
  follow_keeps, Sound, Grown, Keeps, Keeps-trans, Keeps-of_same, Keeps-of_shifted, sequence_keeps,
  not_temporary,
}
use evidence_workbench.Workspace.Store.Written.{
  Written-then_same, joined, Written, write_temporary_cases,
}
use evidence_workbench.Workspace.Store.Records.{
  validate_real_dir_same, ensure_real_dir_same, publish_record_cases,
}

module _ (sha : Text → Text) where
  pub Keeps-of_written :
      (name content : Text) {d d' : Disk} → Written (temporary name) content d d' → Keeps sha d d'
  Keeps-of_written name content {d = d} {d' = d'} w s = (
    record {
      numbered = λ p i h. elim (Bool-cases (same_path p (temporary name))) [
        | inl k ↦ ground (
          arith,
          w.next_inode,
          some_inj (sym w.at ∙ (sym (ap d'.names (same_path_eq p (temporary name) k)) ∙ h)),
        )
        | inr k ↦ ground (arith, w.next_inode, s.numbered p i (sym (w.elsewhere p k) ∙ h))
      ];
      content = λ digest i h.
          let before =
            sym (w.elsewhere (object digest) (not_temporary (object digest) name refl)) ∙ h in
          ap sha (w.bytes i (ground (arith, s.numbered (object digest) i before)))
          ∙ s.content digest i before;
    },
    record {
      kept = λ p i h k. w.elsewhere p (not_temporary p name h) ∙ k;
      bytes = λ i h. w.bytes i (ground (arith, h));
      grown = ground (arith, w.next_inode);
    },
  )

  object_inj : {a b : Text} → object a ≡ object b → a ≡ b
  object_inj h = cc

  same : (d : Disk) → Keeps sha d d
  same d = Keeps-of_same sha (SameFiles-refl d)

  write_temporary_keeps :
      (name : Text) (pieces : List Text) (d : Disk)
      → Keeps sha d (write_temporary (temporary name) pieces d).1
  write_temporary_keeps name pieces d = elim (write_temporary_cases (temporary name) pieces d) [
    | inl (message, d', p, inl s) ↦ rw p (Keeps-of_same sha s)
    | inl (message, d', p, inr (part, w)) ↦ rw p (Keeps-of_written name part w)
    | inr (d', p, w) ↦ rw p (Keeps-of_written name (joined pieces) w)
  ]

  publish_record_keeps :
      (name registry id : Text) (d : Disk)
      → Keeps sha d (publish_record (temporary name) (record_file registry id) d).1
  unfolding same_path
  publish_record_keeps name registry id d =
      elim (publish_record_cases (temporary name) (record_file registry id) refl d) [
        | inl (message, d', p, r) ↦
            rw p (Keeps-of_shifted sha name (record_file registry id) (λ digest i e h. cc) r)
        | inr (i, d', p, m) ↦ rw p (
            Keeps-of_shifted sha name (record_file registry id) (λ digest i e h. cc)
              (Shifted-of_Moved (temporary name) (record_file registry id) i m))
      ]

  validate_real_dir_keeps : (d : Disk) → Keeps sha d (validate_real_dir d).1
  validate_real_dir_keeps d = Keeps-of_same sha (validate_real_dir_same d)

  pub write_json_atomic_keeps :
      (registry id bytes uuid : Text) (d : Disk)
      → Keeps sha d (write_json_atomic (record_file registry id) bytes uuid d).1
  unfolding write_json_atomic validate_layout_shallow
  write_json_atomic_keeps registry id bytes uuid d =
      sequence_keeps sha validate_layout_shallow _
        (sequence_keeps sha validate_real_dir _ validate_real_dir_keeps
          (λ a. validate_real_dir_keeps))
        (λ a.
          sequence_keeps sha (write_temporary (record_temporary uuid) (bytes ∷ lit "\n" ∷ [])) _
            (write_temporary_keeps (lit "record-" ++ uuid ++ lit ".tmp") (bytes ∷ lit "\n" ∷ []))
            (λ a. publish_record_keeps (lit "record-" ++ uuid ++ lit ".tmp") registry id))
        d

  write_artifact_record_keeps :
      (to_vec : ArtifactDescriptor → Text) (to_vec_pretty : ArtifactRecord → Text)
      (descriptor : ArtifactDescriptor) (uuid : Text) (d : Disk)
      → Keeps sha d (write_artifact_record sha to_vec to_vec_pretty descriptor uuid d).1
  unfolding write_artifact_record
  write_artifact_record_keeps to_vec to_vec_pretty descriptor uuid d =
      sequence_keeps sha (check (validate_storage_id descriptor.artifact_id (lit "artifact_"))) _
        same
        (λ a.
          sequence_keeps sha
            (write_json_atomic (artifact_path descriptor.artifact_id)
              (to_vec_pretty (record_of sha to_vec to_vec_pretty descriptor)) uuid)
            _ (write_json_atomic_keeps _ _ _ uuid) (λ a. same))
        d

  -- The finished temporary file becomes an object: its content has the digest that names the object.
  commit_keeps :
      (name bytes : Text) {d e : Disk}
      → Written (temporary name) bytes d e
      → Keeps sha e
          (commit_content_object sha
            (temporary name)
            (object (sha bytes))
            (sha bytes)
            (length bytes)
            e).1
  unfolding same_path
  commit_keeps name bytes {d = d} {e = e} w =
      Keeps-of_shifted sha name (object (sha bytes))
        (λ digest i p h.
          ap (λ j. sha (e.inodes j).bytes) (some_inj (sym h ∙ w.at))
          ∙ (ap sha w.content_is ∙ object_inj p))
        (commit_shifts sha (temporary name) (object (sha bytes)) (sha bytes) (length bytes) refl e)

  module _ (to_vec : ArtifactDescriptor → Text) (to_vec_pretty : ArtifactRecord → Text) where
    committed :
        (name bytes artifact_id : Text) (roles : List Text)
        (media_type origin capture_mode record_uuid : Text) (d e : Disk)
        → Written (temporary name) bytes d e
        → Keeps sha e
            (commit_and_describe sha to_vec to_vec_pretty
              (temporary name)
              (sha bytes)
              (length bytes)
              artifact_id
              roles
              media_type
              origin
              capture_mode
              record_uuid
              e).1
    unfolding commit_and_describe object_path
    committed name bytes artifact_id roles media_type origin capture_mode record_uuid d e w =
        of_digest (validate_storage_sha256 (sha bytes)) refl
      where
        descriptor : ArtifactDescriptor
        descriptor =
            describe sha (sha bytes) (length bytes) artifact_id roles media_type origin capture_mode

        of_digest :
            (checked : Checked)
            → validate_storage_sha256 (sha bytes) ≡ checked
            → Keeps sha e
                (commit_and_describe sha to_vec to_vec_pretty
                  (temporary name)
                  (sha bytes)
                  (length bytes)
                  artifact_id
                  roles
                  media_type
                  origin
                  capture_mode
                  record_uuid
                  e).1
        of_digest (err message) h = rw h (same e)
        of_digest panic h = rw h (same e)
        of_digest diverge h = rw h (same e)
        of_digest (ok _) h = rw h (
            follow_keeps sha e (ensure_real_dir e) _ (Keeps-of_same sha (ensure_real_dir_same e))
              (λ a.
                let e' = (ensure_real_dir e).1 in
                let w' = Written-then_same (temporary name) w (ensure_real_dir_same e) in
                follow_keeps sha e'
                  (commit_content_object sha (temporary name) (object (sha bytes)) (sha bytes)
                    (length bytes) e')
                  _ (commit_keeps name bytes w')
                  (λ a.
                    sequence_keeps sha
                      (write_artifact_record sha to_vec to_vec_pretty descriptor record_uuid) _
                      (write_artifact_record_keeps to_vec to_vec_pretty descriptor record_uuid)
                      (λ a. same)
                      (commit_content_object sha (temporary name) (object (sha bytes)) (sha bytes)
                        (length bytes) e').1)))

    -- Whatever the system answers to the calls of an import, and wherever it ends: objects hash to
    -- their names, what was stored is stored under the same name, and no content has changed.
    pub import_artifact_bytes_keeps :
        (bytes : Text) (roles : List Text) (media_type origin capture_mode : Text)
        (object_uuid artifact_uuid record_uuid : Text) (d : Disk)
        → Sound sha d
        → Sound sha
            (import_artifact_bytes sha to_vec to_vec_pretty bytes roles media_type origin
              capture_mode object_uuid artifact_uuid record_uuid d).1
          × Grown sha d
              (import_artifact_bytes sha to_vec to_vec_pretty bytes roles media_type origin
                capture_mode object_uuid artifact_uuid record_uuid d).1
    unfolding import_artifact_bytes
    import_artifact_bytes_keeps bytes roles media_type origin capture_mode object_uuid artifact_uuid
          record_uuid =
        sequence_keeps sha
          (check (validate_artifact_capture_contract roles media_type origin capture_mode)) _ same
          (λ a. of_written)
      where
        name : Text
        name = lit "object-" ++ object_uuid ++ lit ".tmp"

        rest : Step ArtifactDescriptor
        rest =
            commit_and_describe sha to_vec to_vec_pretty (temporary name) (sha bytes) (length bytes)
              (lit "artifact_" ++ artifact_uuid) roles media_type origin capture_mode record_uuid

        of_written :
            (d : Disk)
            → Keeps sha d (follow (write_temporary (temporary name) (bytes ∷ []) d) (λ a. rest)).1
        of_written d = elim (write_temporary_cases (temporary name) (bytes ∷ []) d) [
          | inl (message, d', p, inl s) ↦ rw p (Keeps-of_same sha s)
          | inl (message, d', p, inr (part, w)) ↦ rw p (Keeps-of_written name part w)
          | inr (d', p, w) ↦ rw p (
              Keeps-trans sha (Keeps-of_written name (joined (bytes ∷ [])) w) (
                committed name bytes (lit "artifact_" ++ artifact_uuid) roles media_type origin
                  capture_mode record_uuid d d'
                  (subst (λ c. Written (temporary name) c d d') (append-nil bytes) w)))
        ]
