-- ===== src/Workspace/Store/Import.antt =====
-- `import_artifact_bytes` of src/workspace.rs, when it returns a descriptor: the object and the
-- record that stand in the store then.
use evidence_workbench.Prelude.{
  ℕ, ◌<◌, ◌≡◌, refl, sym, ap, inl, inr, List, [], ◌∷◌, ◌++◌, append-nil, length, ok, err, panic,
  diverge, Checked, subst, arith,
}
use evidence_workbench.Text.{Text, lit}
use evidence_workbench.Contracts.Run.{ArtifactDescriptor, ArtifactRecord}
use evidence_workbench.Workspace.Identifiers.{validate_storage_id, validate_storage_sha256}
use evidence_workbench.Workspace.Capture.{validate_artifact_capture_contract}
use evidence_workbench.Workspace.Disk.{StatePath, object, temporary, Disk, same_path}
use evidence_workbench.Workspace.Disk.Calls.{SameFiles}
use evidence_workbench.Workspace.Objects.{commit_content_object}
use evidence_workbench.Workspace.Objects.Commit.{commit_cases}
use evidence_workbench.Workspace.Steps.{ok_inj, follow-eq-ok, check}
use evidence_workbench.Workspace.Store.{
  ensure_real_dir, write_temporary, object_path, object_temporary, artifact_path, describe,
  record_of, write_artifact_record, commit_and_describe, import_artifact_bytes, write_json_atomic,
}
use evidence_workbench.Workspace.Store.Kept.{Sound, Keeps-of_same}
use evidence_workbench.Workspace.Store.Invariant.{Keeps-of_written}
use evidence_workbench.Workspace.Store.Written.{joined, Written, Written-then_same}
use evidence_workbench.Workspace.Store.Records.{ensure_real_dir_same}
use evidence_workbench.Workspace.Store.Imported.{
  Stands, Stands-new, err_ok, end_eq, written_ok, record_ok,
}

module _ (sha : Text → Text) where
  -- An object with that digest and that length stands in the store.
  pub record Stored (bytes : Text) (d : Disk) : Type 0 where
    pub number : ℕ
    pub content : Text
    pub stands : Stands (object (sha bytes)) number content d
    pub digest_of : sha content ≡ sha bytes
    pub size_of : length content ≡ length bytes

  -- The finished temporary file has become the object.
  commit_ok :
      (name bytes : Text) (c d d' : Disk)
      → Sound sha d
      → Written (temporary name) bytes c d
      → commit_content_object sha (temporary name) (object (sha bytes)) (sha bytes) (length bytes) d
        ≡ (ok tt, d')
      → (t : Stored bytes d') × (t.number < d'.next_inode)
  unfolding same_path
  commit_ok name bytes c d d' s w h =
      elim (commit_cases sha (temporary name) (object (sha bytes)) (sha bytes) (length bytes) refl
        d) [
          | inl (message, e, p, q) ↦
              err_ok
                (commit_content_object sha (temporary name) (object (sha bytes)) (sha bytes)
                  (length bytes) d)
                p h
          | inr (inl (i, e, p, f)) ↦
              subst (λ e. (t : Stored bytes e) × (t.number < e.next_inode))
                (end_eq
                  (commit_content_object sha (temporary name) (object (sha bytes)) (sha bytes)
                    (length bytes) d)
                  p h)
                (
                  record {
                    number = i;
                    content = (e.inodes i).bytes;
                    stands = record { at = f.at; content_is = refl; single = f.single };
                    digest_of = f.content.digest_of;
                    size_of = f.content.size_of;
                  },
                  ground (arith, s.numbered (object (sha bytes)) i f.was, f.removed.next_inode),
                )
          | inr (inr (i, e, p, m)) ↦
              subst (λ e. (t : Stored bytes e) × (t.number < e.next_inode))
                (end_eq
                  (commit_content_object sha (temporary name) (object (sha bytes)) (sha bytes)
                    (length bytes) d)
                  p h)
                (
                  record {
                    number = i;
                    content = bytes;
                    stands = Stands-new w m;
                    digest_of = refl;
                    size_of = refl;
                  },
                  ground (arith, s.numbered (temporary name) i m.from, m.next_inode),
                )
        ]

  module _ (to_vec : ArtifactDescriptor → Text) (to_vec_pretty : ArtifactRecord → Text) where
    -- The artifact with its record.
    pub record Imported (bytes : Text) (descriptor : ArtifactDescriptor) (d : Disk) : Type 0 where
      pub stored : Stored bytes d
      pub record_number : ℕ
      pub recorded :
          Stands
            (artifact_path descriptor.artifact_id)
            record_number
            (joined (to_vec_pretty (record_of sha to_vec to_vec_pretty descriptor) ∷ lit "\n" ∷ []))
            d

    recorded_ok :
        (bytes : Text) (descriptor : ArtifactDescriptor) (uuid : Text) (d d' : Disk)
        → (t : Stored bytes d) → t.number < d.next_inode
        → write_json_atomic
            (artifact_path descriptor.artifact_id)
            (to_vec_pretty (record_of sha to_vec to_vec_pretty descriptor))
            uuid
            d
          ≡ (ok tt, d')
        → Imported bytes descriptor d'
    unfolding same_path
    recorded_ok bytes descriptor uuid d d' t n h =
        let ((j, new), others) =
          record_ok (lit "artifacts") descriptor.artifact_id
            (to_vec_pretty (record_of sha to_vec to_vec_pretty descriptor)) uuid d d' h in
        let stands = others (object (sha bytes)) t.number t.content refl refl n t.stands in
        record {
          stored = record {
            number = t.number;
            content = t.content;
            stands = stands;
            digest_of = t.digest_of;
            size_of = t.size_of;
          };
          record_number = j;
          recorded = new;
        }

    written_record_ok :
        (bytes : Text) (descriptor : ArtifactDescriptor) (uuid : Text) (d d' : Disk)
        (value : ArtifactRecord) (t : Stored bytes d)
        → t.number < d.next_inode
        → write_artifact_record sha to_vec to_vec_pretty descriptor uuid d ≡ (ok value, d')
        → Imported bytes descriptor d'
    unfolding write_artifact_record
    written_record_ok bytes descriptor uuid d d' value t n h =
        let (a, e, p, h₁) =
          follow-eq-ok (check (validate_storage_id descriptor.artifact_id (lit "artifact_")) d) _
            h in
        let (b, e', q, h₂) =
          follow-eq-ok
            (write_json_atomic (artifact_path descriptor.artifact_id)
              (to_vec_pretty (record_of sha to_vec to_vec_pretty descriptor)) uuid e)
            _ h₁ in
        let start = ap (λ f. f.1) p in
        subst (Imported bytes descriptor) (ap (λ f. f.1) h₂) (
          recorded_ok bytes descriptor uuid d e' t n (
            subst
              (λ e.
                write_json_atomic (artifact_path descriptor.artifact_id)
                  (to_vec_pretty (record_of sha to_vec to_vec_pretty descriptor)) uuid e
                ≡ (ok tt, e'))
              (sym start) q))

    object_path_ok :
        (digest : Text) (path : StatePath) → object_path digest ≡ ok path → path ≡ object digest
    unfolding object_path
    object_path_ok digest path h = of_check (validate_storage_sha256 digest) refl
      where
        of_check :
            (checked : Checked) → validate_storage_sha256 digest ≡ checked → path ≡ object digest
        of_check (ok _) e = ground (arith, e, h)
        of_check (err message) e = ground (arith, e, h)
        of_check panic e = ground (arith, e, h)
        of_check diverge e = ground (arith, e, h)

    committed_ok :
        (name bytes artifact_id : Text) (roles : List Text)
        (media_type origin capture_mode record_uuid : Text) (c d d' : Disk)
        (descriptor : ArtifactDescriptor)
        → Sound sha d
        → Written (temporary name) bytes c d
        → commit_and_describe sha to_vec to_vec_pretty
            (temporary name)
            (sha bytes)
            (length bytes)
            artifact_id
            roles
            media_type
            origin
            capture_mode
            record_uuid
            d
          ≡ (ok descriptor, d')
        → (descriptor
            ≡ describe sha
                (sha bytes)
                (length bytes)
                artifact_id
                roles
                media_type
                origin
                capture_mode)
          × Imported bytes descriptor d'
    unfolding commit_and_describe
    committed_ok name bytes artifact_id roles media_type origin capture_mode record_uuid c d d'
          descriptor s w h =
        let (path, e, p, h₁) = follow-eq-ok (check (object_path (sha bytes)) d) _ h in
        let (a, e₁, q, h₂) = follow-eq-ok (ensure_real_dir e) _ h₁ in
        let (b, e₂, r, h₃) =
          follow-eq-ok
            (commit_content_object sha (temporary name) path (sha bytes) (length bytes) e₁) _ h₂ in
        let described =
          describe sha (sha bytes) (length bytes) artifact_id roles media_type origin
            capture_mode in
        let (v, e₃, u, h₄) =
          follow-eq-ok (write_artifact_record sha to_vec to_vec_pretty described record_uuid e₂) _
            h₃ in
        let same =
          subst (λ f. SameFiles f e₁) (sym (ap (λ f. f.1) p))
            (subst (λ f. SameFiles e f.1) q (ensure_real_dir_same e)) in
        let (t, n) =
          commit_ok name bytes c e₁ e₂ (Keeps-of_same sha same s).0
            (Written-then_same (temporary name) w same)
            (subst
              (λ path.
                commit_content_object sha (temporary name) path (sha bytes) (length bytes) e₁
                ≡ (ok tt, e₂))
              (object_path_ok (sha bytes) path (ap (λ f. f.0) p)) r) in
        let is = sym (ok_inj (ap (λ f. f.0) h₄)) in
        (
          is,
          subst (λ descriptor. Imported bytes descriptor d') (sym is)
              (subst (Imported bytes described) (ap (λ f. f.1) h₄)
                (written_record_ok bytes described record_uuid e₂ e₃ v t n u)),
        )

    -- When an import returns a descriptor, it describes the bytes; an object with their digest and
    -- their length stands in the store; and so does the descriptor's record.
    pub import_artifact_bytes_ok :
        (bytes : Text) (roles : List Text) (media_type origin capture_mode : Text)
        (object_uuid artifact_uuid record_uuid : Text) (d d' : Disk)
        (descriptor : ArtifactDescriptor)
        → Sound sha d
        → import_artifact_bytes sha to_vec to_vec_pretty bytes roles media_type origin capture_mode
            object_uuid artifact_uuid record_uuid d
          ≡ (ok descriptor, d')
        → (descriptor
            ≡ describe sha
                (sha bytes)
                (length bytes)
                (lit "artifact_" ++ artifact_uuid)
                roles
                media_type
                origin
                capture_mode)
          × Imported bytes descriptor d'
    unfolding import_artifact_bytes
    import_artifact_bytes_ok bytes roles media_type origin capture_mode object_uuid artifact_uuid
          record_uuid d d' descriptor s h =
        let (a, e, p, h₁) =
          follow-eq-ok
            (check (validate_artifact_capture_contract roles media_type origin capture_mode) d) _
            h in
        let (file, e₁, q, h₂) =
          follow-eq-ok (write_temporary (object_temporary object_uuid) (bytes ∷ []) e) _ h₁ in
        let name = lit "object-" ++ object_uuid ++ lit ".tmp" in
        let w =
          subst (λ d. Written (temporary name) bytes d e₁) (sym (ap (λ f. f.1) p))
            (subst (λ c. Written (temporary name) c e e₁) (append-nil bytes)
              (written_ok (temporary name) (bytes ∷ []) e e₁ file q)) in
        committed_ok name bytes (lit "artifact_" ++ artifact_uuid) roles media_type origin
          capture_mode record_uuid d e₁ d' descriptor (Keeps-of_written sha name bytes w s).0 w h₂
