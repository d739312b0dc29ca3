-- ===== src/Workspace/Store/RoundTrip.antt =====
-- What has been imported can be read and loaded again, in src/workspace.rs.
use evidence_workbench.Prelude.{ℕ, ◌≡◌, refl, sym, ap, List, [], ◌∷◌, ==_iff, Outcome, ok, subst}
use evidence_workbench.Text.{Text, lit, same_refl}
use evidence_workbench.Contracts.Run.{ArtifactDescriptor, ArtifactRecord}
use evidence_workbench.RunValidation.Descriptors.{validate_artifact_descriptor}
use evidence_workbench.RunValidation.Descriptors.Accepts.{validate_artifact_descriptor_iff}
use evidence_workbench.Workspace.Identifiers.{validate_storage_id_iff}
use evidence_workbench.Workspace.Disk.{StatePath, object, Disk, fault_met}
use evidence_workbench.Workspace.Objects.{verify_file}
use evidence_workbench.Workspace.Steps.{follow-ok}
use evidence_workbench.Workspace.Store.{
  verify_descriptor, read_verified_descriptor, read_strict_json, load_artifact,
  import_artifact_bytes, artifact_path, record_of, digest_serialized,
}
use evidence_workbench.Workspace.Store.Kept.{Sound}
use evidence_workbench.Workspace.Store.Written.{joined}
use evidence_workbench.Workspace.Store.Imported.{Stands}
use evidence_workbench.Workspace.Store.Import.{import_artifact_bytes_ok}
use evidence_workbench.Workspace.Store.Quiet.{
  IsQuiet, Names, IsQuiet-met, four_met, four-IsQuiet, open_quiet, metadata_quiet, inspect_quiet,
  read_quiet, storage_path_quiet, Stands-later, object_path_quiet, verify_file_quiet,
  read_descriptor_quiet,
}

-- The files as they are, and a system that does every call and finds real directories and files.
abbrev pub calmed : Disk → Disk
calmed d = record { names = d.names; inodes = d.inodes; next_inode = d.next_inode; faults = [] }

Stands-calmed :
    (path : StatePath) (i : ℕ) (content : Text) (d : Disk)
    → Stands path i content d
    → Stands path i content (calmed d)
Stands-calmed path i content d s = record {
  at = s.at;
  content_is = s.content_is;
  single = s.single;
}

module _ (sha : Text → Text) where
  verify_descriptor_quiet :
      (descriptor : ArtifactDescriptor) (i : ℕ) (content : Text) (d : Disk)
      → IsQuiet d
      → validate_artifact_descriptor descriptor ≡ ok tt
      → Names sha descriptor i content d
      → (verify_descriptor sha descriptor d).0 ≡ ok (object descriptor.digest.value)
  unfolding verify_descriptor
  verify_descriptor_quiet descriptor i content d h v n =
      let later = Stands-later (object descriptor.digest.value) i content d n.stands in
      rw
        (
          v,
          object_path_quiet descriptor v,
          storage_path_quiet d h,
          metadata_quiet (object descriptor.digest.value) i (four_met d) (four-IsQuiet d h)
              n.stands.at,
        )
        (ap (λ f. f.0)
          (follow-ok
            (verify_file sha (object descriptor.digest.value) descriptor.digest.value
              descriptor.byte_length (fault_met (four_met d)))
            _
            (verify_file_quiet sha (object descriptor.digest.value) i content
              descriptor.digest.value descriptor.byte_length (fault_met (four_met d))
              (IsQuiet-met (four_met d) (four-IsQuiet d h))
              (record { at = later.at; content_is = later.content_is; single = later.single })
              n.digest_of n.size_of)))

  module _ (to_vec : ArtifactDescriptor → Text) (parse_record : Text → Outcome ArtifactRecord) where
    read_json_quiet :
        (path : StatePath) (i : ℕ) (content : Text) (value : ArtifactRecord) (d : Disk)
        → IsQuiet d
        → Stands path i content d
        → parse_record content ≡ ok value
        → read_strict_json sha to_vec parse_record path d ≡ (ok value, four_met d)
    unfolding read_strict_json
    read_json_quiet path i content value d h s p =
        let once = IsQuiet-met d h in
        let twice = IsQuiet-met (fault_met d) once in
        rw
          (
            metadata_quiet path i d h s.at,
            open_quiet path i (fault_met d) once s.at,
            inspect_quiet (fault_met (fault_met d)) twice,
            (==_iff (d.inodes i).nlink 1).1 s.single,
            read_quiet i (fault_met (fault_met (fault_met d)))
                (IsQuiet-met (fault_met (fault_met d)) twice),
            s.content_is,
            p,
          )
          refl

    -- The artifact's record, where it stands with the object that it describes.
    load_quiet :
        (descriptor : ArtifactDescriptor) (i j : ℕ) (content text : Text) (d : Disk)
        → IsQuiet d
        → validate_artifact_descriptor descriptor ≡ ok tt
        → Names sha descriptor i content d
        → Stands (artifact_path descriptor.artifact_id) j text d
        → parse_record text
          ≡ ok (record {
            schema_version = lit "artifact_record/v1";
            record_digest = sha (to_vec descriptor);
            artifact = descriptor;
          })
        → (load_artifact sha to_vec parse_record descriptor.artifact_id d).0
          ≡ ok (record {
            schema_version = lit "artifact_record/v1";
            record_digest = sha (to_vec descriptor);
            artifact = descriptor;
          })
    unfolding load_artifact
    load_quiet descriptor i j content text d h v n s p =
        let named =
          (validate_storage_id_iff descriptor.artifact_id (lit "artifact_")).1
            ((validate_artifact_descriptor_iff descriptor).0 v).artifact_id in
        rw
          (
            named,
            read_json_quiet (artifact_path descriptor.artifact_id) j text
                (record {
                  schema_version = lit "artifact_record/v1";
                  record_digest = sha (to_vec descriptor);
                  artifact = descriptor;
                })
                d h s p,
            same_refl (lit "artifact_record/v1"),
            same_refl descriptor.artifact_id,
            same_refl (sha (to_vec descriptor)),
          )
          (ap (λ f. f.0)
            (follow-ok (verify_descriptor sha descriptor (four_met d)) _ (
              verify_descriptor_quiet descriptor i content (four_met d) (four-IsQuiet d h) v
                (record {
                  stands = record {
                    at = n.stands.at;
                    content_is = n.stands.content_is;
                    single = n.stands.single;
                  };
                  digest_of = n.digest_of;
                  size_of = n.size_of;
                }))))

  module _ (to_vec : ArtifactDescriptor → Text) (to_vec_pretty : ArtifactRecord → Text)
      (parse_record : Text → Outcome ArtifactRecord) where
    -- Bytes that have been imported, with a descriptor that is valid, are read back as they were, and
    -- their record is loaded by its identifier: if no other bytes have their digest, the record's text
    -- is read as the record that was written, and the system from then on does every call and finds
    -- real directories and files.
    pub import-read :
        (bytes : Text) (roles : List Text) (media_type origin capture_mode : Text)
        (object_uuid artifact_uuid record_uuid : Text) (d d' : Disk)
        (descriptor : ArtifactDescriptor)
        → Sound sha d
        → import_artifact_bytes sha to_vec to_vec_pretty bytes roles media_type origin capture_mode
            object_uuid artifact_uuid record_uuid d
          ≡ (ok descriptor, d')
        → validate_artifact_descriptor descriptor ≡ ok tt
        → ((other : Text) → sha other ≡ sha bytes → other ≡ bytes)
        → parse_record
            (joined (to_vec_pretty (record_of sha to_vec to_vec_pretty descriptor) ∷ lit "\n" ∷ []))
          ≡ ok (record_of sha to_vec to_vec_pretty descriptor)
        → ((read_verified_descriptor sha descriptor (calmed d')).0 ≡ ok bytes)
          × ((load_artifact sha to_vec parse_record descriptor.artifact_id (calmed d')).0
              ≡ ok (record_of sha to_vec to_vec_pretty descriptor))
    unfolding digest_serialized
    import-read bytes roles media_type origin capture_mode object_uuid artifact_uuid record_uuid d
          d' descriptor s h v c p =
        let (is, stored) =
          import_artifact_bytes_ok sha to_vec to_vec_pretty bytes roles media_type origin
            capture_mode object_uuid artifact_uuid record_uuid d d' descriptor s h in
        let t = stored.stored in
        let digest_is = ap (λ e. e.digest.value) is in
        let named : Names sha descriptor t.number bytes (calmed d') = record {
          stands = Stands-calmed (object descriptor.digest.value) t.number bytes d' (
              subst (λ x. Stands (object x) t.number bytes d') (sym digest_is)
                (subst (λ x. Stands (object (sha bytes)) t.number x d') (c t.content t.digest_of)
                  t.stands));
          digest_of = sym digest_is;
          size_of = sym (ap (λ e. e.byte_length) is);
        } in
        (
          read_descriptor_quiet sha descriptor t.number bytes (calmed d') refl v named,
          load_quiet to_vec parse_record descriptor t.number stored.record_number bytes
              (joined
                (to_vec_pretty (record_of sha to_vec to_vec_pretty descriptor) ∷ lit "\n" ∷ []))
              (calmed d') refl v named
              (Stands-calmed (artifact_path descriptor.artifact_id) stored.record_number _ d'
                stored.recorded)
              p,
        )
