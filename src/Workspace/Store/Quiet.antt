-- ===== src/Workspace/Store/Quiet.antt =====
-- The operations of src/workspace.rs while the system does every call and finds real directories
-- and files.
use evidence_workbench.Prelude.{true, ℕ, ◌≡◌, refl, some, [], ==_iff, length, ok, arith}
use evidence_workbench.Text.{Text, same_iff}
use evidence_workbench.Contracts.Run.{ArtifactDescriptor}
use evidence_workbench.RunValidation.Descriptors.{validate_artifact_descriptor}
use evidence_workbench.Validation.Fields.{is_lower_hex}
use evidence_workbench.Workspace.Identifiers.{validate_storage_sha256}
use evidence_workbench.RunValidation.Descriptors.Accepts.{validate_artifact_descriptor_iff}
use evidence_workbench.Workspace.Retry.{done, retry_transient, retry_from}
use evidence_workbench.Workspace.Disk.{
  StatePath, object, Disk, fault_met, inspect, symlink_metadata, open_file, read_to_end,
}
use evidence_workbench.Workspace.Objects.{
  open_verified_private_file, verify_open_private_file, verify_file,
}
use evidence_workbench.Workspace.Store.{
  validate_real_dir, validate_object_storage_path, object_path, read_verified_file,
  read_verified_descriptor,
}
use evidence_workbench.Workspace.Store.Imported.{Stands}

abbrev pub IsQuiet : Disk → Type 0
IsQuiet d = d.faults ≡ []

pub IsQuiet-met : (d : Disk) → IsQuiet d → IsQuiet (fault_met d)
IsQuiet-met d h = rw h refl

real_dir_quiet : (d : Disk) → IsQuiet d → validate_real_dir d ≡ (ok tt, fault_met d)
unfolding validate_real_dir inspect retry_transient retry_from
real_dir_quiet d h = rw h refl

-- The four checks of directories.
abbrev pub four_met : Disk → Disk
four_met d = fault_met (fault_met (fault_met (fault_met d)))

pub storage_path_quiet :
    (d : Disk) → IsQuiet d → validate_object_storage_path d ≡ (ok tt, four_met d)
unfolding validate_object_storage_path
storage_path_quiet d h =
    rw
      (
        real_dir_quiet d h,
        real_dir_quiet (fault_met d) (IsQuiet-met d h),
        real_dir_quiet (fault_met (fault_met d)) (IsQuiet-met (fault_met d) (IsQuiet-met d h)),
        real_dir_quiet (fault_met (fault_met (fault_met d)))
            (IsQuiet-met (fault_met (fault_met d)) (IsQuiet-met (fault_met d) (IsQuiet-met d h))),
      )
      refl

pub open_quiet :
    (path : StatePath) (i : ℕ) (d : Disk)
    → IsQuiet d
    → d.names path ≡ some i
    → open_file path d ≡ (done i, fault_met d)
unfolding open_file
open_quiet path i d h e = rw (h, e) refl

pub inspect_quiet : (d : Disk) → IsQuiet d → inspect d ≡ (done true, fault_met d)
unfolding inspect
inspect_quiet d h = rw h refl

pub metadata_quiet :
    (path : StatePath) (i : ℕ) (d : Disk)
    → IsQuiet d
    → d.names path ≡ some i
    → symlink_metadata path d ≡ (done true, fault_met d)
unfolding symlink_metadata
metadata_quiet path i d h e = rw (h, e) refl

pub read_quiet :
    (i : ℕ) (d : Disk) → IsQuiet d → read_to_end i d ≡ (done (d.inodes i).bytes, fault_met d)
unfolding read_to_end
read_quiet i d h = rw h refl

pub object_path_quiet :
    (descriptor : ArtifactDescriptor)
    → validate_artifact_descriptor descriptor ≡ ok tt
    → object_path descriptor.digest.value ≡ ok (object descriptor.digest.value)
unfolding object_path validate_storage_sha256 is_lower_hex
object_path_quiet descriptor h =
    let (l, x) = ((validate_artifact_descriptor_iff descriptor).0 h).digest in ground (arith, l, x)

pub Stands-later :
    (path : StatePath) (i : ℕ) (content : Text) (d : Disk)
    → Stands path i content d
    → Stands path i content (four_met d)
Stands-later path i content d s = record { at = s.at; content_is = s.content_is; single = s.single }

pub four-IsQuiet : (d : Disk) → IsQuiet d → IsQuiet (four_met d)
four-IsQuiet d h =
    IsQuiet-met (fault_met (fault_met (fault_met d)))
      (IsQuiet-met (fault_met (fault_met d)) (IsQuiet-met (fault_met d) (IsQuiet-met d h)))

module _ (sha : Text → Text) where
  read_file_quiet :
      (path : StatePath) (i : ℕ) (content digest : Text) (size : ℕ) (d : Disk)
      → IsQuiet d
      → Stands path i content d
      → sha content ≡ digest
      → length content ≡ size
      → (read_verified_file sha path digest size d).0 ≡ ok content
  unfolding read_verified_file
  read_file_quiet path i content digest size d h s e l =
      let once = IsQuiet-met d h in
      let twice = IsQuiet-met (fault_met d) once in
      let thrice = IsQuiet-met (fault_met (fault_met d)) twice in
      rw
        (
          metadata_quiet path i d h s.at,
          open_quiet path i (fault_met d) once s.at,
          inspect_quiet (fault_met (fault_met d)) twice,
          (==_iff (d.inodes i).nlink 1).1 s.single,
          s.content_is,
          (==_iff (length content) size).1 l,
          read_quiet i (fault_met (fault_met (fault_met d))) thrice,
          s.content_is,
          (==_iff (length content) size).1 l,
          (same_iff (sha content) digest).1 e,
        )
        refl

  -- The object's file opens, and its content is the expected one.
  pub verify_file_quiet :
      (path : StatePath) (i : ℕ) (content digest : Text) (size : ℕ) (d : Disk)
      → IsQuiet d
      → Stands path i content d
      → sha content ≡ digest
      → length content ≡ size
      → (verify_file sha path digest size d).0 ≡ ok tt
  unfolding verify_file open_verified_private_file verify_open_private_file
  verify_file_quiet path i content digest size d h s e l =
      let once = IsQuiet-met d h in
      let twice = IsQuiet-met (fault_met d) once in
      let thrice = IsQuiet-met (fault_met (fault_met d)) twice in
      rw
        (
          metadata_quiet path i d h s.at,
          open_quiet path i (fault_met d) once s.at,
          inspect_quiet (fault_met (fault_met d)) twice,
          (==_iff (d.inodes i).nlink 1).1 s.single,
          read_quiet i (fault_met (fault_met (fault_met d))) thrice,
          s.content_is,
          (==_iff (length content) size).1 l,
          (same_iff (sha content) digest).1 e,
        )
        refl

  -- The object that the descriptor names.
  pub record Names (descriptor : ArtifactDescriptor) (i : ℕ) (content : Text) (d : Disk)
      : Type 0 where
    pub stands : Stands (object descriptor.digest.value) i content d
    pub digest_of : sha content ≡ descriptor.digest.value
    pub size_of : length content ≡ descriptor.byte_length

  pub read_descriptor_quiet :
      (descriptor : ArtifactDescriptor) (i : ℕ) (content : Text) (d : Disk)
      → IsQuiet d
      → validate_artifact_descriptor descriptor ≡ ok tt
      → Names descriptor i content d
      → (read_verified_descriptor sha descriptor d).0 ≡ ok content
  unfolding read_verified_descriptor
  read_descriptor_quiet descriptor i content d h v n =
      rw (v, object_path_quiet descriptor v, storage_path_quiet d h)
        (read_file_quiet (object descriptor.digest.value) i content descriptor.digest.value
          descriptor.byte_length (four_met d) (four-IsQuiet d h)
          (Stands-later (object descriptor.digest.value) i content d n.stands) n.digest_of
          n.size_of)
