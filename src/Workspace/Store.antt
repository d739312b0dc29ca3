-- ===== src/Workspace/Store.antt =====
-- src/workspace.rs: artifacts. The bytes become an object, and a record describes them. `sha` is the
-- hexadecimal SHA-256; `to_vec` and `to_vec_pretty` are the texts that serde_json writes of a
-- descriptor and of a record, and `parse_record` is the strict reading of such a text. The names
-- that `Uuid::new_v4` gives are arguments of the operations.
pub mod Kept
pub mod Runs
pub mod RoundTrip
pub mod Quiet
pub mod Import
pub mod Imported
pub mod Records
pub mod Invariant
pub mod Written
use evidence_workbench.Prelude.{
  ℕ, Bool, true, false, not, ◌&&◌, ◌||◌, List, [], ◌∷◌, ◌++◌, length, ltb, ◌==◌, Outcome, ok, err,
  String, panic, diverge, ensure,
}
use evidence_workbench.Text.{Text, lit, same}
use evidence_workbench.Contracts.References.{Digest}
use evidence_workbench.Contracts.Run.{
  ArtifactDescriptor, ArtifactRecord, ArtifactStorage, ArtifactCapture,
}
use evidence_workbench.RunValidation.Descriptors.{validate_artifact_descriptor}
use evidence_workbench.Workspace.Identifiers.{validate_storage_id, validate_storage_sha256}
use evidence_workbench.Workspace.Capture.{validate_artifact_capture_contract}
use evidence_workbench.Workspace.Retry.{IoResult, done, failed, retry_transient}
use evidence_workbench.Workspace.Disk.{
  StatePath, object, temporary, record_file, Disk, create_new, write_all, sync_all, create_dir,
  inspect, symlink_metadata, open_file, read_to_end, remove_file,
}
use evidence_workbench.Workspace.Objects.{
  publish_file_no_replace, commit_content_object, verify_file, after_cleanup,
}
use evidence_workbench.Workspace.Steps.{Step, follow, ◌>>=◌, ◌>>◌, check, answer, call, retried}

unfoldable pub validate_real_dir : Step Unit
validate_real_dir = do
  real ← retried inspect
  check (ensure real "storage directory must be a real directory, not a link or reparse point")

-- `if !path.is_dir()`, after the attempts to create the directory.
abbrev pub after_is_dir : IoResult Unit → IoResult Bool × Disk → Outcome (Unit {0}) × Disk
after_is_dir created (done true, d) = validate_real_dir d
after_is_dir created (_, d) = (check (answer created) >> validate_real_dir) d

abbrev pub after_create_dir : Outcome (IoResult Unit) × Disk → Outcome (Unit {0}) × Disk
after_create_dir (ok created, d) = after_is_dir created (inspect d)
after_create_dir (err message, d) = (err message, d)
after_create_dir (panic, d) = (panic, d)
after_create_dir (diverge, d) = (diverge, d)

-- `if path.exists()`, which is false also where the system refuses to say.
abbrev pub after_exists : IoResult Bool × Disk → Outcome (Unit {0}) × Disk
after_exists (done _, d) = validate_real_dir d
after_exists (failed error, d) = after_create_dir (retry_transient false create_dir d)

unfoldable pub ensure_real_dir : Step Unit
unfolding validate_real_dir
ensure_real_dir d = after_exists (inspect d)

-- The state's directory, and that of the temporary files.
unfoldable pub validate_layout_shallow : Step Unit
unfolding validate_real_dir
validate_layout_shallow = validate_real_dir >> validate_real_dir

abbrev pub stored_under : Outcome (Unit {0}) → Text → Outcome StatePath
stored_under (ok _) digest = ok (object digest)
stored_under (err message) digest = err message
stored_under panic digest = panic
stored_under diverge digest = diverge

unfoldable pub object_path : Text → Outcome StatePath
object_path digest = stored_under (validate_storage_sha256 digest) digest

abbrev pub write_pieces : ℕ → List Text → Step Unit
write_pieces file [] = check (ok tt)
write_pieces file (piece ∷ rest) = do call (write_all file piece); write_pieces file rest

-- A new file under `tmp` with the pieces as its content, which is on the disk before it is closed.
abbrev pub write_temporary : StatePath → List Text → Step ℕ
write_temporary path pieces = do
  file ← call (create_new path)
  write_pieces file pieces
  call sync_all
  check (ok file)

abbrev pub object_temporary : Text → StatePath
object_temporary uuid = temporary (lit "object-" ++ uuid ++ lit ".tmp")

abbrev pub record_temporary : Text → StatePath
record_temporary uuid = temporary (lit "record-" ++ uuid ++ lit ".tmp")

abbrev pub after_record : StatePath → Outcome (IoResult Unit) × Disk → Outcome (Unit {0}) × Disk
after_record source (ok (done _), d) = (ok tt, d)
after_record source (ok (failed error), d) =
    after_cleanup (retry_transient false (remove_file source) d)
after_record source (err message, d) = (err message, d)
after_record source (panic, d) = (panic, d)
after_record source (diverge, d) = (diverge, d)

-- `if unique` of `write_json_atomic`, which every caller sets.
unfoldable pub publish_record : StatePath → StatePath → Step Unit
publish_record source destination d =
    after_record source (retry_transient false (publish_file_no_replace source destination) d)

unfoldable pub write_json_atomic : StatePath → Text → Text → Step Unit
unfolding validate_layout_shallow publish_record
write_json_atomic destination bytes uuid = do
  validate_layout_shallow
  write_temporary (record_temporary uuid) (bytes ∷ lit "\n" ∷ [])
  publish_record (record_temporary uuid) destination

abbrev pub artifact_path : Text → StatePath
artifact_path artifact_id = record_file (lit "artifacts") artifact_id

unfoldable pub validate_object_storage_path : Step Unit
unfolding validate_real_dir
validate_object_storage_path =
    validate_real_dir >> validate_real_dir >> validate_real_dir >> validate_real_dir

-- A call for metadata, which say that it is a regular file.
abbrev pub regular : String → (Disk → IoResult Bool × Disk) → Step Unit
regular message metadata = do is_file ← call metadata; check (ensure is_file message)

-- The file has one name.
abbrev pub single_link : String → ℕ → Step Unit
single_link message file d = (ensure ((d.inodes file).nlink == 1) message, d)

-- The length in a file's metadata.
abbrev pub metadata_length : ℕ → Step ℕ
metadata_length file d = (ok (length (d.inodes file).bytes), d)

module _ (sha : Text → Text) where
  unfoldable pub read_verified_file : StatePath → Text → ℕ → Step Text
  read_verified_file path expected_digest expected_length = do
    regular "artifact object is not a regular single-link file" (symlink_metadata path)
    file ← call (open_file path)
    regular "artifact object is not a regular single-link file" inspect
    single_link "artifact object is not a regular single-link file" file
    found ← metadata_length file
    check (
        ensure (found == expected_length)
          "artifact bytes do not match their recorded digest and length")
    bytes ← call (read_to_end file)
    check (
        ensure
          (not (not (length bytes == expected_length) || not (same (sha bytes) expected_digest)))
          "artifact bytes do not match their recorded digest and length")
    check (ok bytes)

  unfoldable pub verify_descriptor : ArtifactDescriptor → Step StatePath
  unfolding object_path validate_object_storage_path
  verify_descriptor descriptor = do
    check (validate_artifact_descriptor descriptor)
    path ← check (object_path descriptor.digest.value)
    validate_object_storage_path
    regular "artifact object is not a regular non-link file" (symlink_metadata path)
    verify_file sha path descriptor.digest.value descriptor.byte_length
    check (ok path)

  unfoldable pub read_verified_descriptor : ArtifactDescriptor → Step Text
  unfolding object_path validate_object_storage_path read_verified_file
  read_verified_descriptor descriptor = do
    check (validate_artifact_descriptor descriptor)
    path ← check (object_path descriptor.digest.value)
    validate_object_storage_path
    read_verified_file path descriptor.digest.value descriptor.byte_length

  abbrev pub describe : Text → ℕ → Text → List Text → Text → Text → Text → ArtifactDescriptor
  describe digest size artifact_id roles media_type origin capture_mode = record {
    artifact_id = artifact_id;
    roles = roles;
    media_type = media_type;
    byte_length = size;
    digest = record { algorithm = lit "sha256"; value = digest };
    storage = record { uri = lit "ewb:sha256:" ++ digest };
    origin = origin;
    capture = record { mode = capture_mode };
    transforms = [];
  }

  module _ (to_vec : ArtifactDescriptor → Text) (to_vec_pretty : ArtifactRecord → Text) where
    unfoldable pub digest_serialized : ArtifactDescriptor → Text
    digest_serialized descriptor = sha (to_vec descriptor)

    abbrev pub record_of : ArtifactDescriptor → ArtifactRecord
    record_of descriptor = record {
      schema_version = lit "artifact_record/v1";
      record_digest = digest_serialized descriptor;
      artifact = descriptor;
    }

    unfoldable pub write_artifact_record : ArtifactDescriptor → Text → Step ArtifactRecord
    unfolding digest_serialized write_json_atomic
    write_artifact_record descriptor uuid = do
      check (validate_storage_id descriptor.artifact_id (lit "artifact_"))
      write_json_atomic (artifact_path descriptor.artifact_id)
          (to_vec_pretty (record_of descriptor)) uuid
      check (ok (record_of descriptor))

    -- What follows once the temporary file is finished.
    unfoldable pub commit_and_describe :
        StatePath
        → (digest : Text) → ℕ
        → (artifact_id : Text) → List Text
        → (media_type origin capture_mode record_uuid : Text) → Step ArtifactDescriptor
    unfolding object_path ensure_real_dir write_artifact_record
    commit_and_describe source digest size artifact_id roles media_type origin capture_mode
          record_uuid =
        do
          path ← check (object_path digest)
          ensure_real_dir
          commit_content_object sha source path digest size
          let descriptor = describe digest size artifact_id roles media_type origin capture_mode
          write_artifact_record descriptor record_uuid
          check (ok descriptor)

    unfoldable pub import_artifact_bytes :
        Text
        → List Text
        → (media_type origin capture_mode object_uuid artifact_uuid record_uuid : Text)
        → Step ArtifactDescriptor
    unfolding commit_and_describe
    import_artifact_bytes bytes roles media_type origin capture_mode object_uuid artifact_uuid
          record_uuid =
        do
          check (validate_artifact_capture_contract roles media_type origin capture_mode)
          write_temporary (object_temporary object_uuid) (bytes ∷ [])
          commit_and_describe (object_temporary object_uuid) (sha bytes) (length bytes)
              (lit "artifact_" ++ artifact_uuid) roles media_type origin capture_mode record_uuid

  module _ (to_vec : ArtifactDescriptor → Text) (parse_record : Text → Outcome ArtifactRecord) where
    unfoldable pub read_strict_json : StatePath → Step ArtifactRecord
    read_strict_json path = do
      regular "record must be a regular single-link file" (symlink_metadata path)
      file ← call (open_file path)
      regular "record must be a regular single-link file" inspect
      single_link "record must be a regular single-link file" file
      bytes ← call (read_to_end file)
      check (parse_record bytes)

    unfoldable pub load_artifact : Text → Step ArtifactRecord
    unfolding read_strict_json verify_descriptor
    load_artifact artifact_id = do
      check (validate_storage_id artifact_id (lit "artifact_"))
      stored ← read_strict_json (artifact_path artifact_id)
      check (
          ensure
            (not (
              not (same stored.schema_version (lit "artifact_record/v1"))
              || not (same stored.artifact.artifact_id artifact_id)
              || not (same (sha (to_vec stored.artifact)) stored.record_digest)))
            "artifact record identity or digest mismatch")
      verify_descriptor stored.artifact
      check (ok stored)
