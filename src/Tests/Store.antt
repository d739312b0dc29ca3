-- ===== src/Tests/Store.antt =====
-- Runs of `retry_transient`, `commit_content_object` and `import_artifact_bytes` of
-- src/workspace.rs.
use evidence_workbench.Workspace.Identifiers.{validate_storage_id, validate_storage_sha256}
use evidence_workbench.Workspace.Capture.{validate_artifact_capture_contract}
use evidence_workbench.Validation.Fields.{
  is_lower_hex, validate_prefixed_id, validate_sha256, validate_plan_record_ref,
  validate_run_record_ref, validate_artifact_id, validate_identifier,
}
use evidence_workbench.Text.Trim.{
  space1, space2, space3, strip_front, trim_start, trim_end, trim, trim_end_newlines,
}
use evidence_workbench.Text.Order.{before}
use evidence_workbench.Collections.{
  contains, place, insert, collect_set, difference, within_keys, equal_sets, get, put, put_all,
  keys, contains_key,
}
use evidence_workbench.Prelude.{
  err, all, any, ◌≡◌, ◌⊎◌, refl, sym, ◌∙◌, false, Bool-cases, inl, inr, [], ◌∷◌, ◌++◌, none, some,
  Outcome, ok, length, if◌then◌else◌,
}
use evidence_workbench.Text.{
  is_lower, is_upper, is_digit, is_alphanumeric, is_hexdigit, strip_prefix, starts_with, ends_with,
  contains_byte, split, split_once, Text, lit, same, same_iff,
}
use evidence_workbench.Contracts.Run.{ArtifactDescriptor, ArtifactRecord}
use evidence_workbench.RunValidation.Descriptors.{
  validate_lower_hex, validate_nonempty, valid_identifier, validate_roles, validate_origin,
  validate_artifact_descriptor,
}
use evidence_workbench.Workspace.Retry.{
  is_windows_sharing_or_lock_violation, is_transient, retry_from, interrupted, other,
  permission_denied, retry_transient,
}
use evidence_workbench.Workspace.Retry.Attempts.{Ends, retry_transient_lem}
use evidence_workbench.Workspace.Disk.{
  same_path, set_name, set_inode, hard_link, create_new, write_all, sync_all, inspect,
  symlink_metadata, does, another_kind, refuses, open_file, read_to_end, object, temporary,
  record_file, Disk, io_error, remove_file,
}
use evidence_workbench.Workspace.Objects.{
  publish_file_no_replace, open_verified_private_file, is_retryable_existing_object_open,
  verify_open_private_file, verify_file, verify_existing_from, verify_existing_content_object,
  commit_content_object,
}
use evidence_workbench.Workspace.Objects.Commit.{IsRefused, IsFound, IsPublished, commit_cases}
use evidence_workbench.Workspace.Store.{
  validate_real_dir, ensure_real_dir, validate_layout_shallow, object_path, publish_record,
  write_json_atomic, validate_object_storage_path, read_verified_file, verify_descriptor,
  digest_serialized, write_artifact_record, commit_and_describe, read_strict_json,
  import_artifact_bytes, describe, record_of, read_verified_descriptor, load_artifact,
}
use evidence_workbench.Workspace.Store.Kept.{Sound}
use evidence_workbench.Workspace.Store.Import.{Imported, import_artifact_bytes_ok}
use evidence_workbench.Workspace.Store.RoundTrip.{calmed, import-read}
use evidence_workbench.Workspace.Store.Runs.{
  Run-keeps, empty_disk, empty-Sound, facing, stored_at, Run, rest, then_import, then_record,
  Run-addressed, Run-append_only,
}

abbrev zeros : Text
zeros = lit "00000000000000000000000000000000"

abbrev hello_digest : Text
hello_digest = zeros ++ zeros

abbrev other_digest : Text
other_digest = lit "f0000000000000000000000000000000" ++ zeros

abbrev digest_in_test : Text → Text
digest_in_test bytes = if same bytes (lit "hello") then hello_digest else other_digest

abbrev written_descriptor : ArtifactDescriptor → Text
written_descriptor descriptor = lit "{}"

abbrev written_record : ArtifactRecord → Text
written_record stored = lit "{}"

abbrev uuid : Text
uuid = lit "0123456789abcdef0123456789abcdef"

-- The first answer to a removal is an interruption.
abbrev interrupted_once : Disk
interrupted_once = facing (refuses (io_error interrupted) ∷ []) empty_disk

retry_transient_lem_example :
    Ends false
      (remove_file (temporary uuid))
      interrupted_once
      (retry_transient false (remove_file (temporary uuid)) interrupted_once)
retry_transient_lem_example =
    retry_transient_lem false (remove_file (temporary uuid)) interrupted_once

-- The unlinking of the temporary file is refused, and so is the rollback.
abbrev stubborn : Disk
stubborn =
    facing (does ∷ refuses (io_error permission_denied) ∷ refuses (io_error other) ∷ []) (record {
      names =
          λ p. elim p [ object digest ↦ none | temporary name ↦ some 0 | record_file r i ↦ none ];
      inodes = λ i. record { bytes = lit "hello"; nlink = 1 };
      next_inode = 1;
      faults = [];
    })

abbrev commit_in_test : Disk → Outcome (Unit {0}) × Disk
commit_in_test =
    commit_content_object digest_in_test (temporary uuid) (object hello_digest) hello_digest 5

commit_cases_example :
    IsRefused digest_in_test
      (temporary uuid)
      (object hello_digest)
      hello_digest
      5
      stubborn
      (commit_in_test stubborn)
    ⊎ (IsFound digest_in_test
          (temporary uuid)
          (object hello_digest)
          hello_digest
          5
          stubborn
          (commit_in_test stubborn)
        ⊎ IsPublished digest_in_test
            (temporary uuid)
            (object hello_digest)
            hello_digest
            5
            stubborn
            (commit_in_test stubborn))
unfolding same_path
commit_cases_example =
    commit_cases digest_in_test (temporary uuid) (object hello_digest) hello_digest 5 refl stubborn

abbrev import_in_test : Disk → Outcome ArtifactDescriptor × Disk
import_in_test =
    import_artifact_bytes digest_in_test written_descriptor written_record (lit "hello")
      (lit "stdout" ∷ []) (lit "text/plain") (lit "native_file") (lit "byte_for_byte_copy") uuid
      uuid uuid

abbrev described : ArtifactDescriptor
described =
    describe digest_in_test hello_digest 5 (lit "artifact_" ++ uuid) (lit "stdout" ∷ [])
      (lit "text/plain") (lit "native_file") (lit "byte_for_byte_copy")

imports : import_in_test empty_disk ≡ (ok described, (import_in_test empty_disk).1)
unfolding lit same is_lower is_upper is_digit is_alphanumeric is_hexdigit strip_prefix starts_with
    ends_with contains_byte split split_once before all any contains place insert collect_set
    difference within_keys equal_sets get put put_all keys contains_key space1 space2 space3
    strip_front trim_start trim_end trim trim_end_newlines validate_lower_hex validate_nonempty
    valid_identifier validate_roles validate_origin validate_artifact_descriptor validate_storage_id
    validate_storage_sha256 is_lower_hex validate_prefixed_id validate_sha256
    validate_plan_record_ref validate_run_record_ref validate_artifact_id validate_identifier
    is_windows_sharing_or_lock_violation is_transient retry_from retry_transient same_path set_name
    set_inode hard_link remove_file create_new write_all sync_all inspect symlink_metadata open_file
    read_to_end publish_file_no_replace open_verified_private_file is_retryable_existing_object_open
    verify_open_private_file verify_file verify_existing_from verify_existing_content_object
    commit_content_object validate_artifact_capture_contract validate_real_dir ensure_real_dir
    validate_layout_shallow object_path publish_record write_json_atomic
    validate_object_storage_path read_verified_file verify_descriptor read_verified_descriptor
    digest_serialized write_artifact_record commit_and_describe import_artifact_bytes
    read_strict_json load_artifact
imports = refl

describes : validate_artifact_descriptor described ≡ ok tt
unfolding lit same is_lower is_upper is_digit is_alphanumeric is_hexdigit strip_prefix starts_with
    ends_with contains_byte split split_once before all any contains place insert collect_set
    difference within_keys equal_sets get put put_all keys contains_key space1 space2 space3
    strip_front trim_start trim_end trim trim_end_newlines validate_lower_hex validate_nonempty
    valid_identifier validate_roles validate_origin validate_artifact_descriptor validate_storage_id
    validate_storage_sha256 is_lower_hex validate_prefixed_id validate_sha256
    validate_plan_record_ref validate_run_record_ref validate_artifact_id validate_identifier
    is_windows_sharing_or_lock_violation is_transient retry_from retry_transient same_path set_name
    set_inode hard_link remove_file create_new write_all sync_all inspect symlink_metadata open_file
    read_to_end publish_file_no_replace open_verified_private_file is_retryable_existing_object_open
    verify_open_private_file verify_file verify_existing_from verify_existing_content_object
    commit_content_object validate_artifact_capture_contract validate_real_dir ensure_real_dir
    validate_layout_shallow object_path publish_record write_json_atomic
    validate_object_storage_path read_verified_file verify_descriptor read_verified_descriptor
    digest_serialized write_artifact_record commit_and_describe import_artifact_bytes
    read_strict_json load_artifact evidence_workbench.RunValidation.Descriptors.validate_sha256
describes = refl

hello_hashed : digest_in_test (lit "hello") ≡ hello_digest
unfolding lit same
hello_hashed = refl

other_bytes :
    (bytes : Text) → same bytes (lit "hello") ≡ false → digest_in_test bytes ≡ other_digest
other_bytes bytes e = rw e refl

digests_differ : {A : Type 0} → other_digest ≡ hello_digest → A
unfolding lit
digests_differ h = cc

no_collision :
    (bytes : Text) → digest_in_test bytes ≡ digest_in_test (lit "hello") → bytes ≡ lit "hello"
no_collision bytes h = elim (Bool-cases (same bytes (lit "hello"))) [
  | inl e ↦ (same_iff bytes (lit "hello")).0 e
  | inr e ↦ digests_differ (sym (other_bytes bytes e) ∙ (h ∙ hello_hashed))
]

import_artifact_bytes_ok_example :
    (described
      ≡ describe digest_in_test
          (digest_in_test (lit "hello"))
          (length (lit "hello"))
          (lit "artifact_" ++ uuid)
          (lit "stdout" ∷ [])
          (lit "text/plain")
          (lit "native_file")
          (lit "byte_for_byte_copy"))
    × Imported digest_in_test written_descriptor written_record
        (lit "hello")
        described
        (import_in_test empty_disk).1
import_artifact_bytes_ok_example =
    import_artifact_bytes_ok digest_in_test written_descriptor written_record (lit "hello")
      (lit "stdout" ∷ []) (lit "text/plain") (lit "native_file") (lit "byte_for_byte_copy") uuid
      uuid uuid empty_disk (import_in_test empty_disk).1 described
      (empty-Sound digest_in_test written_descriptor written_record) imports

abbrev stored_record : ArtifactRecord
stored_record = record_of digest_in_test written_descriptor written_record described

abbrev read_record : Text → Outcome ArtifactRecord
read_record text = ok stored_record

import-read_example :
    ((read_verified_descriptor digest_in_test described (calmed (import_in_test empty_disk).1)).0
      ≡ ok (lit "hello"))
    × ((load_artifact digest_in_test written_descriptor read_record described.artifact_id
          (calmed (import_in_test empty_disk).1)).0
        ≡ ok stored_record)
import-read_example =
    import-read digest_in_test written_descriptor written_record read_record (lit "hello")
      (lit "stdout" ∷ []) (lit "text/plain") (lit "native_file") (lit "byte_for_byte_copy") uuid
      uuid uuid empty_disk (import_in_test empty_disk).1 described
      (empty-Sound digest_in_test written_descriptor written_record) imports describes no_collision
      refl

-- One import, with a system that refuses nothing.
abbrev after_import : Disk
after_import = (import_in_test (facing [] empty_disk)).1

one_import : Run digest_in_test written_descriptor written_record empty_disk after_import
one_import =
    then_import rest [] (lit "hello") (lit "stdout" ∷ []) (lit "text/plain") (lit "native_file")
      (lit "byte_for_byte_copy") uuid uuid uuid

object_stored : stored_at after_import (object hello_digest) ≡ some (lit "hello")
unfolding lit same is_lower is_upper is_digit is_alphanumeric is_hexdigit strip_prefix starts_with
    ends_with contains_byte split split_once before all any contains place insert collect_set
    difference within_keys equal_sets get put put_all keys contains_key space1 space2 space3
    strip_front trim_start trim_end trim trim_end_newlines validate_lower_hex validate_nonempty
    valid_identifier validate_roles validate_origin validate_artifact_descriptor validate_storage_id
    validate_storage_sha256 is_lower_hex validate_prefixed_id validate_sha256
    validate_plan_record_ref validate_run_record_ref validate_artifact_id validate_identifier
    is_windows_sharing_or_lock_violation is_transient retry_from retry_transient same_path set_name
    set_inode hard_link remove_file create_new write_all sync_all inspect symlink_metadata open_file
    read_to_end publish_file_no_replace open_verified_private_file is_retryable_existing_object_open
    verify_open_private_file verify_file verify_existing_from verify_existing_content_object
    commit_content_object validate_artifact_capture_contract validate_real_dir ensure_real_dir
    validate_layout_shallow object_path publish_record write_json_atomic
    validate_object_storage_path read_verified_file verify_descriptor read_verified_descriptor
    digest_serialized write_artifact_record commit_and_describe import_artifact_bytes
    read_strict_json load_artifact
object_stored = refl

Run-addressed_example : digest_in_test (lit "hello") ≡ hello_digest
Run-addressed_example =
    Run-addressed digest_in_test written_descriptor written_record one_import hello_digest
      (lit "hello") object_stored

-- A record that another operation writes.
after_import-Sound : Sound digest_in_test after_import
after_import-Sound =
    (Run-keeps digest_in_test written_descriptor written_record one_import
      (empty-Sound digest_in_test written_descriptor written_record)).0

abbrev after_record : Disk
after_record =
    (write_json_atomic (record_file (lit "runs") uuid) (lit "{}") uuid
      (facing (refuses (io_error interrupted) ∷ []) after_import)).1

Run-append_only_example : stored_at after_record (object hello_digest) ≡ some (lit "hello")
Run-append_only_example =
    Run-append_only digest_in_test written_descriptor written_record after_import-Sound
      (then_record rest (refuses (io_error interrupted) ∷ []) (lit "runs") uuid (lit "{}") uuid)
      (object hello_digest) (lit "hello") refl object_stored

-- A link in place of a directory of the store.
link-run :
    (validate_real_dir (facing (another_kind ∷ []) empty_disk)).0
    ≡ err "storage directory must be a real directory, not a link or reparse point"
unfolding validate_real_dir inspect retry_transient retry_from
link-run = refl
