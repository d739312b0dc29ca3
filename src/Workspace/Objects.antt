-- ===== src/Workspace/Objects.antt =====
-- src/workspace.rs: how a finished temporary file becomes an object of the store, and how an object
-- is opened and verified, on a system that is not Windows. `sha` is the hexadecimal SHA-256 of bytes.
pub mod Publish
pub mod Shifts
pub mod Commit
pub mod Verify
pub mod Discard
use evidence_workbench.Prelude.{
  inl, inr, ◌⊎◌, ◌||◌, ℕ, zero, suc, ◌+◌, Bool, true, false, ◌&&◌, not, Option, none, some, ◌==◌,
  ltb, length, String, Outcome, ok, err, panic, diverge, Checked, ensure, if◌then◌else◌,
}
use evidence_workbench.Text.{Text, same}
use evidence_workbench.Workspace.Retry.{
  IoError, ErrorKind, IoResult, done, failed, already_exists, other, is_transient, retry_transient,
}
use evidence_workbench.Workspace.Disk.{
  StatePath, Disk, io_error, hard_link, remove_file, open_file, read_to_end, inspect,
  symlink_metadata,
}

abbrev pub after_rollback : IoError → IoResult Unit × Disk → IoResult Unit × Disk
after_rollback error (done _, d) = (failed (io_error error.kind), d)
after_rollback error (failed rollback, d) = (failed (io_error other), d)

abbrev pub after_unlink : StatePath → IoResult Unit × Disk → IoResult Unit × Disk
after_unlink destination (done _, d) = (done tt, d)
after_unlink destination (failed error, d) = after_rollback error (remove_file destination d)

abbrev pub after_link : StatePath → StatePath → IoResult Unit × Disk → IoResult Unit × Disk
after_link source destination (failed error, d) = (failed error, d)
after_link source destination (done _, d) = after_unlink destination (remove_file source d)

unfoldable pub publish_file_no_replace : StatePath → StatePath → Disk → IoResult Unit × Disk
publish_file_no_replace source destination d =
    after_link source destination (hard_link source destination d)

-- An `anyhow::Error`, as far as the code looks into it.
pub data OpenError : Type 0 where
  io : IoError → OpenError
  multiple_link_names : OpenError
  not_regular : OpenError

abbrev pub checked_links : ℕ → Disk → (OpenError ⊎ ℕ) × Disk
checked_links file d =
    if (d.inodes file).nlink == 1 then (inr file, d) else (inl multiple_link_names, d)

abbrev pub checked_metadata : ℕ → IoResult Bool × Disk → (OpenError ⊎ ℕ) × Disk
checked_metadata file (failed error, d) = (inl (io error), d)
checked_metadata file (done false, d) = (inl not_regular, d)
checked_metadata file (done true, d) = checked_links file d

abbrev pub opened : IoResult ℕ × Disk → (OpenError ⊎ ℕ) × Disk
opened (failed error, d) = (inl (io error), d)
opened (done file, d) = checked_metadata file (inspect d)

abbrev pub inspected : StatePath → IoResult Bool × Disk → (OpenError ⊎ ℕ) × Disk
inspected path (failed error, d) = (inl (io error), d)
inspected path (done false, d) = (inl not_regular, d)
inspected path (done true, d) = opened (open_file path d)

unfoldable pub open_verified_private_file : StatePath → Disk → (OpenError ⊎ ℕ) × Disk
open_verified_private_file path d = inspected path (symlink_metadata path d)

unfoldable pub is_retryable_existing_object_open : OpenError → Bool
is_retryable_existing_object_open (io error) = is_transient false error
is_retryable_existing_object_open multiple_link_names = true
is_retryable_existing_object_open not_regular = false

-- After the removal of the temporary file that was not published.
abbrev pub after_cleanup : Outcome (IoResult Unit) × Disk → Checked × Disk
after_cleanup (ok (done _), d) = (err "cannot atomically publish artifact object", d)
after_cleanup (ok (failed error), d) =
    (err "cannot atomically publish artifact object; cleanup also failed", d)
after_cleanup (err message, d) = (err message, d)
after_cleanup (panic, d) = (panic, d)
after_cleanup (diverge, d) = (diverge, d)

abbrev pub is_already_exists : ErrorKind → Bool
is_already_exists already_exists = true
is_already_exists _ = false

module _ (sha : Text → Text) where
  abbrev pub compared : Text → ℕ → IoResult Text × Disk → Checked × Disk
  compared digest size (failed error, d) = (err "cannot read", d)
  compared digest size (done bytes, d) = (
    ensure (not (not (same (sha bytes) digest) || not (length bytes == size)))
        "artifact bytes do not match their recorded digest and length",
    d,
  )

  unfoldable pub verify_open_private_file : ℕ → Text → ℕ → Disk → Checked × Disk
  verify_open_private_file file digest size d = compared digest size (read_to_end file d)

  abbrev pub verify_opened : Text → ℕ → (OpenError ⊎ ℕ) × Disk → Checked × Disk
  verify_opened digest size (inl error, d) =
      (err "private file must be a regular single-link file", d)
  verify_opened digest size (inr file, d) = verify_open_private_file file digest size d

  unfoldable pub verify_file : StatePath → Text → ℕ → Disk → Checked × Disk
  verify_file path digest size d = verify_opened digest size (open_verified_private_file path d)

  -- The loop over the attempts, with the number of those that are left. `again` is the rest of it.
  abbrev pub after_open :
      Text → ℕ → ℕ → (Disk → Checked × Disk) → (OpenError ⊎ ℕ) × Disk → Checked × Disk
  after_open digest size attempt again (inr file, d) = verify_open_private_file file digest size d
  after_open digest size attempt again (inl error, d) =
      if is_retryable_existing_object_open error && ltb attempt 24
      then again d
      else (err "cannot open existing artifact object for verification", d)

  unfoldable pub verify_existing_from : ℕ → ℕ → StatePath → Text → ℕ → Disk → Checked × Disk
  verify_existing_from zero attempt destination digest size d = (panic, d)
  verify_existing_from (suc left) attempt destination digest size d =
      after_open digest size attempt
        (verify_existing_from left (attempt + 1) destination digest size)
        (open_verified_private_file destination d)

  unfoldable pub verify_existing_content_object : StatePath → Text → ℕ → Disk → Checked × Disk
  verify_existing_content_object = verify_existing_from 25 0

  -- After the removal of the temporary file that lost.
  abbrev pub after_loser : StatePath → Text → ℕ → Outcome (IoResult Unit) × Disk → Checked × Disk
  after_loser destination digest size (ok (done _), d) =
      verify_existing_content_object destination digest size d
  after_loser destination digest size (ok (failed error), d) =
      (err "artifact object already exists, but loser temporary file could not be removed", d)
  after_loser destination digest size (err message, d) = (err message, d)
  after_loser destination digest size (panic, d) = (panic, d)
  after_loser destination digest size (diverge, d) = (diverge, d)

  abbrev pub after_publish :
      StatePath → StatePath → Text → ℕ → Outcome (IoResult Unit) × Disk → Checked × Disk
  after_publish source destination digest size (ok (done _), d) = (ok tt, d)
  after_publish source destination digest size (ok (failed error), d) =
      if is_already_exists error.kind
      then after_loser destination digest size (retry_transient false (remove_file source) d)
      else after_cleanup (retry_transient false (remove_file source) d)
  after_publish source destination digest size (err message, d) = (err message, d)
  after_publish source destination digest size (panic, d) = (panic, d)
  after_publish source destination digest size (diverge, d) = (diverge, d)

  unfoldable pub commit_content_object : StatePath → StatePath → Text → ℕ → Disk → Checked × Disk
  commit_content_object source destination digest size d =
      after_publish source destination digest size
        (retry_transient false (publish_file_no_replace source destination) d)
