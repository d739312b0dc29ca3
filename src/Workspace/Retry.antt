-- ===== src/Workspace/Retry.antt =====
-- src/workspace.rs: `is_transient` and `retry_transient`. The operation that is retried is a function
-- of the state of the disk; each attempt leaves the state in which the next one starts.
pub mod Attempts
use evidence_workbench.Prelude.{
  ℕ, zero, suc, ◌+◌, Bool, true, false, ◌&&◌, ◌||◌, Option, none, some, ltb, ◌==◌, Outcome, ok,
  panic, if◌then◌else◌,
}

-- The kinds of `std::io::ErrorKind` that the code tells apart.
pub data ErrorKind : Type 0 where
  permission_denied would_block interrupted already_exists not_found other : ErrorKind

-- `std::io::Error`.
pub record IoError : Type 0 where
  pub kind : ErrorKind
  pub raw_os_error : Option ℕ

-- `std::io::Result`.
pub data IoResult (A : Type 0) : Type 0 where
  done : A → IoResult A
  failed : IoError → IoResult A

abbrev is_transient_kind : ErrorKind → Bool
is_transient_kind permission_denied = true
is_transient_kind would_block = true
is_transient_kind interrupted = true
is_transient_kind _ = false

abbrev is_violation_code : Option ℕ → Bool
is_violation_code none = false
is_violation_code (some code) = code == 32 || code == 33

module _ (windows : Bool) where
  unfoldable pub is_windows_sharing_or_lock_violation : IoError → Bool
  is_windows_sharing_or_lock_violation error = windows && is_violation_code error.raw_os_error

  unfoldable pub is_transient : IoError → Bool
  unfolding is_windows_sharing_or_lock_violation
  is_transient error = is_transient_kind error.kind || is_windows_sharing_or_lock_violation error

  module _ {S A : Type 0} (operation : S → IoResult A × S) where
    -- The loop `for attempt in 0..25`, with the number of the attempts that are left.
    unfoldable pub retry_from : ℕ → ℕ → S → Outcome (IoResult A) × S
    unfolding is_transient
    retry_from zero attempt s = (panic, s)
    retry_from (suc left) attempt s =
        let (result, s') = operation s in
        let again = retry_from left (attempt + 1) s' in
        elim result [
          | done value ↦ (ok (done value), s')
          | failed error ↦
              if is_transient error && ltb attempt 24 then again else (ok (failed error), s')
        ]

    unfoldable pub retry_transient : S → Outcome (IoResult A) × S
    unfolding retry_from
    retry_transient = retry_from 25 0
