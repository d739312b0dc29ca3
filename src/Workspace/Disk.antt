-- ===== src/Workspace/Disk.antt =====
-- The files that src/workspace.rs keeps under the directory of its state, with those calls of
-- `std::fs` that it makes on them. A name stands for a file, a file is known by its number and knows
-- how many names it has, and each call first meets the next entry of `faults`: the system does the
-- call, or answers with an error in place of doing it. The same entry says, of a call that asks for
-- the metadata of a directory or of a file, whether there is a directory or a regular file at all, or
-- something else, as a link.
pub mod Calls
use evidence_workbench.Prelude.{
  ℕ, suc, ◌+◌, ◌-◌, Bool, true, false, ◌&&◌, Option, none, some, List, [], ◌∷◌, ◌==◌, ◌++◌,
  if◌then◌else◌,
}
use evidence_workbench.Text.{Text, same}
use evidence_workbench.Workspace.Retry.{
  IoError, ErrorKind, IoResult, done, failed, already_exists, not_found,
}

-- The names of the files: `objects/sha256/..`, with the digest after it; `tmp/..`; and the record
-- `<registry>/<id>.json`.
pub data StatePath : Type 0 where
  object : (digest : Text) → StatePath
  temporary : (name : Text) → StatePath
  record_file : (registry id : Text) → StatePath

unfoldable pub same_path : StatePath → StatePath → Bool
same_path (object d) (object e) = same d e
same_path (temporary m) (temporary n) = same m n
same_path (record_file r i) (record_file s j) = same r s && same i j
same_path _ _ = false

pub record Inode : Type 0 where
  pub bytes : Text
  pub nlink : ℕ

-- How the system meets a call. `another_kind` is for a call that asks for metadata; any other call
-- is done.
pub data Fault : Type 0 where
  does : Fault
  another_kind : Fault
  refuses : IoError → Fault

pub record Disk : Type 0 where
  pub names : StatePath → Option ℕ
  pub inodes : ℕ → Inode
  pub next_inode : ℕ
  pub faults : List Fault

unfoldable pub set_name : StatePath → Option ℕ → (StatePath → Option ℕ) → StatePath → Option ℕ
unfolding same_path
set_name path entry names p = if same_path p path then entry else names p

unfoldable pub set_inode : ℕ → Inode → (ℕ → Inode) → ℕ → Inode
set_inode number inode inodes i = if i == number then inode else inodes i

abbrev pub io_error : ErrorKind → IoError
io_error kind = record { kind = kind; raw_os_error = none }

-- What the call does if the system does it at all.
abbrev pub next_faults : List Fault → List Fault
next_faults [] = []
next_faults (_ ∷ rest) = rest

abbrev pub fault : List Fault → Option IoError
fault (refuses error ∷ _) = some error
fault _ = none

-- The metadata say that there is a directory or a regular file, as the code asks, and no link.
abbrev pub is_real : List Fault → Bool
is_real (another_kind ∷ _) = false
is_real _ = true

abbrev pub fault_met : Disk → Disk
fault_met d = record {
  names = d.names;
  inodes = d.inodes;
  next_inode = d.next_inode;
  faults = next_faults d.faults;
}

abbrev pub answered :
    {A : Type 0} → Option IoError → (Disk → IoResult A × Disk) → Disk → IoResult A × Disk
answered (some error) call d = (failed error, d)
answered none call d = call d

abbrev pub system : {A : Type 0} → (Disk → IoResult A × Disk) → Disk → IoResult A × Disk
system call d = answered (fault d.faults) call (fault_met d)

-- One more name for a file.
abbrev pub with_link : StatePath → ℕ → Disk → Disk
with_link destination i d = record {
  names = set_name destination (some i) d.names;
  inodes =
      set_inode i (record { bytes = (d.inodes i).bytes; nlink = (d.inodes i).nlink + 1 }) d.inodes;
  next_inode = d.next_inode;
  faults = d.faults;
}

abbrev pub without_link : StatePath → ℕ → Disk → Disk
without_link path i d = record {
  names = set_name path none d.names;
  inodes =
      set_inode i (record { bytes = (d.inodes i).bytes; nlink = (d.inodes i).nlink - 1 }) d.inodes;
  next_inode = d.next_inode;
  faults = d.faults;
}

abbrev pub link_found : Option ℕ → Option ℕ → StatePath → Disk → IoResult Unit × Disk
link_found source (some _) destination d = (failed (io_error already_exists), d)
link_found none none destination d = (failed (io_error not_found), d)
link_found (some i) none destination d = (done tt, with_link destination i d)

-- `fs::hard_link(source, destination)`.
unfoldable pub hard_link : StatePath → StatePath → Disk → IoResult Unit × Disk
hard_link source destination =
    system (λ d. link_found (d.names source) (d.names destination) destination d)

abbrev pub remove_found : Option ℕ → StatePath → Disk → IoResult Unit × Disk
remove_found none path d = (failed (io_error not_found), d)
remove_found (some i) path d = (done tt, without_link path i d)

-- `fs::remove_file(path)`.
unfoldable pub remove_file : StatePath → Disk → IoResult Unit × Disk
remove_file path = system (λ d. remove_found (d.names path) path d)

abbrev pub create_found : Option ℕ → StatePath → Disk → IoResult ℕ × Disk
create_found (some _) path d = (failed (io_error already_exists), d)
create_found none path d = (
  done d.next_inode,
  record {
    names = set_name path (some d.next_inode) d.names;
    inodes = set_inode d.next_inode (record { bytes = []; nlink = 1 }) d.inodes;
    next_inode = d.next_inode + 1;
    faults = d.faults;
  },
)

-- `OpenOptions::new().create_new(true).write(true).open(path)`, which returns the file.
unfoldable pub create_new : StatePath → Disk → IoResult ℕ × Disk
create_new path = system (λ d. create_found (d.names path) path d)

-- `file.write_all(bytes)`, at the end of the file.
unfoldable pub write_all : ℕ → Text → Disk → IoResult Unit × Disk
write_all file bytes = system (λ d. (
  done tt,
  record {
    names = d.names;
    inodes =
        set_inode file
          (record { bytes = (d.inodes file).bytes ++ bytes; nlink = (d.inodes file).nlink })
          d.inodes;
    next_inode = d.next_inode;
    faults = d.faults;
  },
))

-- `file.sync_all()`, which changes nothing.
unfoldable pub sync_all : Disk → IoResult Unit × Disk
sync_all = system (λ d. (done tt, d))

-- `fs::symlink_metadata` of a directory, and `file.metadata()`: whether it is a real directory, or a
-- regular file, and not a link or a reparse point.
unfoldable pub inspect : Disk → IoResult Bool × Disk
inspect d = system (λ e. (done (is_real d.faults), e)) d

-- `fs::create_dir`. The directory is no part of the model's files.
unfoldable pub create_dir : Disk → IoResult Unit × Disk
create_dir = system (λ d. (done tt, d))

abbrev pub inspect_found : Option ℕ → Bool → Disk → IoResult Bool × Disk
inspect_found none real d = (failed (io_error not_found), d)
inspect_found (some i) real d = (done real, d)

-- `fs::symlink_metadata(path)` of a file: whether it is a regular file.
unfoldable pub symlink_metadata : StatePath → Disk → IoResult Bool × Disk
symlink_metadata path d = system (λ e. inspect_found (e.names path) (is_real d.faults) e) d

abbrev pub open_found : Option ℕ → Disk → IoResult ℕ × Disk
open_found none d = (failed (io_error not_found), d)
open_found (some i) d = (done i, d)

-- `File::open(path)`.
unfoldable pub open_file : StatePath → Disk → IoResult ℕ × Disk
open_file path = system (λ d. open_found (d.names path) d)

-- The reads of a file up to its end.
unfoldable pub read_to_end : ℕ → Disk → IoResult Text × Disk
read_to_end file = system (λ d. (done (d.inodes file).bytes, d))
