-- ===== src/Workspace/Disk/Calls.antt =====
-- What the calls of `std::fs` do to the files: nothing where they fail.
use evidence_workbench.Prelude.{
  if◌then◌else◌, ◌==◌, ==_iff, sym, Bool-cases, ◌+◌, ◌-◌, Bool, and_iff, ap, ◌∙◌, ℕ, ◌≡◌, refl, ◌⊎◌,
  inl, inr, Option, none, some, true, false, arith,
}
use evidence_workbench.Text.{Text, same, same_iff, same_refl}
use evidence_workbench.Workspace.Retry.{IoError, IoResult, done, failed}
use evidence_workbench.Workspace.Disk.{
  is_real, inspect_found, inspect, symlink_metadata, open_found, open_file, read_to_end, Inode,
  set_inode, record_file, temporary, object, same_path, not_found, already_exists, io_error,
  remove_found, link_found, without_link, fault, with_link, StatePath, answered, fault_met,
  hard_link, system, remove_file, Disk,
}

pub some_inj : {A : Type 0} {a b : A} → some a ≡ some b → a ≡ b
some_inj h = cc

pub same_path_refl : (p : StatePath) → same_path p p ≡ true
unfolding same_path
same_path_refl (object d) = same_refl d
same_path_refl (temporary n) = same_refl n
same_path_refl (record_file r i) = ground (arith, same_refl r, same_refl i)

pub same_path_eq : (p q : StatePath) → same_path p q ≡ true → p ≡ q
unfolding same_path
same_path_eq (object d) (object e) h = ap object ((same_iff d e).0 h)
same_path_eq (object d) (temporary n) h = cc
same_path_eq (object d) (record_file r i) h = cc
same_path_eq (temporary n) (object e) h = cc
same_path_eq (temporary m) (temporary n) h = ap temporary ((same_iff m n).0 h)
same_path_eq (temporary n) (record_file r i) h = cc
same_path_eq (record_file r i) (object e) h = cc
same_path_eq (record_file r i) (temporary n) h = cc
same_path_eq (record_file r i) (record_file s j) h =
    let (e, f) = (and_iff (same r s) (same i j)).0 h in
    rw ((same_iff r s).0 e, (same_iff i j).0 f) refl

pub same_path_sym : (p q : StatePath) → same_path p q ≡ same_path q p
same_path_sym p q = elim (Bool-cases (same_path p q)) [
  | inl h ↦ rw (same_path_eq p q h) refl
  | inr h ↦ elim (Bool-cases (same_path q p)) [
    | inl k ↦ rw (same_path_eq q p k) refl
    | inr k ↦ rw (h, k) refl
  ]
]

-- The contents of a file do not depend on how many names it has.
pub bytes-set_inode :
    (i j n : ℕ) (inodes : ℕ → Inode)
    → (set_inode i (record { bytes = (inodes i).bytes; nlink = n }) inodes j).bytes
      ≡ (inodes j).bytes
unfolding set_inode
bytes-set_inode i j n inodes = of_test (j == i) refl
  where
    of_test :
        (b : Bool)
        → (j == i) ≡ b
        → (if b then record { bytes = (inodes i).bytes; nlink = n } else inodes j).bytes
          ≡ (inodes j).bytes
    of_test true h = ap (λ k. (inodes k).bytes) (sym ((==_iff j i).0 h))
    of_test false h = refl

pub nlink-set_inode :
    (i j n : ℕ) (bytes : Text) (inodes : ℕ → Inode)
    → (set_inode i (record { bytes = bytes; nlink = n }) inodes j).nlink
      ≡ (if j == i then n else (inodes j).nlink)
unfolding set_inode
nlink-set_inode i j n bytes inodes = of_test (j == i)
  where
    of_test :
        (b : Bool)
        → (if b then record { bytes = bytes; nlink = n } else inodes j).nlink
          ≡ (if b then n else (inodes j).nlink)
    of_test true = refl
    of_test false = refl

-- A name more and a name less.
pub one_more_one_less :
    (i : ℕ) (before linked after : ℕ → ℕ)
    → ((j : ℕ) → linked j ≡ (if j == i then before i + 1 else before j))
    → ((j : ℕ) → after j ≡ (if j == i then linked i - 1 else linked j))
    → (j : ℕ) → after j ≡ before j
one_more_one_less i before linked after f g j = elim (Bool-cases (j == i)) [
  | inl h ↦ ground (arith, f i, g j, h, ap before ((==_iff j i).0 h))
  | inr h ↦ ground (arith, f j, g j, h)
]

-- The files are the same, under the same names.
pub record SameFiles (d d' : Disk) : Type 0 where
  pub names : (p : StatePath) → d'.names p ≡ d.names p
  pub bytes : (i : ℕ) → (d'.inodes i).bytes ≡ (d.inodes i).bytes
  pub nlink : (i : ℕ) → (d'.inodes i).nlink ≡ (d.inodes i).nlink
  pub next_inode : d'.next_inode ≡ d.next_inode

pub SameFiles-refl : (d : Disk) → SameFiles d d
SameFiles-refl d = record {
  names = λ p. refl;
  bytes = λ i. refl;
  nlink = λ i. refl;
  next_inode = refl;
}

pub SameFiles-sym : {d e : Disk} → SameFiles d e → SameFiles e d
SameFiles-sym s = record {
  names = λ p. sym (s.names p);
  bytes = λ i. sym (s.bytes i);
  nlink = λ i. sym (s.nlink i);
  next_inode = sym s.next_inode;
}

pub SameFiles-trans : {a b c : Disk} → SameFiles a b → SameFiles b c → SameFiles a c
SameFiles-trans f g = record {
  names = λ p. g.names p ∙ f.names p;
  bytes = λ i. g.bytes i ∙ f.bytes i;
  nlink = λ i. g.nlink i ∙ f.nlink i;
  next_inode = g.next_inode ∙ f.next_inode;
}

pub fault_met_same : (d : Disk) → SameFiles d (fault_met d)
fault_met_same d = record {
  names = λ p. refl;
  bytes = λ i. refl;
  nlink = λ i. refl;
  next_inode = refl;
}

-- A call fails and leaves the files as they were, or it is done after its fault has been met.
abbrev pub Failed : {A : Type 0} → Disk → IoResult A × Disk → Type 0
Failed d answer = (error : IoError) × (d' : Disk) × (answer ≡ (failed error, d')) × SameFiles d d'

pub system_cases :
    {A : Type 0} (call : Disk → IoResult A × Disk) (d : Disk)
    → Failed d (system call d) ⊎ (system call d ≡ call (fault_met d))
system_cases call d = of_fault (fault d.faults)
  where
    of_fault :
        (met : Option IoError)
        → Failed d (answered met call (fault_met d))
          ⊎ (answered met call (fault_met d) ≡ call (fault_met d))
    of_fault (some error) = inl (error, fault_met d, refl, fault_met_same d)
    of_fault none = inr refl

-- A file gets a second name, or the call fails.
pub link_cases :
    (source destination : StatePath) (d : Disk)
    → Failed d (hard_link source destination d)
      ⊎ ((i : ℕ) × (d.names source ≡ some i)
          × (d.names destination ≡ none)
          × (hard_link source destination d ≡ (done tt, with_link destination i (fault_met d))))
unfolding hard_link
link_cases source destination d =
    elim (system_cases (λ d. link_found (d.names source) (d.names destination) destination d) d) [
      | inl h ↦ inl h
      | inr h ↦ of_names (d.names source) (d.names destination) refl refl h
    ]
  where
    of_names :
        (from to : Option ℕ)
        → d.names source ≡ from
        → d.names destination ≡ to
        → hard_link source destination d
          ≡ link_found (d.names source) (d.names destination) destination (fault_met d)
        → Failed d (hard_link source destination d)
          ⊎ ((i : ℕ) × (d.names source ≡ some i)
              × (d.names destination ≡ none)
              × (hard_link source destination d ≡ (done tt, with_link destination i (fault_met d))))
    of_names from (some j) e f h =
        inl (io_error already_exists, fault_met d, rw h (rw (e, f) refl), fault_met_same d)
    of_names none none e f h =
        inl (io_error not_found, fault_met d, rw h (rw (e, f) refl), fault_met_same d)
    of_names (some i) none e f h = inr (i, e, f, rw h (rw (e, f) refl))

pub remove_cases :
    (path : StatePath) (d : Disk)
    → Failed d (remove_file path d)
      ⊎ ((i : ℕ) × (d.names path ≡ some i)
          × (remove_file path d ≡ (done tt, without_link path i (fault_met d))))
unfolding remove_file
remove_cases path d = elim (system_cases (λ d. remove_found (d.names path) path d) d) [
  | inl h ↦ inl h
  | inr h ↦ of_name (d.names path) refl h
]
  where
    of_name :
        (entry : Option ℕ)
        → d.names path ≡ entry
        → remove_file path d ≡ remove_found (d.names path) path (fault_met d)
        → Failed d (remove_file path d)
          ⊎ ((i : ℕ) × (d.names path ≡ some i)
              × (remove_file path d ≡ (done tt, without_link path i (fault_met d))))
    of_name none e h = inl (io_error not_found, fault_met d, rw h (rw e refl), fault_met_same d)
    of_name (some i) e h = inr (i, e, rw h (rw e refl))

-- A call is not both done and failed.
pub done_failed :
    {A B : Type 0} {value : A} {error : IoError} {d : Disk} (answer : IoResult A × Disk)
    → answer ≡ (done value, d)
    → answer.0 ≡ failed error
    → B
done_failed answer p e = let q = sym (ap (λ a. a.0) p) ∙ e in cc

pub open_cases :
    (path : StatePath) (d : Disk)
    → Failed d (open_file path d)
      ⊎ ((i : ℕ) × (d.names path ≡ some i) × (open_file path d ≡ (done i, fault_met d)))
unfolding open_file
open_cases path d = elim (system_cases (λ d. open_found (d.names path) d) d) [
  | inl h ↦ inl h
  | inr h ↦ of_name (d.names path) refl h
]
  where
    of_name :
        (entry : Option ℕ)
        → d.names path ≡ entry
        → open_file path d ≡ open_found (d.names path) (fault_met d)
        → Failed d (open_file path d)
          ⊎ ((i : ℕ) × (d.names path ≡ some i) × (open_file path d ≡ (done i, fault_met d)))
    of_name none e h = inl (io_error not_found, fault_met d, rw h (rw e refl), fault_met_same d)
    of_name (some i) e h = inr (i, e, rw h (rw e refl))

pub inspect_cases :
    (d : Disk) → Failed d (inspect d) ⊎ ((real : Bool) × (inspect d ≡ (done real, fault_met d)))
unfolding inspect
inspect_cases d = elim (system_cases (λ e. (done (is_real d.faults), e)) d) [
  | inl h ↦ inl h
  | inr h ↦ inr (is_real d.faults, h)
]

pub metadata_cases :
    (path : StatePath) (d : Disk)
    → Failed d (symlink_metadata path d)
      ⊎ ((real : Bool) × (symlink_metadata path d ≡ (done real, fault_met d)))
unfolding symlink_metadata
metadata_cases path d =
    elim (system_cases (λ e. inspect_found (e.names path) (is_real d.faults) e) d) [
      | inl h ↦ inl h
      | inr h ↦ of_name (d.names path) refl h
    ]
  where
    of_name :
        (entry : Option ℕ)
        → d.names path ≡ entry
        → symlink_metadata path d ≡ inspect_found (d.names path) (is_real d.faults) (fault_met d)
        → Failed d (symlink_metadata path d)
          ⊎ ((real : Bool) × (symlink_metadata path d ≡ (done real, fault_met d)))
    of_name none e h = inl (io_error not_found, fault_met d, rw h (rw e refl), fault_met_same d)
    of_name (some i) e h = inr (is_real d.faults, rw h (rw e refl))

pub read_cases :
    (file : ℕ) (d : Disk)
    → Failed d (read_to_end file d)
      ⊎ (read_to_end file d ≡ (done (d.inodes file).bytes, fault_met d))
unfolding read_to_end
read_cases file d = system_cases (λ d. (done (d.inodes file).bytes, d)) d
