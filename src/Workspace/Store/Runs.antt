-- ===== src/Workspace/Store/Runs.antt =====
-- The store of src/workspace.rs over time: any number of imports and of records, each with any
-- answers of the system, in any order.
use evidence_workbench.Prelude.{subst, [], ℕ, ◌≡◌, refl, ◌∙◌, ap, Option, none, some, true, List}
use evidence_workbench.Text.{Text}
use evidence_workbench.Contracts.Run.{ArtifactDescriptor, ArtifactRecord}
use evidence_workbench.Workspace.Disk.{Fault, StatePath, object, record_file, Inode, Disk}
use evidence_workbench.Workspace.Store.{write_json_atomic, import_artifact_bytes}
use evidence_workbench.Workspace.Store.Kept.{Sound, Keeps, Keeps-trans, Keeps-of_same, is_stored}
use evidence_workbench.Workspace.Store.Invariant.{
  import_artifact_bytes_keeps, write_json_atomic_keeps,
}
use evidence_workbench.Workspace.Disk.Calls.{some_inj, SameFiles-refl}

-- The state's directory before the first operation.
abbrev pub empty_disk : Disk
empty_disk = record {
  names = λ p. none;
  inodes = λ i. record { bytes = []; nlink = 0 };
  next_inode = 0;
  faults = [];
}

-- What the system will answer.
abbrev pub facing : List Fault → Disk → Disk
facing faults d = record {
  names = d.names;
  inodes = d.inodes;
  next_inode = d.next_inode;
  faults = faults;
}

-- What is stored under a name, seen without files and their numbers.
abbrev pub content_of : Option ℕ → (ℕ → Inode) → Option Text
content_of none inodes = none
content_of (some i) inodes = some (inodes i).bytes

abbrev pub stored_at : Disk → StatePath → Option Text
stored_at d p = content_of (d.names p) d.inodes

module _ (sha : Text → Text) (to_vec : ArtifactDescriptor → Text)
    (to_vec_pretty : ArtifactRecord → Text) where
  pub data Run : Disk → Disk → Type 0 where
    rest : {d : Disk} → Run d d
    then_import :
        {d d' : Disk}
        → Run d d'
        → (faults : List Fault) (bytes : Text) (roles : List Text)
          (media_type origin capture_mode object_uuid artifact_uuid record_uuid : Text)
        → Run d
            (import_artifact_bytes sha to_vec to_vec_pretty bytes roles media_type origin
              capture_mode object_uuid artifact_uuid record_uuid
              (facing faults d')).1
    then_record :
        {d d' : Disk}
        → Run d d'
        → (faults : List Fault) (registry id bytes uuid : Text)
        → Run d (write_json_atomic (record_file registry id) bytes uuid (facing faults d')).1

  facing_keeps : (faults : List Fault) (d : Disk) → Keeps sha d (facing faults d)
  facing_keeps faults d =
      Keeps-of_same sha
        (record { names = λ p. refl; bytes = λ i. refl; nlink = λ i. refl; next_inode = refl })

  pub Run-keeps : {d d' : Disk} → Run d d' → Keeps sha d d'
  Run-keeps (rest {d = d}) = Keeps-of_same sha (SameFiles-refl d)
  Run-keeps
        (then_import {d' = d'} run faults bytes roles media_type origin capture_mode object_uuid
          artifact_uuid record_uuid) =
      Keeps-trans sha (Run-keeps run) (
        Keeps-trans sha (facing_keeps faults d') (
          import_artifact_bytes_keeps sha to_vec to_vec_pretty bytes roles media_type origin
            capture_mode object_uuid artifact_uuid record_uuid (facing faults d')))
  Run-keeps (then_record {d' = d'} run faults registry id bytes uuid) =
      Keeps-trans sha (Run-keeps run) (
        Keeps-trans sha (facing_keeps faults d')
          (write_json_atomic_keeps sha registry id bytes uuid (facing faults d')))

  pub empty-Sound : Sound sha empty_disk
  empty-Sound = record { numbered = λ p i h. cc; content = λ digest i h. cc }

  -- The content of every object that is reached from the empty store hashes to the object's name.
  pub Run-addressed :
      {d : Disk}
      → Run empty_disk d
      → (digest content : Text) → stored_at d (object digest) ≡ some content
      → sha content ≡ digest
  Run-addressed {d = d} run digest content h = of_name (d.names (object digest)) refl h
    where
      of_name :
          (entry : Option ℕ)
          → d.names (object digest) ≡ entry
          → content_of entry d.inodes ≡ some content
          → sha content ≡ digest
      of_name none e k = cc
      of_name (some i) e k =
          subst (λ c. sha c ≡ digest) (some_inj k)
            ((Run-keeps run empty-Sound).0.content digest i e)

  -- The store is a map that only grows: what a sound store has under a name of an object or of a
  -- record, it has there after any further run, with the same content.
  pub Run-append_only :
      {d d' : Disk}
      → Sound sha d
      → Run d d'
      → (p : StatePath) (content : Text) → is_stored p ≡ true
      → stored_at d p ≡ some content
      → stored_at d' p ≡ some content
  Run-append_only {d = d} {d' = d'} s run p content a h = of_name (d.names p) refl h
    where
      of_name :
          (entry : Option ℕ)
          → d.names p ≡ entry
          → content_of entry d.inodes ≡ some content
          → stored_at d' p ≡ some content
      of_name none e k = cc
      of_name (some i) e k =
          let g = (Run-keeps run s).1 in
          rw (g.kept p i a e) (ap some (g.bytes i (s.numbered p i e)) ∙ k)
