-- ===== src/Workspace/Objects/Shifts.antt =====
-- What `commit_content_object` of src/workspace.rs may change of the files, and the attempts to
-- publish that fail for now.
use evidence_workbench.Prelude.{ℕ, ◌≡◌, sym, ◌∙◌, ap, ◌⊎◌, inl, inr, none, true, false}
use evidence_workbench.Workspace.Retry.{
  is_transient, is_windows_sharing_or_lock_violation, IoError, IoResult, failed, other,
}
use evidence_workbench.Workspace.Retry.Attempts.{FailsForNow}
use evidence_workbench.Workspace.Disk.{io_error, StatePath, Disk, same_path}
use evidence_workbench.Workspace.Disk.Calls.{SameFiles, done_failed}
use evidence_workbench.Workspace.Objects.{publish_file_no_replace}
use evidence_workbench.Workspace.Objects.Publish.{Moved, Linked, publish_cases}
use evidence_workbench.Workspace.Objects.Discard.{Removed}

failed_inj : {A : Type 0} {e f : IoError} → ◌≡◌ {A = IoResult A} (failed e) (failed f) → e ≡ f
failed_inj h = cc

other_is_final :
    {B : Type 0} (error : IoError) → io_error other ≡ error → is_transient false error ≡ true → B
unfolding is_transient is_windows_sharing_or_lock_violation
other_is_final error p h = let q = ap (is_transient false) p ∙ h in cc

module _ (source destination : StatePath) where
  pub Moved-same :
      (i : ℕ) {d e d' : Disk}
      → SameFiles d e
      → Moved source destination i e d'
      → Moved source destination i d d'
  Moved-same i s m = record {
    free = sym (s.names destination) ∙ m.free;
    from = sym (s.names source) ∙ m.from;
    at = m.at;
    gone = m.gone;
    elsewhere = λ p h k. m.elsewhere p h k ∙ s.names p;
    bytes = λ j. m.bytes j ∙ s.bytes j;
    nlink = λ j. m.nlink j ∙ s.nlink j;
    next_inode = m.next_inode ∙ s.next_inode;
  }

  pub Linked-same :
      (i : ℕ) {d e d' : Disk}
      → SameFiles d e
      → Linked source destination i e d'
      → Linked source destination i d d'
  Linked-same i s l = record {
    free = sym (s.names destination) ∙ l.free;
    from = sym (s.names source) ∙ l.from;
    at = l.at;
    elsewhere = λ p h. l.elsewhere p h ∙ s.names p;
    bytes = λ j. l.bytes j ∙ s.bytes j;
    next_inode = l.next_inode ∙ s.next_inode;
  }

  pub publish_fails :
      (d : Disk)
      → same_path source destination ≡ false
      → FailsForNow false (publish_file_no_replace source destination) d
      → SameFiles d (publish_file_no_replace source destination d).1
  publish_fails d a (error, e, h) = elim (publish_cases source destination d a) [
    | inl (error', d', p, s) ↦ rw p s
    | inr (inl (i, d', p, m)) ↦ done_failed (publish_file_no_replace source destination d) p e
    | inr (inr (i, d', p, l)) ↦
        let q = sym (ap (λ a. a.0) p) ∙ e in other_is_final error (failed_inj q) h
  ]

  -- The source is the file's name no longer, or is as it was; the destination is as it was, or was
  -- free and is a name of the source's file.
  pub record Shifted (d d' : Disk) : Type 0 where
    pub object_at :
        (d'.names destination ≡ d.names destination)
        ⊎ ((d.names destination ≡ none) × (d'.names destination ≡ d.names source))
    pub source_at : (d'.names source ≡ d.names source) ⊎ (d'.names source ≡ none)
    pub elsewhere :
        (p : StatePath)
        → same_path p source ≡ false
        → same_path p destination ≡ false
        → d'.names p ≡ d.names p
    pub bytes : (j : ℕ) → (d'.inodes j).bytes ≡ (d.inodes j).bytes
    pub next_inode : d'.next_inode ≡ d.next_inode

  pub Shifted-of_same : {d d' : Disk} → SameFiles d d' → Shifted d d'
  Shifted-of_same s = record {
    object_at = inl (s.names destination);
    source_at = inl (s.names source);
    elsewhere = λ p h k. s.names p;
    bytes = s.bytes;
    next_inode = s.next_inode;
  }

  pub Shifted-of_linked :
      {d d' : Disk} (i : ℕ)
      → same_path source destination ≡ false
      → Linked source destination i d d'
      → Shifted d d'
  Shifted-of_linked i a l = record {
    object_at = inr (l.free, l.at ∙ sym l.from);
    source_at = inl (l.elsewhere source a);
    elsewhere = λ p h k. l.elsewhere p k;
    bytes = l.bytes;
    next_inode = l.next_inode;
  }

  -- The files stay the same afterwards.
  pub Shifted-then_same : {d e d' : Disk} → Shifted d e → SameFiles e d' → Shifted d d'
  Shifted-then_same r s = record {
    object_at = elim r.object_at [
      | inl h ↦ inl (s.names destination ∙ h)
      | inr (f, h) ↦ inr (f, s.names destination ∙ h)
    ];
    source_at = elim r.source_at [
      | inl h ↦ inl (s.names source ∙ h)
      | inr h ↦ inr (s.names source ∙ h)
    ];
    elsewhere = λ p h k. s.names p ∙ r.elsewhere p h k;
    bytes = λ j. s.bytes j ∙ r.bytes j;
    next_inode = s.next_inode ∙ r.next_inode;
  }

  -- The source is removed afterwards.
  pub Shifted-then-Removed :
      {d e d' : Disk}
      → same_path destination source ≡ false
      → Shifted d e
      → Removed source e d'
      → Shifted d d'
  Shifted-then-Removed a r q = record {
    object_at = elim r.object_at [
      | inl h ↦ inl (q.elsewhere destination a ∙ h)
      | inr (f, h) ↦ inr (f, q.elsewhere destination a ∙ h)
    ];
    source_at = inr q.gone;
    elsewhere = λ p h k. q.elsewhere p h ∙ r.elsewhere p h k;
    bytes = λ j. q.bytes j ∙ r.bytes j;
    next_inode = q.next_inode ∙ r.next_inode;
  }

  pub Shifted-of_Moved : {d d' : Disk} (i : ℕ) → Moved source destination i d d' → Shifted d d'
  Shifted-of_Moved i m = record {
    object_at = inr (m.free, m.at ∙ sym m.from);
    source_at = inr m.gone;
    elsewhere = m.elsewhere;
    bytes = m.bytes;
    next_inode = m.next_inode;
  }
