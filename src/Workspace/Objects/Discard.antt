-- ===== src/Workspace/Objects/Discard.antt =====
-- The removal of a temporary file by `commit_content_object` of src/workspace.rs, attempt by attempt.
use evidence_workbench.Prelude.{◌-◌, ℕ, ◌≡◌, refl, ◌∙◌, ◌⊎◌, inl, inr, none, false, ok, arith}
use evidence_workbench.Workspace.Retry.{IoError, done, failed, retry_transient}
use evidence_workbench.Workspace.Retry.Attempts.{FailsForNow, retry_transient-last}
use evidence_workbench.Workspace.Disk.{
  StatePath, Disk, same_path, remove_file, set_name, fault_met, without_link,
}
use evidence_workbench.Workspace.Disk.Calls.{
  done_failed, SameFiles, SameFiles-refl, SameFiles-trans, remove_cases, same_path_refl,
  bytes-set_inode,
}

module _ (path : StatePath) where
  -- The name is gone.
  pub record Removed (d d' : Disk) : Type 0 where
    pub gone : d'.names path ≡ none
    pub elsewhere : (p : StatePath) → same_path p path ≡ false → d'.names p ≡ d.names p
    pub bytes : (j : ℕ) → (d'.inodes j).bytes ≡ (d.inodes j).bytes
    pub next_inode : d'.next_inode ≡ d.next_inode

  pub Removed-then_same : {d e d' : Disk} → Removed d e → SameFiles e d' → Removed d d'
  Removed-then_same r s = record {
    gone = s.names path ∙ r.gone;
    elsewhere = λ p h. s.names p ∙ r.elsewhere p h;
    bytes = λ j. s.bytes j ∙ r.bytes j;
    next_inode = s.next_inode ∙ r.next_inode;
  }

  pub Removed-after_same : {d e d' : Disk} → SameFiles d e → Removed e d' → Removed d d'
  Removed-after_same s r = record {
    gone = r.gone;
    elsewhere = λ p h. r.elsewhere p h ∙ s.names p;
    bytes = λ j. r.bytes j ∙ s.bytes j;
    next_inode = r.next_inode ∙ s.next_inode;
  }

  removed : (i : ℕ) (d e : Disk) → SameFiles d e → Removed d (without_link path i (fault_met e))
  unfolding set_name
  removed i d e s = record {
    gone = ground (arith, same_path_refl path);
    elsewhere = λ p h. ground (arith, h, s.names p);
    bytes = λ j. bytes-set_inode i j ((e.inodes i).nlink - 1) e.inodes ∙ s.bytes j;
    next_inode = s.next_inode;
  }

  removal_fails :
      (d : Disk) → FailsForNow false (remove_file path) d → SameFiles d (remove_file path d).1
  removal_fails d (error, e, h) = elim (remove_cases path d) [
    | inl (error', d', p, s) ↦ rw p s
    | inr (i, f, p) ↦ done_failed (remove_file path d) p e
  ]

  -- The removal is done, or it fails and nothing has changed.
  pub discard_cases :
      (d : Disk)
      → ((error : IoError) × (d' : Disk) × (retry_transient false (remove_file path) d
            ≡ (ok (failed error), d'))
          × SameFiles d d')
        ⊎ ((d' : Disk) × (retry_transient false (remove_file path) d ≡ (ok (done tt), d'))
            × Removed d d')
  discard_cases d =
      let (e, s, r) =
        retry_transient-last false (remove_file path) SameFiles SameFiles-refl
          (λ a b c. SameFiles-trans) removal_fails d in
      elim (remove_cases path e) [
        | inl (error, e', p, s') ↦ inl (error, e', rw r (rw p refl), SameFiles-trans s s')
        | inr (i, f, p) ↦ inr (without_link path i (fault_met e), rw r (rw p refl), removed i d e s)
      ]
