-- ===== src/Workspace/Objects/Commit.antt =====
-- `commit_content_object` of src/workspace.rs: the three ways in which it comes back, whatever the
-- system answers to its calls.
use evidence_workbench.Prelude.{
  ℕ, ◌≡◌, refl, sym, ◌∙◌, ◌⊎◌, inl, inr, some, false, String, ok, err, Checked, Bool-cases,
}
use evidence_workbench.Text.{Text}
use evidence_workbench.Workspace.Retry.{IoError, failed, other, retry_transient}
use evidence_workbench.Workspace.Retry.Attempts.{retry_transient-last}
use evidence_workbench.Workspace.Disk.{StatePath, Disk, same_path, io_error}
use evidence_workbench.Workspace.Disk.Calls.{
  SameFiles, SameFiles-refl, SameFiles-trans, SameFiles-sym, same_path_sym,
}
use evidence_workbench.Workspace.Objects.{
  publish_file_no_replace, commit_content_object, is_already_exists, verify_existing_content_object,
}
use evidence_workbench.Workspace.Objects.Publish.{Moved, publish_cases}
use evidence_workbench.Workspace.Objects.Shifts.{
  Shifted-of_Moved, Linked-same, Shifted, Shifted-of_same, Shifted-of_linked, Shifted-then_same,
  Shifted-then-Removed, Moved-same, publish_fails,
}
use evidence_workbench.Workspace.Objects.Discard.{
  Removed-after_same, Removed, Removed-then_same, discard_cases,
}
use evidence_workbench.Workspace.Objects.Verify.{IsContent, IsContent-same, verify_existing_cases}

module _ (sha : Text → Text) (source destination : StatePath) (digest : Text) (size : ℕ) where
  -- The object was there, with the content; the source has been removed and nothing else.
  pub record Found (i : ℕ) (d d' : Disk) : Type 0 where
    pub was : d.names destination ≡ some i
    pub at : d'.names destination ≡ some i
    pub removed : Removed source d d'
    pub content : IsContent sha digest size i d'
    pub single : (d'.inodes i).nlink ≡ 1

  abbrev pub IsRefused : Disk → Checked × Disk → Type 0
  IsRefused d answer =
      (message : String) × (d' : Disk) × (answer ≡ (err message, d'))
      × Shifted source destination d d'

  abbrev pub IsFound : Disk → Checked × Disk → Type 0
  IsFound d answer = (i : ℕ) × (d' : Disk) × (answer ≡ (ok tt, d')) × Found i d d'

  abbrev pub IsPublished : Disk → Checked × Disk → Type 0
  IsPublished d answer =
      (i : ℕ) × (d' : Disk) × (answer ≡ (ok tt, d')) × Moved source destination i d d'

  module _ (a : same_path source destination ≡ false) where
    reversed : same_path destination source ≡ false
    reversed = same_path_sym destination source ∙ a

    -- The publication failed, and not since the object is there.
    cleaned_up :
        (d e : Disk) (error : IoError)
        → retry_transient false (publish_file_no_replace source destination) d
          ≡ (ok (failed error), e)
        → is_already_exists error.kind ≡ false
        → Shifted source destination d e
        → IsRefused d (commit_content_object sha source destination digest size d)
    unfolding commit_content_object
    cleaned_up d e error p h r = elim (discard_cases source e) [
      | inl (error', d', q, s) ↦ (
        "cannot atomically publish artifact object; cleanup also failed",
        d',
        rw p (rw h (rw q refl)),
        Shifted-then_same source destination r s,
      )
      | inr (d', q, g) ↦ (
        "cannot atomically publish artifact object",
        d',
        rw p (rw h (rw q refl)),
        Shifted-then-Removed source destination reversed r g,
      )
    ]

    -- The object is verified after the source is gone.
    compared_with :
        (d e : Disk)
        → Removed source d e
        → commit_content_object sha source destination digest size d
          ≡ verify_existing_content_object sha destination digest size e
        → IsRefused d (commit_content_object sha source destination digest size d)
          ⊎ IsFound d (commit_content_object sha source destination digest size d)
    compared_with d e g p = elim (verify_existing_cases sha destination digest size e) [
      | inl (message, d', q, s) ↦ inl (
        message,
        d',
        p ∙ q,
        Shifted-then_same source destination
            (Shifted-then-Removed source destination reversed
              (Shifted-of_same source destination (SameFiles-refl d)) g)
            s,
      )
      | inr (i, d', q, s, f, n, c) ↦ inr (
        i,
        d',
        p ∙ q,
        record {
          was = sym (g.elsewhere destination reversed) ∙ f;
          at = s.names destination ∙ f;
          removed = Removed-then_same source g s;
          content = IsContent-same sha digest size i (SameFiles-sym s) c;
          single = s.nlink i ∙ n;
        },
      )
    ]

    -- The publication failed and nothing has changed.
    not_published :
        (d e : Disk) (error : IoError)
        → retry_transient false (publish_file_no_replace source destination) d
          ≡ (ok (failed error), e)
        → SameFiles d e
        → IsRefused d (commit_content_object sha source destination digest size d)
          ⊎ IsFound d (commit_content_object sha source destination digest size d)
    unfolding commit_content_object
    not_published d e error p s = elim (Bool-cases (is_already_exists error.kind)) [
      | inr h ↦ inl (cleaned_up d e error p h (Shifted-of_same source destination s))
      | inl h ↦ elim (discard_cases source e) [
        | inl (error', d', q, t) ↦ inl (
          "artifact object already exists, but loser temporary file could not be removed",
          d',
          rw p (rw h (rw q refl)),
          Shifted-of_same source destination (SameFiles-trans s t),
        )
        | inr (d', q, g) ↦
            compared_with d d' (Removed-after_same source s g) (rw p (rw h (rw q refl)))
      ]
    ]

    -- A finished file becomes the object: it is refused with an error, or the object was there with
    -- that content, or the file has been moved to where the object was missing.
    pub commit_cases :
        (d : Disk)
        → IsRefused d (commit_content_object sha source destination digest size d)
          ⊎ (IsFound d (commit_content_object sha source destination digest size d)
              ⊎ IsPublished d (commit_content_object sha source destination digest size d))
    unfolding commit_content_object
    commit_cases d =
        let (e, s, r) =
          retry_transient-last false (publish_file_no_replace source destination) SameFiles
            SameFiles-refl (λ a b c. SameFiles-trans)
            (λ e h. publish_fails source destination e a h) d in
        elim (publish_cases source destination e a) [
          | inl (error, e', p, s') ↦
              elim (not_published d e' error (rw r (rw p refl)) (SameFiles-trans s s')) [
                | inl h ↦ inl h
                | inr h ↦ inr (inl h)
              ]
          | inr (inl (i, e', p, m)) ↦
              inr (inr (i, e', rw r (rw p refl), Moved-same source destination i s m))
          | inr (inr (i, e', p, l)) ↦ inl (
              cleaned_up d e' (io_error other) (rw r (rw p refl)) refl
                (Shifted-of_linked source destination i a (Linked-same source destination i s l)))
        ]

    Found-shifts : (i : ℕ) (d d' : Disk) → Found i d d' → Shifted source destination d d'
    Found-shifts i d d' f = record {
      object_at = inl (f.at ∙ sym f.was);
      source_at = inr f.removed.gone;
      elsewhere = λ p h k. f.removed.elsewhere p h;
      bytes = f.removed.bytes;
      next_inode = f.removed.next_inode;
    }

    -- Whatever it returns, an object that was there is the same file with the same content.
    pub commit_shifts :
        (d : Disk)
        → Shifted source destination d
            (commit_content_object sha source destination digest size d).1
    commit_shifts d = elim (commit_cases d) [
      | inl (message, d', p, r) ↦ rw p r
      | inr (inl (i, d', p, f)) ↦ rw p (Found-shifts i d d' f)
      | inr (inr (i, d', p, m)) ↦ rw p (Shifted-of_Moved source destination i m)
    ]
