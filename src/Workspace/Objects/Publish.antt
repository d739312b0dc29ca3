-- ===== src/Workspace/Objects/Publish.antt =====
-- The ways in which `publish_file_no_replace` of src/workspace.rs comes back.
use evidence_workbench.Prelude.{
  subst, sym, ◌+◌, ap, ◌∙◌, ◌-◌, Bool-cases, ℕ, ◌≡◌, refl, ◌⊎◌, inl, inr, none, some, false, arith,
}
use evidence_workbench.Workspace.Retry.{IoResult, done, failed, other}
use evidence_workbench.Workspace.Disk.{
  remove_file, without_link, fault_met, with_link, set_inode, set_name, StatePath, Disk, io_error,
  same_path,
}
use evidence_workbench.Workspace.Disk.Calls.{
  SameFiles-refl, some_inj, remove_cases, link_cases, same_path_eq, nlink-set_inode, same_path_sym,
  one_more_one_less, bytes-set_inode, same_path_refl, SameFiles, SameFiles-trans, Failed,
}
use evidence_workbench.Workspace.Objects.{after_rollback, IoError, publish_file_no_replace}

module _ (source destination : StatePath) where
  -- The file has lost its old name and has the new one, or has both names.
  pub record Moved (i : ℕ) (d d' : Disk) : Type 0 where
    pub free : d.names destination ≡ none
    pub from : d.names source ≡ some i
    pub at : d'.names destination ≡ some i
    pub gone : d'.names source ≡ none
    pub elsewhere :
        (p : StatePath)
        → same_path p source ≡ false
        → same_path p destination ≡ false
        → d'.names p ≡ d.names p
    pub bytes : (j : ℕ) → (d'.inodes j).bytes ≡ (d.inodes j).bytes
    pub nlink : (j : ℕ) → (d'.inodes j).nlink ≡ (d.inodes j).nlink
    pub next_inode : d'.next_inode ≡ d.next_inode

  pub record Linked (i : ℕ) (d d' : Disk) : Type 0 where
    pub free : d.names destination ≡ none
    pub from : d.names source ≡ some i
    pub at : d'.names destination ≡ some i
    pub elsewhere : (p : StatePath) → same_path p destination ≡ false → d'.names p ≡ d.names p
    pub bytes : (j : ℕ) → (d'.inodes j).bytes ≡ (d.inodes j).bytes
    pub next_inode : d'.next_inode ≡ d.next_inode

  linked :
      (i : ℕ) (d : Disk)
      → d.names source ≡ some i
      → d.names destination ≡ none
      → Linked i d (with_link destination i (fault_met d))
  unfolding set_name set_inode
  linked i d e f = record {
    free = f;
    from = e;
    at = ground (arith, same_path_refl destination);
    elsewhere = λ p h. ground (arith, h);
    bytes = λ j. bytes-set_inode i j ((d.inodes i).nlink + 1) d.inodes;
    next_inode = refl;
  }

  -- The number of its names once a name has been taken away again.
  nlink_back :
      (path : StatePath) (i : ℕ) (d e : Disk)
      → SameFiles (with_link destination i (fault_met d)) e
      → (j : ℕ) → ((without_link path i (fault_met e)).inodes j).nlink ≡ (d.inodes j).nlink
  nlink_back path i d e g =
      one_more_one_less i (λ j. (d.inodes j).nlink) (λ j. (e.inodes j).nlink)
        (λ j. ((without_link path i (fault_met e)).inodes j).nlink)
        (λ j. g.nlink j ∙ nlink-set_inode i j ((d.inodes i).nlink + 1) (d.inodes i).bytes d.inodes)
        (λ j. nlink-set_inode i j ((e.inodes i).nlink - 1) (e.inodes i).bytes e.inodes)

  bytes_back :
      (path : StatePath) (i : ℕ) (d e : Disk)
      → SameFiles (with_link destination i (fault_met d)) e
      → (j : ℕ) → ((without_link path i (fault_met e)).inodes j).bytes ≡ (d.inodes j).bytes
  bytes_back path i d e g j =
      bytes-set_inode i j ((e.inodes i).nlink - 1) e.inodes
      ∙ (g.bytes j ∙ bytes-set_inode i j ((d.inodes i).nlink + 1) d.inodes)

  moved :
      (i : ℕ) (d e : Disk)
      → same_path source destination ≡ false
      → d.names source ≡ some i
      → d.names destination ≡ none
      → SameFiles (with_link destination i (fault_met d)) e
      → Moved i d (without_link source i (fault_met e))
  unfolding set_name
  moved i d e a h f g = record {
    free = f;
    from = h;
    at = ground (
      arith,
      a,
      g.names destination,
      same_path_refl destination,
      same_path_sym source destination,
    );
    gone = ground (arith, same_path_refl source);
    elsewhere = λ p k k'. ground (arith, k, k', g.names p);
    bytes = bytes_back source i d e g;
    nlink = nlink_back source i d e g;
    next_inode = g.next_inode;
  }

  rolled_back :
      (i : ℕ) (d e : Disk)
      → d.names destination ≡ none
      → SameFiles (with_link destination i (fault_met d)) e
      → SameFiles d (without_link destination i (fault_met e))
  unfolding set_name
  rolled_back i d e f g = record {
    names = λ p. elim (Bool-cases (same_path p destination)) [
      | inl h ↦ ground (arith, h, f, ap d.names (same_path_eq p destination h))
      | inr h ↦ ground (arith, h, g.names p)
    ];
    bytes = bytes_back destination i d e g;
    nlink = nlink_back destination i d e g;
    next_inode = g.next_inode;
  }

  stuck :
      (i : ℕ) (d e : Disk)
      → d.names source ≡ some i
      → d.names destination ≡ none
      → SameFiles (with_link destination i (fault_met d)) e
      → Linked i d e
  stuck i d e h f g =
      let l = linked i d h f in
      record {
        free = f;
        from = h;
        at = g.names destination ∙ l.at;
        elsewhere = λ p k. g.names p ∙ l.elsewhere p k;
        bytes = λ j. g.bytes j ∙ l.bytes j;
        next_inode = g.next_inode;
      }

  abbrev pub IsMoved : Disk → IoResult Unit × Disk → Type 0
  IsMoved d answer = (i : ℕ) × (d' : Disk) × (answer ≡ (done tt, d')) × Moved i d d'

  abbrev pub IsLinked : Disk → IoResult Unit × Disk → Type 0
  IsLinked d answer =
      (i : ℕ) × (d' : Disk) × (answer ≡ (failed (io_error other), d')) × Linked i d d'

  -- The source could not be removed.
  not_removed :
      (i : ℕ) (d e : Disk) (error : IoError)
      → d.names source ≡ some i
      → d.names destination ≡ none
      → SameFiles (with_link destination i (fault_met d)) e
      → publish_file_no_replace source destination d
        ≡ after_rollback error (remove_file destination e)
      → Failed d (publish_file_no_replace source destination d)
        ⊎ IsLinked d (publish_file_no_replace source destination d)
  not_removed i d e error h f g p = elim (remove_cases destination e) [
    | inl (error', e', q, same') ↦
        inr (i, e', rw p (rw q refl), stuck i d e' h f (SameFiles-trans g same'))
    | inr (k, q, r) ↦
        let k≡i = some_inj (sym q ∙ (g.names destination ∙ (linked i d h f).at)) in
        inl (
          io_error error.kind,
          without_link destination k (fault_met e),
          rw p (rw r refl),
          subst (λ k. SameFiles d (without_link destination k (fault_met e))) (sym k≡i)
              (rolled_back i d e f g),
        )
  ]

  -- The file has moved; or the call failed and nothing has changed; or the call failed and the file
  -- has both names, as the new one could not be taken away again.
  pub publish_cases :
      (d : Disk)
      → same_path source destination ≡ false
      → Failed d (publish_file_no_replace source destination d)
        ⊎ (IsMoved d (publish_file_no_replace source destination d)
            ⊎ IsLinked d (publish_file_no_replace source destination d))
  unfolding publish_file_no_replace
  publish_cases d a = elim (link_cases source destination d) [
    | inl (error, e, p, s) ↦ inl (error, e, rw p refl, s)
    | inr (i, h, f, p) ↦
        let e = with_link destination i (fault_met d) in
        elim (remove_cases source e) [
          | inl (error, e', q, s) ↦ elim (not_removed i d e' error h f s (rw p (rw q refl))) [
            | inl k ↦ inl k
            | inr k ↦ inr (inr k)
          ]
          | inr (k, q, r) ↦
              let k≡i = some_inj (sym q ∙ ((linked i d h f).elsewhere source a ∙ h)) in
              inr (
                inl (
                  i,
                  without_link source k (fault_met e),
                  rw p (rw r refl),
                  subst (λ k. Moved i d (without_link source k (fault_met e))) (sym k≡i)
                      (moved i d e a h f (SameFiles-refl e)),
                ))
        ]
  ]
