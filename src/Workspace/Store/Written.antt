-- ===== src/Workspace/Store/Written.antt =====
-- The new files under `tmp` of src/workspace.rs: what is there of one when the writing ends.
use evidence_workbench.Prelude.{
  ℕ, ◌+◌, ◌≡◌, refl, sym, ◌∙◌, ap, ◌⊎◌, inl, inr, ◌==◌, ==_iff, false, Option, none, some, List, [],
  ◌∷◌, ◌++◌, append-nil, append_assoc, String, Outcome, ok, err, arith, subst,
}
use evidence_workbench.Text.{Text}
use evidence_workbench.Workspace.Retry.{IoResult, done, failed, already_exists}
use evidence_workbench.Workspace.Disk.{
  StatePath, Disk, same_path, set_name, set_inode, create_new, write_all, sync_all, fault_met,
  create_found, io_error,
}
use evidence_workbench.Workspace.Disk.Calls.{
  SameFiles, Failed, system_cases, fault_met_same, same_path_refl,
}
use evidence_workbench.Workspace.Store.{write_pieces, write_temporary}

pub sync_same : (d : Disk) → SameFiles d (sync_all d).1
unfolding sync_all
sync_same d = elim (system_cases (λ d. (done tt, d)) d) [
  | inl (error, d', p, s) ↦ rw p s
  | inr p ↦ rw p (fault_met_same d)
]

-- All the pieces, in their order.
abbrev pub joined : List Text → Text
joined [] = []
joined (piece ∷ rest) = piece ++ joined rest

module _ (path : StatePath) where
  pub record Written (content : Text) (d d' : Disk) : Type 0 where
    pub free : d.names path ≡ none
    pub at : d'.names path ≡ some d.next_inode
    pub elsewhere : (p : StatePath) → same_path p path ≡ false → d'.names p ≡ d.names p
    pub bytes : (i : ℕ) → (i == d.next_inode) ≡ false → (d'.inodes i).bytes ≡ (d.inodes i).bytes
    pub nlink_other :
        (i : ℕ) → (i == d.next_inode) ≡ false → (d'.inodes i).nlink ≡ (d.inodes i).nlink
    pub content_is : (d'.inodes d.next_inode).bytes ≡ content
    pub nlink : (d'.inodes d.next_inode).nlink ≡ 1
    pub next_inode : d'.next_inode ≡ d.next_inode + 1

  pub Written-then_same :
      {content : Text} {d e d' : Disk} → Written content d e → SameFiles e d' → Written content d d'
  Written-then_same {d = d} w s = record {
    free = w.free;
    at = s.names path ∙ w.at;
    elsewhere = λ p h. s.names p ∙ w.elsewhere p h;
    bytes = λ i h. s.bytes i ∙ w.bytes i h;
    nlink_other = λ i h. s.nlink i ∙ w.nlink_other i h;
    content_is = s.bytes d.next_inode ∙ w.content_is;
    nlink = s.nlink d.next_inode ∙ w.nlink;
    next_inode = s.next_inode ∙ w.next_inode;
  }

  created : (d : Disk) → d.names path ≡ none → Written [] d (create_found none path (fault_met d)).1
  unfolding set_name set_inode
  created d h = record {
    free = h;
    at = ground (arith, same_path_refl path);
    elsewhere = λ p k. ground (arith, k);
    bytes = λ i k. rw k refl;
    nlink_other = λ i k. rw k refl;
    content_is = rw ((==_iff d.next_inode d.next_inode).1 refl) refl;
    nlink = rw ((==_iff d.next_inode d.next_inode).1 refl) refl;
    next_inode = refl;
  }

  create_cases :
      (d : Disk)
      → Failed d (create_new path d)
        ⊎ ((d' : Disk) × (create_new path d ≡ (done d.next_inode, d')) × Written [] d d')
  unfolding create_new
  create_cases d = elim (system_cases (λ d. create_found (d.names path) path d) d) [
    | inl h ↦ inl h
    | inr h ↦ of_name (d.names path) refl h
  ]
    where
      of_name :
          (entry : Option ℕ)
          → d.names path ≡ entry
          → create_new path d ≡ create_found (d.names path) path (fault_met d)
          → Failed d (create_new path d)
            ⊎ ((d' : Disk) × (create_new path d ≡ (done d.next_inode, d')) × Written [] d d')
      of_name (some i) e h =
          inl (io_error already_exists, fault_met d, rw h (rw e refl), fault_met_same d)
      of_name none e h =
          inr ((create_found none path (fault_met d)).1, rw h (rw e refl), created d e)

  write_cases :
      (content piece : Text) (d e : Disk)
      → Written content d e
      → Failed e (write_all d.next_inode piece e)
        ⊎ ((d' : Disk) × (write_all d.next_inode piece e ≡ (done tt, d'))
            × Written (content ++ piece) d d')
  unfolding write_all set_inode
  write_cases content piece d e w = elim (system_cases (λ e. (done tt, appended e)) e) [
    | inl h ↦ inl h
    | inr h ↦ inr (
      appended (fault_met e),
      h,
      record {
        free = w.free;
        at = w.at;
        elsewhere = w.elsewhere;
        bytes = λ i k. rw k (w.bytes i k);
        nlink_other = λ i k. rw k (w.nlink_other i k);
        content_is =
            rw ((==_iff d.next_inode d.next_inode).1 refl) (ap (λ c. c ++ piece) w.content_is);
        nlink = rw ((==_iff d.next_inode d.next_inode).1 refl) w.nlink;
        next_inode = w.next_inode;
      },
    )
  ]
    where
      appended : Disk → Disk
      appended e = record {
        names = e.names;
        inodes =
            set_inode d.next_inode
              (record {
                bytes = (e.inodes d.next_inode).bytes ++ piece;
                nlink = (e.inodes d.next_inode).nlink;
              })
              e.inodes;
        next_inode = e.next_inode;
        faults = e.faults;
      }

  -- The writing fails, with some of the content in the file, or is done.
  abbrev IsWriting : {A : Type 0} → A → Text → Disk → Outcome A × Disk → Type 0
  IsWriting value content d answer =
      ((message : String) × (d' : Disk) × (answer ≡ (err message, d'))
        × ((part : Text) × Written part d d'))
      ⊎ ((d' : Disk) × (answer ≡ (ok value, d')) × Written content d d')

  pieces_cases :
      (pieces : List Text) (content : Text) (d e : Disk)
      → Written content d e
      → IsWriting tt (content ++ joined pieces) d (write_pieces d.next_inode pieces e)
  pieces_cases [] content d e w =
      inr (e, refl, subst (λ c. Written c d e) (sym (append-nil content)) w)
  pieces_cases (piece ∷ rest) content d e w = elim (write_cases content piece d e w) [
    | inl (error, e', p, s) ↦
        inl ("the system refused", e', rw p refl, (content, Written-then_same w s))
    | inr (e', p, w') ↦ elim (pieces_cases rest (content ++ piece) d e' w') [
      | inl (message, d', q, part) ↦ inl (message, d', rw p q, part)
      | inr (d', q, w'') ↦
          inr
            (d', rw p q, subst (λ c. Written c d d') (append_assoc content piece (joined rest)) w'')
    ]
  ]

  -- A new file is not there, or it is there with a part of the content, and there is an error; or it
  -- has all of the content.
  pub write_temporary_cases :
      (pieces : List Text) (d : Disk)
      → ((message : String) × (d' : Disk) × (write_temporary path pieces d ≡ (err message, d'))
          × (SameFiles d d' ⊎ ((part : Text) × Written part d d')))
        ⊎ ((d' : Disk) × (write_temporary path pieces d ≡ (ok d.next_inode, d'))
            × Written (joined pieces) d d')
  write_temporary_cases pieces d = elim (create_cases d) [
    | inl (error, e, p, s) ↦ inl ("the system refused", e, rw p refl, inl s)
    | inr (e, p, w) ↦ elim (pieces_cases pieces [] d e w) [
      | inl (message, e', q, part) ↦ inl (message, e', rw p (rw q refl), inr part)
      | inr (e', q, w') ↦ of_sync e e' p q w' (sync_all e') refl
    ]
  ]
    where
      of_sync :
          (e e' : Disk)
          → create_new path d ≡ (done d.next_inode, e)
          → write_pieces d.next_inode pieces e ≡ (ok tt, e')
          → Written (joined pieces) d e'
          → (answer : IoResult Unit × Disk) → sync_all e' ≡ answer
          → ((message : String) × (d' : Disk) × (write_temporary path pieces d ≡ (err message, d'))
              × (SameFiles d d' ⊎ ((part : Text) × Written part d d')))
            ⊎ ((d' : Disk) × (write_temporary path pieces d ≡ (ok d.next_inode, d'))
                × Written (joined pieces) d d')
      of_sync e e' p q w (failed error, d') r = inl (
        "the system refused",
        d',
        rw p (rw q (rw r refl)),
        inr (joined pieces, Written-then_same w (subst (λ a. SameFiles e' a.1) r (sync_same e'))),
      )
      of_sync e e' p q w (done _, d') r = inr (
        d',
        rw p (rw q (rw r refl)),
        Written-then_same w (subst (λ a. SameFiles e' a.1) r (sync_same e')),
      )
