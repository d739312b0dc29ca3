-- ===== src/Workspace/Objects/Verify.antt =====
-- The verification of an object that is there, in src/workspace.rs: it changes no file, comes back,
-- and accepts only a file with one name and with the expected content.
use evidence_workbench.Prelude.{
  subst, ap, ◌==◌, ==_iff, ltb, ◌&&◌, ◌||◌, not, Bool-cases, length, Checked, ℕ, zero, suc, ◌+◌,
  ◌≡◌, refl, sym, ◌∙◌, ◌⊎◌, inl, inr, some, true, false, String, ok, err, arith,
}
use evidence_workbench.Text.{Text, same, same_iff}
use evidence_workbench.Workspace.Disk.{StatePath, Disk, fault_met}
use evidence_workbench.Workspace.Disk.Calls.{
  SameFiles, SameFiles-trans, open_cases, read_cases, metadata_cases, inspect_cases, fault_met_same,
}
use evidence_workbench.Workspace.Objects.{
  is_retryable_existing_object_open, multiple_link_names, not_regular, OpenError, io,
  open_verified_private_file, verify_open_private_file, verify_existing_from,
  verify_existing_content_object, verify_file,
}

-- The file could not be opened, or it is open, and has one name.
abbrev pub IsOpened : StatePath → Disk → (OpenError ⊎ ℕ) × Disk → Type 0
IsOpened path d answer =
    ((error : OpenError) × (d' : Disk) × (answer ≡ (inl error, d')) × SameFiles d d')
    ⊎ ((i : ℕ) × (d' : Disk) × (answer ≡ (inr i, d'))
        × SameFiles d d'
        × (d.names path ≡ some i)
        × ((d.inodes i).nlink ≡ 1))

pub IsOpened-cases :
    (path : StatePath) (d : Disk) → IsOpened path d (open_verified_private_file path d)
unfolding open_verified_private_file
IsOpened-cases path d = elim (metadata_cases path d) [
  | inl (error, e, p, s) ↦ inl (io error, e, rw p refl, s)
  | inr (false, p) ↦ inl (not_regular, fault_met d, rw p refl, fault_met_same d)
  | inr (true, p) ↦
      let e = fault_met d in
      elim (open_cases path e) [
        | inl (error, e', q, s) ↦
            inl (io error, e', rw p (rw q refl), SameFiles-trans (fault_met_same d) s)
        | inr (j, g, q) ↦
            let f = fault_met e in
            let twice = SameFiles-trans (fault_met_same d) (fault_met_same e) in
            let thrice = SameFiles-trans twice (fault_met_same f) in
            elim (inspect_cases f) [
              | inl (error, e', r, s) ↦
                  inl (io error, e', rw p (rw q (rw r refl)), SameFiles-trans twice s)
              | inr (false, r) ↦ inl (not_regular, fault_met f, rw p (rw q (rw r refl)), thrice)
              | inr (true, r) ↦ elim (Bool-cases ((d.inodes j).nlink == 1)) [
                | inl h ↦
                    inr
                      (j, fault_met f, rw p (rw q (rw r (rw h refl))), thrice, g, (==_iff _ 1).0 h)
                | inr h ↦
                    inl (multiple_link_names, fault_met f, rw p (rw q (rw r (rw h refl))), thrice)
              ]
            ]
      ]
]

module _ (sha : Text → Text) where
  -- The file has the digest and the size.
  pub record IsContent (digest : Text) (size : ℕ) (i : ℕ) (d : Disk) : Type 0 where
    pub digest_of : sha (d.inodes i).bytes ≡ digest
    pub size_of : length (d.inodes i).bytes ≡ size

  is_content :
      (digest : Text) (size i : ℕ) (d : Disk)
      → not (not (same (sha (d.inodes i).bytes) digest) || not (length (d.inodes i).bytes == size))
        ≡ true
      → IsContent digest size i d
  is_content digest size i d h = record {
    digest_of = (same_iff (sha (d.inodes i).bytes) digest).0 (ground (arith, h));
    size_of = ground (arith, h);
  }

  abbrev pub IsCompared : Text → ℕ → ℕ → Disk → Checked × Disk → Type 0
  IsCompared digest size i d answer =
      ((message : String) × (d' : Disk) × (answer ≡ (err message, d')) × SameFiles d d')
      ⊎ ((d' : Disk) × (answer ≡ (ok tt, d')) × SameFiles d d' × IsContent digest size i d)

  pub IsCompared-cases :
      (digest : Text) (size i : ℕ) (d : Disk)
      → IsCompared digest size i d (verify_open_private_file sha i digest size d)
  unfolding verify_open_private_file
  IsCompared-cases digest size i d = elim (read_cases i d) [
    | inl (error, e, p, s) ↦ inl ("cannot read", e, rw p refl, s)
    | inr p ↦
        let test =
          not (
            not (same (sha (d.inodes i).bytes) digest)
            || not (length (d.inodes i).bytes == size)) in
        elim (Bool-cases test) [
          | inl h ↦
              inr (fault_met d, rw p (rw h refl), fault_met_same d, is_content digest size i d h)
          | inr h ↦ inl (
            "artifact bytes do not match their recorded digest and length",
            fault_met d,
            rw p (rw h refl),
            fault_met_same d,
          )
        ]
  ]

  -- The verification of the object refuses it, or finds a file with one name and that content.
  abbrev pub IsVerified : StatePath → Text → ℕ → Disk → Checked × Disk → Type 0
  IsVerified path digest size d answer =
      ((message : String) × (d' : Disk) × (answer ≡ (err message, d')) × SameFiles d d')
      ⊎ ((i : ℕ) × (d' : Disk) × (answer ≡ (ok tt, d'))
          × SameFiles d d'
          × (d.names path ≡ some i)
          × ((d.inodes i).nlink ≡ 1)
          × IsContent digest size i d)

  pub IsContent-same :
      (digest : Text) (size i : ℕ) {d e : Disk}
      → SameFiles d e
      → IsContent digest size i e
      → IsContent digest size i d
  IsContent-same digest size i s c = record {
    digest_of = ap sha (sym (s.bytes i)) ∙ c.digest_of;
    size_of = ap length (sym (s.bytes i)) ∙ c.size_of;
  }

  -- A file that is open.
  verified :
      (path : StatePath) (digest : Text) (size i : ℕ) (d e : Disk) (answer : Checked × Disk)
      → SameFiles d e
      → d.names path ≡ some i
      → (d.inodes i).nlink ≡ 1
      → answer ≡ verify_open_private_file sha i digest size e
      → IsVerified path digest size d answer
  verified path digest size i d e answer s f n p = elim (IsCompared-cases digest size i e) [
    | inl (message, e', q, s') ↦ inl (message, e', p ∙ q, SameFiles-trans s s')
    | inr (e', q, s', c) ↦
        inr (i, e', p ∙ q, SameFiles-trans s s', f, n, IsContent-same digest size i s c)
  ]

  pub verify_file_cases :
      (path : StatePath) (digest : Text) (size : ℕ) (d : Disk)
      → IsVerified path digest size d (verify_file sha path digest size d)
  unfolding verify_file
  verify_file_cases path digest size d = elim (IsOpened-cases path d) [
    | inl (error, e, p, s) ↦
        inl ("private file must be a regular single-link file", e, rw p refl, s)
    | inr (i, e, p, s, f, n) ↦
        verified path digest size i d e (verify_file sha path digest size d) s f n (rw p refl)
  ]

  -- The answer is the same if files are the same before.
  IsVerified-same :
      (path : StatePath) (digest : Text) (size : ℕ) {d e : Disk} {answer : Checked × Disk}
      → SameFiles d e
      → IsVerified path digest size e answer
      → IsVerified path digest size d answer
  IsVerified-same path digest size s (inl (message, e', p, s')) =
      inl (message, e', p, SameFiles-trans s s')
  IsVerified-same path digest size s (inr (i, e', p, s', f, n, c)) = inr (
    i,
    e',
    p,
    SameFiles-trans s s',
    sym (s.names path) ∙ f,
    sym (s.nlink i) ∙ n,
    IsContent-same digest size i s c,
  )

  turn :
      (left attempt : ℕ) (path : StatePath) (digest : Text) (size : ℕ) (d : Disk)
      → ((e : Disk)
          → ltb attempt 24 ≡ true
          → IsVerified path digest size e
              (verify_existing_from sha left (attempt + 1) path digest size e))
      → IsVerified path digest size d
          (verify_existing_from sha (suc left) attempt path digest size d)
  unfolding verify_existing_from
  turn left attempt path digest size d again = elim (IsOpened-cases path d) [
    | inr (i, e, p, s, f, k) ↦
        verified path digest size i d e
          (verify_existing_from sha (suc left) attempt path digest size d) s f k (rw p refl)
    | inl (error, e, p, s) ↦
        elim (Bool-cases (is_retryable_existing_object_open error && ltb attempt 24)) [
          | inr h ↦
              inl ("cannot open existing artifact object for verification", e, rw p (rw h refl), s)
          | inl h ↦ IsVerified-same path digest size s (
              subst (IsVerified path digest size e) (sym (rw p (rw h refl)))
                (again e (ground (arith, h))))
        ]
  ]

  verify_from_cases :
      (left attempt : ℕ) (path : StatePath) (digest : Text) (size : ℕ) (d : Disk)
      → attempt + suc left ≡ 25
      → IsVerified path digest size d
          (verify_existing_from sha (suc left) attempt path digest size d)
  verify_from_cases zero attempt path digest size d n =
      turn 0 attempt path digest size d (λ e h. ground (arith, h, n))
  verify_from_cases (suc left) attempt path digest size d n =
      turn (suc left) attempt path digest size d
        (λ e h. verify_from_cases left (attempt + 1) path digest size e (ground (arith, n)))

  pub verify_existing_cases :
      (path : StatePath) (digest : Text) (size : ℕ) (d : Disk)
      → IsVerified path digest size d (verify_existing_content_object sha path digest size d)
  unfolding verify_existing_content_object
  verify_existing_cases path digest size d = verify_from_cases 24 0 path digest size d refl
