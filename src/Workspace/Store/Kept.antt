-- ===== src/Workspace/Store/Kept.antt =====
-- What every operation of the store keeps: files are numbered, an object hashes to its name, and
-- what is stored stays.
use evidence_workbench.Prelude.{
  ℕ, ◌≡◌, ◌<◌, ◌≤◌, refl, sym, ◌∙◌, ap, ◌⊎◌, inl, inr, Bool, true, false, Option, none, some,
  Outcome, ok, err, panic, diverge, arith, Bool-cases,
}
use evidence_workbench.Text.{Text}
use evidence_workbench.Workspace.Disk.{StatePath, object, temporary, record_file, Disk, same_path}
use evidence_workbench.Workspace.Disk.Calls.{SameFiles, same_path_eq}
use evidence_workbench.Workspace.Objects.Shifts.{Shifted}
use evidence_workbench.Workspace.Steps.{Step, follow}

abbrev pub is_stored : StatePath → Bool
is_stored (object digest) = true
is_stored (temporary name) = false
is_stored (record_file registry id) = true

pub not_temporary :
    (p : StatePath) (name : Text) → is_stored p ≡ true → same_path p (temporary name) ≡ false
unfolding same_path
not_temporary (object digest) name h = refl
not_temporary (temporary n) name h = cc
not_temporary (record_file registry id) name h = refl

none_some : {A B : Type 0} {o : Option A} {a : A} → o ≡ none → o ≡ some a → B
none_some h k = let q = sym h ∙ k in cc

-- Where a name of a file comes from.
module _ {source destination : StatePath} {d d' : Disk} (f : Shifted source destination d d') where
  names_from :
      (p : StatePath) (i : ℕ)
      → d'.names p ≡ some i
      → (d.names p ≡ some i) ⊎ ((p ≡ destination) × (d.names source ≡ some i))
  names_from p i h = elim (Bool-cases (same_path p destination)) [
    | inl k ↦ at_destination (same_path_eq p destination k)
    | inr k ↦ elim (Bool-cases (same_path p source)) [
      | inl l ↦ at_source (same_path_eq p source l)
      | inr l ↦ inl (sym (f.elsewhere p l k) ∙ h)
    ]
  ]
    where
      at_destination :
          p ≡ destination → (d.names p ≡ some i) ⊎ ((p ≡ destination) × (d.names source ≡ some i))
      at_destination e = elim f.object_at [
        | inl k ↦ inl (ap d.names e ∙ (sym k ∙ (sym (ap d'.names e) ∙ h)))
        | inr (n, k) ↦ inr (e, sym k ∙ (sym (ap d'.names e) ∙ h))
      ]

      at_source :
          p ≡ source → (d.names p ≡ some i) ⊎ ((p ≡ destination) × (d.names source ≡ some i))
      at_source e = elim f.source_at [
        | inl k ↦ inl (ap d.names e ∙ (sym k ∙ (sym (ap d'.names e) ∙ h)))
        | inr k ↦ none_some k (sym (ap d'.names e) ∙ h)
      ]

  names_to :
      (p : StatePath) (i : ℕ)
      → same_path p source ≡ false
      → d.names p ≡ some i
      → d'.names p ≡ some i
  names_to p i k h = elim (Bool-cases (same_path p destination)) [
    | inr l ↦ f.elsewhere p k l ∙ h
    | inl l ↦
        let e = same_path_eq p destination l in
        elim f.object_at [
          | inl m ↦ ap d'.names e ∙ (m ∙ (sym (ap d.names e) ∙ h))
          | inr (n, m) ↦ none_some n (sym (ap d.names e) ∙ h)
        ]
  ]

module _ (sha : Text → Text) where
  pub record Sound (d : Disk) : Type 0 where
    pub numbered : (p : StatePath) (i : ℕ) → d.names p ≡ some i → i < d.next_inode
    pub content :
        (digest : Text) (i : ℕ) → d.names (object digest) ≡ some i → sha (d.inodes i).bytes ≡ digest

  pub record Grown (d d' : Disk) : Type 0 where
    pub kept :
        (p : StatePath) (i : ℕ) → is_stored p ≡ true → d.names p ≡ some i → d'.names p ≡ some i
    pub bytes : (i : ℕ) → i < d.next_inode → (d'.inodes i).bytes ≡ (d.inodes i).bytes
    pub grown : d.next_inode ≤ d'.next_inode

  -- A sound store stays sound, and grows.
  abbrev pub Keeps : Disk → Disk → Type 0
  Keeps d d' = Sound d → Sound d' × Grown d d'

  pub Keeps-trans : {a b c : Disk} → Keeps a b → Keeps b c → Keeps a c
  Keeps-trans f g s =
      let (t, m) = f s in
      let (u, n) = g t in
      (
        u,
        record {
          kept = λ p i h k. n.kept p i h (m.kept p i h k);
          bytes = λ i h. n.bytes i (ground (arith, h, m.grown)) ∙ m.bytes i h;
          grown = ground (arith, m.grown, n.grown);
        },
      )

  pub Keeps-of_same : {d d' : Disk} → SameFiles d d' → Keeps d d'
  Keeps-of_same f s = (
    record {
      numbered = λ p i h. ground (arith, s.numbered p i (sym (f.names p) ∙ h), f.next_inode);
      content =
          λ digest i h. ap sha (f.bytes i) ∙ s.content digest i (sym (f.names (object digest)) ∙ h);
    },
    record {
      kept = λ p i h k. f.names p ∙ k;
      bytes = λ i h. f.bytes i;
      grown = ground (arith, f.next_inode);
    },
  )

  -- A sequence keeps what its two halves keep.
  pub follow_keeps :
      {A B : Type 0} (d : Disk) (first : Outcome A × Disk) (next : A → Step B)
      → Keeps d first.1
      → ((a : A) → Keeps first.1 (next a first.1).1)
      → Keeps d (follow first next).1
  follow_keeps d (ok a, e) next f g = Keeps-trans f (g a)
  follow_keeps d (err message, e) next f g = f
  follow_keeps d (panic, e) next f g = f
  follow_keeps d (diverge, e) next f g = f

  pub sequence_keeps :
      {A B : Type 0} (step : Step A) (next : A → Step B)
      → ((d : Disk) → Keeps d (step d).1)
      → ((a : A) (d : Disk) → Keeps d (next a d).1)
      → (d : Disk) → Keeps d (follow (step d) next).1
  sequence_keeps step next f g d = follow_keeps d (step d) next (f d) (λ a. g a (step d).1)

  -- A temporary file gets its name in the store, if its content fits that name.
  pub Keeps-of_shifted :
      {d d' : Disk} (name : Text) (destination : StatePath)
      → ((digest : Text) (i : ℕ)
          → destination ≡ object digest
          → d.names (temporary name) ≡ some i
          → sha (d.inodes i).bytes ≡ digest)
      → Shifted (temporary name) destination d d'
      → Keeps d d'
  Keeps-of_shifted {d = d} {d' = d'} name destination fits f s = (
    record {
      numbered = λ p i h. ground (arith, numbered_before p i (names_from f p i h), f.next_inode);
      content = λ digest i h.
          ap sha (f.bytes i) ∙ content_before digest i (names_from f (object digest) i h);
    },
    record {
      kept = λ p i h k. names_to f p i (not_temporary p name h) k;
      bytes = λ i h. f.bytes i;
      grown = ground (arith, f.next_inode);
    },
  )
    where
      numbered_before :
          (p : StatePath) (i : ℕ)
          → (d.names p ≡ some i) ⊎ ((p ≡ destination) × (d.names (temporary name) ≡ some i))
          → i < d.next_inode
      numbered_before p i (inl h) = s.numbered p i h
      numbered_before p i (inr (e, h)) = s.numbered (temporary name) i h

      content_before :
          (digest : Text) (i : ℕ)
          → (d.names (object digest) ≡ some i)
            ⊎ ((object digest ≡ destination) × (d.names (temporary name) ≡ some i))
          → sha (d.inodes i).bytes ≡ digest
      content_before digest i (inl h) = s.content digest i h
      content_before digest i (inr (e, h)) = fits digest i (sym e) h
