-- ===== src/Workspace/Store/Imported.antt =====
-- What `import_artifact_bytes` of src/workspace.rs has stored when it returns a descriptor.
use evidence_workbench.Prelude.{
  arith, ◌<◌, String, ℕ, ◌≡◌, refl, sym, ◌∙◌, ap, inl, inr, some, true, false, List, [], ◌∷◌,
  Outcome, ok, err, subst,
}
use evidence_workbench.Text.{Text, lit}
use evidence_workbench.Workspace.Disk.{StatePath, temporary, record_file, Disk, same_path}
use evidence_workbench.Workspace.Disk.Calls.{some_inj, SameFiles}
use evidence_workbench.Workspace.Store.Kept.{is_stored, not_temporary}
use evidence_workbench.Workspace.Objects.Publish.{Moved}
use evidence_workbench.Workspace.Steps.{follow-eq-ok}
use evidence_workbench.Workspace.Store.{
  record_temporary, validate_layout_shallow, write_temporary, publish_record, write_json_atomic,
}
use evidence_workbench.Workspace.Store.Written.{joined, Written, write_temporary_cases}
use evidence_workbench.Workspace.Store.Records.{validate_layout_shallow_same, publish_record_cases}

pub end_eq :
    {A : Type 0} {a b : Outcome A} {d e : Disk} (answer : Outcome A × Disk)
    → answer ≡ (a, d)
    → answer ≡ (b, e)
    → d ≡ e
end_eq answer p q = ap (λ a. a.1) (sym p ∙ q)

pub err_ok :
    {A B : Type 0} {message : String} {d : Disk} {value : A} {e : Disk} (answer : Outcome A × Disk)
    → answer ≡ (err message, d)
    → answer ≡ (ok value, e)
    → B
err_ok answer p q = let r = ap (λ a. a.0) (sym p ∙ q) in cc

-- A file with the content stands under the name, and under no other.
pub record Stands (path : StatePath) (i : ℕ) (content : Text) (d : Disk) : Type 0 where
  pub at : d.names path ≡ some i
  pub content_is : (d.inodes i).bytes ≡ content
  pub single : (d.inodes i).nlink ≡ 1

-- A new file has its content.
pub written_ok :
    (path : StatePath) (pieces : List Text) (d d' : Disk) (file : ℕ)
    → write_temporary path pieces d ≡ (ok file, d')
    → Written path (joined pieces) d d'
written_ok path pieces d d' file h = elim (write_temporary_cases path pieces d) [
  | inl (message, e, p, q) ↦ err_ok (write_temporary path pieces d) p h
  | inr (e, p, w) ↦
      subst (Written path (joined pieces) d) (end_eq (write_temporary path pieces d) p h) w
]

module _ {path : StatePath} {j : ℕ} {content : Text} where
  pub Stands-same : {d e : Disk} → SameFiles d e → Stands path j content d → Stands path j content e
  Stands-same s t = record {
    at = s.names path ∙ t.at;
    content_is = s.bytes j ∙ t.content_is;
    single = s.nlink j ∙ t.single;
  }

  -- A file with a number of its own is not the new one.
  Stands-written :
      {name part : Text} {d e : Disk}
      → is_stored path ≡ true
      → j < d.next_inode
      → Written (temporary name) part d e
      → Stands path j content d
      → Stands path j content e
  Stands-written {name = name} h k w t = record {
    at = w.elsewhere path (not_temporary path name h) ∙ t.at;
    content_is = w.bytes j (ground (arith, k)) ∙ t.content_is;
    single = w.nlink_other j (ground (arith, k)) ∙ t.single;
  }

  Stands-Moved :
      {name : Text} {destination : StatePath} {i : ℕ} {d e : Disk}
      → is_stored path ≡ true
      → same_path path destination ≡ false
      → Moved (temporary name) destination i d e
      → Stands path j content d
      → Stands path j content e
  Stands-Moved {name = name} h k m t = record {
    at = m.elsewhere path (not_temporary path name h) k ∙ t.at;
    content_is = m.bytes j ∙ t.content_is;
    single = m.nlink j ∙ t.single;
  }

-- The new file stands under the name that it has been moved to.
pub Stands-new :
    {name content : Text} {destination : StatePath} {i : ℕ} {c d e : Disk}
    → Written (temporary name) content c d
    → Moved (temporary name) destination i d e
    → Stands destination i content e
Stands-new {i = i} {d = d} w m =
    let p = some_inj (sym w.at ∙ m.from) in
    record {
      at = m.at;
      content_is = m.bytes i ∙ (ap (λ j. (d.inodes j).bytes) (sym p) ∙ w.content_is);
      single = m.nlink i ∙ (ap (λ j. (d.inodes j).nlink) (sym p) ∙ w.nlink);
    }

-- The record has been written under its name, and no other file has changed.
pub record_ok :
    (registry id bytes uuid : Text) (d d' : Disk)
    → write_json_atomic (record_file registry id) bytes uuid d ≡ (ok tt, d')
    → ((i : ℕ) × Stands (record_file registry id) i (joined (bytes ∷ lit "\n" ∷ [])) d')
      × ((path : StatePath) (j : ℕ) (content : Text)
          → same_path path (record_file registry id) ≡ false
          → is_stored path ≡ true
          → j < d.next_inode
          → Stands path j content d
          → Stands path j content d')
unfolding write_json_atomic same_path
record_ok registry id bytes uuid d d' h =
    let (a, e, layout, h₁) = follow-eq-ok (validate_layout_shallow d) _ h in
    let (file, e₁, new, h₂) =
      follow-eq-ok (write_temporary (record_temporary uuid) (bytes ∷ lit "\n" ∷ []) e) _ h₁ in
    let s = subst (λ f. SameFiles d f.1) layout (validate_layout_shallow_same d) in
    let w = written_ok (record_temporary uuid) (bytes ∷ lit "\n" ∷ []) e e₁ file new in
    elim (publish_record_cases (record_temporary uuid) (record_file registry id) refl e₁) [
      | inl (message, e₂, p, q) ↦
          err_ok (publish_record (record_temporary uuid) (record_file registry id) e₁) p h₂
      | inr (i, e₂, p, m) ↦
          let end' =
            end_eq (publish_record (record_temporary uuid) (record_file registry id) e₁) p h₂ in
          let m' = subst (Moved (record_temporary uuid) (record_file registry id) i e₁) end' m in
          (
            (i, Stands-new w m'),
            λ path j content k st n t.
                Stands-Moved st k m'
                  (Stands-written st (ground (arith, n, s.next_inode)) w (Stands-same s t)),
          )
    ]
