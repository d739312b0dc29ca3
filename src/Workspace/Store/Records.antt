-- ===== src/Workspace/Store/Records.antt =====
-- How src/workspace.rs publishes a record: a record that is there is never replaced.
use evidence_workbench.Prelude.{
  panic, diverge, subst, sym, ℕ, ◌≡◌, refl, ◌∙◌, ◌⊎◌, inl, inr, Bool, true, false, String, Outcome,
  ok, err,
}
use evidence_workbench.Workspace.Retry.{IoError, IoResult, done, failed, other, retry_transient}
use evidence_workbench.Workspace.Retry.Attempts.{retry_transient-last}
use evidence_workbench.Workspace.Disk.{StatePath, Disk, same_path, io_error, inspect, create_dir}
use evidence_workbench.Workspace.Disk.Calls.{
  SameFiles, SameFiles-refl, SameFiles-trans, same_path_sym, inspect_cases, fault_met_same,
  system_cases,
}
use evidence_workbench.Workspace.Objects.{publish_file_no_replace}
use evidence_workbench.Workspace.Objects.Publish.{Moved, publish_cases}
use evidence_workbench.Workspace.Objects.Shifts.{
  Shifted, Shifted-of_same, Shifted-of_linked, Shifted-then_same, Shifted-then-Removed, Moved-same,
  Linked-same, publish_fails,
}
use evidence_workbench.Workspace.Objects.Discard.{discard_cases}
use evidence_workbench.Workspace.Store.{
  after_is_dir, after_create_dir, after_exists, ensure_real_dir, follow, validate_layout_shallow,
  validate_real_dir, publish_record,
}
use evidence_workbench.Workspace.Steps.{retried, follow-check}

inspect_same : (d : Disk) → SameFiles d (inspect d).1
inspect_same d = elim (inspect_cases d) [
  | inl (error, e, p, s) ↦ rw p s
  | inr (real, p) ↦ rw p (fault_met_same d)
]

pub validate_real_dir_same : (d : Disk) → SameFiles d (validate_real_dir d).1
unfolding validate_real_dir
validate_real_dir_same d =
    let (e, s, r) =
      retry_transient-last false inspect SameFiles SameFiles-refl (λ a b c. SameFiles-trans)
        (λ e h. inspect_same e) d in
    subst (SameFiles d) (sym (follow-check (retried inspect d) _))
      (rw r (SameFiles-trans s (inspect_same e)))

create_dir_same : (d : Disk) → SameFiles d (create_dir d).1
unfolding create_dir
create_dir_same d = elim (system_cases (λ e. (done tt, e)) d) [
  | inl (error, e, p, s) ↦ rw p s
  | inr p ↦ rw p (fault_met_same d)
]

is_dir_same :
    {d : Disk} (created : IoResult Unit) (asked : IoResult Bool × Disk)
    → SameFiles d asked.1
    → SameFiles d (after_is_dir created asked).1
is_dir_same created (done true, e) s = SameFiles-trans s (validate_real_dir_same e)
is_dir_same (done _) (done false, e) s = SameFiles-trans s (validate_real_dir_same e)
is_dir_same (failed error) (done false, e) s = s
is_dir_same (done _) (failed error', e) s = SameFiles-trans s (validate_real_dir_same e)
is_dir_same (failed error) (failed error', e) s = s

created_same :
    {d : Disk} (created : Outcome (IoResult Unit) × Disk)
    → SameFiles d created.1
    → SameFiles d (after_create_dir created).1
created_same (ok made, e) s = is_dir_same made (inspect e) (SameFiles-trans s (inspect_same e))
created_same (err message, e) s = s
created_same (panic, e) s = s
created_same (diverge, e) s = s

exists_same :
    {d : Disk} (asked : IoResult Bool × Disk)
    → SameFiles d asked.1
    → SameFiles d (after_exists asked).1
exists_same (done _, e) s = SameFiles-trans s (validate_real_dir_same e)
exists_same (failed error, e) s =
    let (f, t, r) =
      retry_transient-last false create_dir SameFiles SameFiles-refl (λ a b c. SameFiles-trans)
        (λ e h. create_dir_same e) e in
    created_same (retry_transient false create_dir e)
      (SameFiles-trans s (rw r (SameFiles-trans t (create_dir_same f))))

pub ensure_real_dir_same : (d : Disk) → SameFiles d (ensure_real_dir d).1
unfolding ensure_real_dir
ensure_real_dir_same d = exists_same (inspect d) (inspect_same d)

pub validate_layout_shallow_same : (d : Disk) → SameFiles d (validate_layout_shallow d).1
unfolding validate_layout_shallow
validate_layout_shallow_same d = of_first (validate_real_dir d) refl
  where
    of_first :
        (first : Outcome (Unit {0}) × Disk)
        → validate_real_dir d ≡ first
        → SameFiles d (follow first (λ a. validate_real_dir)).1
    of_first (ok a, e) p =
        SameFiles-trans (subst (λ f. SameFiles d f.1) p (validate_real_dir_same d))
          (validate_real_dir_same e)
    of_first (err message, e) p = subst (λ f. SameFiles d f.1) p (validate_real_dir_same d)
    of_first (panic, e) p = subst (λ f. SameFiles d f.1) p (validate_real_dir_same d)
    of_first (diverge, e) p = subst (λ f. SameFiles d f.1) p (validate_real_dir_same d)

module _ (source destination : StatePath) (a : same_path source destination ≡ false) where
  abbrev IsUnpublished : Disk → Outcome (Unit {0}) × Disk → Type 0
  IsUnpublished d answer =
      (message : String) × (d' : Disk) × (answer ≡ (err message, d'))
      × Shifted source destination d d'

  unpublished :
      (d e : Disk) (error : IoError)
      → retry_transient false (publish_file_no_replace source destination) d
        ≡ (ok (failed error), e)
      → Shifted source destination d e
      → IsUnpublished d (publish_record source destination d)
  unfolding publish_record
  unpublished d e error p r = elim (discard_cases source e) [
    | inl (error', d', q, s) ↦ (
      "cannot atomically publish artifact object; cleanup also failed",
      d',
      rw p (rw q refl),
      Shifted-then_same source destination r s,
    )
    | inr (d', q, g) ↦ (
      "cannot atomically publish artifact object",
      d',
      rw p (rw q refl),
      Shifted-then-Removed source destination (same_path_sym destination source ∙ a) r g,
    )
  ]

  -- The finished file is refused, or has been moved to where the record was missing.
  pub publish_record_cases :
      (d : Disk)
      → IsUnpublished d (publish_record source destination d)
        ⊎ ((i : ℕ) × (d' : Disk) × (publish_record source destination d ≡ (ok tt, d'))
            × Moved source destination i d d')
  unfolding publish_record
  publish_record_cases d =
      let (e, s, r) =
        retry_transient-last false (publish_file_no_replace source destination) SameFiles
          SameFiles-refl (λ a b c. SameFiles-trans) (λ e h. publish_fails source destination e a h)
          d in
      elim (publish_cases source destination e a) [
        | inl (error, e', p, s') ↦ inl (
            unpublished d e' error (rw r (rw p refl))
              (Shifted-of_same source destination (SameFiles-trans s s')))
        | inr (inl (i, e', p, m)) ↦
            inr (i, e', rw r (rw p refl), Moved-same source destination i s m)
        | inr (inr (i, e', p, l)) ↦ inl (
            unpublished d e' (io_error other) (rw r (rw p refl))
              (Shifted-of_linked source destination i a (Linked-same source destination i s l)))
      ]
