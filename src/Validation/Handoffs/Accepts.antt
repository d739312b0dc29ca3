-- ===== src/Validation/Handoffs/Accepts.antt =====
-- What `validate_ide_handoff` of src/data_contract_validation.rs accepts.
use evidence_workbench.Prelude.{
  ◌≡◌, refl, sym, ◌∙◌, ◌↔◌, Bool, true, false, ◌&&◌, List, [], ◌∷◌, map, String, Checked, ok, arith,
}
use evidence_workbench.Text.{Text, lit}
use evidence_workbench.Collections.{contains, insert, Distinct, SameKeys}
use evidence_workbench.Collections.Fresh.{
  insert_all, contains-insert_all, not_later, fresh_cons, fresh_tail, fresh_head,
}
use evidence_workbench.Contracts.Handoff.{IdeHandoff}
use evidence_workbench.Validation.Fields.Laws.{IsPrefixedId}
use evidence_workbench.Validation.Topology.Spec.{All}
use evidence_workbench.Validation.Handoffs.{
  is_nil, collect_unique, plan_key, check_plan, run_key, check_run, artifact_key, check_artifact,
  namespaces_key, check_namespaces_run, check_namespace, authority_key, check_authority,
}

module _ {A : Type 0} (key : A → Text) (first then' : A → Checked) (repeated : String) where
  -- Each entry passes both checks.
  abbrev pub Passes : A → Type 0
  Passes x = (first x ≡ ok tt) × (then' x ≡ ok tt)

  pub record Unique (xs : List A) (seen out : List Text) : Type 0 where
    pub each : All Passes xs
    pub distinct : Distinct (map key xs)
    pub fresh : (k : Text) → contains k (map key xs) ≡ true → contains k seen ≡ false
    pub result : out ≡ insert_all (map key xs) seen

  unique_cons :
      (x : A) (rest : List A) (seen out : List Text)
      → (collect_unique key first then' repeated (x ∷ rest) seen ≡ ok out) ↔ (
          (first x ≡ ok tt)
          × (contains (key x) seen ≡ false)
          × (then' x ≡ ok tt)
          × (collect_unique key first then' repeated rest (insert (key x) seen) ≡ ok out))
  unfolding collect_unique
  unique_cons x rest seen out = ground arith

  pub Unique-sound :
      (xs : List A) (seen out : List Text)
      → collect_unique key first then' repeated xs seen ≡ ok out
      → Unique xs seen out
  Unique-sound [] seen out h =
      unfold collect_unique contains in
      record { each = tt; distinct = tt; fresh = λ k m. cc; result = ground (arith, h) }
  Unique-sound (x ∷ rest) seen out h =
      let (a, new, b, more) = (unique_cons x rest seen out).0 h in
      let later = Unique-sound rest (insert (key x) seen) out more in
      record {
        each = ((a, b), later.each);
        distinct = (not_later (key x) (map key rest) seen later.fresh, later.distinct);
        fresh = fresh_cons (key x) (map key rest) seen new later.fresh;
        result = later.result;
      }

  unique_fresh :
      (xs : List A) (seen : List Text)
      → All Passes xs
      → Distinct (map key xs)
      → ((k : Text) → contains k (map key xs) ≡ true → contains k seen ≡ false)
      → collect_unique key first then' repeated xs seen ≡ ok (insert_all (map key xs) seen)
  unique_fresh [] seen e d f = unfold collect_unique in refl
  unique_fresh (x ∷ rest) seen e d f =
      (unique_cons x rest seen (insert_all (map key rest) (insert (key x) seen))).1 (
        e.0.0,
        fresh_head (key x) (map key rest) seen f,
        e.0.1,
        unique_fresh rest (insert (key x) seen) e.1 d.1
            (fresh_tail (key x) (map key rest) seen d.0 f),
      )

  pub unique_complete :
      (xs : List A)
      → All Passes xs
      → Distinct (map key xs)
      → collect_unique key first then' repeated xs [] ≡ ok (insert_all (map key xs) [])
  unique_complete xs e d = unique_fresh xs [] e d (λ k m. unfold contains in refl)

-- The keys that are left in the set are those of the entries.
pub in_set : (k : Text) (xs : List Text) → contains k (insert_all xs []) ≡ contains k xs
in_set k xs = unfold contains in ground (arith, contains-insert_all k xs [])

pub set_keys : (xs ys : List Text) → SameKeys (insert_all xs []) (insert_all ys []) ↔ SameKeys xs ys
set_keys xs ys =
    (λ s k. sym (in_set k xs) ∙ s k ∙ in_set k ys, λ s k. in_set k xs ∙ s k ∙ sym (in_set k ys))

module _ (is_timestamp : Text → Bool) where
  -- A handoff: no record is referenced twice, and the two maps about runs are for the very runs that
  -- are referenced, each of them once.
  pub record IsIdeHandoff (h : IdeHandoff) : Type 0 where
    pub schema : h.schema_version ≡ lit "ide-handoff/v1"
    pub handoff_id : IsPrefixedId (lit "handoff_") h.handoff_id
    pub created_at : is_timestamp h.created_at ≡ true
    pub some_record : (is_nil h.plan_refs && is_nil h.run_refs && is_nil h.artifact_refs) ≡ false
    pub each_plan : All (λ r. check_plan r ≡ ok tt) h.plan_refs
    pub plans : Distinct (map plan_key h.plan_refs)
    pub each_run : All (λ r. check_run r ≡ ok tt) h.run_refs
    pub runs : Distinct (map run_key h.run_refs)
    pub each_artifact : All (λ r. check_artifact r ≡ ok tt) h.artifact_refs
    pub artifacts : Distinct (map artifact_key h.artifact_refs)
    pub each_namespaces :
        All
          (λ e.
            (check_namespaces_run e ≡ ok tt)
            × (All (λ n. check_namespace n ≡ ok tt) e.namespaces × Distinct e.namespaces))
          h.native_namespaces
    pub namespace_runs : Distinct (map namespaces_key h.native_namespaces)
    pub each_authority : All (λ e. check_authority e ≡ ok tt) h.native_authority_availability
    pub authority_runs : Distinct (map authority_key h.native_authority_availability)
    pub same_namespaces : SameKeys (map namespaces_key h.native_namespaces) (map run_key h.run_refs)
    pub same_authority :
        SameKeys (map authority_key h.native_authority_availability) (map run_key h.run_refs)
