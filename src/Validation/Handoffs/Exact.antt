-- ===== src/Validation/Handoffs/Exact.antt =====
-- `validate_ide_handoff` of src/data_contract_validation.rs beside `IsIdeHandoff`.
use evidence_workbench.Prelude.{
  ◌≡◌, refl, sym, ◌↔◌, Bool, true, not, ◌||◌, List, [], ◌∷◌, map, String, ok, >>=-eq-ok, >>-eq-ok,
  ensure, ensure-eq-ok, arith, subst,
}
use evidence_workbench.Text.{Text, lit, same_iff}
use evidence_workbench.Collections.{equal_sets, Distinct}
use evidence_workbench.Collections.Laws.{equal_sets_iff}
use evidence_workbench.Collections.Fresh.{insert_all}
use evidence_workbench.Contracts.Handoff.{IdeHandoff, RunNativeNamespaces}
use evidence_workbench.Validation.Fields.Laws.{validate_prefixed_id_iff}
use evidence_workbench.Validation.Topology.Spec.{All}
use evidence_workbench.Validation.Handoffs.{
  collect_unique, nothing, plan_key, check_plan, run_key, check_run, artifact_key, check_artifact,
  namespaces_key, check_namespaces_run, check_namespaces, itself, check_namespace,
  unique_namespaces, authority_key, check_authority, validate_timestamp, validate_ide_handoff,
}
use evidence_workbench.Validation.Handoffs.Accepts.{
  Unique-sound, unique_complete, set_keys, IsIdeHandoff,
}

module _ {A : Type 0} {P Q : A → Type 0} where
  All-map : (xs : List A) → ((x : A) → P x → Q x) → All P xs → All Q xs
  All-map [] f h = tt
  All-map (x ∷ xs) f h = (f x h.0, All-map xs f h.1)

abbrev AreNamespaces : List Text → Type 0
AreNamespaces names = All (λ n. check_namespace n ≡ ok tt) names × Distinct names

map-itself : (names : List Text) → map itself names ≡ names
map-itself [] = refl
map-itself (n ∷ names) = λ i. n ∷ map-itself names i

names_iff : (e : RunNativeNamespaces) → (check_namespaces e ≡ ok tt) ↔ AreNamespaces e.namespaces
unfolding unique_namespaces
names_iff e = (
  λ h.
      let (out, ran, _) = >>=-eq-ok (unique_namespaces e.namespaces) _ h in
      let u = Unique-sound itself check_namespace nothing _ e.namespaces [] out ran in
      (
        All-map e.namespaces (λ n p. p.0) u.each,
        subst Distinct (map-itself e.namespaces) u.distinct,
      ),
  λ (each, distinct).
      rw
        (unique_complete itself check_namespace nothing
          "native namespaces must be unique within a run" e.namespaces
          (All-map e.namespaces (λ n p. (p, refl)) each)
          (subst Distinct (sym (map-itself e.namespaces)) distinct))
        refl,
)

both_equal :
    (a b : Bool) (e : String) → ensure (not (not a || not b)) e ≡ ok tt → (a ≡ true) × (b ≡ true)
both_equal a b e h = ground arith

module _ (is_timestamp : Text → Bool) (h : IdeHandoff) where
  abbrev plan_set : List Text
  plan_set = insert_all (map plan_key h.plan_refs) []

  abbrev run_set : List Text
  run_set = insert_all (map run_key h.run_refs) []

  abbrev artifact_set : List Text
  artifact_set = insert_all (map artifact_key h.artifact_refs) []

  abbrev namespace_set : List Text
  namespace_set = insert_all (map namespaces_key h.native_namespaces) []

  abbrev authority_set : List Text
  authority_set = insert_all (map authority_key h.native_authority_availability) []

  ide_sound : validate_ide_handoff is_timestamp h ≡ ok tt → IsIdeHandoff is_timestamp h
  unfolding validate_ide_handoff validate_timestamp
  ide_sound c =
      let (schema, c1) = >>-eq-ok _ _ c in
      let (id, c2) = >>-eq-ok _ _ c1 in
      let (time, c3) = >>-eq-ok _ _ c2 in
      let (some_ref, c4) = >>-eq-ok _ _ c3 in
      let (ps, p, c5) =
        >>=-eq-ok (collect_unique plan_key check_plan nothing _ h.plan_refs []) _ c4 in
      let (rs, r, c6) = >>=-eq-ok (collect_unique run_key check_run nothing _ h.run_refs []) _ c5 in
      let (as', a, c7) =
        >>=-eq-ok (collect_unique artifact_key check_artifact nothing _ h.artifact_refs []) _ c6 in
      let (ns, n, c8) =
        >>=-eq-ok
          (collect_unique namespaces_key check_namespaces_run check_namespaces _ h.native_namespaces
            [])
          _ c7 in
      let (us, u, c9) =
        >>=-eq-ok
          (collect_unique authority_key check_authority nothing _ h.native_authority_availability
            [])
          _ c8 in
      let (en, eu) = both_equal (equal_sets ns rs) (equal_sets us rs) _ c9 in
      let P = Unique-sound plan_key check_plan nothing _ h.plan_refs [] ps p in
      let R = Unique-sound run_key check_run nothing _ h.run_refs [] rs r in
      let A = Unique-sound artifact_key check_artifact nothing _ h.artifact_refs [] as' a in
      let N =
        Unique-sound namespaces_key check_namespaces_run check_namespaces _ h.native_namespaces []
          ns n in
      let U =
        Unique-sound authority_key check_authority nothing _ h.native_authority_availability [] us
          u in
      record {
        schema = (same_iff _ _).0 (ensure-eq-ok _ _ schema);
        handoff_id = (validate_prefixed_id_iff _ _ _).0 id;
        created_at = ensure-eq-ok _ _ time;
        some_record = ground (arith, ensure-eq-ok _ _ some_ref);
        each_plan = All-map h.plan_refs (λ x p. p.0) P.each;
        plans = P.distinct;
        each_run = All-map h.run_refs (λ x p. p.0) R.each;
        runs = R.distinct;
        each_artifact = All-map h.artifact_refs (λ x p. p.0) A.each;
        artifacts = A.distinct;
        each_namespaces = All-map h.native_namespaces (λ x p. (p.0, (names_iff x).0 p.1)) N.each;
        namespace_runs = N.distinct;
        each_authority = All-map h.native_authority_availability (λ x p. p.0) U.each;
        authority_runs = U.distinct;
        same_namespaces =
            (set_keys (map namespaces_key h.native_namespaces) (map run_key h.run_refs)).0
              ((equal_sets_iff _ _).0 (rw⁻¹ (N.result, R.result) en));
        same_authority =
            (set_keys (map authority_key h.native_authority_availability)
                (map run_key h.run_refs)).0
              ((equal_sets_iff _ _).0 (rw⁻¹ (U.result, R.result) eu));
      }

  ide_complete : IsIdeHandoff is_timestamp h → validate_ide_handoff is_timestamp h ≡ ok tt
  unfolding validate_ide_handoff validate_timestamp
  ide_complete v =
      rw
        (
          (same_iff h.schema_version (lit "ide-handoff/v1")).1 v.schema,
          (validate_prefixed_id_iff h.handoff_id (lit "handoff_") "handoff id").1 v.handoff_id,
          v.created_at,
          v.some_record,
          unique_complete plan_key check_plan nothing "IDE handoff plan ids must be unique"
              h.plan_refs (All-map h.plan_refs (λ x p. (p, refl)) v.each_plan) v.plans,
          unique_complete run_key check_run nothing "IDE handoff run ids must be unique" h.run_refs
              (All-map h.run_refs (λ x p. (p, refl)) v.each_run) v.runs,
          unique_complete artifact_key check_artifact nothing
              "IDE handoff artifact ids must be unique" h.artifact_refs
              (All-map h.artifact_refs (λ x p. (p, refl)) v.each_artifact) v.artifacts,
          unique_complete namespaces_key check_namespaces_run check_namespaces
              "IDE handoff may provide one native namespace map per run" h.native_namespaces
              (All-map h.native_namespaces (λ x p. (p.0, (names_iff x).1 p.1)) v.each_namespaces)
              v.namespace_runs,
          unique_complete authority_key check_authority nothing
              "IDE handoff may provide one authority availability per run"
              h.native_authority_availability
              (All-map h.native_authority_availability (λ x p. (p, refl)) v.each_authority)
              v.authority_runs,
          (equal_sets_iff namespace_set run_set).1 (
              (set_keys (map namespaces_key h.native_namespaces) (map run_key h.run_refs)).1
                v.same_namespaces),
          (equal_sets_iff authority_set run_set).1 (
              (set_keys (map authority_key h.native_authority_availability)
                  (map run_key h.run_refs)).1
                v.same_authority),
        )
        refl

  -- `validate_ide_handoff` accepts exactly the handoffs of `IsIdeHandoff`: a well-formed head, a
  -- reference to some record, each reference well-formed and no record referenced twice, and the two
  -- maps about runs for the very runs that are referenced, each of them once.
  pub validate_ide_handoff_iff :
      (validate_ide_handoff is_timestamp h ≡ ok tt) ↔ IsIdeHandoff is_timestamp h
  validate_ide_handoff_iff = (ide_sound, ide_complete)
