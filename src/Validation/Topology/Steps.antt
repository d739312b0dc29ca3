-- ===== src/Validation/Topology/Steps.antt =====
-- The loop of `validate_audit_topology` (src/data_contract_validation.rs) over the steps accepts
-- exactly what `Spec` says.
use evidence_workbench.Prelude.{
  ◌≡◌, refl, ◌↔◌, true, false, ◌||◌, List, [], ◌∷◌, arith, Option, none, some, ok, returns,
}
use evidence_workbench.Text.{Text, same_iff}
use evidence_workbench.Text.Order.{before, before_trans, before_ne}
use evidence_workbench.Collections.{contains, insert, Distinct}
use evidence_workbench.Collections.Laws.{contains-insert}
use evidence_workbench.Contracts.Audit.{AuditTopologyStep}
use evidence_workbench.Validation.Fields.{validate_prefixed_id, validate_plan_record_ref}
use evidence_workbench.Validation.Fields.Laws.{
  validate_prefixed_id_iff, validate_plan_record_ref_iff, returns-validate_prefixed_id,
  returns-validate_plan_record_ref,
}
use evidence_workbench.Validation.Topology.{not_after, validate_predecessors, validate_steps, ids}
use evidence_workbench.Validation.Topology.Spec.{All, AscendsFrom, AscendsAfter, plan_ids, IsStep}
use evidence_workbench.Validation.Topology.Predecessors.{
  SeenBefore, step_prefix, seen_step, not_seen, ascends_nil, ascends_cons, predecessors_sound,
  predecessors_complete, returns-validate_predecessors,
}

-- What the rest of the loop is to meet: `plans` are the plan identifiers seen.
pub record StepsFit (steps : List AuditTopologyStep) (plans : List Text) (previous : Option Text)
    : Type 0 where
  pub each : All IsStep steps
  pub ordered : AscendsAfter previous (ids steps)
  pub distinct : Distinct (plan_ids steps)
  pub fresh : (k : Text) → contains k (plan_ids steps) ≡ true → contains k plans ≡ false

-- `result` is the set of the identifiers seen and those of the steps.
abbrev pub Collects : List AuditTopologyStep → List Text → List Text → Type 0
Collects steps seen result =
    (k : Text) → contains k result ≡ (contains k seen || contains k (ids steps))

-- What one round over the steps asks for.
steps_cons :
    (step : AuditTopologyStep) (rest : List AuditTopologyStep) (seen plans : List Text)
    (previous : Option Text) (result : List Text)
    → (validate_steps (step ∷ rest) seen plans previous ≡ ok result) ↔ (
        (validate_prefixed_id step.step_id step_prefix "audit topology step id" ≡ ok tt)
        × (not_after previous step.step_id ≡ false)
        × (contains step.step_id seen ≡ false)
        × (validate_plan_record_ref step.plan_ref "audit topology plan" ≡ ok tt)
        × (contains step.plan_ref.plan_id plans ≡ false)
        × (validate_predecessors step.step_id step.predecessor_step_ids [] none ≡ ok tt)
        × (validate_steps rest
              (insert step.step_id seen)
              (insert step.plan_ref.plan_id plans)
              (some step.step_id)
            ≡ ok result))
unfolding validate_steps
steps_cons step rest seen plans previous result = ground arith

Collects-cons :
    (step : AuditTopologyStep) (rest : List AuditTopologyStep) (seen result : List Text)
    → Collects rest (insert step.step_id seen) result
    → Collects (step ∷ rest) seen result
unfolding contains
Collects-cons step rest seen result c k = ground (arith, c k, contains-insert k step.step_id seen)

pub steps_sound :
    (steps : List AuditTopologyStep) (seen plans : List Text) (previous : Option Text)
    (result : List Text)
    → validate_steps steps seen plans previous ≡ ok result
    → StepsFit steps plans previous × Collects steps seen result
unfolding contains
steps_sound [] seen plans previous result h = (
  record { each = tt; ordered = ascends_nil previous; distinct = tt; fresh = λ k m. cc },
  λ k. unfold validate_steps in ground arith,
)
steps_sound (step ∷ rest) seen plans previous result h =
    let (a, b, c, d, e, f, g) = (steps_cons step rest seen plans previous result).0 h in
    let (fit, all) = steps_sound rest _ _ _ result g in
    let (each, loop, up) = predecessors_sound step.step_id step.predecessor_step_ids [] none f in
    let plan = step.plan_ref.plan_id in
    (
      record {
        each = (
          record {
            step_id = (validate_prefixed_id_iff _ _ _).0 a;
            plan_ref = (validate_plan_record_ref_iff _ _).0 d;
            predecessors = each;
            no_loop = loop;
            ascends = up;
          },
          fit.each,
        );
        ordered = (ascends_cons previous step.step_id (ids rest)).1 (b, fit.ordered);
        distinct = (plan_not_later plan (plan_ids rest) plans fit.fresh, fit.distinct);
        fresh = λ k m. ground (arith, fit.fresh k, contains-insert k plan plans, same_iff k plan);
      },
      Collects-cons step rest seen result all,
    )
  where
    plan_not_later :
        (plan : Text) (later plans : List Text)
        → ((k : Text) → contains k later ≡ true → contains k (insert plan plans) ≡ false)
        → contains plan later ≡ false
    plan_not_later plan later plans f =
        ground (arith, f plan, contains-insert plan plan plans, same_iff plan plan)

pub steps_complete :
    (steps : List AuditTopologyStep) (seen plans : List Text) (previous : Option Text)
    → SeenBefore previous seen
    → StepsFit steps plans previous
    → (result : List Text) × (validate_steps steps seen plans previous ≡ ok result)
unfolding contains
steps_complete [] seen plans previous s fit = (seen, unfold validate_steps in refl)
steps_complete (step ∷ rest) seen plans previous s fit =
    let plan = step.plan_ref.plan_id in
    let (after, higher) = (ascends_cons previous step.step_id (ids rest)).0 fit.ordered in
    let (one, each) = fit.each in
    let (result, e) =
      steps_complete rest (insert step.step_id seen) (insert plan plans) (some step.step_id)
        (seen_step previous step.step_id seen s after)
        (record {
          each = each;
          ordered = higher;
          distinct = fit.distinct.1;
          fresh = λ k m.
              ground
                (arith, fit.fresh k, fit.distinct, contains-insert k plan plans, same_iff k plan);
        }) in
    (
      result,
      (steps_cons step rest seen plans previous result).1 (
        (validate_prefixed_id_iff _ _ _).1 one.step_id,
        after,
        not_seen previous step.step_id seen s after,
        (validate_plan_record_ref_iff _ _).1 one.plan_ref,
        ground (arith, fit.fresh plan, same_iff plan plan),
        predecessors_complete step.step_id step.predecessor_step_ids [] none (λ k. refl)
            (one.predecessors, one.no_loop, one.ascends),
        e,
      ),
    )

pub returns-validate_steps :
    (steps : List AuditTopologyStep) (seen plans : List Text) (previous : Option Text)
    → returns (validate_steps steps seen plans previous) ≡ true
unfolding validate_steps
returns-validate_steps [] seen plans previous = refl
returns-validate_steps (step ∷ rest) seen plans previous = ground (
  arith,
  returns-validate_prefixed_id step.step_id step_prefix "audit topology step id",
  returns-validate_plan_record_ref step.plan_ref "audit topology plan",
  returns-validate_predecessors step.step_id step.predecessor_step_ids [] none,
  returns-validate_steps rest (insert step.step_id seen) (insert step.plan_ref.plan_id plans)
      (some step.step_id),
)

above_foreign :
    (p : Text) (xs : List Text)
    → AscendsFrom p xs
    → (k : Text) → contains k xs ≡ true
    → before p k ≡ true
unfolding contains
above_foreign p [] h k m = cc
above_foreign p (x ∷ xs) h k m =
    ground (arith, above_foreign x xs h.1 k, before_trans p x k, same_iff k x)

ascending-Distinct : (p : Text) (xs : List Text) → AscendsFrom p xs → Distinct (p ∷ xs)
unfolding contains
ascending-Distinct p [] h = (refl, tt)
ascending-Distinct p (x ∷ xs) h = (
  ground (arith, above_foreign p (x ∷ xs) h p, before_ne p p, same_iff p p),
  ascending-Distinct x xs h.1,
)

-- Texts in increasing order are there once each.
pub Distinct-of_ascending : (xs : List Text) → AscendsAfter none xs → Distinct xs
Distinct-of_ascending [] h = tt
Distinct-of_ascending (x ∷ xs) h = ascending-Distinct x xs h
