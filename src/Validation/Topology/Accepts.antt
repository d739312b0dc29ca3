-- ===== src/Validation/Topology/Accepts.antt =====
-- `validate_audit_topology` (src/data_contract_validation.rs) as a whole: what it accepts, that an
-- accepted topology has no cycle, and that it always comes back.
use evidence_workbench.Prelude.{
  ◌≢◌, is_ok_with_iff, is_ok_with, outcome_cases, all, ◌<◌, ◌≡◌, refl, ◌↔◌, sym, ◌∙◌, true, false,
  List, [], ◌∷◌, arith, none, ok, returns, Memᴰ, ◌==◌, ==_iff, length, subst, ap, inl, inr,
}
use evidence_workbench.Text.{Text, lit, same, same_iff, same_refl}
use evidence_workbench.Collections.{contains, Within}
use evidence_workbench.Contracts.Audit.{AuditTopologyStep, AuditTopology}
use evidence_workbench.Validation.Fields.{validate_prefixed_id}
use evidence_workbench.Validation.Fields.Laws.{
  validate_prefixed_id_iff, returns-validate_prefixed_id,
}
use evidence_workbench.Validation.Topology.{
  ids, no_steps, knows_predecessors, validate_steps, visit_all, validate_audit_topology,
}
use evidence_workbench.Validation.Topology.Spec.{All, Walk, one, more, Ranking, IsAuditTopology}
use evidence_workbench.Validation.Topology.Steps.{
  StepsFit, steps_sound, steps_complete, returns-validate_steps, Distinct-of_ascending,
}
use evidence_workbench.Validation.Topology.Kahn.Drain.{visit_all_ends, Ranking-of, visits_all}

abbrev Known : List Text → AuditTopologyStep → Type 0
Known step_ids step = Within step.predecessor_step_ids step_ids

all_known :
    (ps step_ids : List Text) → all (λ p. contains p step_ids) ps ≡ true → Within ps step_ids
unfolding all contains
all_known [] step_ids h k m = cc
all_known (p ∷ ps) step_ids h k m =
    ground (arith, all_known ps step_ids (ground arith) k, same_iff k p)

all_known_of :
    (ps step_ids : List Text) → Within ps step_ids → all (λ p. contains p step_ids) ps ≡ true
unfolding all contains
all_known_of [] step_ids w = refl
all_known_of (p ∷ ps) step_ids w =
    ground (arith, w p, same_refl p, all_known_of ps step_ids (λ k m. w k (ground arith)))

knows_sound :
    (steps : List AuditTopologyStep) (step_ids : List Text)
    → knows_predecessors step_ids steps ≡ true
    → All (Known step_ids) steps
unfolding knows_predecessors all
knows_sound [] step_ids h = tt
knows_sound (step ∷ steps) step_ids h = (
  all_known step.predecessor_step_ids step_ids (ground arith),
  knows_sound steps step_ids (ground arith),
)

knows_complete :
    (steps : List AuditTopologyStep) (step_ids : List Text)
    → All (Known step_ids) steps
    → knows_predecessors step_ids steps ≡ true
unfolding knows_predecessors all
knows_complete [] step_ids h = refl
knows_complete (step ∷ steps) step_ids h =
    ground (
      arith,
      all_known_of step.predecessor_step_ids step_ids h.0,
      knows_complete steps step_ids h.1,
    )

Known-same :
    (steps : List AuditTopologyStep) (a b : List Text)
    → ((k : Text) → contains k a ≡ contains k b)
    → All (Known a) steps
    → All (Known b) steps
Known-same [] a b s h = tt
Known-same (step ∷ steps) a b s h = (λ k m. sym (s k) ∙ h.0 k m, Known-same steps a b s h.1)

All-mem :
    (P : AuditTopologyStep → Type 0) (steps : List AuditTopologyStep)
    → All P steps
    → (step : AuditTopologyStep) → Memᴰ step steps
    → P step
All-mem P [] h step m = elim m [ ]
All-mem P (x ∷ steps) h step (Memᴰ.head e) = subst P (sym e) h.0
All-mem P (x ∷ steps) h step (Memᴰ.tail m) = All-mem P steps h.1 step m

-- The checks of the function, one after the other.
checks :
    (t : AuditTopology)
    → (validate_audit_topology t ≡ ok tt) ↔ (
        (same t.schema_version (lit "audit-topology/v1") ≡ true)
        × (validate_prefixed_id t.topology_id (lit "topology_") "audit topology id" ≡ ok tt)
        × (no_steps t.steps ≡ false)
        × (is_ok_with
              (validate_steps t.steps [] [] none)
              (λ step_ids. knows_predecessors step_ids t.steps)
            ≡ true)
        × (is_ok_with (visit_all t.steps) (λ visited. visited == length t.steps) ≡ true))
unfolding validate_audit_topology
checks t = ground arith

accepted : (t : AuditTopology) → validate_audit_topology t ≡ ok tt → IsAuditTopology t
unfolding contains
accepted t h =
    let (a, b, c, d, e) = (checks t).0 h in
    let (step_ids, ran, knows) = (is_ok_with_iff (validate_steps t.steps [] [] none) _).0 d in
    let (visited, drained, full) = (is_ok_with_iff (visit_all t.steps) _).0 e in
    let (fit, all) = steps_sound t.steps [] [] none step_ids ran in
    let unique = Distinct-of_ascending (ids t.steps) fit.ordered in
    record {
      schema = (same_iff _ _).0 a;
      topology_id = (validate_prefixed_id_iff _ _ _).0 b;
      some_step = λ empty. ground (arith, c, empty);
      each = fit.each;
      ordered = fit.ordered;
      plans = fit.distinct;
      known = Known-same t.steps step_ids (ids t.steps) all (knows_sound t.steps step_ids knows);
      ranking =
          Ranking-of t.steps unique (drained ∙ ap ok ((==_iff visited (length t.steps)).0 full));
    }

some_step_test : (steps : List AuditTopologyStep) → steps ≢ [] → no_steps steps ≡ false
some_step_test [] h = absurd (h refl)
some_step_test (_ ∷ _) h = refl

accepts : (t : AuditTopology) → IsAuditTopology t → validate_audit_topology t ≡ ok tt
unfolding contains
accepts t v =
    let unique = Distinct-of_ascending (ids t.steps) v.ordered in
    let fit : StepsFit t.steps [] none = record {
      each = v.each;
      ordered = v.ordered;
      distinct = v.plans;
      fresh = λ k m. refl;
    } in
    let (step_ids, ran) = steps_complete t.steps [] [] none (λ k. refl) fit in
    let (_, all) = steps_sound t.steps [] [] none step_ids ran in
    let knows =
      knows_complete t.steps step_ids
        (Known-same t.steps (ids t.steps) step_ids (λ k. sym (all k)) v.known) in
    let drained =
      visits_all t.steps unique (All-mem (Known (ids t.steps)) t.steps v.known) v.ranking in
    (checks t).1 (
      (same_iff _ _).1 v.schema,
      (validate_prefixed_id_iff _ _ _).1 v.topology_id,
      some_step_test t.steps v.some_step,
      (is_ok_with_iff (validate_steps t.steps [] [] none) _).1 (step_ids, ran, knows),
      (is_ok_with_iff (visit_all t.steps) _).1
          (length t.steps, drained, (==_iff (length t.steps) (length t.steps)).1 refl),
    )

-- `validate_audit_topology` accepts a topology exactly if it is one as `IsAuditTopology` says: the
-- schema and the identifiers are well-formed, the steps and each step's predecessors stand in
-- increasing order, no plan is named twice, each predecessor is a step, and the steps can be
-- ranked so that each comes after its predecessors.
pub validate_audit_topology_iff :
    (t : AuditTopology) → (validate_audit_topology t ≡ ok tt) ↔ IsAuditTopology t
validate_audit_topology_iff t = (accepted t, accepts t)

Walk-rises :
    {steps : List AuditTopologyStep} {p q : Text} (r : Ranking steps)
    → Walk steps p q
    → r.rank p < r.rank q
Walk-rises r (one e) = r.rises _ _ e
Walk-rises r (more w e) = omega (arith, Walk-rises r w, r.rises _ _ e)

-- In a topology that `validate_audit_topology` accepts, no walk along predecessors, however long,
-- leads from a step back to itself.
pub accepted_acyclic :
    (t : AuditTopology) (p : Text) → validate_audit_topology t ≡ ok tt → ¬ Walk t.steps p p
accepted_acyclic t p h w = absurd (omega (arith, Walk-rises (accepted t h).ranking w))

visit_returns :
    (t : AuditTopology) (step_ids : List Text)
    → validate_steps t.steps [] [] none ≡ ok step_ids
    → returns (visit_all t.steps) ≡ true
visit_returns t step_ids ran =
    let (fit, _) = steps_sound t.steps [] [] none step_ids ran in
    let e = visit_all_ends t.steps (Distinct-of_ascending (ids t.steps) fit.ordered) in
    ground (arith, e.returns_ok)

-- On every topology, accepted or not, `validate_audit_topology` comes back with success or an
-- error: the loop over the ready steps ends, no key is missing from `in_degree`, and no degree
-- falls below 0.
pub validate_audit_topology-returns :
    (t : AuditTopology) → returns (validate_audit_topology t) ≡ true
unfolding validate_audit_topology
validate_audit_topology-returns t = elim (outcome_cases (validate_steps t.steps [] [] none)) [
  | inl (step_ids, ran) ↦ ground (
    arith,
    ran,
    visit_returns t step_ids ran,
    returns-validate_prefixed_id t.topology_id (lit "topology_") "audit topology id",
  )
  | inr failed ↦ ground (
    arith,
    failed,
    returns-validate_steps t.steps [] [] none,
    returns-validate_prefixed_id t.topology_id (lit "topology_") "audit topology id",
  )
]
