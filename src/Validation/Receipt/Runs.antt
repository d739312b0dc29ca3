-- ===== src/Validation/Receipt/Runs.antt =====
-- The loop of `validate_audit_receipt` over the recorded runs accepts what `IsAuditReceipt` says
-- (src/data_contract_validation.rs).
use evidence_workbench.Prelude.{
  ◌≡◌, ◌≢◌, refl, ◌↔◌, true, false, List, [], ◌∷◌, arith, Option, none, some, map, ok,
}
use evidence_workbench.Text.{Text, lit}
use evidence_workbench.Collections.{contains, insert, Distinct}
use evidence_workbench.Collections.Fresh.{not_later, fresh_cons, fresh_tail, fresh_head}
use evidence_workbench.Contracts.Audit.{AuditRecordedRun, AuditReceipt}
use evidence_workbench.Validation.Fields.{
  validate_prefixed_id, validate_plan_record_ref, validate_run_record_ref,
}
use evidence_workbench.Validation.Fields.Laws.{
  IsPrefixedId, IsSha256, IsPlanRecordRef, IsRunRecordRef, validate_prefixed_id_iff,
  validate_plan_record_ref_iff, validate_run_record_ref_iff,
}
use evidence_workbench.Validation.Topology.{not_after}
use evidence_workbench.Validation.Topology.Spec.{All, AscendsAfter}
use evidence_workbench.Validation.Topology.Predecessors.{
  SeenBefore, seen_step, not_seen, ascends_nil, ascends_cons,
}
use evidence_workbench.Validation.Receipt.{validate_recorded_runs}

abbrev pub run_steps : List AuditRecordedRun → List Text
run_steps = map (λ r. r.step_id)

abbrev pub run_plans : List AuditRecordedRun → List Text
run_plans = map (λ r. r.plan_ref.plan_id)

abbrev pub run_ids : List AuditRecordedRun → List Text
run_ids = map (λ r. r.run_ref.run_id)

pub record IsRecordedRun (r : AuditRecordedRun) : Type 0 where
  pub step_id : IsPrefixedId (lit "step_") r.step_id
  pub plan_ref : IsPlanRecordRef r.plan_ref
  pub run_ref : IsRunRecordRef r.run_ref

-- A receipt by itself: the runs in increasing order of their steps, no plan and no run twice.
pub record IsAuditReceipt (receipt : AuditReceipt) : Type 0 where
  pub schema : receipt.schema_version ≡ lit "audit-receipt/v1"
  pub topology_id : IsPrefixedId (lit "topology_") receipt.topology_ref.topology_id
  pub topology_digest : IsSha256 receipt.topology_ref.topology_digest
  pub some_run : receipt.recorded_runs ≢ []
  pub each : All IsRecordedRun receipt.recorded_runs
  pub ordered : AscendsAfter none (run_steps receipt.recorded_runs)
  pub plans : Distinct (run_plans receipt.recorded_runs)
  pub runs : Distinct (run_ids receipt.recorded_runs)

pub record RunsFit (runs : List AuditRecordedRun) (plans seen_runs : List Text)
    (previous : Option Text) : Type 0 where
  pub each : All IsRecordedRun runs
  pub ordered : AscendsAfter previous (run_steps runs)
  pub distinct_plans : Distinct (run_plans runs)
  pub distinct_runs : Distinct (run_ids runs)
  pub fresh_plans : (k : Text) → contains k (run_plans runs) ≡ true → contains k plans ≡ false
  pub fresh_runs : (k : Text) → contains k (run_ids runs) ≡ true → contains k seen_runs ≡ false

runs_cons :
    (r : AuditRecordedRun) (rest : List AuditRecordedRun) (seen plans runs : List Text)
    (previous : Option Text)
    → (validate_recorded_runs (r ∷ rest) seen plans runs previous ≡ ok tt) ↔ (
        (validate_prefixed_id r.step_id (lit "step_") "audit receipt step id" ≡ ok tt)
        × (not_after previous r.step_id ≡ false)
        × (contains r.step_id seen ≡ false)
        × (validate_plan_record_ref r.plan_ref "audit receipt plan" ≡ ok tt)
        × (contains r.plan_ref.plan_id plans ≡ false)
        × (validate_run_record_ref r.run_ref "audit receipt run" ≡ ok tt)
        × (contains r.run_ref.run_id runs ≡ false)
        × (validate_recorded_runs rest
              (insert r.step_id seen)
              (insert r.plan_ref.plan_id plans)
              (insert r.run_ref.run_id runs)
              (some r.step_id)
            ≡ ok tt))
unfolding validate_recorded_runs
runs_cons r rest seen plans runs previous = ground arith

pub runs_sound :
    (rs : List AuditRecordedRun) (seen plans runs : List Text) (previous : Option Text)
    → validate_recorded_runs rs seen plans runs previous ≡ ok tt
    → RunsFit rs plans runs previous
runs_sound [] seen plans runs previous h =
    unfold contains in
    record {
      each = tt;
      ordered = ascends_nil previous;
      distinct_plans = tt;
      distinct_runs = tt;
      fresh_plans = λ k m. cc;
      fresh_runs = λ k m. cc;
    }
runs_sound (r ∷ rest) seen plans runs previous h =
    let (a, b, c, d, e, f, g, more) = (runs_cons r rest seen plans runs previous).0 h in
    let fit = runs_sound rest _ _ _ _ more in
    record {
      each = (
        record {
          step_id = (validate_prefixed_id_iff _ _ _).0 a;
          plan_ref = (validate_plan_record_ref_iff _ _).0 d;
          run_ref = (validate_run_record_ref_iff _ _).0 f;
        },
        fit.each,
      );
      ordered = (ascends_cons previous r.step_id (run_steps rest)).1 (b, fit.ordered);
      distinct_plans =
          (not_later r.plan_ref.plan_id (run_plans rest) plans fit.fresh_plans, fit.distinct_plans);
      distinct_runs =
          (not_later r.run_ref.run_id (run_ids rest) runs fit.fresh_runs, fit.distinct_runs);
      fresh_plans = fresh_cons r.plan_ref.plan_id (run_plans rest) plans e fit.fresh_plans;
      fresh_runs = fresh_cons r.run_ref.run_id (run_ids rest) runs g fit.fresh_runs;
    }

pub runs_complete :
    (rs : List AuditRecordedRun) (seen plans runs : List Text) (previous : Option Text)
    → SeenBefore previous seen
    → RunsFit rs plans runs previous
    → validate_recorded_runs rs seen plans runs previous ≡ ok tt
runs_complete [] seen plans runs previous s fit = unfold validate_recorded_runs in refl
runs_complete (r ∷ rest) seen plans runs previous s fit =
    let (after, higher) = (ascends_cons previous r.step_id (run_steps rest)).0 fit.ordered in
    let (one, each) = fit.each in
    (runs_cons r rest seen plans runs previous).1 (
      (validate_prefixed_id_iff _ _ _).1 one.step_id,
      after,
      not_seen previous r.step_id seen s after,
      (validate_plan_record_ref_iff _ _).1 one.plan_ref,
      fresh_head r.plan_ref.plan_id (run_plans rest) plans fit.fresh_plans,
      (validate_run_record_ref_iff _ _).1 one.run_ref,
      fresh_head r.run_ref.run_id (run_ids rest) runs fit.fresh_runs,
      runs_complete rest _ _ _ _ (seen_step previous r.step_id seen s after) (record {
        each = each;
        ordered = higher;
        distinct_plans = fit.distinct_plans.1;
        distinct_runs = fit.distinct_runs.1;
        fresh_plans =
            fresh_tail r.plan_ref.plan_id (run_plans rest) plans fit.distinct_plans.0
              fit.fresh_plans;
        fresh_runs =
            fresh_tail r.run_ref.run_id (run_ids rest) runs fit.distinct_runs.0 fit.fresh_runs;
      }),
    )
