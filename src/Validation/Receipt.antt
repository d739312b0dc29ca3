-- ===== src/Validation/Receipt.antt =====
-- src/data_contract_validation.rs: `validate_audit_receipt` and
-- `validate_audit_receipt_against_topology`. The digest of the typed topology is that of two
-- packages, serde_json and sha2: `topology_digest` stands for both calls.
pub mod Runs
pub mod Accepts
use evidence_workbench.Prelude.{
  Bool, true, false, not, List, [], ◌∷◌, Option, none, some, map, Outcome, Checked, ok, err, ◌>>=◌,
  ◌>>◌, ensure, ok_or, String,
}
use evidence_workbench.Text.{Text, lit, same}
use evidence_workbench.Collections.{contains, insert, get, put_all}
use evidence_workbench.Contracts.References.{same_plan_ref}
use evidence_workbench.Contracts.Audit.{
  AuditTopologyStep, AuditTopology, AuditRecordedRun, AuditReceipt,
}
use evidence_workbench.Validation.Fields.{
  validate_prefixed_id, validate_sha256, validate_plan_record_ref, validate_run_record_ref,
}
use evidence_workbench.Validation.Topology.{not_after, validate_audit_topology}

abbrev no_runs : List AuditRecordedRun → Bool
no_runs [] = true
no_runs (_ ∷ _) = false

-- The loop over the recorded runs, with the three sets and the previous step identifier.
unfoldable pub validate_recorded_runs :
    List AuditRecordedRun → List Text → List Text → List Text → Option Text → Checked
validate_recorded_runs [] step_ids plan_ids run_ids previous = ok tt
validate_recorded_runs (r ∷ rest) step_ids plan_ids run_ids previous = do
  validate_prefixed_id r.step_id (lit "step_") "audit receipt step id"
  ensure (not (not_after previous r.step_id))
      "audit receipt recorded runs must be ordered by unique step id"
  ensure (not (contains r.step_id step_ids)) "audit receipt step ids must be unique"
  validate_plan_record_ref r.plan_ref "audit receipt plan"
  ensure (not (contains r.plan_ref.plan_id plan_ids)) "audit receipt plan ids must be unique"
  validate_run_record_ref r.run_ref "audit receipt run"
  ensure (not (contains r.run_ref.run_id run_ids)) "audit receipt run ids must be unique"
  validate_recorded_runs rest (insert r.step_id step_ids) (insert r.plan_ref.plan_id plan_ids)
      (insert r.run_ref.run_id run_ids) (some r.step_id)

unfoldable pub validate_audit_receipt : AuditReceipt → Checked
validate_audit_receipt receipt = do
  ensure (same receipt.schema_version (lit "audit-receipt/v1")) "unsupported audit receipt schema"
  validate_prefixed_id receipt.topology_ref.topology_id (lit "topology_")
      "audit receipt topology id"
  validate_sha256 receipt.topology_ref.topology_digest "audit receipt topology"
  ensure (not (no_runs receipt.recorded_runs))
      "audit receipt must reference at least one recorded run"
  validate_recorded_runs receipt.recorded_runs [] [] [] none

abbrev step_entry : AuditTopologyStep → Text × AuditTopologyStep
step_entry step = (step.step_id, step)

-- `topology_steps`.
unfoldable pub steps_by_id : List AuditTopologyStep → List (Text × AuditTopologyStep)
steps_by_id steps = put_all [] (map step_entry steps)

unfoldable pub match_runs : List AuditRecordedRun → List (Text × AuditTopologyStep) → Checked
match_runs [] steps = ok tt
match_runs (r ∷ rest) steps = do
  step ← ok_or (get r.step_id steps) "audit receipt references an unknown topology step"
  ensure (same_plan_ref r.plan_ref step.plan_ref)
      "audit receipt plan reference does not match its topology step"
  match_runs rest steps

module _ (topology_digest : AuditTopology → Outcome Text) where
  unfoldable pub validate_audit_receipt_against_topology : AuditReceipt → AuditTopology → Checked
  unfolding steps_by_id
  validate_audit_receipt_against_topology receipt topology = do
    validate_audit_topology topology
    validate_audit_receipt receipt
    ensure (same receipt.topology_ref.topology_id topology.topology_id)
        "audit receipt topology id does not match the referenced topology"
    digest ← topology_digest topology
    ensure (same receipt.topology_ref.topology_digest digest)
        "audit receipt topology digest does not match the referenced topology"
    match_runs receipt.recorded_runs (steps_by_id topology.steps)
