-- ===== src/Tests/Audit.antt =====
-- Runs of `validate_audit_topology` and of the two checks of a receipt
-- (src/data_contract_validation.rs).
use evidence_workbench.Validation.Receipt.{
  validate_recorded_runs, validate_audit_receipt, steps_by_id, match_runs,
  validate_audit_receipt_against_topology,
}
use evidence_workbench.Validation.Fields.{
  is_lower_hex, validate_prefixed_id, validate_sha256, validate_plan_record_ref,
  validate_run_record_ref,
}
use evidence_workbench.Text.Order.{before}
use evidence_workbench.Collections.{
  contains, place, insert, collect_set, difference, within_keys, equal_sets, get, put, put_all,
  keys, contains_key,
}
use evidence_workbench.Prelude.{
  all, any, ◌≡◌, refl, true, String, List, [], ◌∷◌, ◌++◌, Outcome, ok, err, returns,
}
use evidence_workbench.Text.{
  same, is_lower, is_upper, is_digit, is_alphanumeric, is_hexdigit, strip_prefix, starts_with,
  ends_with, contains_byte, split, split_once, Text, lit,
}
use evidence_workbench.Contracts.References.{same_plan_ref, PlanRecordRef, no_effect}
use evidence_workbench.Contracts.Audit.{
  AuditTopologyStep, AuditTopology, AuditRecordedRun, AuditReceipt,
}
use evidence_workbench.Validation.Topology.{
  not_after, validate_predecessors, validate_steps, knows_predecessors, in_degree, following,
  push_edges, successors, initially_ready, release, drain, visit_all, validate_audit_topology,
}
use evidence_workbench.Validation.Topology.Spec.{IsAuditTopology, Walk}
use evidence_workbench.Validation.Receipt.Runs.{IsAuditReceipt}
use evidence_workbench.Validation.Receipt.Accepts.{
  IsAbout, validate_audit_receipt_iff, receipt_against_topology_iff,
}
use evidence_workbench.Validation.Topology.Accepts.{
  validate_audit_topology_iff, accepted_acyclic, validate_audit_topology-returns,
}

abbrev id_of : String → String → Text
id_of start last = lit start ++ lit "0123456789abcdef0123456789abcde" ++ lit last

abbrev digest_text : Text
digest_text = lit "0123456789abcdef0123456789abcdef0123456789abcdef0123456789abcdef"

abbrev plan_of : String → PlanRecordRef
plan_of last = record { plan_id = id_of "plan_" last; record_digest = digest_text }

abbrev step_of : String → List Text → AuditTopologyStep
step_of last predecessors = record {
  step_id = id_of "step_" last;
  plan_ref = plan_of last;
  predecessor_step_ids = predecessors;
}

abbrev topology_of : List AuditTopologyStep → AuditTopology
topology_of steps = record {
  schema_version = lit "audit-topology/v1";
  topology_id = id_of "topology_" "1";
  steps = steps;
  authority_effect = no_effect;
}

-- The first step comes last: `b` before `a`.
abbrev two_steps : AuditTopology
two_steps = topology_of (step_of "a" (id_of "step_" "b" ∷ []) ∷ step_of "b" [] ∷ [])

abbrev circle : AuditTopology
circle =
    topology_of (step_of "a" (id_of "step_" "b" ∷ []) ∷ step_of "b" (id_of "step_" "a" ∷ []) ∷ [])

two_steps-run : validate_audit_topology two_steps ≡ ok tt
unfolding lit same is_lower is_upper is_digit is_alphanumeric is_hexdigit strip_prefix starts_with
    ends_with contains_byte split split_once before all any contains place insert collect_set
    difference within_keys equal_sets get put put_all keys contains_key is_lower_hex
    validate_prefixed_id validate_sha256 validate_plan_record_ref validate_run_record_ref not_after
    validate_predecessors validate_steps knows_predecessors in_degree following push_edges
    successors initially_ready release drain visit_all validate_audit_topology
two_steps-run = refl

circle-run : validate_audit_topology circle ≡ err "audit topology predecessor graph must be acyclic"
unfolding lit same is_lower is_upper is_digit is_alphanumeric is_hexdigit strip_prefix starts_with
    ends_with contains_byte split split_once before all any contains place insert collect_set
    difference within_keys equal_sets get put put_all keys contains_key is_lower_hex
    validate_prefixed_id validate_sha256 validate_plan_record_ref validate_run_record_ref not_after
    validate_predecessors validate_steps knows_predecessors in_degree following push_edges
    successors initially_ready release drain visit_all validate_audit_topology
circle-run = refl

validate_audit_topology_iff_example : IsAuditTopology two_steps
validate_audit_topology_iff_example = (validate_audit_topology_iff two_steps).0 two_steps-run

accepted_acyclic_example : ¬ Walk two_steps.steps (id_of "step_" "a") (id_of "step_" "a")
accepted_acyclic_example = accepted_acyclic two_steps (id_of "step_" "a") two_steps-run

validate_audit_topology-returns_example : returns (validate_audit_topology circle) ≡ true
validate_audit_topology-returns_example = validate_audit_topology-returns circle

-- A digest that depends on the number of the steps.
abbrev toy_digest : AuditTopology → Outcome Text
toy_digest topology = digest_by topology.steps
  where
    digest_by : List AuditTopologyStep → Outcome Text
    digest_by [] = err "no step"
    digest_by (_ ∷ _) = ok digest_text

abbrev run_of : String → AuditRecordedRun
run_of last = record {
  step_id = id_of "step_" last;
  plan_ref = plan_of last;
  run_ref = record { run_id = id_of "run_" last; record_digest = digest_text };
}

abbrev receipt_of : List AuditRecordedRun → AuditReceipt
receipt_of runs = record {
  schema_version = lit "audit-receipt/v1";
  topology_ref = record { topology_id = id_of "topology_" "1"; topology_digest = digest_text };
  recorded_runs = runs;
  authority_effect = no_effect;
}

abbrev one_run : AuditReceipt
one_run = receipt_of (run_of "b" ∷ [])

one_run-receipt : validate_audit_receipt one_run ≡ ok tt
unfolding lit same is_lower is_upper is_digit is_alphanumeric is_hexdigit strip_prefix starts_with
    ends_with contains_byte split split_once before all any contains place insert collect_set
    difference within_keys equal_sets get put put_all keys contains_key is_lower_hex
    validate_prefixed_id validate_sha256 validate_plan_record_ref validate_run_record_ref not_after
    validate_predecessors validate_steps knows_predecessors in_degree following push_edges
    successors initially_ready release drain visit_all validate_audit_topology same_plan_ref
    validate_recorded_runs validate_audit_receipt steps_by_id match_runs
    validate_audit_receipt_against_topology
one_run-receipt = refl

one_run-about : validate_audit_receipt_against_topology toy_digest one_run two_steps ≡ ok tt
unfolding lit same is_lower is_upper is_digit is_alphanumeric is_hexdigit strip_prefix starts_with
    ends_with contains_byte split split_once before all any contains place insert collect_set
    difference within_keys equal_sets get put put_all keys contains_key is_lower_hex
    validate_prefixed_id validate_sha256 validate_plan_record_ref validate_run_record_ref not_after
    validate_predecessors validate_steps knows_predecessors in_degree following push_edges
    successors initially_ready release drain visit_all validate_audit_topology same_plan_ref
    validate_recorded_runs validate_audit_receipt steps_by_id match_runs
    validate_audit_receipt_against_topology
one_run-about = refl

unknown_step-run :
    validate_audit_receipt_against_topology toy_digest (receipt_of (run_of "c" ∷ [])) two_steps
    ≡ err "audit receipt references an unknown topology step"
unfolding lit same is_lower is_upper is_digit is_alphanumeric is_hexdigit strip_prefix starts_with
    ends_with contains_byte split split_once before all any contains place insert collect_set
    difference within_keys equal_sets get put put_all keys contains_key is_lower_hex
    validate_prefixed_id validate_sha256 validate_plan_record_ref validate_run_record_ref not_after
    validate_predecessors validate_steps knows_predecessors in_degree following push_edges
    successors initially_ready release drain visit_all validate_audit_topology same_plan_ref
    validate_recorded_runs validate_audit_receipt steps_by_id match_runs
    validate_audit_receipt_against_topology
unknown_step-run = refl

validate_audit_receipt_iff_example : IsAuditReceipt one_run
validate_audit_receipt_iff_example = (validate_audit_receipt_iff one_run).0 one_run-receipt

receipt_against_topology_iff_example : IsAbout toy_digest one_run two_steps
receipt_against_topology_iff_example =
    (receipt_against_topology_iff toy_digest one_run two_steps).0 one_run-about
