-- ===== src/CallerObservations.antt =====
-- src/caller_observations.rs: `validate`, `map_to_phaseledger_v1` and
-- `reject_ewb_synthesized_trust_meter_fields`.
pub mod Accepts
use evidence_workbench.Prelude.{
  Bool, true, false, not, ◌&&◌, ◌||◌, List, [], ◌∷◌, ◌==◌, any, Outcome, Checked, ok, ◌>>=◌, ◌>>◌,
  ensure,
}
use evidence_workbench.Text.{Text, lit, same, contains_text}
use evidence_workbench.Text.Trim.{trim}
use evidence_workbench.Json.{Json, bool, string, array, object, Items, nil, cons, empty, put_member}
use evidence_workbench.Collections.{contains, insert}
use evidence_workbench.Contracts.Phaseledger.{PhaseledgerCallerCheck, PhaseledgerCallerObservation}
use evidence_workbench.Manifests.Registry.{to_ascii_lowercase}
use evidence_workbench.Pins.Fields.{is_nil}
use evidence_workbench.Workspace.Identifiers.{validate_storage_id, validate_storage_sha256}

abbrev pub forbidden_check_names : List Text
forbidden_check_names =
    lit "passed"
    ∷ lit "overall_score"
    ∷ lit "advisory_gate_met"
    ∷ lit "threshold_met"
    ∷ lit "all_metrics_passed"
    ∷ []

-- The loop over the checks, with the names that were read.
unfoldable pub validate_checks : List PhaseledgerCallerCheck → List Text → Checked
validate_checks [] names = ok tt
validate_checks (check ∷ rest) names = do
  ensure (not (is_nil (trim check.name) || not (same (trim check.name) check.name)))
      "Phaseledger caller observation check names must be nonempty and trimmed"
  ensure (not (contains check.name forbidden_check_names))
      "Phaseledger caller observation must not copy Trust Meter field into checks"
  ensure (not (contains check.name names))
      "Phaseledger caller observation check names must be unique"
  validate_checks rest (insert check.name names)

-- The claim names the artifact, its digest, and the two required tokens. The only authority effect
-- is none, so its check cannot fail and has no line here.
unfoldable pub validate_observation_claim : PhaseledgerCallerObservation → Checked
validate_observation_claim observation = do
  ensure (contains_text observation.claim observation.cited_artifact.artifact_id)
      "Phaseledger caller observation claim must name the cited artifact id"
  ensure (contains_text observation.claim observation.cited_artifact.digest.value)
      "Phaseledger caller observation claim must name the cited artifact digest"
  ensure (contains_text observation.claim (lit "untrusted_exact_bytes"))
      "Phaseledger caller observation claim must include untrusted_exact_bytes"
  ensure (contains_text observation.claim (lit "authority_effect none"))
      "Phaseledger caller observation claim must include authority_effect none"

unfoldable pub validate_caller_observation : PhaseledgerCallerObservation → Checked
unfolding validate_checks validate_observation_claim
validate_caller_observation observation = do
  ensure (same observation.schema_version (lit "phaseledger-caller-observation/v1"))
      "unsupported Phaseledger caller observation schema"
  ensure (not (is_nil (trim observation.phase) || is_nil (trim observation.claim)))
      "Phaseledger caller observation phase and claim must be nonempty"
  ensure observation.artifact_present
      "Phaseledger caller observation must cite a present exact artifact"
  validate_storage_id observation.cited_artifact.artifact_id (lit "artifact_")
  validate_storage_sha256 observation.artifact_sha256
  ensure (same observation.cited_artifact.digest.algorithm (lit "sha256"))
      "Phaseledger caller observation digest algorithm must be sha256"
  validate_storage_sha256 observation.cited_artifact.digest.value
  ensure (same observation.artifact_sha256 observation.cited_artifact.digest.value)
      "Phaseledger caller observation artifact_sha256 must equal the cited artifact digest"
  ensure (not (observation.cited_artifact.byte_length == 0))
      "Phaseledger caller observation cited artifact must contain bytes"
  validate_observation_claim observation
  ensure (not (is_nil observation.checks))
      "Phaseledger caller observation must include caller-authored checks"
  validate_checks observation.checks []
  ensure
      (same observation.unsupported.freshness (lit "unsupported")
        && same observation.unsupported.producer_run_scope (lit "unsupported"))
      "Phaseledger 0.6.0 freshness and producer-run scope remain unsupported"

unfoldable pub checks_json : List PhaseledgerCallerCheck → Items
checks_json [] = nil
checks_json (check ∷ rest) =
    cons
      (object (
        put_member (lit "passed") (bool check.passed)
          (put_member (lit "name") (string check.name) empty)))
      (checks_json rest)

unfoldable pub map_to_phaseledger_v1 : PhaseledgerCallerObservation → Outcome Json
unfolding validate_caller_observation checks_json
map_to_phaseledger_v1 observation = do
  validate_caller_observation observation
  ok (
      object (
        put_member (lit "checks") (array (checks_json observation.checks)) (
          put_member (lit "artifact_sha256") (string observation.artifact_sha256) (
            put_member (lit "artifact_present") (bool true) (
              put_member (lit "claim") (string observation.claim)
                (put_member (lit "phase") (string observation.phase) empty))))))

unfoldable pub reject_ewb_synthesized_trust_meter_fields : Text → Checked
reject_ewb_synthesized_trust_meter_fields source =
    let lowered = to_ascii_lowercase source in
    ensure
      (not (
        contains_text lowered (lit "advisory_gate_met")
        && (contains_text lowered (lit "phaseledger") && contains_text lowered (lit "observation"))
        && (contains_text lowered (lit "write")
            || contains_text lowered (lit "synthesize")
            || contains_text lowered (lit "copy"))))
      "EWB must not synthesize Trust Meter projections into Phaseledger observations"
