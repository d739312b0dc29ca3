-- ===== src/Pins/Candidate.antt =====
-- src/candidate_pins.rs: `validate`, `all` and `get_for_tool`. `from_str` reads a pin, `digest_hex`
-- is the hexadecimal SHA-256, `is_rfc3339` is chrono's parser, and `manifest_of` looks a manifest up.
use evidence_workbench.Prelude.{
  Bool, not, ◌&&◌, ◌||◌, Option, none, some, List, [], ◌∷◌, ◌++◌, ◌==◌, Outcome, Checked, ok, ◌>>=◌,
  ◌>>◌, ensure, if◌then◌else◌,
}
use evidence_workbench.Text.{Text, lit, same, starts_with}
use evidence_workbench.Text.Order.{before}
use evidence_workbench.Collections.{contains, insert}
use evidence_workbench.Validation.Fields.{validate_git_sha1, validate_sha256}
use evidence_workbench.Manifests.Registry.{TrustedManifest, validate_id, contains_whitespace}
use evidence_workbench.Pins.Records.{CandidatePin, TrustedCandidatePin}
use evidence_workbench.Pins.Fields.{is_nil, validate_repository_url, validate_decimal_id}

module _ (is_rfc3339 : Text → Bool) where
  -- The digests of the candidate and of its provenance, in the order of the code.
  unfoldable pub validate_digests : CandidatePin → Checked
  validate_digests pin = do
    validate_sha256 pin.candidate.payload_manifest_sha256 "candidate payload manifest"
    validate_sha256 pin.candidate.receipt_sha256 "candidate receipt"
    validate_sha256 pin.candidate.actions_artifact_sha256 "Actions artifact"
    validate_sha256 pin.workbench_admission.attestation_subject_sha256 "attestation subject"
    validate_sha256 pin.provenance.attestation_actions_artifact_sha256
        "attestation Actions artifact"
    validate_sha256 pin.provenance.attestation_bundle_sha256 "attestation bundle"
    validate_sha256 pin.provenance.download_verification_actions_artifact_sha256
        "download-verification Actions artifact"
    validate_sha256 pin.provenance.download_verification_receipt_sha256
        "download-verification receipt"
    ensure
        (same pin.workbench_admission.attestation_subject_sha256
          pin.candidate.payload_manifest_sha256)
        "attestation subject does not match the exact payload manifest"

  unfoldable pub validate_accounting : CandidatePin → Checked
  validate_accounting pin = do
    ensure
        (not (
          pin.inventory.workspace_wheels == 0
          || pin.inventory.vendored_runtime_wheels == 0
          || pin.inventory.manifest_artifacts == 0
          || pin.inventory.checksum_entries == 0
          || not (
              pin.inventory.checksum_entries == pin.workbench_admission.checksum_entries_verified)))
        "candidate inventory and verified checksum accounting do not match"
    ensure
        (not (
          is_nil pin.candidate.actions_artifact_name
          || is_nil pin.native_posture.status
          || is_nil pin.runtime_target.os
          || is_nil pin.runtime_target.arch
          || is_nil pin.runtime_target.implementation
          || is_nil pin.runtime_target.python_version
          || is_nil pin.runtime_target.python_abi))
        "candidate identity, runtime, or native posture is incomplete"

  -- The admission, and what binds the candidate to its source and to its workflow run.
  unfoldable pub validate_provenance : CandidatePin → Text → Checked
  validate_provenance pin repository = do
    ensure
        (same pin.workbench_admission.implementation_state (lit "candidate_complete")
          && same pin.workbench_admission.evidence_integrity_state (lit "verified_at_admission")
          && pin.workbench_admission.attestation_verified
          && same pin.workbench_admission.authority_effect (lit "none"))
        "candidate admission would overstate implementation or authority"
    ensure
        (same pin.provenance.signer_digest pin.source.commit_sha
          && pin.provenance.deny_self_hosted_runners
          && starts_with pin.provenance.signer_workflow
              (lit "github.com/" ++ repository ++ lit "/.github/workflows/")
          && not (contains_whitespace pin.provenance.signer_workflow)
          && same pin.candidate.workflow_run_url
              (pin.repository_url ++ lit "/actions/runs/" ++ pin.candidate.workflow_run_id))
        "candidate provenance is not bound to the exact source and workflow run"

  unfoldable pub validate_candidate : CandidatePin → Checked
  unfolding validate_digests validate_accounting validate_provenance
  validate_candidate pin = do
    ensure (same pin.schema_version (lit "candidate_pin/v1")) "unsupported candidate pin schema"
    validate_id pin.tool_manifest_id
    repository ← validate_repository_url pin.repository_url
    validate_git_sha1 pin.source.commit_sha "source commit"
    validate_git_sha1 pin.source.tree_sha "source tree"
    validate_digests pin
    validate_decimal_id pin.candidate.actions_artifact_id "Actions artifact"
    validate_decimal_id pin.candidate.workflow_run_id "workflow run"
    validate_decimal_id pin.provenance.attestation_actions_artifact_id
        "attestation Actions artifact"
    validate_decimal_id pin.provenance.download_verification_actions_artifact_id
        "download-verification Actions artifact"
    ensure (is_rfc3339 pin.candidate.expires_at) "candidate expiry is not RFC 3339"
    ensure (is_rfc3339 pin.workbench_admission.verified_at)
        "candidate admission time is not RFC 3339"
    validate_accounting pin
    validate_provenance pin repository

  module _ (from_str : Text → Outcome CandidatePin) (digest_hex : Text → Text)
      (manifest_of : Text → Outcome TrustedManifest) where
    unfoldable pub load_candidates : List Text → List Text → Outcome (List TrustedCandidatePin)
    unfolding validate_candidate
    load_candidates [] ids = ok []
    load_candidates (raw ∷ rest) ids = do
      pin ← from_str raw
      validate_candidate pin
      known ← manifest_of pin.tool_manifest_id
      ensure (not (contains pin.tool_manifest_id ids)) "duplicate candidate pin for tool manifest"
      pins ← load_candidates rest (insert pin.tool_manifest_id ids)
      ok (record { pin = pin; sha256 = digest_hex raw; raw = raw } ∷ pins)

    -- `sort_by` on the identifiers, which is stable.
    unfoldable pub place_candidate :
        TrustedCandidatePin → List TrustedCandidatePin → List TrustedCandidatePin
    place_candidate entry [] = entry ∷ []
    place_candidate entry (x ∷ xs) =
        let rest = place_candidate entry xs in
        if before x.pin.tool_manifest_id entry.pin.tool_manifest_id
        then x ∷ rest
        else entry ∷ x ∷ xs

    unfoldable pub sort_candidates : List TrustedCandidatePin → List TrustedCandidatePin
    unfolding place_candidate
    sort_candidates [] = []
    sort_candidates (entry ∷ rest) = place_candidate entry (sort_candidates rest)

    unfoldable pub all_candidates : List Text → Outcome (List TrustedCandidatePin)
    unfolding sort_candidates
    all_candidates embedded = do pins ← load_candidates embedded []; ok (sort_candidates pins)

    unfoldable pub find_candidate : Text → List TrustedCandidatePin → Option TrustedCandidatePin
    find_candidate id [] = none
    find_candidate id (entry ∷ rest) =
        let later = find_candidate id rest in
        if same entry.pin.tool_manifest_id id then some entry else later

    unfoldable pub candidate_for_tool : List Text → Text → Outcome (Option TrustedCandidatePin)
    unfolding all_candidates
    candidate_for_tool embedded id = do pins ← all_candidates embedded; ok (find_candidate id pins)
