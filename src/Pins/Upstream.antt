-- ===== src/Pins/Upstream.antt =====
-- src/upstream_pins.rs: `validate`, `validate_readiness_against_manifest` and
-- `cross_validate_stateweaver`. `is_rfc3339` is chrono's parser of times.
use evidence_workbench.Prelude.{
  Bool, true, false, not, ◌&&◌, ◌||◌, Option, none, some, List, [], ◌∷◌, ◌++◌, ◌==◌, all, any,
  length, Outcome, Checked, ok, ◌>>=◌, ◌>>◌, ensure, ok_or, if◌then◌else◌,
}
use evidence_workbench.Text.{Text, lit, same, is_lower, is_digit, starts_with, ends_with}
use evidence_workbench.Collections.{collect_set}
use evidence_workbench.Validation.Fields.{validate_git_sha1, validate_sha256}
use evidence_workbench.Manifests.Registry.{TrustedManifest, validate_id, contains_whitespace}
use evidence_workbench.Pins.Records.{
  EvidenceKind, workflow_run, actions_artifact, release_asset, native_executable, source_release,
  candidate_manifest, checksum_ledger, candidate_archive, ReadinessState, ready, fail_closed,
  RuntimeKind, native, python, EvidenceIntegrityState, published_checksums_verified, ReleaseRef,
  EvidenceRef, ExecutionReadiness, RuntimeClosure, UpstreamPin, TrustedUpstreamPin, CandidatePin,
  TrustedCandidatePin, os_str, arch_str, status_str,
}
use evidence_workbench.Pins.Fields.{
  is_nil, validate_repository_url, validate_decimal_id, eq_ignore_ascii_case,
}

-- The derived `==` of the enums.
unfoldable pub same_kind : EvidenceKind → EvidenceKind → Bool
same_kind workflow_run workflow_run = true
same_kind actions_artifact actions_artifact = true
same_kind release_asset release_asset = true
same_kind native_executable native_executable = true
same_kind source_release source_release = true
same_kind candidate_manifest candidate_manifest = true
same_kind checksum_ledger checksum_ledger = true
same_kind candidate_archive candidate_archive = true
same_kind _ _ = false

abbrev pub is_ready : ReadinessState → Bool
is_ready ready = true
is_ready fail_closed = false

abbrev pub is_native : RuntimeKind → Bool
is_native native = true
is_native python = false

abbrev pub is_published_checksums : EvidenceIntegrityState → Bool
is_published_checksums published_checksums_verified = true
is_published_checksums _ = false

-- The kinds whose identifiers are numbers of GitHub.
abbrev pub is_numbered : EvidenceKind → Bool
is_numbered workflow_run = true
is_numbered actions_artifact = true
is_numbered release_asset = true
is_numbered _ = false

abbrev pub checked_if_some : Option Text → (Text → Checked) → Checked
checked_if_some none check = ok tt
checked_if_some (some value) check = check value

abbrev pub is_some {ℓ} : {A : Type ℓ} → Option A → Bool
is_some none = false
is_some (some _) = true

abbrev pub is_some_false : Option Bool → Bool
is_some_false (some false) = true
is_some_false _ = false

-- Two optional texts are equal.
abbrev pub same_option : Option Text → Option Text → Bool
same_option none none = true
same_option (some a) (some b) = same a b
same_option _ _ = false

unfoldable pub validate_release : Option ReleaseRef → Checked
validate_release none = ok tt
validate_release (some release) = do
  ensure (not (is_nil release.version || is_nil release.tag))
      "upstream release identity is incomplete"
  validate_git_sha1 release.subject_commit_sha "release source commit"
  validate_git_sha1 release.subject_tree_sha "release source tree"
  checked_if_some release.release_id (λ id. validate_decimal_id id "release")

-- The pair of a kind and an identifier is among those that were read.
unfoldable pub has_evidence : EvidenceKind → Text → List EvidenceRef → Bool
unfolding same_kind
has_evidence kind id [] = false
has_evidence kind id (seen ∷ rest) =
    (same_kind kind seen.kind && same id seen.id) || has_evidence kind id rest

unfoldable pub is_checksum_asset : EvidenceRef → Bool
unfolding same_kind eq_ignore_ascii_case
is_checksum_asset evidence =
    same_kind evidence.kind release_asset
    && eq_ignore_ascii_case evidence.name (lit "sha256sums.txt")
    && is_some evidence.sha256

unfoldable pub bad_blocker_code : Text → Bool
bad_blocker_code code =
    is_nil code
    || starts_with code (lit "-")
    || ends_with code (lit "-")
    || not (all (λ byte. is_lower byte || is_digit byte || byte == b'_') code)

abbrev pub consistent_blockers : ReadinessState → List Text → Checked
consistent_blockers ready blockers =
    ensure (is_nil blockers) "ready upstream delivery cannot retain execution blockers"
consistent_blockers fail_closed blockers =
    ensure (not (is_nil blockers)) "fail-closed upstream delivery must name at least one blocker"

-- The match on the readiness, and the blocker codes.
unfoldable pub validate_readiness : ExecutionReadiness → Checked
unfolding bad_blocker_code
validate_readiness readiness = do
  consistent_blockers readiness.state readiness.blocker_codes
  ensure
      (length (collect_set readiness.blocker_codes) == length readiness.blocker_codes
        && not (any bad_blocker_code readiness.blocker_codes))
      "upstream blocker code is not canonical snake_case"

unfoldable pub validate_runtime : RuntimeClosure → Checked
validate_runtime runtime =
    ensure
      (length (collect_set runtime.external_tools) == length runtime.external_tools
        && not (any is_nil runtime.external_tools))
      "upstream runtime closure is invalid"

unfoldable pub validate_identity : UpstreamPin → Checked
unfolding validate_release
validate_identity pin = do
  ensure (same pin.schema_version (lit "upstream_pin/v1")) "unsupported upstream pin schema"
  validate_id pin.tool_manifest_id
  repository ← validate_repository_url pin.repository_url
  ensure
      (not (
        is_nil pin.source.default_branch
        || contains_whitespace pin.source.default_branch
        || is_nil pin.software_version
        || is_nil pin.execution_readiness.scope
        || is_nil pin.license_spdx))
      "upstream pin contains an empty identity or posture field"
  validate_git_sha1 pin.source.commit_sha "source commit"
  validate_git_sha1 pin.source.tree_sha "source tree"
  validate_release pin.release

-- Published checksums are bound to their asset. The only authority effect is none, so its check
-- cannot fail and has no line here.
unfoldable pub validate_integrity : UpstreamPin → Checked
unfolding is_checksum_asset
validate_integrity pin =
    ensure
      (not (
        is_published_checksums pin.admission.evidence_integrity_state
        && not (any is_checksum_asset pin.evidence)))
      "published-checksum integrity must bind the exact checksum asset"

module _ (is_rfc3339 : Text → Bool) where
  unfoldable pub validate_evidence : List EvidenceRef → List EvidenceRef → Checked
  unfolding has_evidence
  validate_evidence [] seen = ok tt
  validate_evidence (evidence ∷ rest) seen = do
    ensure (not (is_nil evidence.id || is_nil evidence.name))
        "upstream evidence identity is incomplete"
    validate_git_sha1 evidence.subject_commit_sha "evidence subject commit"
    ensure (not (has_evidence evidence.kind evidence.id seen))
        "upstream evidence identity is duplicated"
    if is_numbered evidence.kind then validate_decimal_id evidence.id "evidence" else ok tt
    checked_if_some evidence.sha256 (λ digest. validate_sha256 digest "evidence")
    checked_if_some evidence.expires_at
        (λ expires_at. ensure (is_rfc3339 expires_at) "evidence expiry is not RFC 3339")
    validate_evidence rest (evidence ∷ seen)

  -- There is some evidence, and each of it is checked.
  unfoldable pub validate_all_evidence : UpstreamPin → Checked
  unfolding validate_evidence
  validate_all_evidence pin = do
    ensure (not (is_nil pin.evidence))
        "upstream pin must retain at least one exact evidence reference"
    validate_evidence pin.evidence []

  unfoldable pub validate_upstream : UpstreamPin → Checked
  unfolding validate_identity validate_all_evidence validate_runtime validate_integrity
      validate_readiness
  validate_upstream pin = do
    validate_identity pin
    validate_all_evidence pin
    validate_runtime pin.runtime
    validate_integrity pin
    validate_readiness pin.execution_readiness

-- The delivery is complete in itself.
abbrev pub is_closed : UpstreamPin → Bool
is_closed pin =
    is_native pin.runtime.kind
    && pin.runtime.self_contained
    && pin.runtime.transitive_dependencies_included
    && is_nil pin.runtime.external_tools
    && is_some_false pin.native_posture.release_eligible

abbrev pub equal : Bool → Bool → Bool
equal true b = b
equal false b = not b

unfoldable pub validate_readiness_against_manifest : UpstreamPin → TrustedManifest → Checked
validate_readiness_against_manifest pin manifest = do
  ensure (equal (is_ready pin.execution_readiness.state) manifest.manifest.enabled_by_default)
      "production manifest enablement must exactly match upstream readiness"
  ensure (not (is_ready pin.execution_readiness.state && not (is_closed pin)))
      "ready production native delivery lacks a complete immutable operation closure"

unfoldable pub find_pin : Text → List TrustedUpstreamPin → Option TrustedUpstreamPin
find_pin id [] = none
find_pin id (entry ∷ rest) =
    let later = find_pin id rest in if same entry.pin.tool_manifest_id id then some entry else later

-- The first evidence that is an artifact of GitHub Actions.
unfoldable pub find_actions_artifact : List EvidenceRef → Option EvidenceRef
unfolding same_kind
find_actions_artifact [] = none
find_actions_artifact (evidence ∷ rest) =
    let later = find_actions_artifact rest in
    if same_kind evidence.kind actions_artifact then some evidence else later

-- What the code compares of the two pins; its long condition is the negation of this one.
unfoldable pub agrees_with_candidate : UpstreamPin → EvidenceRef → CandidatePin → Bool
unfolding eq_ignore_ascii_case os_str arch_str status_str
agrees_with_candidate upstream artifact candidate =
    same upstream.repository_url candidate.repository_url
    && same upstream.source.commit_sha candidate.source.commit_sha
    && same upstream.source.tree_sha candidate.source.tree_sha
    && same artifact.id candidate.candidate.actions_artifact_id
    && same artifact.name candidate.candidate.actions_artifact_name
    && same artifact.subject_commit_sha candidate.source.commit_sha
    && same_option artifact.sha256 (some candidate.candidate.actions_artifact_sha256)
    && same_option artifact.expires_at (some candidate.candidate.expires_at)
    && not (is_native upstream.runtime.kind)
    && same (os_str upstream.runtime.target_os) candidate.runtime_target.os
    && same (arch_str upstream.runtime.target_arch) candidate.runtime_target.arch
    && elim upstream.runtime.version_constraint [
      | none ↦ false
      | some value ↦ eq_ignore_ascii_case value (
          candidate.runtime_target.implementation
          ++ lit " "
          ++ candidate.runtime_target.python_version
          ++ lit " "
          ++ candidate.runtime_target.python_abi)
    ]
    && equal upstream.runtime.interpreter_included candidate.runtime_target.interpreter_included
    && same (status_str upstream.native_posture.status) candidate.native_posture.status
    && elim upstream.native_posture.release_eligible [
      | none ↦ false
      | some eligible ↦ equal eligible candidate.native_posture.release_eligible
    ]
    && same candidate.workbench_admission.authority_effect (lit "none")

unfoldable pub cross_validate_stateweaver :
    List TrustedUpstreamPin → Outcome (Option TrustedCandidatePin) → Checked
unfolding find_pin find_actions_artifact agrees_with_candidate
cross_validate_stateweaver pins candidate_of_stateweaver = do
  upstream ← ok_or (find_pin (lit "stateweaver-foundation") pins) "StateWeaver upstream pin missing"
  found ← candidate_of_stateweaver
  candidate ← ok_or found "StateWeaver detailed candidate pin missing"
  artifact ←
      ok_or (find_actions_artifact upstream.pin.evidence)
        "StateWeaver generic Actions artifact missing"
  ensure (agrees_with_candidate upstream.pin artifact candidate.pin)
      "generic StateWeaver upstream pin diverges from candidate_pin/v1"
