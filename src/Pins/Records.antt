-- ===== src/Pins/Records.antt =====
-- src/upstream_pins.rs and src/candidate_pins.rs: the records of the pins.
use evidence_workbench.Prelude.{ℕ, Bool, Option, List}
use evidence_workbench.Text.{Text, lit}

pub record UpstreamSource : Type 0 where
  pub default_branch : Text
  pub commit_sha : Text
  pub tree_sha : Text

pub data ReleaseChannel : Type 0 where
  tag github_release candidate_release : ReleaseChannel

pub record ReleaseRef : Type 0 where
  pub channel : ReleaseChannel
  pub version : Text
  pub tag : Text
  pub release_id : Option Text
  pub subject_commit_sha : Text
  pub subject_tree_sha : Text

pub data EvidenceKind : Type 0 where
  workflow_run actions_artifact release_asset native_executable source_release candidate_manifest
        checksum_ledger candidate_archive :
      EvidenceKind

pub data EvidenceStatus : Type 0 where
  success failure blocked published verified_at_admission : EvidenceStatus

pub record EvidenceRef : Type 0 where
  pub kind : EvidenceKind
  pub id : Text
  pub name : Text
  pub subject_commit_sha : Text
  pub sha256 : Option Text
  pub size_bytes : Option ℕ
  pub status : EvidenceStatus
  pub expires_at : Option Text

pub data RuntimeKind : Type 0 where
  native python : RuntimeKind

pub data TargetOs : Type 0 where
  any_os linux windows : TargetOs

pub data TargetArch : Type 0 where
  any_arch x86_64 : TargetArch

pub record RuntimeClosure : Type 0 where
  pub kind : RuntimeKind
  pub target_os : TargetOs
  pub target_arch : TargetArch
  pub version_constraint : Option Text
  pub interpreter_included : Bool
  pub transitive_dependencies_included : Bool
  pub self_contained : Bool
  pub external_tools : List Text

pub data NativeStatus : Type 0 where
  alpha_source_verified candidate_only_not_release_authorized
        candidate_ready_for_external_qualification current_source_verified_release_blocked
        released_alpha_non_certifying source_qualification_blocked source_verified
        source_verified_advisory_measure source_verified_authorization_required :
      NativeStatus

pub record NativePosture : Type 0 where
  pub status : NativeStatus
  pub release_eligible : Option Bool

pub data ReadinessState : Type 0 where
  ready fail_closed : ReadinessState

pub record ExecutionReadiness : Type 0 where
  pub state : ReadinessState
  pub scope : Text
  pub blocker_codes : List Text

pub data EvidenceIntegrityState : Type 0 where
  source_checked published_checksums_verified integrity_verified_at_admission upstream_reported :
      EvidenceIntegrityState

pub data AuthorityEffect : Type 0 where
  no_authority : AuthorityEffect

pub record Admission : Type 0 where
  pub evidence_integrity_state : EvidenceIntegrityState
  pub authority_effect : AuthorityEffect

pub record UpstreamPin : Type 0 where
  pub schema_version : Text
  pub tool_manifest_id : Text
  pub repository_url : Text
  pub source : UpstreamSource
  pub software_version : Text
  pub release : Option ReleaseRef
  pub evidence : List EvidenceRef
  pub runtime : RuntimeClosure
  pub native_posture : NativePosture
  pub execution_readiness : ExecutionReadiness
  pub admission : Admission
  pub license_spdx : Text

pub record TrustedUpstreamPin : Type 0 where
  pub pin : UpstreamPin
  pub sha256 : Text
  pub raw : Text

pub record CandidateSource : Type 0 where
  pub commit_sha : Text
  pub tree_sha : Text

pub record CandidateArtifact : Type 0 where
  pub payload_manifest_sha256 : Text
  pub receipt_sha256 : Text
  pub actions_artifact_id : Text
  pub actions_artifact_name : Text
  pub actions_artifact_sha256 : Text
  pub workflow_run_id : Text
  pub workflow_run_url : Text
  pub expires_at : Text

pub record RuntimeTarget : Type 0 where
  pub os : Text
  pub arch : Text
  pub implementation : Text
  pub python_version : Text
  pub python_abi : Text
  pub interpreter_included : Bool

pub record CandidateInventory : Type 0 where
  pub workspace_wheels : ℕ
  pub vendored_runtime_wheels : ℕ
  pub manifest_artifacts : ℕ
  pub checksum_entries : ℕ

pub record CandidatePosture : Type 0 where
  pub status : Text
  pub release_eligible : Bool

pub record CandidateProvenance : Type 0 where
  pub attestation_actions_artifact_id : Text
  pub attestation_actions_artifact_sha256 : Text
  pub attestation_bundle_sha256 : Text
  pub download_verification_actions_artifact_id : Text
  pub download_verification_actions_artifact_sha256 : Text
  pub download_verification_receipt_sha256 : Text
  pub signer_workflow : Text
  pub signer_digest : Text
  pub deny_self_hosted_runners : Bool

pub record WorkbenchAdmission : Type 0 where
  pub implementation_state : Text
  pub evidence_integrity_state : Text
  pub checksum_entries_verified : ℕ
  pub attestation_verified : Bool
  pub attestation_subject_sha256 : Text
  pub verified_at : Text
  pub authority_effect : Text

pub record CandidatePin : Type 0 where
  pub schema_version : Text
  pub tool_manifest_id : Text
  pub repository_url : Text
  pub source : CandidateSource
  pub candidate : CandidateArtifact
  pub runtime_target : RuntimeTarget
  pub inventory : CandidateInventory
  pub native_posture : CandidatePosture
  pub provenance : CandidateProvenance
  pub workbench_admission : WorkbenchAdmission

pub record TrustedCandidatePin : Type 0 where
  pub pin : CandidatePin
  pub sha256 : Text
  pub raw : Text

-- The names that serde gives the variants where the code prints them.
unfoldable pub os_str : TargetOs → Text
os_str any_os = lit "any"
os_str linux = lit "linux"
os_str windows = lit "windows"

unfoldable pub arch_str : TargetArch → Text
arch_str any_arch = lit "any"
arch_str x86_64 = lit "x86_64"

unfoldable pub status_str : NativeStatus → Text
status_str alpha_source_verified = lit "ALPHA_SOURCE_VERIFIED"
status_str candidate_only_not_release_authorized = lit "CANDIDATE_ONLY_NOT_RELEASE_AUTHORIZED"
status_str candidate_ready_for_external_qualification =
    lit "CANDIDATE_READY_FOR_EXTERNAL_QUALIFICATION"
status_str current_source_verified_release_blocked = lit "CURRENT_SOURCE_VERIFIED_RELEASE_BLOCKED"
status_str released_alpha_non_certifying = lit "RELEASED_ALPHA_NON_CERTIFYING"
status_str source_qualification_blocked = lit "SOURCE_QUALIFICATION_BLOCKED"
status_str source_verified = lit "SOURCE_VERIFIED"
status_str source_verified_advisory_measure = lit "SOURCE_VERIFIED_ADVISORY_MEASURE"
status_str source_verified_authorization_required = lit "SOURCE_VERIFIED_AUTHORIZATION_REQUIRED"
