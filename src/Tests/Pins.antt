-- ===== src/Tests/Pins.antt =====
-- Runs of the checks of the pins (src/upstream_pins.rs, src/candidate_pins.rs).
use evidence_workbench.Validation.Fields.{
  is_lower_hex, validate_prefixed_id, validate_sha256, validate_plan_record_ref,
  validate_run_record_ref, validate_artifact_id, validate_identifier, validate_git_sha1,
}
use evidence_workbench.Manifests.Parameters.{digits_value}
use evidence_workbench.Text.Trim.{
  space1, space2, space3, strip_front, trim_start, trim_end, trim, trim_end_newlines,
}
use evidence_workbench.Text.Order.{before}
use evidence_workbench.Pins.Upstream.{
  same_kind, validate_release, has_evidence, is_checksum_asset, bad_blocker_code,
  validate_readiness, validate_runtime, validate_evidence, validate_all_evidence, validate_identity,
  validate_integrity, validate_upstream, validate_readiness_against_manifest, find_pin,
  find_actions_artifact, agrees_with_candidate, cross_validate_stateweaver,
}
use evidence_workbench.Prelude.{
  all, any, ◌≡◌, refl, Bool, true, false, List, [], ◌∷◌, ◌++◌, none, some, Outcome, ok,
  if◌then◌else◌,
}
use evidence_workbench.Text.{
  is_lower, is_upper, is_digit, is_alphanumeric, is_hexdigit, strip_prefix, starts_with, ends_with,
  contains_byte, split, split_once, Text, lit, same,
}
use evidence_workbench.Collections.{
  contains, place, insert, collect_set, difference, within_keys, equal_sets, get, put, put_all,
  keys, contains_key, SameKeys,
}
use evidence_workbench.Validation.Topology.Spec.{All}
use evidence_workbench.Manifests.{ToolManifest}
use evidence_workbench.Manifests.Registry.{
  validate_id, contains_whitespace, to_ascii_lowercase, validate_allowed_digests,
  validate_candidates, validate_byte_policies, validate_manifest, place_manifest, sort_manifests,
  find_manifest, load_each, get_manifest, get_by_ref, limitations_from, limitation_items,
  TrustedManifest, load_embedded,
}
use evidence_workbench.Pins.Records.{
  os_str, arch_str, status_str, EvidenceRef, actions_artifact, success, native, python, windows,
  x86_64, RuntimeClosure, ready, fail_closed, ExecutionReadiness, source_checked, no_authority,
  source_verified, UpstreamPin, TrustedUpstreamPin, CandidatePin,
}
use evidence_workbench.Pins.Candidate.{
  validate_digests, validate_accounting, validate_provenance, validate_candidate, load_candidates,
  place_candidate, sort_candidates, all_candidates, find_candidate, candidate_for_tool,
}
use evidence_workbench.Pins.Fields.{
  bad_url_part, parse_u64, eq_ignore_ascii_case, validate_decimal_id, validate_repository_url,
}
use evidence_workbench.Pins.Registry.{
  place_pin, sort_pins, load_pins, get_for_tool, manifest_ids, pin_ids, manifest_of, all_pins,
  require_ready_for_planning,
}
use evidence_workbench.Pins.Registry.Ready.{IsPinned, all_pins-cover}
use evidence_workbench.Pins.Registry.Plannable.{IsPlannable, require_ready_for_planning-IsPlannable}
use evidence_workbench.Pins.Registry.Crossed.{IsCrossed, all_pins-IsCrossed}

-- A sign is taken for a number's, and parts that are no names are taken for names.
plus_accepted : validate_decimal_id (lit "+5") "release" ≡ ok tt
unfolding lit same is_lower is_upper is_digit is_alphanumeric is_hexdigit strip_prefix starts_with
    ends_with contains_byte split split_once before all any contains place insert collect_set
    difference within_keys equal_sets get put put_all keys contains_key space1 space2 space3
    strip_front trim_start trim_end trim trim_end_newlines validate_id contains_whitespace
    to_ascii_lowercase validate_allowed_digests validate_candidates validate_byte_policies
    validate_manifest place_manifest sort_manifests find_manifest load_each load_embedded
    get_manifest get_by_ref limitations_from limitation_items is_lower_hex validate_prefixed_id
    validate_sha256 validate_plan_record_ref validate_run_record_ref validate_artifact_id
    validate_identifier validate_git_sha1 os_str arch_str status_str bad_url_part
    validate_repository_url parse_u64 validate_decimal_id eq_ignore_ascii_case validate_digests
    validate_accounting validate_provenance validate_candidate load_candidates place_candidate
    sort_candidates all_candidates find_candidate candidate_for_tool same_kind validate_release
    has_evidence is_checksum_asset bad_blocker_code validate_readiness validate_runtime
    validate_evidence validate_all_evidence validate_identity validate_integrity validate_upstream
    validate_readiness_against_manifest find_pin find_actions_artifact agrees_with_candidate
    cross_validate_stateweaver place_pin sort_pins load_pins all_pins get_for_tool
    require_ready_for_planning digits_value
plus_accepted = refl

dots_accepted : validate_repository_url (lit "https://github.com/../.") ≡ ok (lit "../.")
unfolding lit same is_lower is_upper is_digit is_alphanumeric is_hexdigit strip_prefix starts_with
    ends_with contains_byte split split_once before all any contains place insert collect_set
    difference within_keys equal_sets get put put_all keys contains_key space1 space2 space3
    strip_front trim_start trim_end trim trim_end_newlines validate_id contains_whitespace
    to_ascii_lowercase validate_allowed_digests validate_candidates validate_byte_policies
    validate_manifest place_manifest sort_manifests find_manifest load_each load_embedded
    get_manifest get_by_ref limitations_from limitation_items is_lower_hex validate_prefixed_id
    validate_sha256 validate_plan_record_ref validate_run_record_ref validate_artifact_id
    validate_identifier validate_git_sha1 os_str arch_str status_str bad_url_part
    validate_repository_url parse_u64 validate_decimal_id eq_ignore_ascii_case validate_digests
    validate_accounting validate_provenance validate_candidate load_candidates place_candidate
    sort_candidates all_candidates find_candidate candidate_for_tool same_kind validate_release
    has_evidence is_checksum_asset bad_blocker_code validate_readiness validate_runtime
    validate_evidence validate_all_evidence validate_identity validate_integrity validate_upstream
    validate_readiness_against_manifest find_pin find_actions_artifact agrees_with_candidate
    cross_validate_stateweaver place_pin sort_pins load_pins all_pins get_for_tool
    require_ready_for_planning digits_value
dots_accepted = refl

abbrev forty : Text
forty = lit "0123456789012345678901234567890123456789"

abbrev digest : Text
digest = lit "0123456789abcdef0123456789abcdef0123456789abcdef0123456789abcdef"

abbrev stateweaver : Text
stateweaver = lit "stateweaver-foundation"

-- A reader for which the text is the identifier of a manifest; that of `tool` is enabled.
abbrev manifest_in_test : Text → Outcome ToolManifest
manifest_in_test id = ok (record {
  schema_version = lit "tool_manifest/v1";
  manifest_id = id;
  display_name = lit "Tool";
  stability = lit "stable";
  enabled_by_default = same id (lit "tool");
  adapter = record { id = id; version = lit "1" };
  identity_contract = record {
    executable_candidates = lit "tool" ∷ [];
    version_probe = none;
    binary_digest_required = true;
    allowed_binary_sha256 = digest ∷ [];
    python_distribution = none;
    supporting_tree_digest_required = false;
  };
  subject_kind = lit "git";
  invocation_contract = record {
    mode = lit "direct_exec";
    operation = lit "verify";
    parameters = [];
    required_capabilities = [];
    target_code_execution = lit "none";
    network = lit "none";
    filesystem_write = lit "none";
  };
  artifact_contracts = [];
  native_observation_contracts = [];
  exit_code_contract = record { entries = []; unknown_code_policy = lit "preserve_unrecognized" };
  authority_contract = record { mode = lit "not_reported" };
  limitations = [];
})

abbrev repository : Text
repository = lit "https://github.com/owner/stateweaver"

abbrev artifact : EvidenceRef
artifact = record {
  kind = actions_artifact;
  id = lit "7";
  name = lit "candidate";
  subject_commit_sha = forty;
  sha256 = some digest;
  size_bytes = none;
  status = success;
  expires_at = some (lit "2030-01-01T00:00:00Z");
}

abbrev runtime_of : Bool → RuntimeClosure
runtime_of closed = record {
  kind = if closed then native else python;
  target_os = windows;
  target_arch = x86_64;
  version_constraint = some (lit "CPython 3.12 cp312");
  interpreter_included = false;
  transitive_dependencies_included = closed;
  self_contained = closed;
  external_tools = [];
}

abbrev readiness_of : Bool → ExecutionReadiness
readiness_of closed = record {
  state = if closed then ready else fail_closed;
  scope = lit "one operation";
  blocker_codes = if closed then [] else lit "not_built" ∷ [];
}

abbrev pin_of : Text → Bool → UpstreamPin
pin_of id closed = record {
  schema_version = lit "upstream_pin/v1";
  tool_manifest_id = id;
  repository_url = repository;
  source = record { default_branch = lit "main"; commit_sha = forty; tree_sha = forty };
  software_version = lit "1.0";
  release = none;
  evidence = artifact ∷ [];
  runtime = runtime_of closed;
  native_posture = record { status = source_verified; release_eligible = some false };
  execution_readiness = readiness_of closed;
  admission = record { evidence_integrity_state = source_checked; authority_effect = no_authority };
  license_spdx = lit "MIT";
}

abbrev pin_in_test : Text → Outcome UpstreamPin
pin_in_test id = ok (pin_of id (same id (lit "tool")))

abbrev candidate_in_test : Text → Outcome CandidatePin
candidate_in_test raw = ok (record {
  schema_version = lit "candidate_pin/v1";
  tool_manifest_id = stateweaver;
  repository_url = repository;
  source = record { commit_sha = forty; tree_sha = forty };
  candidate = record {
    payload_manifest_sha256 = digest;
    receipt_sha256 = digest;
    actions_artifact_id = lit "7";
    actions_artifact_name = lit "candidate";
    actions_artifact_sha256 = digest;
    workflow_run_id = lit "9";
    workflow_run_url = repository ++ lit "/actions/runs/9";
    expires_at = lit "2030-01-01T00:00:00Z";
  };
  runtime_target = record {
    os = lit "windows";
    arch = lit "x86_64";
    implementation = lit "cpython";
    python_version = lit "3.12";
    python_abi = lit "cp312";
    interpreter_included = false;
  };
  inventory = record {
    workspace_wheels = 1;
    vendored_runtime_wheels = 1;
    manifest_artifacts = 1;
    checksum_entries = 1;
  };
  native_posture = record { status = lit "SOURCE_VERIFIED"; release_eligible = false };
  provenance = record {
    attestation_actions_artifact_id = lit "8";
    attestation_actions_artifact_sha256 = digest;
    attestation_bundle_sha256 = digest;
    download_verification_actions_artifact_id = lit "9";
    download_verification_actions_artifact_sha256 = digest;
    download_verification_receipt_sha256 = digest;
    signer_workflow = lit "github.com/owner/stateweaver/.github/workflows/release.yml";
    signer_digest = forty;
    deny_self_hosted_runners = true;
  };
  workbench_admission = record {
    implementation_state = lit "candidate_complete";
    evidence_integrity_state = lit "verified_at_admission";
    checksum_entries_verified = 1;
    attestation_verified = true;
    attestation_subject_sha256 = digest;
    verified_at = lit "2026-01-01T00:00:00Z";
    authority_effect = lit "none";
  };
})

abbrev digest_in_test : Text → Text
digest_in_test raw = digest

abbrev any_time : Text → Bool
any_time text = true

abbrev embedded : List Text
embedded = lit "tool" ∷ stateweaver ∷ []

abbrev trusted_pin : Text → Bool → TrustedUpstreamPin
trusted_pin id closed = record { pin = pin_of id closed; sha256 = digest; raw = id }

abbrev returned : List TrustedUpstreamPin
returned = trusted_pin stateweaver false ∷ trusted_pin (lit "tool") true ∷ []

all_pins_run :
    all_pins any_time digest_in_test manifest_in_test embedded pin_in_test candidate_in_test
      (stateweaver ∷ [])
      embedded
    ≡ ok returned
unfolding lit same is_lower is_upper is_digit is_alphanumeric is_hexdigit strip_prefix starts_with
    ends_with contains_byte split split_once before all any contains place insert collect_set
    difference within_keys equal_sets get put put_all keys contains_key space1 space2 space3
    strip_front trim_start trim_end trim trim_end_newlines validate_id contains_whitespace
    to_ascii_lowercase validate_allowed_digests validate_candidates validate_byte_policies
    validate_manifest place_manifest sort_manifests find_manifest load_each load_embedded
    get_manifest get_by_ref limitations_from limitation_items is_lower_hex validate_prefixed_id
    validate_sha256 validate_plan_record_ref validate_run_record_ref validate_artifact_id
    validate_identifier validate_git_sha1 os_str arch_str status_str bad_url_part
    validate_repository_url parse_u64 validate_decimal_id eq_ignore_ascii_case validate_digests
    validate_accounting validate_provenance validate_candidate load_candidates place_candidate
    sort_candidates all_candidates find_candidate candidate_for_tool same_kind validate_release
    has_evidence is_checksum_asset bad_blocker_code validate_readiness validate_runtime
    validate_evidence validate_all_evidence validate_identity validate_integrity validate_upstream
    validate_readiness_against_manifest find_pin find_actions_artifact agrees_with_candidate
    cross_validate_stateweaver place_pin sort_pins load_pins all_pins get_for_tool
    require_ready_for_planning digits_value
all_pins_run = refl

all_pins-cover_example :
    All
      (IsPinned any_time digest_in_test manifest_in_test embedded pin_in_test candidate_in_test
        (stateweaver ∷ [])
        embedded)
      returned
    × ((manifests : List TrustedManifest) × (load_embedded manifest_in_test digest_in_test embedded
          ≡ ok manifests)
        × SameKeys (pin_ids returned) (manifest_ids manifests))
all_pins-cover_example =
    all_pins-cover any_time digest_in_test manifest_in_test embedded pin_in_test candidate_in_test
      (stateweaver ∷ []) embedded returned all_pins_run

all_pins-IsCrossed_example : IsCrossed returned (
    candidate_for_tool any_time candidate_in_test digest_in_test
      (manifest_of any_time digest_in_test manifest_in_test embedded pin_in_test candidate_in_test
        (stateweaver ∷ []))
      (stateweaver ∷ [])
      stateweaver)
all_pins-IsCrossed_example =
    all_pins-IsCrossed any_time digest_in_test manifest_in_test embedded pin_in_test
      candidate_in_test (stateweaver ∷ []) embedded returned all_pins_run

plans :
    require_ready_for_planning any_time digest_in_test manifest_in_test embedded pin_in_test
      candidate_in_test
      (stateweaver ∷ [])
      embedded
      (lit "tool")
    ≡ ok (trusted_pin (lit "tool") true)
unfolding lit same is_lower is_upper is_digit is_alphanumeric is_hexdigit strip_prefix starts_with
    ends_with contains_byte split split_once before all any contains place insert collect_set
    difference within_keys equal_sets get put put_all keys contains_key space1 space2 space3
    strip_front trim_start trim_end trim trim_end_newlines validate_id contains_whitespace
    to_ascii_lowercase validate_allowed_digests validate_candidates validate_byte_policies
    validate_manifest place_manifest sort_manifests find_manifest load_each load_embedded
    get_manifest get_by_ref limitations_from limitation_items is_lower_hex validate_prefixed_id
    validate_sha256 validate_plan_record_ref validate_run_record_ref validate_artifact_id
    validate_identifier validate_git_sha1 os_str arch_str status_str bad_url_part
    validate_repository_url parse_u64 validate_decimal_id eq_ignore_ascii_case validate_digests
    validate_accounting validate_provenance validate_candidate load_candidates place_candidate
    sort_candidates all_candidates find_candidate candidate_for_tool same_kind validate_release
    has_evidence is_checksum_asset bad_blocker_code validate_readiness validate_runtime
    validate_evidence validate_all_evidence validate_identity validate_integrity validate_upstream
    validate_readiness_against_manifest find_pin find_actions_artifact agrees_with_candidate
    cross_validate_stateweaver place_pin sort_pins load_pins all_pins get_for_tool
    require_ready_for_planning digits_value
plans = refl

require_ready_for_planning-IsPlannable_example :
    IsPlannable any_time digest_in_test manifest_in_test embedded pin_in_test candidate_in_test
      (stateweaver ∷ [])
      embedded
      (lit "tool")
      (trusted_pin (lit "tool") true)
require_ready_for_planning-IsPlannable_example =
    require_ready_for_planning-IsPlannable any_time digest_in_test manifest_in_test embedded
      pin_in_test candidate_in_test (stateweaver ∷ []) embedded (lit "tool")
      (trusted_pin (lit "tool") true) plans
