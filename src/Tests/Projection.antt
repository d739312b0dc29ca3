-- ===== src/Tests/Projection.antt =====
-- Runs of the extraction of observations (src/native.rs, src/run_validation.rs) and of the check of
-- a caller's approvals (src/native.rs).
use evidence_workbench.Text.Utf8.{is_utf8, from_utf8}
use evidence_workbench.Text.Trim.{
  space1, space2, space3, strip_front, trim_start, trim_end, trim, trim_end_newlines,
}
use evidence_workbench.Text.Order.{before}
use evidence_workbench.Text.Lines.{split_inclusive}
use evidence_workbench.Text.Decimal.{digits_onto, decimal}
use evidence_workbench.RunValidation.Observations.{
  re_scan_lines, re_extract_text_prefix, role_contracts, role_artifacts, is_raw_stream, is_observed,
  unique_identities, matching, extract, validate_observation, validate_contracts,
  validate_native_result,
}
use evidence_workbench.Native.Capabilities.{valid_capability, approve, validate_capability_approval}
use evidence_workbench.Collections.{
  contains, place, insert, collect_set, difference, within_keys, equal_sets, get, put, put_all,
  keys, contains_key,
}
use evidence_workbench.Prelude.{
  drop, ◌-◌, take, ℕ, all, any, ◌≡◌, refl, true, false, [], ◌∷◌, ◌++◌, none, some, ok, err,
}
use evidence_workbench.Text.{
  same, is_lower, is_upper, is_digit, is_alphanumeric, is_hexdigit, strip_prefix, starts_with,
  ends_with, contains_byte, split, split_once, Text, lit,
}
use evidence_workbench.Json.{
  same_number, same_json, find_member, put_member, member_keys, Json, string,
}
use evidence_workbench.Contracts.Run.{
  same_locator, ArtifactDescriptor, exited, Locator, from_artifact, NativeObservation, Invocation,
}
use evidence_workbench.StrictJson.{raw_map, map_end}
use evidence_workbench.Manifests.{ToolManifest, ObservationContract}
use evidence_workbench.Native.Projection.{
  found_prefix, scan_lines, extract_text_prefix, extract_json, has_role, find_role, extract_format,
  read_turn, turn, observe_all, extract_native_result, Reader, byte_range,
}
use evidence_workbench.Native.Projection.Prefix.{
  Located, extract_text_prefix-Located, extract_text_prefix_slice,
}
use evidence_workbench.Native.Capabilities.Accepts.{IsApproved, validate_capability_approval_iff}
use evidence_workbench.RunValidation.Observations.Accepts.{
  IsExact, extract-agrees, validate_observation_iff,
}
use evidence_workbench.RunValidation.Observations.Reports.{Backed, DistinctContracts}
use evidence_workbench.RunValidation.Observations.RoundTrip.{validate-extract_native_result}

-- The verdict stands on the second line.
abbrev output : Text
output = lit "tool 1.0" ++ b'\n' ∷ lit "verdict:  pass " ++ b'\n' ∷ []

abbrev found : Json × Locator
found = (string (lit "pass"), record { kind = lit "byte_range"; value = lit "19:23" })

output-run : extract_text_prefix output (lit "verdict:") ≡ ok found
unfolding lit same is_lower is_upper is_digit is_alphanumeric is_hexdigit strip_prefix starts_with
    ends_with contains_byte split split_once before all any contains place insert collect_set
    difference within_keys equal_sets get put put_all keys contains_key space1 space2 space3
    strip_front trim_start trim_end trim trim_end_newlines is_utf8 from_utf8 digits_onto decimal
    split_inclusive byte_range found_prefix scan_lines extract_text_prefix extract_json has_role
    find_role extract_format read_turn turn observe_all extract_native_result
output-run = refl

extract_text_prefix-Located_example : Located output (lit "verdict:") found
extract_text_prefix-Located_example =
    extract_text_prefix-Located output (lit "verdict:") found output-run

extract_text_prefix_slice_example :
    (start end' : ℕ) × (found.1 ≡ byte_range start end')
    × (found.0 ≡ string (take (end' - start) (drop start output)))
extract_text_prefix_slice_example =
    extract_text_prefix_slice output (lit "verdict:") found output-run

abbrev artifact : ArtifactDescriptor
artifact = record {
  artifact_id = lit "artifact_0123456789abcdef0123456789abcdef";
  roles = lit "native_stdout" ∷ [];
  media_type = lit "text/plain";
  byte_length = 25;
  digest = record { algorithm = lit "sha256"; value = [] };
  storage = record { uri = [] };
  origin = lit "process_stdout";
  capture = record { mode = lit "raw_stream_capture" };
  transforms = [];
}

-- A store that holds the output, and a reader of JSON that finds an empty object.
abbrev toy_reader : Reader
toy_reader = record {
  json = record { read = λ bytes. raw_map map_end; finish = λ bytes. ok tt };
  resolve = λ value selector. some value;
  read_verified_descriptor = λ a. ok output;
}

abbrev verdict : ObservationContract
verdict = record {
  namespace = lit "tool";
  name = lit "verdict";
  artifact_role = lit "native_stdout";
  format = lit "text_prefix";
  selector = lit "verdict:";
  required_when = lit "always";
  unknown_value_policy = lit "preserve";
}

abbrev whole : ObservationContract
whole = record {
  namespace = lit "tool";
  name = lit "document";
  artifact_role = lit "native_stdout";
  format = lit "json";
  selector = [];
  required_when = lit "always";
  unknown_value_policy = lit "preserve";
}

abbrev manifest : ToolManifest
manifest = record {
  schema_version = lit "tool_manifest/v1";
  manifest_id = lit "tool";
  display_name = lit "Tool";
  stability = lit "stable";
  enabled_by_default = false;
  adapter = record { id = lit "tool"; version = lit "1" };
  identity_contract = record {
    executable_candidates = lit "tool" ∷ [];
    version_probe = none;
    binary_digest_required = true;
    allowed_binary_sha256 = [];
    python_distribution = none;
    supporting_tree_digest_required = false;
  };
  subject_kind = lit "git";
  invocation_contract = record {
    mode = lit "direct_exec";
    operation = lit "verify";
    parameters = [];
    required_capabilities = [];
    target_code_execution = lit "none";
    network = lit "none";
    filesystem_write = lit "none";
  };
  artifact_contracts =
      record {
        role = lit "native_stdout";
        discovery = lit "captured_stream";
        required_when = lit "always";
        byte_policy = lit "exact";
      }
      ∷ [];
  native_observation_contracts = verdict ∷ whole ∷ [];
  exit_code_contract = record { entries = []; unknown_code_policy = lit "preserve_unrecognized" };
  authority_contract = record { mode = lit "not_reported" };
  limitations = [];
}

abbrev observation : NativeObservation
observation = record {
  namespace = lit "tool";
  name = lit "verdict";
  value = string (lit "pass");
  source = from_artifact artifact.artifact_id found.1;
  projection_only = true;
}

observation-run :
    validate_observation toy_reader (artifact ∷ []) manifest verdict observation ≡ ok tt
unfolding lit same is_lower is_upper is_digit is_alphanumeric is_hexdigit strip_prefix starts_with
    ends_with contains_byte split split_once before all any contains place insert collect_set
    difference within_keys equal_sets get put put_all keys contains_key space1 space2 space3
    strip_front trim_start trim_end trim trim_end_newlines is_utf8 from_utf8 digits_onto decimal
    split_inclusive byte_range found_prefix scan_lines extract_text_prefix extract_json has_role
    find_role extract_format read_turn turn observe_all extract_native_result re_scan_lines
    re_extract_text_prefix role_contracts role_artifacts is_raw_stream is_observed unique_identities
    matching extract validate_observation validate_contracts validate_native_result same_number
    same_json find_member put_member member_keys same_locator
observation-run = refl

validate_observation_iff_example : IsExact toy_reader (artifact ∷ []) manifest verdict observation
validate_observation_iff_example =
    (validate_observation_iff toy_reader (artifact ∷ []) manifest verdict observation).0
      observation-run

extraction : extract_format toy_reader verdict output ≡ ok found
unfolding lit same is_lower is_upper is_digit is_alphanumeric is_hexdigit strip_prefix starts_with
    ends_with contains_byte split split_once before all any contains place insert collect_set
    difference within_keys equal_sets get put put_all keys contains_key space1 space2 space3
    strip_front trim_start trim_end trim trim_end_newlines is_utf8 from_utf8 digits_onto decimal
    split_inclusive byte_range found_prefix scan_lines extract_text_prefix extract_json has_role
    find_role extract_format read_turn turn observe_all extract_native_result re_scan_lines
    re_extract_text_prefix role_contracts role_artifacts is_raw_stream is_observed unique_identities
    matching extract validate_observation validate_contracts validate_native_result same_number
    same_json find_member put_member member_keys same_locator
extraction = refl

extract-agrees_example : extract toy_reader verdict output ≡ ok found
extract-agrees_example = (extract-agrees toy_reader verdict output found).1 extraction

backed :
    (c : ObservationContract)
    → c.artifact_role ≡ lit "native_stdout"
    → Backed (artifact ∷ []) manifest c
unfolding lit same is_lower is_upper is_digit is_alphanumeric is_hexdigit strip_prefix starts_with
    ends_with contains_byte split split_once before all any contains place insert collect_set
    difference within_keys equal_sets get put put_all keys contains_key space1 space2 space3
    strip_front trim_start trim_end trim trim_end_newlines is_utf8 from_utf8 digits_onto decimal
    split_inclusive byte_range found_prefix scan_lines extract_text_prefix extract_json has_role
    find_role extract_format read_turn turn observe_all extract_native_result re_scan_lines
    re_extract_text_prefix role_contracts role_artifacts is_raw_stream is_observed unique_identities
    matching extract validate_observation validate_contracts validate_native_result same_number
    same_json find_member put_member member_keys same_locator
backed c e = record { artifact = artifact; stream = rw e refl; only = rw e refl; raw = rw e refl }

different : DistinctContracts (verdict ∷ whole ∷ [])
unfolding lit same is_lower is_upper is_digit is_alphanumeric is_hexdigit strip_prefix starts_with
    ends_with contains_byte split split_once before all any contains place insert collect_set
    difference within_keys equal_sets get put put_all keys contains_key space1 space2 space3
    strip_front trim_start trim_end trim trim_end_newlines is_utf8 from_utf8 digits_onto decimal
    split_inclusive byte_range found_prefix scan_lines extract_text_prefix extract_json has_role
    find_role extract_format read_turn turn observe_all extract_native_result re_scan_lines
    re_extract_text_prefix role_contracts role_artifacts is_raw_stream is_observed unique_identities
    matching extract validate_observation validate_contracts validate_native_result same_number
    same_json find_member put_member member_keys same_locator
different = ((refl, tt), (tt, tt))

validate-extract_native_result_example :
    validate_native_result toy_reader
      (extract_native_result toy_reader manifest (exited 0) (artifact ∷ []))
      (exited 0)
      (artifact ∷ [])
      manifest
    ≡ ok tt
validate-extract_native_result_example =
    validate-extract_native_result toy_reader (artifact ∷ []) manifest (exited 0)
      (backed verdict refl, (backed whole refl, tt)) different

abbrev invocation : Invocation
invocation = record {
  mode = lit "direct_exec";
  argv = [];
  cwd = [];
  timeout_ms = 1000;
  required_capabilities = lit "network" ∷ lit "read_subject" ∷ lit "network" ∷ [];
}

approval-run :
    validate_capability_approval invocation (lit "read_subject" ∷ lit "network" ∷ []) ≡ ok tt
unfolding lit same is_lower is_upper is_digit is_alphanumeric is_hexdigit strip_prefix starts_with
    ends_with contains_byte split split_once before all any contains place insert collect_set
    difference within_keys equal_sets get put put_all keys contains_key valid_capability approve
    validate_capability_approval
approval-run = refl

missing-run :
    validate_capability_approval invocation (lit "network" ∷ [])
    ≡ err "missing explicit capability approval"
unfolding lit same is_lower is_upper is_digit is_alphanumeric is_hexdigit strip_prefix starts_with
    ends_with contains_byte split split_once before all any contains place insert collect_set
    difference within_keys equal_sets get put put_all keys contains_key valid_capability approve
    validate_capability_approval
missing-run = refl

validate_capability_approval_iff_example :
    IsApproved invocation.required_capabilities (lit "read_subject" ∷ lit "network" ∷ [])
validate_capability_approval_iff_example =
    (validate_capability_approval_iff invocation (lit "read_subject" ∷ lit "network" ∷ [])).0
      approval-run
