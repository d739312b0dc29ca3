-- ===== src/Tests/Parameters.antt =====
-- Runs of the resolution of parameters and of the registry of manifests (src/manifests.rs).
use evidence_workbench.Text.Trim.{
  space1, space2, space3, strip_front, trim_start, trim_end, trim, trim_end_newlines,
}
use evidence_workbench.Text.Order.{before}
use evidence_workbench.Manifests.Parameters.{
  digits_value, parse_i64, below, validate_parameter, contracts_by_name, supply, fill_one,
  fill_defaults, validate_parameters, same_values, validate_recorded_parameters,
}
use evidence_workbench.Collections.{
  contains, place, insert, collect_set, difference, within_keys, equal_sets, get, put, put_all,
  keys, contains_key,
}
use evidence_workbench.Prelude.{
  ◌++◌, arith, all, any, ◌≡◌, refl, true, false, List, [], ◌∷◌, none, some, Outcome, ok, err,
}
use evidence_workbench.Text.{
  same, is_lower, is_upper, is_digit, is_alphanumeric, is_hexdigit, strip_prefix, starts_with,
  ends_with, contains_byte, split, split_once, Text, lit,
}
use evidence_workbench.Contracts.Run.{ToolRef}
use evidence_workbench.Validation.Topology.Spec.{All}
use evidence_workbench.Manifests.{pos, ParameterContract, ToolManifest}
use evidence_workbench.Manifests.Parameters.Resolves.{PlainContract}
use evidence_workbench.Manifests.Parameters.Passes.{Resolved, Settled}
use evidence_workbench.Manifests.Parameters.Again.{
  recorded-validate_parameters, validate_parameters-Resolved,
}
use evidence_workbench.Manifests.Registry.{
  validate_id, contains_whitespace, to_ascii_lowercase, validate_allowed_digests,
  validate_candidates, validate_byte_policies, validate_manifest, place_manifest, sort_manifests,
  find_manifest, load_each, load_embedded, get_manifest, get_by_ref, limitations_from,
  limitation_items, TrustedManifest, trusted,
}
use evidence_workbench.Manifests.Registry.Trusted.{
  IsTrusted, Ascending, load_embedded-IsTrusted, get_by_ref-IsTrusted,
}

abbrev depth : ParameterContract
depth = record {
  name = lit "depth";
  required = true;
  kind = lit "integer";
  default = none;
  allowed_values = [];
  minimum = some (pos 1);
  maximum = some (pos 9);
}

abbrev profile : ParameterContract
profile = record {
  name = lit "profile";
  required = false;
  kind = lit "enum";
  default = some (lit "strict");
  allowed_values = lit "strict" ∷ lit "lax" ∷ [];
  minimum = none;
  maximum = none;
}

abbrev manifest_of : Text → List ParameterContract → ToolManifest
manifest_of id parameters = record {
  schema_version = lit "tool_manifest/v1";
  manifest_id = id;
  display_name = lit "Tool";
  stability = lit "stable";
  enabled_by_default = false;
  adapter = record { id = id; version = lit "1" };
  identity_contract = record {
    executable_candidates = lit "tool" ∷ [];
    version_probe = none;
    binary_digest_required = true;
    allowed_binary_sha256 = [];
    python_distribution = none;
    supporting_tree_digest_required = false;
  };
  subject_kind = lit "git";
  invocation_contract = record {
    mode = lit "direct_exec";
    operation = lit "verify";
    parameters = parameters;
    required_capabilities = [];
    target_code_execution = lit "none";
    network = lit "none";
    filesystem_write = lit "none";
  };
  artifact_contracts = [];
  native_observation_contracts = [];
  exit_code_contract = record { entries = []; unknown_code_policy = lit "preserve_unrecognized" };
  authority_contract = record { mode = lit "not_reported" };
  limitations = [];
}

abbrev two_parameters : ToolManifest
two_parameters = manifest_of (lit "tool") (profile ∷ depth ∷ [])

abbrev resolved : List (Text × Text)
resolved = (lit "depth", lit "7") ∷ (lit "profile", lit "strict") ∷ []

resolved-run : validate_parameters two_parameters (lit "depth=7" ∷ []) ≡ ok resolved
unfolding lit same is_lower is_upper is_digit is_alphanumeric is_hexdigit strip_prefix starts_with
    ends_with contains_byte split split_once before all any contains place insert collect_set
    difference within_keys equal_sets get put put_all keys contains_key digits_value parse_i64 below
    validate_parameter contracts_by_name supply fill_one fill_defaults validate_parameters
    same_values validate_recorded_parameters
resolved-run = refl

out_of_range-run :
    validate_parameters two_parameters (lit "depth=10" ∷ []) ≡ err "is outside its permitted range"
unfolding lit same is_lower is_upper is_digit is_alphanumeric is_hexdigit strip_prefix starts_with
    ends_with contains_byte split split_once before all any contains place insert collect_set
    difference within_keys equal_sets get put put_all keys contains_key digits_value parse_i64 below
    validate_parameter contracts_by_name supply fill_one fill_defaults validate_parameters
    same_values validate_recorded_parameters
out_of_range-run = refl

missing-run : validate_parameters two_parameters [] ≡ err "missing required parameter"
unfolding lit same is_lower is_upper is_digit is_alphanumeric is_hexdigit strip_prefix starts_with
    ends_with contains_byte split split_once before all any contains place insert collect_set
    difference within_keys equal_sets get put put_all keys contains_key digits_value parse_i64 below
    validate_parameter contracts_by_name supply fill_one fill_defaults validate_parameters
    same_values validate_recorded_parameters
missing-run = refl

plain : All PlainContract (profile ∷ depth ∷ [])
unfolding lit same is_lower is_upper is_digit is_alphanumeric is_hexdigit strip_prefix starts_with
    ends_with contains_byte split split_once before all any contains place insert collect_set
    difference within_keys equal_sets get put put_all keys contains_key digits_value parse_i64 below
    validate_parameter contracts_by_name supply fill_one fill_defaults validate_parameters
    same_values validate_recorded_parameters
plain = (
  record { plain = refl; default_valid = λ value e. ground (arith, e) },
  (record { plain = refl; default_valid = λ value e. cc }, tt),
)

recorded-validate_parameters_example : validate_recorded_parameters two_parameters resolved ≡ ok tt
recorded-validate_parameters_example =
    recorded-validate_parameters two_parameters (lit "depth=7" ∷ []) resolved plain resolved-run

validate_parameters-Resolved_example :
    Resolved (contracts_by_name two_parameters) resolved
    × All (Settled (contracts_by_name two_parameters) resolved) (contracts_by_name two_parameters)
validate_parameters-Resolved_example =
    validate_parameters-Resolved two_parameters (lit "depth=7" ∷ []) resolved plain resolved-run

-- A reader for which the text is the identifier of a manifest without parameters.
abbrev toy_from_str : Text → Outcome ToolManifest
toy_from_str raw = ok (manifest_of raw [])

abbrev toy_digest : Text → Text
toy_digest raw = lit "digest-of-" ++ raw

abbrev embedded : List Text
embedded = lit "walk" ∷ lit "audit" ∷ []

abbrev entry_of : Text → TrustedManifest
entry_of raw = trusted toy_from_str toy_digest raw (manifest_of raw [])

load-run :
    load_embedded toy_from_str toy_digest embedded
    ≡ ok (entry_of (lit "audit") ∷ entry_of (lit "walk") ∷ [])
unfolding lit same is_lower is_upper is_digit is_alphanumeric is_hexdigit strip_prefix starts_with
    ends_with contains_byte split split_once before all any contains place insert collect_set
    difference within_keys equal_sets get put put_all keys contains_key space1 space2 space3
    strip_front trim_start trim_end trim trim_end_newlines validate_id contains_whitespace
    to_ascii_lowercase validate_allowed_digests validate_candidates validate_byte_policies
    validate_manifest place_manifest sort_manifests find_manifest load_each load_embedded
    get_manifest get_by_ref limitations_from limitation_items
load-run = refl

load_embedded-IsTrusted_example :
    All
      (IsTrusted toy_from_str toy_digest embedded)
      (entry_of (lit "audit") ∷ entry_of (lit "walk") ∷ [])
    × Ascending (entry_of (lit "audit") ∷ entry_of (lit "walk") ∷ [])
load_embedded-IsTrusted_example =
    load_embedded-IsTrusted toy_from_str toy_digest embedded
      (entry_of (lit "audit") ∷ entry_of (lit "walk") ∷ []) load-run

abbrev walk_ref : ToolRef
walk_ref = record { manifest_id = lit "walk"; manifest_sha256 = lit "digest-of-walk" }

walk_ref-run : get_by_ref toy_from_str toy_digest embedded walk_ref ≡ ok (entry_of (lit "walk"))
unfolding lit same is_lower is_upper is_digit is_alphanumeric is_hexdigit strip_prefix starts_with
    ends_with contains_byte split split_once before all any contains place insert collect_set
    difference within_keys equal_sets get put put_all keys contains_key space1 space2 space3
    strip_front trim_start trim_end trim trim_end_newlines validate_id contains_whitespace
    to_ascii_lowercase validate_allowed_digests validate_candidates validate_byte_policies
    validate_manifest place_manifest sort_manifests find_manifest load_each load_embedded
    get_manifest get_by_ref limitations_from limitation_items
walk_ref-run = refl

get_by_ref-IsTrusted_example :
    IsTrusted toy_from_str toy_digest embedded (entry_of (lit "walk"))
    × ((entry_of (lit "walk")).manifest.manifest_id ≡ lit "walk")
    × (walk_ref.manifest_sha256 ≡ toy_digest (lit "walk"))
get_by_ref-IsTrusted_example =
    get_by_ref-IsTrusted toy_from_str toy_digest embedded walk_ref (entry_of (lit "walk"))
      walk_ref-run
