-- ===== src/Tests/Callers.antt =====
-- A run of `validate` of src/caller_observations.rs.
use evidence_workbench.Workspace.Identifiers.{validate_storage_id, validate_storage_sha256}
use evidence_workbench.Text.Trim.{
  space1, space2, space3, strip_front, trim_start, trim_end, trim, trim_end_newlines,
}
use evidence_workbench.Collections.{
  contains, place, insert, collect_set, difference, within_keys, equal_sets, get, put, put_all,
  keys, contains_key,
}
use evidence_workbench.Prelude.{all, any, ◌≡◌, refl, true, false, [], ◌∷◌, ◌++◌, err}
use evidence_workbench.Text.{
  same, is_lower, is_upper, is_digit, is_alphanumeric, is_hexdigit, strip_prefix, starts_with,
  ends_with, contains_byte, split, split_once, contains_text, Text, lit,
}
use evidence_workbench.Contracts.Phaseledger.{PhaseledgerCallerObservation}
use evidence_workbench.Contracts.References.{no_effect}
use evidence_workbench.CallerObservations.{
  validate_checks, validate_observation_claim, validate_caller_observation,
}

abbrev artifact_id : Text
artifact_id = lit "artifact_0123456789abcdef0123456789abcdef"

abbrev sha : Text
sha = lit "0123456789abcdef0123456789abcdef0123456789abcdef0123456789abcdef"

abbrev observation_of : Text → PhaseledgerCallerObservation
observation_of name = record {
  schema_version = lit "phaseledger-caller-observation/v1";
  phase = lit "review";
  claim = artifact_id ++ lit " " ++ sha ++ lit " untrusted_exact_bytes, authority_effect none";
  artifact_present = true;
  artifact_sha256 = sha;
  cited_artifact = record {
    artifact_id = artifact_id;
    digest = record { algorithm = lit "sha256"; value = sha };
    byte_length = 5;
  };
  checks = record { name = name; passed = false } ∷ [];
  unsupported = record { freshness = lit "unsupported"; producer_run_scope = lit "unsupported" };
  authority_effect = no_effect;
}

copied_field :
    validate_caller_observation (observation_of (lit "passed"))
    ≡ err "Phaseledger caller observation must not copy Trust Meter field into checks"
unfolding lit same is_lower is_upper is_digit is_alphanumeric is_hexdigit strip_prefix starts_with
    ends_with contains_byte split split_once contains_text space1 space2 space3 strip_front
    trim_start trim_end trim trim_end_newlines all any contains place insert collect_set difference
    within_keys equal_sets get put put_all keys contains_key validate_storage_id
    validate_storage_sha256 validate_checks validate_observation_claim validate_caller_observation
copied_field = refl
