-- ===== src/Tests/Handoffs.antt =====
-- Runs of the checks of the handoffs (src/data_contract_validation.rs).
use evidence_workbench.Validation.Handoffs.{
  collect_unique, unique_namespaces, validate_timestamp, validate_ide_handoff,
  validate_evidence_handoff,
}
use evidence_workbench.Validation.Fields.{
  is_lower_hex, validate_prefixed_id, validate_sha256, validate_plan_record_ref,
  validate_run_record_ref, validate_artifact_id, validate_identifier,
}
use evidence_workbench.Text.Order.{before}
use evidence_workbench.Collections.{
  contains, place, insert, collect_set, difference, within_keys, equal_sets, get, put, put_all,
  keys, contains_key,
}
use evidence_workbench.Prelude.{
  all, any, ◌≡◌, refl, Bool, String, List, [], ◌∷◌, ◌++◌, ok, err, ltb, length,
}
use evidence_workbench.Text.{
  same, is_lower, is_upper, is_digit, is_alphanumeric, is_hexdigit, strip_prefix, starts_with,
  ends_with, contains_byte, split, split_once, Text, lit,
}
use evidence_workbench.Contracts.References.{no_effect}
use evidence_workbench.Contracts.Handoff.{IdeHandoff, RunNativeNamespaces, not_reported}
use evidence_workbench.Validation.Handoffs.Accepts.{IsIdeHandoff}
use evidence_workbench.Validation.Handoffs.Exact.{validate_ide_handoff_iff}

abbrev id_of : String → String → Text
id_of start last = lit start ++ lit "0123456789abcdef0123456789abcde" ++ lit last

abbrev digest_text : Text
digest_text = lit "0123456789abcdef0123456789abcdef0123456789abcdef0123456789abcdef"

-- A reader of times that looks at the length alone.
abbrev toy_timestamp : Text → Bool
toy_timestamp value = ltb 19 (length value)

abbrev handoff_of : List RunNativeNamespaces → IdeHandoff
handoff_of namespaces = record {
  schema_version = lit "ide-handoff/v1";
  handoff_id = id_of "handoff_" "1";
  created_at = lit "2025-01-01T00:00:00Z";
  plan_refs = record { plan_id = id_of "plan_" "1"; record_digest = digest_text } ∷ [];
  run_refs =
      record { run_id = id_of "run_" "2"; record_digest = digest_text }
      ∷ record { run_id = id_of "run_" "1"; record_digest = digest_text }
      ∷ [];
  artifact_refs = [];
  native_namespaces = namespaces;
  native_authority_availability =
      record { run_id = id_of "run_" "1"; availability = not_reported }
      ∷ record { run_id = id_of "run_" "2"; availability = not_reported }
      ∷ [];
  authority_effect = no_effect;
}

abbrev two_runs : IdeHandoff
two_runs = handoff_of (
    record { run_id = id_of "run_" "1"; namespaces = lit "tool" ∷ lit "other_tool" ∷ [] }
    ∷ record { run_id = id_of "run_" "2"; namespaces = [] }
    ∷ [])

two_runs-run : validate_ide_handoff toy_timestamp two_runs ≡ ok tt
unfolding lit same is_lower is_upper is_digit is_alphanumeric is_hexdigit strip_prefix starts_with
    ends_with contains_byte split split_once before all any contains place insert collect_set
    difference within_keys equal_sets get put put_all keys contains_key is_lower_hex
    validate_prefixed_id validate_sha256 validate_plan_record_ref validate_run_record_ref
    validate_artifact_id validate_identifier collect_unique unique_namespaces validate_timestamp
    validate_ide_handoff validate_evidence_handoff
two_runs-run = refl

missing_map-run :
    validate_ide_handoff toy_timestamp (handoff_of [])
    ≡ err "native namespace and authority availability maps must match exact run refs"
unfolding lit same is_lower is_upper is_digit is_alphanumeric is_hexdigit strip_prefix starts_with
    ends_with contains_byte split split_once before all any contains place insert collect_set
    difference within_keys equal_sets get put put_all keys contains_key is_lower_hex
    validate_prefixed_id validate_sha256 validate_plan_record_ref validate_run_record_ref
    validate_artifact_id validate_identifier collect_unique unique_namespaces validate_timestamp
    validate_ide_handoff validate_evidence_handoff
missing_map-run = refl

validate_ide_handoff_iff_example : IsIdeHandoff toy_timestamp two_runs
validate_ide_handoff_iff_example = (validate_ide_handoff_iff toy_timestamp two_runs).0 two_runs-run
