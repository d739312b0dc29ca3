-- ===== src/Tests/Evidence.antt =====
-- Runs of `create` and `verify` (src/evidence_handoffs.rs) and of the check of a descriptor
-- (src/run_validation.rs).
use evidence_workbench.Text.Trim.{
  space1, space2, space3, strip_front, trim_start, trim_end, trim, trim_end_newlines,
}
use evidence_workbench.RunValidation.Descriptors.{
  validate_lower_hex, validate_nonempty, valid_identifier, validate_roles, validate_origin,
  validate_artifact_descriptor,
}
use evidence_workbench.Workspace.Identifiers.{validate_storage_id, validate_storage_sha256}
use evidence_workbench.Validation.Handoffs.{
  collect_unique, unique_namespaces, validate_timestamp, validate_ide_handoff,
  validate_evidence_handoff,
}
use evidence_workbench.Validation.Fields.{
  is_lower_hex, validate_prefixed_id, validate_sha256, validate_plan_record_ref,
  validate_run_record_ref, validate_artifact_id, validate_identifier,
}
use evidence_workbench.Text.Order.{before}
use evidence_workbench.Handoffs.Descriptor.{same_texts, same_values, same_descriptor}
use evidence_workbench.Prelude.{
  subst, all, any, ◌≡◌, refl, false, String, [], ◌∷◌, ◌++◌, none, Outcome, ok, err, ltb, length,
}
use evidence_workbench.Text.{
  same, is_lower, is_upper, is_digit, is_alphanumeric, is_hexdigit, strip_prefix, starts_with,
  ends_with, contains_byte, split, split_once, Text, lit,
}
use evidence_workbench.Collections.{
  contains, place, insert, collect_set, difference, within_keys, equal_sets, put, put_all, keys,
  get, contains_key,
}
use evidence_workbench.Contracts.References.{same_plan_ref, PlanRecordRef}
use evidence_workbench.Contracts.Run.{
  ArtifactDescriptor, ArtifactRecord, exited, not_reported, authority_not_reported,
  limits_not_reported,
}
use evidence_workbench.Contracts.Records.{self_foundation, InstrumentRun, RunRecord, PlanRecord}
use evidence_workbench.Contracts.Handoff.{EvidenceHandoffRecord}
use evidence_workbench.Validation.Fields.Laws.{IsSha256}
use evidence_workbench.Handoffs.{
  captured_as, verify_run_artifact, verify_record_lineage, check_record, write_evidence_handoff,
  load_evidence_handoff, load_verified, verify, create, Records, HandoffFiles, handoff_of,
}
use evidence_workbench.Handoffs.Lineage.{ok-injective, verify-create}
use evidence_workbench.RunValidation.Descriptors.Accepts.{
  IsArtifactDescriptor, validate_artifact_descriptor_iff,
}
use evidence_workbench.Handoffs.Traced.{IsTraced, verify-IsTraced}

abbrev id_of : String → Text
id_of start = lit start ++ lit "0123456789abcdef0123456789abcdef"

abbrev digest_text : Text
digest_text = lit "0123456789abcdef0123456789abcdef0123456789abcdef0123456789abcdef"

abbrev plan_ref : PlanRecordRef
plan_ref = record { plan_id = id_of "plan_"; record_digest = digest_text }

abbrev stdout : ArtifactDescriptor
stdout = record {
  artifact_id = id_of "artifact_";
  roles = lit "native_stdout" ∷ [];
  media_type = lit "text/plain";
  byte_length = 5;
  digest = record { algorithm = lit "sha256"; value = digest_text };
  storage = record { uri = lit "ewb:sha256:" ++ digest_text };
  origin = lit "process_stdout";
  capture = record { mode = lit "raw_stream_capture" };
  transforms = [];
}

abbrev run : InstrumentRun
run = record {
  schema_version = lit "instrument_run/v1";
  run_id = id_of "run_";
  source_plan_ref = plan_ref;
  tool_ref = record { manifest_id = lit "tool"; manifest_sha256 = digest_text };
  upstream_pin_ref = record { tool_manifest_id = lit "tool"; pin_sha256 = digest_text };
  native_qualification_ref = none;
  python_admission_ref = none;
  resolved_tool_identity = record {
    path = lit "tool";
    sha256 = digest_text;
    size_bytes = 1;
    supporting_files_sha256 = none;
    supporting_file_count = 0;
    reported_version = none;
    source_path = lit "tool";
    snapshot_artifact_id = id_of "artifact_";
  };
  recorder_identity = record { version = lit "1"; executable_sha256 = digest_text };
  adapter = record { id = lit "tool"; version = lit "1"; implementation_sha256 = digest_text };
  subject = self_foundation (lit "tool");
  parameters = [];
  invocation = record {
    mode = lit "direct_exec";
    argv = [];
    cwd = [];
    timeout_ms = 1000;
    required_capabilities = [];
  };
  started_at = lit "2025-01-01T00:00:00Z";
  finished_at = lit "2025-01-01T00:00:01Z";
  termination = exited 0;
  artifacts = stdout ∷ [];
  native_result = not_reported (lit "native_result_absent") [];
  native_authority = authority_not_reported (lit "none") [];
  limitations = limits_not_reported [];
}

abbrev run_record : RunRecord
run_record = record { schema_version = lit "run_record/v1"; record_digest = digest_text; run = run }

abbrev plan_record : PlanRecord
plan_record = record {
  schema_version = lit "plan_record/v1";
  plan_id = plan_ref.plan_id;
  record_digest = plan_ref.record_digest;
  payload = record {
    tool_ref = run.tool_ref;
    upstream_pin_ref = run.upstream_pin_ref;
    native_qualification_ref = none;
    python_admission_ref = none;
    resolved_tool_identity = run.resolved_tool_identity;
    recorder_identity = run.recorder_identity;
    adapter = run.adapter;
    subject = run.subject;
    invocation = run.invocation;
    parameters = [];
    created_at = lit "2025-01-01T00:00:00Z";
  };
}

abbrev artifact_record : ArtifactRecord
artifact_record = record {
  schema_version = lit "artifact_record/v1";
  record_digest = digest_text;
  artifact = stdout;
}

-- Directories with one run, one plan and one artifact, and a digest that is always the same.
abbrev one_run : Records
one_run = record {
  load_run = λ id. ok run_record;
  load_plan_verified = λ id. ok plan_record;
  load_artifact = λ id. ok artifact_record;
  digest_serialized = λ h. ok digest_text;
  is_timestamp = λ value. ltb 19 (length value);
}

abbrev written : EvidenceHandoffRecord
written = record {
  schema_version = lit "evidence_handoff_record/v1";
  record_digest = digest_text;
  handoff =
      handoff_of one_run (id_of "handoff_") (lit "2025-01-01T00:00:02Z") run_record artifact_record;
}

abbrev after : HandoffFiles
after = (id_of "handoff_", written) ∷ []

create-run :
    create one_run []
      (id_of "handoff_")
      (lit "2025-01-01T00:00:02Z")
      (id_of "run_")
      digest_text
      (id_of "artifact_")
    ≡ ok (after, written)
unfolding lit same is_lower is_upper is_digit is_alphanumeric is_hexdigit strip_prefix starts_with
    ends_with contains_byte split split_once before all any contains place insert collect_set
    difference within_keys equal_sets get put put_all keys contains_key is_lower_hex
    validate_prefixed_id validate_sha256 validate_plan_record_ref validate_run_record_ref
    validate_artifact_id validate_identifier collect_unique unique_namespaces validate_timestamp
    validate_ide_handoff validate_evidence_handoff captured_as verify_run_artifact
    verify_record_lineage check_record write_evidence_handoff load_evidence_handoff load_verified
    verify create same_texts same_values same_descriptor validate_storage_id validate_storage_sha256
    same_plan_ref
create-run = refl

create_twice-run :
    create one_run after
      (id_of "handoff_")
      (lit "2025-01-01T00:00:02Z")
      (id_of "run_")
      digest_text
      (id_of "artifact_")
    ≡ err "cannot atomically create record"
unfolding lit same is_lower is_upper is_digit is_alphanumeric is_hexdigit strip_prefix starts_with
    ends_with contains_byte split split_once before all any contains place insert collect_set
    difference within_keys equal_sets get put put_all keys contains_key is_lower_hex
    validate_prefixed_id validate_sha256 validate_plan_record_ref validate_run_record_ref
    validate_artifact_id validate_identifier collect_unique unique_namespaces validate_timestamp
    validate_ide_handoff validate_evidence_handoff captured_as verify_run_artifact
    verify_record_lineage check_record write_evidence_handoff load_evidence_handoff load_verified
    verify create same_texts same_values same_descriptor validate_storage_id validate_storage_sha256
    same_plan_ref
create_twice-run = refl

verify-run : verify one_run after (id_of "handoff_") digest_text ≡ ok written
unfolding lit same is_lower is_upper is_digit is_alphanumeric is_hexdigit strip_prefix starts_with
    ends_with contains_byte split split_once before all any contains place insert collect_set
    difference within_keys equal_sets get put put_all keys contains_key is_lower_hex
    validate_prefixed_id validate_sha256 validate_plan_record_ref validate_run_record_ref
    validate_artifact_id validate_identifier collect_unique unique_namespaces validate_timestamp
    validate_ide_handoff validate_evidence_handoff captured_as verify_run_artifact
    verify_record_lineage check_record write_evidence_handoff load_evidence_handoff load_verified
    verify create same_texts same_values same_descriptor validate_storage_id validate_storage_sha256
    same_plan_ref
verify-run = refl

digest_text-IsSha256 : (d : Text) → ◌≡◌ {A = Outcome Text} (ok digest_text) (ok d) → IsSha256 d
unfolding lit same is_lower is_upper is_digit is_alphanumeric is_hexdigit strip_prefix starts_with
    ends_with contains_byte split split_once before all any contains place insert collect_set
    difference within_keys equal_sets get put put_all keys contains_key is_lower_hex
    validate_prefixed_id validate_sha256 validate_plan_record_ref validate_run_record_ref
    validate_artifact_id validate_identifier collect_unique unique_namespaces validate_timestamp
    validate_ide_handoff validate_evidence_handoff captured_as verify_run_artifact
    verify_record_lineage check_record write_evidence_handoff load_evidence_handoff load_verified
    verify create same_texts same_values same_descriptor validate_storage_id validate_storage_sha256
    same_plan_ref
digest_text-IsSha256 d h = subst IsSha256 (ok-injective digest_text d h) (refl, refl)

verify-create_example :
    (verify one_run after written.handoff.handoff_id written.record_digest ≡ ok written)
    × (contains_key {V = EvidenceHandoffRecord} (id_of "handoff_") [] ≡ false)
    × ((k : Text)
        → same k (id_of "handoff_") ≡ false
        → get k after ≡ get {V = EvidenceHandoffRecord} k [])
verify-create_example =
    verify-create one_run [] after (id_of "handoff_") (lit "2025-01-01T00:00:02Z") (id_of "run_")
      digest_text (id_of "artifact_") written (λ h d e. digest_text-IsSha256 d e) create-run

verify-IsTraced_example : (written.record_digest ≡ digest_text) × IsTraced one_run written.handoff
verify-IsTraced_example =
    verify-IsTraced one_run after (id_of "handoff_") digest_text written verify-run

stdout-run : validate_artifact_descriptor stdout ≡ ok tt
unfolding lit same is_lower is_upper is_digit is_alphanumeric is_hexdigit strip_prefix starts_with
    ends_with contains_byte split split_once before all any contains place insert collect_set
    difference within_keys equal_sets get put put_all keys contains_key space1 space2 space3
    strip_front trim_start trim_end trim trim_end_newlines validate_lower_hex
    evidence_workbench.RunValidation.Descriptors.validate_sha256 validate_nonempty valid_identifier
    validate_roles validate_origin validate_artifact_descriptor validate_storage_id
    validate_storage_sha256
stdout-run = refl

validate_artifact_descriptor_iff_example : IsArtifactDescriptor stdout
validate_artifact_descriptor_iff_example = (validate_artifact_descriptor_iff stdout).0 stdout-run
