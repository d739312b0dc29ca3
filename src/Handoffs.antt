-- ===== src/Handoffs.antt =====
-- src/evidence_handoffs.rs: `create`, `load_verified` and `verify`, with the two functions of
-- src/workspace.rs that write and load a handoff. The state is the directory of the handoffs: under
-- each identifier the record that its file holds. Runs, plans and artifacts are read through
-- `Records`, which also has the digest of a handoff (serde_json and sha2) and chrono's parser.
pub mod Descriptor
pub mod Lineage
pub mod Traced
use evidence_workbench.Prelude.{
  ◌≡◌, ℕ, Bool, true, false, not, ◌&&◌, ◌||◌, List, [], ◌∷◌, Option, none, some, Outcome, Checked,
  ok, err, ◌>>=◌, ◌>>◌, ensure, ok_or, if◌then◌else◌,
}
use evidence_workbench.Text.{Text, lit, same}
use evidence_workbench.Collections.{get, put, contains_key}
use evidence_workbench.Contracts.References.{no_effect, same_plan_ref}
use evidence_workbench.Contracts.Run.{ArtifactDescriptor, ArtifactRecord}
use evidence_workbench.Contracts.Records.{RunRecord, PlanRecord}
use evidence_workbench.Contracts.Handoff.{
  EvidenceHandoff, EvidenceHandoffRecord, captured_run_artifact, untrusted_exact_bytes,
}
use evidence_workbench.Validation.Handoffs.{validate_evidence_handoff}
use evidence_workbench.Workspace.Identifiers.{validate_storage_id, validate_storage_sha256}
use evidence_workbench.Handoffs.Descriptor.{same_descriptor}

pub record Records : Type 0 where
  pub load_run : Text → Outcome RunRecord
  pub load_plan_verified : Text → Outcome PlanRecord
  pub load_artifact : Text → Outcome ArtifactRecord
  pub digest_serialized : EvidenceHandoff → Outcome Text
  pub is_timestamp : Text → Bool

-- The directory of the handoffs.
abbrev pub HandoffFiles : Type 0
HandoffFiles = List (Text × EvidenceHandoffRecord)

-- The artifacts of the run under one identifier.
unfoldable pub captured_as : Text → List ArtifactDescriptor → List ArtifactDescriptor
captured_as artifact_id [] = []
captured_as artifact_id (d ∷ rest) =
    let later = captured_as artifact_id rest in
    if same d.artifact_id artifact_id then d ∷ later else later

abbrev pub only_captured : List ArtifactDescriptor → Outcome ArtifactDescriptor
only_captured [] = err "artifact is not captured by the producer run"
only_captured (d ∷ []) = ok d
only_captured (d ∷ _ ∷ _) = err "artifact must appear exactly once in the producer run"

module _ (records : Records) where
  unfoldable pub verify_run_artifact : RunRecord → Text → Outcome ArtifactRecord
  unfolding captured_as
  verify_run_artifact run artifact_id = do
    artifact ← records.load_artifact artifact_id
    captured ← only_captured (captured_as artifact_id run.run.artifacts)
    ensure (same_descriptor captured artifact.artifact)
        "producer run artifact descriptor does not match the artifact record"
    ok artifact

  unfoldable pub verify_record_lineage : EvidenceHandoffRecord → Checked
  verify_record_lineage record' = do
    validate_evidence_handoff records.is_timestamp record'.handoff
    run ← records.load_run record'.handoff.producer_run_ref.run_id
    ensure (same run.record_digest record'.handoff.producer_run_ref.record_digest)
        "producer run record digest does not match the evidence handoff"
    ensure (same_plan_ref run.run.source_plan_ref record'.handoff.producer_plan_ref)
        "producer run source plan does not match the evidence handoff"
    plan ← records.load_plan_verified record'.handoff.producer_plan_ref.plan_id
    ensure
        (same_plan_ref (record { plan_id = plan.plan_id; record_digest = plan.record_digest })
          record'.handoff.producer_plan_ref)
        "producer plan record does not match the evidence handoff"
    artifact ← verify_run_artifact run record'.handoff.artifact_ref.artifact_id
    ensure (same artifact.record_digest record'.handoff.artifact_ref.record_digest)
        "artifact record digest does not match the evidence handoff"

  -- `digest_serialized(&record.handoff)? != record.record_digest`, behind the test of the schema.
  unfoldable pub check_record : EvidenceHandoffRecord → Bool → Checked
  check_record record' identified = do
    ensure (same record'.schema_version (lit "evidence_handoff_record/v1") && identified)
        "evidence handoff record identity or digest mismatch"
    digest ← records.digest_serialized record'.handoff
    ensure (same digest record'.record_digest) "evidence handoff record identity or digest mismatch"

  -- `write_json_atomic` creates the file or fails: it never replaces one.
  unfoldable pub write_evidence_handoff :
      HandoffFiles → EvidenceHandoffRecord → Outcome HandoffFiles
  unfolding check_record
  write_evidence_handoff files record' = do
    validate_storage_id record'.handoff.handoff_id (lit "handoff_")
    check_record record' true
    validate_evidence_handoff records.is_timestamp record'.handoff
    ensure (not (contains_key record'.handoff.handoff_id files)) "cannot atomically create record"
    ok (put record'.handoff.handoff_id record' files)

  unfoldable pub load_evidence_handoff : HandoffFiles → Text → Outcome EvidenceHandoffRecord
  unfolding check_record
  load_evidence_handoff files handoff_id = do
    validate_storage_id handoff_id (lit "handoff_")
    record' ← ok_or (get handoff_id files) "no such record"
    check_record record' (same record'.handoff.handoff_id handoff_id)
    ok record'

  unfoldable pub load_verified : HandoffFiles → Text → Outcome EvidenceHandoffRecord
  load_verified files handoff_id = do
    record' ← load_evidence_handoff files handoff_id
    verify_record_lineage record'
    ok record'

  unfoldable pub verify : HandoffFiles → Text → Text → Outcome EvidenceHandoffRecord
  verify files handoff_id handoff_digest = do
    validate_storage_sha256 handoff_digest
    record' ← load_evidence_handoff files handoff_id
    ensure (same record'.record_digest handoff_digest)
        "handoff digest does not match the retained handoff record"
    verify_record_lineage record'
    ok record'

  abbrev pub handoff_of : Text → Text → RunRecord → ArtifactRecord → EvidenceHandoff
  handoff_of new_handoff_id now run artifact = record {
    schema_version = lit "evidence-handoff/v1";
    handoff_id = new_handoff_id;
    created_at = now;
    producer_plan_ref = run.run.source_plan_ref;
    producer_run_ref = record { run_id = run.run.run_id; record_digest = run.record_digest };
    artifact_ref = record {
      artifact_id = artifact.artifact.artifact_id;
      record_digest = artifact.record_digest;
    };
    relationship = captured_run_artifact;
    consumer_treatment = untrusted_exact_bytes;
    authority_effect = no_effect;
  }

  -- `create`, at the new identifier and the present time; it leaves the directory.
  unfoldable pub create :
      HandoffFiles
      → Text
      → Text
      → Text
      → Text
      → Text
      → Outcome (HandoffFiles × EvidenceHandoffRecord)
  create files new_handoff_id now source_run_id source_run_digest artifact_id = do
    validate_storage_sha256 source_run_digest
    run ← records.load_run source_run_id
    ensure (same run.record_digest source_run_digest)
        "source run digest does not match the retained producer run record"
    artifact ← verify_run_artifact run artifact_id
    digest ← records.digest_serialized (handoff_of new_handoff_id now run artifact)
    verify_record_lineage (record {
      schema_version = lit "evidence_handoff_record/v1";
      record_digest = digest;
      handoff = handoff_of new_handoff_id now run artifact;
    })
    files' ← write_evidence_handoff files (record {
      schema_version = lit "evidence_handoff_record/v1";
      record_digest = digest;
      handoff = handoff_of new_handoff_id now run artifact;
    })
    record' ← load_verified files' new_handoff_id
    ok (files', record')
