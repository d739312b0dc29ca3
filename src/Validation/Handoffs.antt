-- ===== src/Validation/Handoffs.antt =====
-- src/data_contract_validation.rs: `validate_ide_handoff` and `validate_evidence_handoff`. Reading
-- a time is chrono's: `is_timestamp` says whether its parser accepts a text.
pub mod Accepts
pub mod Exact
use Prim.Native.String.{◌++◌ as concat}
use evidence_workbench.Prelude.{
  ◌≡◌, Bool, true, false, not, ◌&&◌, ◌||◌, List, [], ◌∷◌, Outcome, Checked, ok, ◌>>=◌, ◌>>◌, ensure,
  String,
}
use evidence_workbench.Text.{Text, lit, same}
use evidence_workbench.Collections.{contains, insert, equal_sets}
use evidence_workbench.Contracts.References.{PlanRecordRef, RunRecordRef, ArtifactRecordRef}
use evidence_workbench.Contracts.Handoff.{
  EvidenceHandoff, IdeHandoff, RunNativeNamespaces, RunNativeAuthorityAvailability,
}
use evidence_workbench.Validation.Fields.{
  validate_prefixed_id, validate_sha256, validate_artifact_id, validate_identifier,
}

abbrev pub is_nil {ℓ} : {A : Type ℓ} → List A → Bool
is_nil [] = true
is_nil (_ ∷ _) = false

-- A loop that checks each entry, inserts its key into a set, refuses a key that is there, and then
-- checks the rest of the entry. It leaves the set.
module _ {A : Type 0} (key : A → Text) (first then' : A → Checked) (repeated : String) where
  unfoldable pub collect_unique : List A → List Text → Outcome (List Text)
  collect_unique [] seen = ok seen
  collect_unique (x ∷ rest) seen = do
    first x
    ensure (not (contains (key x) seen)) repeated
    then' x
    collect_unique rest (insert (key x) seen)

abbrev pub nothing {ℓ} : {A : Type ℓ} → A → Checked
nothing x = ok tt

abbrev pub plan_key : PlanRecordRef → Text
plan_key r = r.plan_id

abbrev pub check_plan : PlanRecordRef → Checked
check_plan r = do
  validate_prefixed_id r.plan_id (lit "plan_") "plan id"
  validate_sha256 r.record_digest "plan record"

abbrev pub run_key : RunRecordRef → Text
run_key r = r.run_id

abbrev pub check_run : RunRecordRef → Checked
check_run r = do
  validate_prefixed_id r.run_id (lit "run_") "run id"
  validate_sha256 r.record_digest "run record"

abbrev pub artifact_key : ArtifactRecordRef → Text
artifact_key r = r.artifact_id

abbrev pub check_artifact : ArtifactRecordRef → Checked
check_artifact r = do
  validate_artifact_id r.artifact_id
  validate_sha256 r.record_digest "artifact record"

abbrev pub namespaces_key : RunNativeNamespaces → Text
namespaces_key entry = entry.run_id

abbrev pub check_namespaces_run : RunNativeNamespaces → Checked
check_namespaces_run entry =
    validate_prefixed_id entry.run_id (lit "run_") "native namespace run id"

abbrev pub itself : Text → Text
itself namespace = namespace

abbrev pub check_namespace : Text → Checked
check_namespace namespace = validate_identifier namespace 64 "native namespace"

unfoldable pub unique_namespaces : List Text → Outcome (List Text)
unfolding collect_unique
unique_namespaces names =
    collect_unique itself check_namespace nothing "native namespaces must be unique within a run"
      names []

abbrev pub check_namespaces : RunNativeNamespaces → Checked
check_namespaces entry = unique_namespaces entry.namespaces >>= λ seen. ok tt

abbrev pub authority_key : RunNativeAuthorityAvailability → Text
authority_key entry = entry.run_id

abbrev pub check_authority : RunNativeAuthorityAvailability → Checked
check_authority entry = validate_prefixed_id entry.run_id (lit "run_") "native authority run id"

module _ (is_timestamp : Text → Bool) where
  unfoldable pub validate_timestamp : Text → String → Checked
  validate_timestamp value label = ensure (is_timestamp value) (concat label " is not RFC 3339")

  unfoldable pub validate_ide_handoff : IdeHandoff → Checked
  unfolding validate_timestamp
  validate_ide_handoff handoff = do
    ensure (same handoff.schema_version (lit "ide-handoff/v1")) "unsupported IDE handoff schema"
    validate_prefixed_id handoff.handoff_id (lit "handoff_") "handoff id"
    validate_timestamp handoff.created_at "IDE handoff creation time"
    ensure
        (not (is_nil handoff.plan_refs && is_nil handoff.run_refs && is_nil handoff.artifact_refs))
        "IDE handoff must reference at least one EWB record"
    plan_ids ←
        collect_unique plan_key check_plan nothing "IDE handoff plan ids must be unique"
          handoff.plan_refs []
    run_ids ←
        collect_unique run_key check_run nothing "IDE handoff run ids must be unique"
          handoff.run_refs []
    artifact_ids ←
        collect_unique artifact_key check_artifact nothing "IDE handoff artifact ids must be unique"
          handoff.artifact_refs []
    namespace_run_ids ←
        collect_unique namespaces_key check_namespaces_run check_namespaces
          "IDE handoff may provide one native namespace map per run" handoff.native_namespaces []
    authority_run_ids ←
        collect_unique authority_key check_authority nothing
          "IDE handoff may provide one authority availability per run"
          handoff.native_authority_availability []
    ensure
        (not (
          not (equal_sets namespace_run_ids run_ids) || not (equal_sets authority_run_ids run_ids)))
        "native namespace and authority availability maps must match exact run refs"

  unfoldable pub validate_evidence_handoff : EvidenceHandoff → Checked
  validate_evidence_handoff handoff = do
    ensure (same handoff.schema_version (lit "evidence-handoff/v1"))
        "unsupported evidence handoff schema"
    validate_prefixed_id handoff.handoff_id (lit "handoff_") "handoff id"
    validate_timestamp handoff.created_at "evidence handoff creation time"
    validate_prefixed_id handoff.producer_plan_ref.plan_id (lit "plan_") "producer plan id"
    validate_sha256 handoff.producer_plan_ref.record_digest "producer plan record"
    validate_prefixed_id handoff.producer_run_ref.run_id (lit "run_") "producer run id"
    validate_sha256 handoff.producer_run_ref.record_digest "producer run record"
    validate_artifact_id handoff.artifact_ref.artifact_id
    validate_sha256 handoff.artifact_ref.record_digest "artifact record"
