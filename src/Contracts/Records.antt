-- ===== src/Contracts/Records.antt =====
-- src/contracts.rs: the records of a run and of a plan, and what they refer to.
use evidence_workbench.Prelude.{ℕ, Option, List}
use evidence_workbench.Text.{Text}
use evidence_workbench.Contracts.References.{PlanRecordRef}
use evidence_workbench.Contracts.Run.{
  ArtifactDescriptor, Invocation, Termination, NativeResult, NativeAuthority, Limitations, ToolRef,
}

pub record Revision : Type 0 where
  pub role : Text
  pub algorithm : Text
  pub value : Text

pub record GitPlanToolIdentity : Type 0 where
  pub source_path : Text
  pub source_sha256 : Text
  pub source_size_bytes : ℕ
  pub snapshot_artifact_id : Text
  pub staged_path : Text
  pub use_scope : Text
  pub runtime_closure : Text

pub record SubjectSnapshot : Type 0 where
  pub artifact_id : Text
  pub sha256 : Text
  pub byte_length : ℕ
  pub execution_path : Text
  pub tree_artifact_id : Option Text
  pub tree_sha256 : Option Text
  pub tree_byte_length : Option ℕ
  pub tree_file_count : Option ℕ
  pub git_plan_tool : Option GitPlanToolIdentity

pub data Subject : Type 0 where
  git :
      (repository original_root : Text) (revisions : List Revision) (worktree_state : Text)
      (snapshot : Option SubjectSnapshot)
      → Subject
  artifact :
      (sha256 : Text) (byte_length : ℕ) (media_type : Text) (source_run_id : Option Text)
      (source_artifact_id : Text) (snapshot : SubjectSnapshot)
      → Subject
  self_foundation : (tool_manifest_id : Text) → Subject

pub record UpstreamPinRef : Type 0 where
  pub tool_manifest_id : Text
  pub pin_sha256 : Text

pub record NativeQualificationRef : Type 0 where
  pub qualification_id : Text
  pub record_digest : Text

pub record PythonAdmissionRef : Type 0 where
  pub admission_id : Text
  pub record_digest : Text

pub record BinaryIdentity : Type 0 where
  pub path : Text
  pub sha256 : Text
  pub size_bytes : ℕ
  pub supporting_files_sha256 : Option Text
  pub supporting_file_count : ℕ
  pub reported_version : Option Text
  pub source_path : Text
  pub snapshot_artifact_id : Text

pub record RecorderIdentity : Type 0 where
  pub version : Text
  pub executable_sha256 : Text

pub record AdapterIdentity : Type 0 where
  pub id : Text
  pub version : Text
  pub implementation_sha256 : Text

pub record InstrumentRun : Type 0 where
  pub schema_version : Text
  pub run_id : Text
  pub source_plan_ref : PlanRecordRef
  pub tool_ref : ToolRef
  pub upstream_pin_ref : UpstreamPinRef
  pub native_qualification_ref : Option NativeQualificationRef
  pub python_admission_ref : Option PythonAdmissionRef
  pub resolved_tool_identity : BinaryIdentity
  pub recorder_identity : RecorderIdentity
  pub adapter : AdapterIdentity
  pub subject : Subject
  pub parameters : List (Text × Text)
  pub invocation : Invocation
  pub started_at : Text
  pub finished_at : Text
  pub termination : Termination
  pub artifacts : List ArtifactDescriptor
  pub native_result : NativeResult
  pub native_authority : NativeAuthority
  pub limitations : Limitations

pub record RunRecord : Type 0 where
  pub schema_version : Text
  pub record_digest : Text
  pub run : InstrumentRun

pub record PlanPayload : Type 0 where
  pub tool_ref : ToolRef
  pub upstream_pin_ref : UpstreamPinRef
  pub native_qualification_ref : Option NativeQualificationRef
  pub python_admission_ref : Option PythonAdmissionRef
  pub resolved_tool_identity : BinaryIdentity
  pub recorder_identity : RecorderIdentity
  pub adapter : AdapterIdentity
  pub subject : Subject
  pub invocation : Invocation
  pub parameters : List (Text × Text)
  pub created_at : Text

pub record PlanRecord : Type 0 where
  pub schema_version : Text
  pub plan_id : Text
  pub record_digest : Text
  pub payload : PlanPayload
