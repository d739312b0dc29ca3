-- ===== src/Contracts/Handoff.antt =====
-- src/contracts.rs: the evidence handoff and the IDE handoff.
use evidence_workbench.Prelude.{List}
use evidence_workbench.Text.{Text}
use evidence_workbench.Contracts.References.{
  PlanRecordRef, RunRecordRef, ArtifactRecordRef, ContractAuthorityEffect,
}

pub data EvidenceHandoffRelationship : Type 0 where
  captured_run_artifact : EvidenceHandoffRelationship

pub data EvidenceConsumerTreatment : Type 0 where
  untrusted_exact_bytes : EvidenceConsumerTreatment

pub record EvidenceHandoff : Type 0 where
  pub schema_version : Text
  pub handoff_id : Text
  pub created_at : Text
  pub producer_plan_ref : PlanRecordRef
  pub producer_run_ref : RunRecordRef
  pub artifact_ref : ArtifactRecordRef
  pub relationship : EvidenceHandoffRelationship
  pub consumer_treatment : EvidenceConsumerTreatment
  pub authority_effect : ContractAuthorityEffect

pub record EvidenceHandoffRecord : Type 0 where
  pub schema_version : Text
  pub record_digest : Text
  pub handoff : EvidenceHandoff

pub record RunNativeNamespaces : Type 0 where
  pub run_id : Text
  pub namespaces : List Text

pub data NativeAuthorityAvailability : Type 0 where
  reported not_reported : NativeAuthorityAvailability

pub record RunNativeAuthorityAvailability : Type 0 where
  pub run_id : Text
  pub availability : NativeAuthorityAvailability

pub record IdeHandoff : Type 0 where
  pub schema_version : Text
  pub handoff_id : Text
  pub created_at : Text
  pub plan_refs : List PlanRecordRef
  pub run_refs : List RunRecordRef
  pub artifact_refs : List ArtifactRecordRef
  pub native_namespaces : List RunNativeNamespaces
  pub native_authority_availability : List RunNativeAuthorityAvailability
  pub authority_effect : ContractAuthorityEffect
