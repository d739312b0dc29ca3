-- ===== src/Contracts/Audit.antt =====
-- src/contracts.rs: the audit topology and the audit receipt.
use evidence_workbench.Prelude.{List}
use evidence_workbench.Text.{Text}
use evidence_workbench.Contracts.References.{PlanRecordRef, RunRecordRef, ContractAuthorityEffect}

pub record AuditTopologyStep : Type 0 where
  pub step_id : Text
  pub plan_ref : PlanRecordRef
  pub predecessor_step_ids : List Text

pub record AuditTopology : Type 0 where
  pub schema_version : Text
  pub topology_id : Text
  pub steps : List AuditTopologyStep
  pub authority_effect : ContractAuthorityEffect

pub record AuditTopologyRef : Type 0 where
  pub topology_id : Text
  pub topology_digest : Text

pub record AuditRecordedRun : Type 0 where
  pub step_id : Text
  pub plan_ref : PlanRecordRef
  pub run_ref : RunRecordRef

pub record AuditReceipt : Type 0 where
  pub schema_version : Text
  pub topology_ref : AuditTopologyRef
  pub recorded_runs : List AuditRecordedRun
  pub authority_effect : ContractAuthorityEffect
