-- ===== src/Contracts/Phaseledger.antt =====
-- src/contracts.rs: what a caller observes of an artifact.
use evidence_workbench.Prelude.{ℕ, Bool, List}
use evidence_workbench.Text.{Text}
use evidence_workbench.Contracts.References.{Digest, ContractAuthorityEffect}

pub record PhaseledgerCitedArtifact : Type 0 where
  pub artifact_id : Text
  pub digest : Digest
  pub byte_length : ℕ

pub record PhaseledgerCallerCheck : Type 0 where
  pub name : Text
  pub passed : Bool

pub record PhaseledgerUnsupportedFields : Type 0 where
  pub freshness : Text
  pub producer_run_scope : Text

pub record PhaseledgerCallerObservation : Type 0 where
  pub schema_version : Text
  pub phase : Text
  pub claim : Text
  pub artifact_present : Bool
  pub artifact_sha256 : Text
  pub cited_artifact : PhaseledgerCitedArtifact
  pub checks : List PhaseledgerCallerCheck
  pub unsupported : PhaseledgerUnsupportedFields
  pub authority_effect : ContractAuthorityEffect
