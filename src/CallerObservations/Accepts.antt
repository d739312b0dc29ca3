-- ===== src/CallerObservations/Accepts.antt =====
-- What `validate` of src/caller_observations.rs accepts.
use evidence_workbench.Prelude.{◌≡◌, true, false, List, ◌==◌, map}
use evidence_workbench.Text.{Text, lit, same, contains_text}
use evidence_workbench.Text.Trim.{trim}
use evidence_workbench.Collections.{contains, Distinct}
use evidence_workbench.Contracts.Phaseledger.{PhaseledgerCallerCheck, PhaseledgerCallerObservation}
use evidence_workbench.Validation.Topology.Spec.{All}
use evidence_workbench.Validation.Fields.Laws.{IsPrefixedId, IsSha256}
use evidence_workbench.Pins.Fields.{is_nil}
use evidence_workbench.CallerObservations.{forbidden_check_names}

abbrev pub name_of : PhaseledgerCallerCheck → Text
name_of check = check.name

-- A name of the caller's own.
pub record IsOwnName (check : PhaseledgerCallerCheck) : Type 0 where
  pub some_letter : is_nil (trim check.name) ≡ false
  pub trimmed : same (trim check.name) check.name ≡ true
  pub allowed : contains check.name forbidden_check_names ≡ false

record ChecksFit (checks : List PhaseledgerCallerCheck) (names : List Text) : Type 0 where
  each : All IsOwnName checks
  distinct : Distinct (map name_of checks)
  fresh : (k : Text) → contains k (map name_of checks) ≡ true → contains k names ≡ false

-- A claim about a present artifact that names it, and checks under names of the caller's own.
pub record IsCallerObservation (o : PhaseledgerCallerObservation) : Type 0 where
  pub schema : o.schema_version ≡ lit "phaseledger-caller-observation/v1"
  pub phase : is_nil (trim o.phase) ≡ false
  pub claim : is_nil (trim o.claim) ≡ false
  pub present : o.artifact_present ≡ true
  pub artifact_id : IsPrefixedId (lit "artifact_") o.cited_artifact.artifact_id
  pub digest : IsSha256 o.artifact_sha256
  pub algorithm : o.cited_artifact.digest.algorithm ≡ lit "sha256"
  pub same_digest : o.artifact_sha256 ≡ o.cited_artifact.digest.value
  pub some_bytes : (o.cited_artifact.byte_length == 0) ≡ false
  pub names_artifact : contains_text o.claim o.cited_artifact.artifact_id ≡ true
  pub names_digest : contains_text o.claim o.cited_artifact.digest.value ≡ true
  pub untrusted : contains_text o.claim (lit "untrusted_exact_bytes") ≡ true
  pub no_authority : contains_text o.claim (lit "authority_effect none") ≡ true
  pub some_check : is_nil o.checks ≡ false
  pub own_names : All IsOwnName o.checks
  pub distinct : Distinct (map name_of o.checks)
  pub freshness : o.unsupported.freshness ≡ lit "unsupported"
  pub scope : o.unsupported.producer_run_scope ≡ lit "unsupported"
