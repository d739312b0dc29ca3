-- ===== src/Contracts/Run.antt =====
-- src/contracts.rs: artifacts, observations, and what a run records of a native tool.
use evidence_workbench.Prelude.{ℕ, Bool, List, ◌≡◌, ◌↔◌, ◌&&◌, true, arith}
use evidence_workbench.Text.{Text, same, same_iff}
use evidence_workbench.Json.{Json}
use evidence_workbench.Contracts.References.{Digest}

pub record ArtifactStorage : Type 0 where
  pub uri : Text

pub record ArtifactCapture : Type 0 where
  pub mode : Text

pub record ArtifactDescriptor : Type 0 where
  pub artifact_id : Text
  pub roles : List Text
  pub media_type : Text
  pub byte_length : ℕ
  pub digest : Digest
  pub storage : ArtifactStorage
  pub origin : Text
  pub capture : ArtifactCapture
  pub transforms : List Json

pub record ArtifactRecord : Type 0 where
  pub schema_version : Text
  pub record_digest : Text
  pub artifact : ArtifactDescriptor

-- An `i32` exit code is its bit pattern.
pub data Termination : Type 0 where
  exited : ℕ → Termination
  signaled : Text → Termination
  timed_out : ℕ → Termination
  spawn_error : Text → Text → Termination
  interrupted : Text → Termination

pub record Locator : Type 0 where
  pub kind : Text
  pub value : Text

unfoldable pub same_locator : Locator → Locator → Bool
same_locator a b = same a.kind b.kind && same a.value b.value

pub same_locator_iff : (a b : Locator) → (same_locator a b ≡ true) ↔ (a ≡ b)
unfolding same_locator
same_locator_iff a b = ground (arith, same_iff a.kind b.kind, same_iff a.value b.value)

pub data ObservationSource : Type 0 where
  from_artifact : Text → Locator → ObservationSource
  process_exit : Text → ObservationSource

pub record NativeObservation : Type 0 where
  pub namespace : Text
  pub name : Text
  pub value : Json
  pub source : ObservationSource
  pub projection_only : Bool

pub data NativeResult : Type 0 where
  reported : List NativeObservation → NativeResult
  not_reported : Text → List NativeObservation → NativeResult

pub record NativeAuthorityClaim : Type 0 where
  pub namespace : Text
  pub name : Text
  pub value : Json
  pub scope : Text
  pub source : ObservationSource
  pub projection_only : Bool

pub data NativeAuthority : Type 0 where
  authority_reported : List NativeAuthorityClaim → NativeAuthority
  authority_not_reported : Text → List NativeAuthorityClaim → NativeAuthority

pub record LimitationItem : Type 0 where
  pub namespace : Text
  pub code : Text
  pub statement : Text
  pub origin : Text
  pub source : Text

pub data Limitations : Type 0 where
  limits_reported : List LimitationItem → Limitations
  limits_not_reported : List LimitationItem → Limitations

pub record Invocation : Type 0 where
  pub mode : Text
  pub argv : List Text
  pub cwd : Text
  pub timeout_ms : ℕ
  pub required_capabilities : List Text

pub record ToolRef : Type 0 where
  pub manifest_id : Text
  pub manifest_sha256 : Text
