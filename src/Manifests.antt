-- ===== src/Manifests.antt =====
-- src/manifests.rs: the tool manifests that are embedded in the program.
pub mod Registry
pub mod Parameters
use evidence_workbench.Prelude.{ℕ, Bool, List, Option}
use evidence_workbench.Text.{Text}

pub record ManifestAdapter : Type 0 where
  pub id : Text
  pub version : Text

pub record VersionProbe : Type 0 where
  pub arguments : List Text

pub record IdentityContract : Type 0 where
  pub executable_candidates : List Text
  pub version_probe : Option VersionProbe
  pub binary_digest_required : Bool
  pub allowed_binary_sha256 : List Text
  pub python_distribution : Option Text
  pub supporting_tree_digest_required : Bool

-- An `i64`.
pub data Integer : Type 0 where
  pos : ℕ → Integer
  negsuc : ℕ → Integer

pub record ParameterContract : Type 0 where
  pub name : Text
  pub required : Bool
  pub kind : Text
  pub default : Option Text
  pub allowed_values : List Text
  pub minimum : Option Integer
  pub maximum : Option Integer

pub record InvocationContract : Type 0 where
  pub mode : Text
  pub operation : Text
  pub parameters : List ParameterContract
  pub required_capabilities : List Text
  pub target_code_execution : Text
  pub network : Text
  pub filesystem_write : Text

pub record ArtifactContract : Type 0 where
  pub role : Text
  pub discovery : Text
  pub required_when : Text
  pub byte_policy : Text

pub record ObservationContract : Type 0 where
  pub namespace : Text
  pub name : Text
  pub artifact_role : Text
  pub format : Text
  pub selector : Text
  pub required_when : Text
  pub unknown_value_policy : Text

pub record ExitCodeEntry : Type 0 where
  pub code : Integer
  pub native_meaning : Text

pub record ExitCodeContract : Type 0 where
  pub entries : List ExitCodeEntry
  pub unknown_code_policy : Text

pub record AuthorityContract : Type 0 where
  pub mode : Text

pub record ManifestLimitation : Type 0 where
  pub code : Text
  pub statement : Text

pub record ToolManifest : Type 0 where
  pub schema_version : Text
  pub manifest_id : Text
  pub display_name : Text
  pub stability : Text
  pub enabled_by_default : Bool
  pub adapter : ManifestAdapter
  pub identity_contract : IdentityContract
  pub subject_kind : Text
  pub invocation_contract : InvocationContract
  pub artifact_contracts : List ArtifactContract
  pub native_observation_contracts : List ObservationContract
  pub exit_code_contract : ExitCodeContract
  pub authority_contract : AuthorityContract
  pub limitations : List ManifestLimitation
