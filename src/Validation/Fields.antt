-- ===== src/Validation/Fields.antt =====
-- src/data_contract_validation.rs: the checks of one field, which the contracts share.
pub mod Laws
use Prim.Native.String.{◌++◌ as concat}
use evidence_workbench.Prelude.{
  ℕ, Bool, true, false, not, ◌&&◌, ◌||◌, List, [], ◌∷◌, String, leb, ◌==◌, all, any, length,
  Outcome, Checked, ok, err, ◌>>=◌, ◌>>◌, ensure, ok_or,
}
use evidence_workbench.Text.{
  Text, lit, same, is_lower, is_upper, is_digit, is_alphanumeric, is_hexdigit, strip_prefix,
  starts_with, ends_with, contains_byte, split,
}
use evidence_workbench.Text.Trim.{trim}
use evidence_workbench.Contracts.References.{
  Digest, ContractArtifactRef, PlanRecordRef, RunRecordRef, ArtifactRecordRef,
}

unfoldable pub is_lower_hex : Text → Bool
is_lower_hex value = all (λ byte. is_hexdigit byte && not (is_upper byte)) value

unfoldable pub validate_prefixed_id : Text → Text → String → Checked
validate_prefixed_id value start label = do
  suffix ← ok_or (strip_prefix value start) (concat "invalid " label)
  ensure (length suffix == 32 && is_lower_hex suffix) (concat "invalid " label)

unfoldable pub validate_git_sha1 : Text → String → Checked
validate_git_sha1 value label =
    ensure (length value == 40 && is_lower_hex value)
      (concat label " must be a lowercase 40-hex Git object id")

unfoldable pub validate_sha256 : Text → String → Checked
validate_sha256 value label =
    ensure (length value == 64 && is_lower_hex value)
      (concat label " must use a lowercase 64-hex SHA-256 digest")

unfoldable pub validate_plan_record_ref : PlanRecordRef → String → Checked
validate_plan_record_ref reference label = do
  validate_prefixed_id reference.plan_id (lit "plan_") (concat label " id")
  validate_sha256 reference.record_digest label

unfoldable pub validate_run_record_ref : RunRecordRef → String → Checked
validate_run_record_ref reference label = do
  validate_prefixed_id reference.run_id (lit "run_") (concat label " id")
  validate_sha256 reference.record_digest label

unfoldable pub validate_digest : Digest → String → Checked
validate_digest digest label = do
  ensure (same digest.algorithm (lit "sha256")) (concat label " digest must use sha256")
  validate_sha256 digest.value label

unfoldable pub validate_artifact_id : Text → Checked
validate_artifact_id value = validate_prefixed_id value (lit "artifact_") "artifact id"

unfoldable pub validate_contract_artifact_ref : ContractArtifactRef → String → Checked
validate_contract_artifact_ref reference label = do
  validate_artifact_id reference.artifact_id
  validate_digest reference.digest label

abbrev is_empty : Text → Bool
is_empty [] = true
is_empty (_ ∷ _) = false

unfoldable pub validate_nonempty : Text → String → Checked
validate_nonempty value label =
    ensure (not (is_empty value) && same (trim value) value)
      (concat label " must be a non-empty trimmed string")

abbrev identifier_byte : ℕ → Bool
identifier_byte byte = is_lower byte || is_digit byte || (byte == b'_' || byte == b'-')

abbrev joiner : Text → (Text → Text → Bool) → Bool
joiner value test = test value (lit "_") || test value (lit "-")

unfoldable pub validate_identifier : Text → ℕ → String → Checked
validate_identifier value max_length label =
    ensure
      (not (is_empty value)
        && leb (length value) max_length
        && all identifier_byte value
        && not (joiner value starts_with)
        && not (joiner value ends_with))
      (concat "invalid " label)

-- A component of a command: a lowercase letter, then letters, digits, `_` and `-`.
unfoldable pub is_command_component : Text → Bool
is_command_component [] = false
is_command_component (first ∷ rest) = is_lower first && all identifier_byte rest

unfoldable pub validate_cli_command : Text → Checked
validate_cli_command value =
    ensure
      (not (is_empty value)
        && leb (length value) 128
        && all is_command_component (split b'.' value))
      "invalid EWB CLI command identifier"

unfoldable pub is_error_code : Text → Bool
is_error_code [] = false
is_error_code (first ∷ rest) =
    is_lower first && all (λ byte. is_lower byte || is_digit byte || byte == b'_') rest

unfoldable pub validate_cli_error_code : Text → Checked
validate_cli_error_code value =
    ensure (leb (length value) 64 && is_error_code value) "invalid EWB CLI error code"

unfoldable pub validate_tool_id : Text → Checked
validate_tool_id value =
    ensure
      (not (is_empty value)
        && leb (length value) 64
        && all (λ byte. is_lower byte || is_digit byte || byte == b'-') value
        && not (starts_with value (lit "-"))
        && not (ends_with value (lit "-")))
      "invalid tool manifest id"

abbrev dots : Text → Bool
dots part = same part (lit ".") || same part (lit "..")

-- A part that makes a repository URL inexact.
unfoldable pub bad_repository_part : Text → Bool
bad_repository_part part =
    is_empty part
    || dots part
    || not
        (all (λ byte. is_alphanumeric byte || (byte == b'-' || byte == b'_' || byte == b'.')) part)

unfoldable pub validate_github_repository_url : Text → Checked
validate_github_repository_url value = do
  repository ←
      ok_or (strip_prefix value (lit "https://github.com/"))
        "subject candidate repository must use GitHub HTTPS"
  ensure
      (length (split b'/' repository) == 2 && not (any bad_repository_part (split b'/' repository)))
      "subject candidate repository must be an exact GitHub repository URL"

unfoldable pub validate_capsule_path : Text → String → Checked
validate_capsule_path value label =
    ensure
      (not (
        is_empty value
        || contains_byte b'\\' value
        || contains_byte b':' value
        || starts_with value (lit "/")
        || any (λ component. is_empty component || dots component) (split b'/' value)))
      (concat label " must be a normalized relative capsule path")
