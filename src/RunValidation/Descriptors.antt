-- ===== src/RunValidation/Descriptors.antt =====
-- src/run_validation.rs: the checks of an artifact's descriptor, of how the process ended, of the
-- authority and the limitations that a run reports, and of its timestamps.
pub mod Accepts
use Prim.Native.String.{◌++◌ as concat}
use evidence_workbench.Prelude.{
  ℕ, Bool, true, false, not, ◌&&◌, ◌||◌, List, [], ◌∷◌, ◌++◌, leb, ◌==◌, all, length, Checked, ok,
  err, ◌>>◌, ensure, String, if◌then◌else◌,
}
use evidence_workbench.Text.{Text, lit, same, is_lower, is_upper, is_digit, is_hexdigit}
use evidence_workbench.Text.Trim.{trim}
use evidence_workbench.Collections.{contains, insert}
use evidence_workbench.Contracts.Run.{
  ArtifactDescriptor, Termination, exited, signaled, timed_out, spawn_error, interrupted,
  NativeAuthority, authority_reported, authority_not_reported, LimitationItem, Limitations,
  limits_reported, limits_not_reported,
}
use evidence_workbench.Manifests.{ToolManifest}
use evidence_workbench.Workspace.Identifiers.{validate_storage_id}

abbrev pub is_nil {ℓ} : {A : Type ℓ} → List A → Bool
is_nil [] = true
is_nil (_ ∷ _) = false

unfoldable pub validate_lower_hex : Text → ℕ → String → Checked
validate_lower_hex value width label =
    ensure (length value == width && all (λ byte. is_hexdigit byte && not (is_upper byte)) value)
      (concat "invalid lowercase " label)

unfoldable pub validate_sha256 : Text → Checked
validate_sha256 value = validate_lower_hex value 64 "SHA-256 digest"

unfoldable pub validate_nonempty : Text → String → Checked
validate_nonempty value label =
    ensure (not (is_nil value || not (same (trim value) value)))
      (concat label " must be a non-empty trimmed string")

unfoldable pub valid_identifier : Text → ℕ → Bool
valid_identifier value max_length =
    not (is_nil value)
    && leb (length value) max_length
    && all (λ byte. is_lower byte || is_digit byte || byte == b'_') value

-- The loop over the roles of an artifact, with the set of those that were read.
unfoldable pub validate_roles : List Text → List Text → Checked
validate_roles [] seen = ok tt
validate_roles (role ∷ rest) seen = do
  ensure (valid_identifier role 64 && not (contains role seen))
      "artifact roles must be unique lowercase ASCII identifiers"
  validate_roles rest (insert role seen)

-- The match on the origin of an artifact, which its capture mode has to fit.
unfoldable pub validate_origin : Text → Text → Checked
validate_origin origin mode =
    if same origin (lit "native_file") && same mode (lit "byte_for_byte_copy")
    then ok tt
    else if (same origin (lit "process_stdout") || same origin (lit "process_stderr"))
        && same mode (lit "raw_stream_capture")
    then ok tt
    else if same origin (lit "native_file")
        || same origin (lit "process_stdout")
        || same origin (lit "process_stderr")
    then err "artifact origin and capture mode are inconsistent"
    else err "artifact origin is outside the v1 contract"

unfoldable pub validate_artifact_descriptor : ArtifactDescriptor → Checked
validate_artifact_descriptor descriptor = do
  validate_storage_id descriptor.artifact_id (lit "artifact_")
  ensure (not (is_nil descriptor.roles)) "artifact must have at least one role"
  validate_roles descriptor.roles []
  ensure
      (not (
        is_nil descriptor.media_type
        || not (same (trim descriptor.media_type) descriptor.media_type)))
      "artifact media type must be a non-empty trimmed string"
  ensure (same descriptor.digest.algorithm (lit "sha256") && is_nil descriptor.transforms)
      "artifact violates the exact-byte SHA-256 contract"
  validate_sha256 descriptor.digest.value
  ensure (same descriptor.storage.uri (lit "ewb:sha256:" ++ descriptor.digest.value))
      "artifact storage URI does not match its digest"
  validate_origin descriptor.origin descriptor.capture.mode
  ensure
      (same descriptor.capture.mode (lit "byte_for_byte_copy")
        || same descriptor.capture.mode (lit "raw_stream_capture"))
      "artifact capture mode is outside the v1 contract"

unfoldable pub validate_termination : Termination → ℕ → Checked
validate_termination (exited code) invocation_timeout_ms = ok tt
validate_termination (signaled signal) invocation_timeout_ms =
    validate_nonempty signal "termination signal"
validate_termination (timed_out timeout_ms) invocation_timeout_ms =
    ensure (not (timeout_ms == 0 || not (timeout_ms == invocation_timeout_ms)))
      "timeout termination does not match the invocation timeout"
validate_termination (spawn_error error_code message) invocation_timeout_ms = do
  validate_nonempty error_code "spawn error code"
  validate_nonempty message "spawn error message"
validate_termination (interrupted reason) invocation_timeout_ms =
    validate_nonempty reason "interruption reason"

unfoldable pub validate_native_authority : NativeAuthority → ToolManifest → Checked
validate_native_authority authority manifest = do
  ensure (same manifest.authority_contract.mode (lit "not_reported"))
      "embedded v1 manifest has an unsupported authority contract"
  elim authority [
    | authority_reported claims ↦
        err "embedded v1 manifests do not authorize native authority claims"
    | authority_not_reported reason claims ↦ do
      validate_nonempty reason "native authority not_reported reason"
      ensure (is_nil claims) "not_reported native authority must have no claims"
  ]

-- The triples (namespace, code, source) that were read.
unfoldable pub has_identity : LimitationItem → List LimitationItem → Bool
has_identity item [] = false
has_identity item (other ∷ rest) =
    (same item.namespace other.namespace
      && same item.code other.code
      && same item.source other.source)
    || has_identity item rest

unfoldable pub validate_items : List LimitationItem → List LimitationItem → Checked
validate_items [] seen = ok tt
validate_items (item ∷ rest) seen = do
  validate_nonempty item.namespace "limitation namespace"
  validate_nonempty item.code "limitation code"
  validate_nonempty item.statement "limitation statement"
  validate_nonempty item.source "limitation source"
  ensure
      (same item.origin (lit "native")
        || same item.origin (lit "manifest")
        || same item.origin (lit "adapter"))
      "limitation origin is outside the v1 contract"
  ensure (not (has_identity item seen)) "limitation identities must be unique"
  validate_items rest (item ∷ seen)

unfoldable pub validate_limitations : Limitations → Checked
validate_limitations (limits_reported []) = err "reported limitations must contain an item"
validate_limitations (limits_reported (item ∷ items)) = validate_items (item ∷ items) []
validate_limitations (limits_not_reported []) = ok tt
validate_limitations (limits_not_reported (_ ∷ _)) =
    err "not_reported limitations must contain no items"
