-- ===== src/RunValidation/Observations.antt =====
-- src/run_validation.rs: `extract`, `extract_text_prefix`, `validate_observation` and
-- `validate_native_result`, which read the reported observations a second time and compare.
pub mod Only
pub mod Accepts
pub mod Reports
pub mod Each
pub mod Absence
pub mod RoundTrip
use evidence_workbench.Prelude.{
  ◌++◌, ℕ, ◌+◌, ◌-◌, Bool, true, false, not, List, [], ◌∷◌, Option, none, some, length, any,
  Outcome, Checked, ok, err, ◌>>=◌, ◌>>◌, ensure, ok_or, if◌then◌else◌, ◌&&◌, ◌||◌, ◌==◌,
}
use evidence_workbench.Text.{Text, lit, same, strip_prefix}
use evidence_workbench.Text.Trim.{trim, trim_start, trim_end_newlines}
use evidence_workbench.Text.Utf8.{from_utf8}
use evidence_workbench.Text.Decimal.{decimal}
use evidence_workbench.Text.Lines.{split_inclusive}
use evidence_workbench.Json.{Json, string, same_json}
use evidence_workbench.StrictJson.{parse_strict, pointer}
use evidence_workbench.Contracts.Run.{
  ArtifactDescriptor, Termination, exited, Locator, same_locator, ObservationSource, from_artifact,
  process_exit, NativeObservation, NativeResult, reported, not_reported,
}
use evidence_workbench.Manifests.{ToolManifest, ArtifactContract, ObservationContract}
use evidence_workbench.Native.Projection.{Reader, has_role}
use evidence_workbench.RunValidation.Descriptors.{is_nil}

-- The loop over the lines, from the offset of the next one.
unfoldable pub re_scan_lines : List Text → ℕ → Text → Outcome (Json × Locator)
re_scan_lines [] offset prefix = err "native text prefix not found"
re_scan_lines (line ∷ rest) offset prefix =
    let body = trim_end_newlines line in
    elim (strip_prefix body prefix) [
      | none ↦ re_scan_lines rest (offset + length line) prefix
      | some value ↦
          let start =
            offset + (length body - length value) + (length value - length (trim_start value)) in
          ok (
            string (trim value),
            record {
              kind = lit "byte_range";
              value = decimal start ++ b':' ∷ decimal (start + length (trim value));
            },
          )
    ]

unfoldable pub re_extract_text_prefix : Text → Text → Outcome (Json × Locator)
unfolding re_scan_lines
re_extract_text_prefix bytes prefix = do
  text ← ok_or (from_utf8 bytes) "native text output is not UTF-8"
  re_scan_lines (split_inclusive b'\n' text) 0 prefix

-- The contracts of the manifest for one role.
unfoldable pub role_contracts : Text → List ArtifactContract → List ArtifactContract
role_contracts role [] = []
role_contracts role (contract ∷ rest) =
    let later = role_contracts role rest in
    if same contract.role role then contract ∷ later else later

-- The artifacts of the run that carry one role.
unfoldable pub role_artifacts : Text → List ArtifactDescriptor → List ArtifactDescriptor
unfolding has_role
role_artifacts role [] = []
role_artifacts role (artifact ∷ rest) =
    let later = role_artifacts role rest in
    if has_role role artifact then artifact ∷ later else later

-- The match on the role, which a raw process stream has to back.
unfoldable pub is_raw_stream : Text → ArtifactDescriptor → Bool
is_raw_stream role artifact =
    (same role (lit "native_stdout")
      && same artifact.origin (lit "process_stdout")
      && same artifact.capture.mode (lit "raw_stream_capture"))
    || (same role (lit "native_stderr")
        && same artifact.origin (lit "process_stderr")
        && same artifact.capture.mode (lit "raw_stream_capture"))

abbrev pub one_exact_stream : List ArtifactContract → Bool
one_exact_stream (contract ∷ []) =
    same contract.byte_policy (lit "exact") && same contract.discovery (lit "captured_stream")
one_exact_stream _ = false

-- `role_artifacts[0]`, if it is the only one and has the identifier.
abbrev pub one_artifact : List ArtifactDescriptor → Text → Outcome ArtifactDescriptor
one_artifact (artifact ∷ []) artifact_id =
    if same artifact.artifact_id artifact_id
    then ok artifact
    else err "native observation does not resolve one exact in-run source artifact"
one_artifact _ artifact_id =
    err "native observation does not resolve one exact in-run source artifact"

-- The identity of an observation is among those that were read.
unfoldable pub is_observed : Text → Text → List NativeObservation → Bool
is_observed namespace name [] = false
is_observed namespace name (o ∷ rest) =
    (same o.namespace namespace && same o.name name) || is_observed namespace name rest

unfoldable pub unique_identities : List NativeObservation → List NativeObservation → Checked
unfolding is_observed
unique_identities [] seen = ok tt
unique_identities (o ∷ rest) seen = do
  ensure (not (is_observed o.namespace o.name seen)) "native observation identities must be unique"
  unique_identities rest (o ∷ seen)

-- `matches.next()`, and then that there is no second one.
unfoldable pub matching : Text → Text → List NativeObservation → List NativeObservation
matching namespace name [] = []
matching namespace name (o ∷ rest) =
    let later = matching namespace name rest in
    if same o.namespace namespace && same o.name name then o ∷ later else later

abbrev pub exactly_one : List NativeObservation → Outcome NativeObservation
exactly_one [] = err "native observation contract is missing"
exactly_one (o ∷ []) = ok o
exactly_one (o ∷ _ ∷ _) = err "native observation contract was reported more than once"

abbrev pub known_reason : Text → Bool
known_reason reason =
    same reason (lit "process_not_exited")
    || same reason (lit "native_result_absent")
    || same reason (lit "artifact_missing")
    || same reason (lit "parse_error")
    || same reason (lit "contract_mismatch")
    || same reason (lit "unrecognized")

abbrev has_exited : Termination → Bool
has_exited (exited code) = true
has_exited _ = false

abbrev pub source_of : ObservationSource → Outcome (Text × Locator)
source_of (from_artifact artifact_id locator) = ok (artifact_id, locator)
source_of (process_exit pointer) =
    err "process-exit projections are unsupported in instrument_run/v1"

module _ (reader : Reader) where
  unfoldable pub extract : ObservationContract → Text → Outcome (Json × Locator)
  unfolding re_extract_text_prefix
  extract contract bytes =
      if same contract.format (lit "json")
      then (do
        value ← parse_strict reader.json bytes
        selected ← pointer reader.resolve value contract.selector
        ok (selected, record { kind = lit "json_pointer"; value = contract.selector }))
      else if same contract.format (lit "text_prefix")
      then re_extract_text_prefix bytes contract.selector
      else err "unsupported native observation projection format"

  unfoldable pub validate_observation :
      List ArtifactDescriptor → ToolManifest → ObservationContract → NativeObservation → Checked
  validate_observation artifacts manifest contract observation = do
    ensure observation.projection_only "native observation must remain projection_only"
    (artifact_id, locator) ← source_of observation.source
    ensure (one_exact_stream (role_contracts contract.artifact_role manifest.artifact_contracts))
        "native observation is not backed by one exact captured-stream contract"
    artifact ← one_artifact (role_artifacts contract.artifact_role artifacts) artifact_id
    ensure (is_raw_stream contract.artifact_role artifact)
        "native observation source role is not backed by its raw process stream"
    bytes ← reader.read_verified_descriptor artifact
    (expected_value, expected_locator) ← extract contract bytes
    ensure (same_locator locator expected_locator)
        "native observation locator does not match exact re-extraction"
    ensure (same_json observation.value expected_value)
        "native observation value does not match exact re-extraction"

  -- The loop over the contracts of the manifest.
  unfoldable pub validate_contracts :
      List ArtifactDescriptor
      → ToolManifest
      → List NativeObservation
      → List ObservationContract
      → Checked
  unfolding matching
  validate_contracts artifacts manifest observations [] = ok tt
  validate_contracts artifacts manifest observations (contract ∷ rest) = do
    observation ← exactly_one (matching contract.namespace contract.name observations)
    validate_observation artifacts manifest contract observation
    validate_contracts artifacts manifest observations rest

  unfoldable pub validate_native_result :
      NativeResult → Termination → List ArtifactDescriptor → ToolManifest → Checked
  unfolding unique_identities
  validate_native_result (not_reported reason observations) termination artifacts manifest = do
    ensure (is_nil observations) "not_reported native result must have no observations"
    ensure (known_reason reason) "native result has an unsupported not_reported reason"
  validate_native_result (reported observations) termination artifacts manifest = do
    ensure (has_exited termination)
        "native observations cannot be reported for a non-exited process"
    ensure
        (not (
          is_nil observations
          || not (length observations == length manifest.native_observation_contracts)))
        "reported native observations do not match the embedded manifest"
    unique_identities observations []
    validate_contracts artifacts manifest observations manifest.native_observation_contracts
