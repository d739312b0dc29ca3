-- ===== src/Native/Projection.antt =====
-- src/native.rs: `extract_text_prefix`, `extract_json` and `extract_native_result`, which read the
-- observations that a manifest names back from the captured output.
pub mod Prefix
use evidence_workbench.Prelude.{
  ℕ, ◌+◌, ◌-◌, Bool, true, false, List, [], ◌∷◌, ◌++◌, Option, none, some, length, any, Outcome, ok,
  err, ◌>>=◌, ◌>>◌, ok_or, if◌then◌else◌,
}
use evidence_workbench.Text.{Text, lit, same, strip_prefix}
use evidence_workbench.Text.Trim.{trim, trim_start, trim_end_newlines}
use evidence_workbench.Text.Utf8.{from_utf8}
use evidence_workbench.Text.Decimal.{decimal}
use evidence_workbench.Text.Lines.{split_inclusive}
use evidence_workbench.Json.{Json, string}
use evidence_workbench.StrictJson.{Deserializer, parse_strict, pointer}
use evidence_workbench.Contracts.Run.{
  ArtifactDescriptor, Termination, exited, Locator, ObservationSource, from_artifact,
  NativeObservation, NativeResult, reported, not_reported,
}
use evidence_workbench.Manifests.{ToolManifest, ObservationContract}

-- `format!("{start}:{end}")` under its kind.
unfoldable pub byte_range : ℕ → ℕ → Locator
byte_range start end' = record {
  kind = lit "byte_range";
  value = decimal start ++ b':' ∷ decimal end';
}

-- What the loop returns at the line whose body has the prefix; `value` is what follows it.
unfoldable pub found_prefix : ℕ → Text → Text → Json × Locator
unfolding byte_range
found_prefix offset body value =
    let leading = length body - length value in
    let trimmed = trim value in
    let start_trim = length value - length (trim_start value) in
    let start = offset + leading + start_trim in
    let end' = start + length trimmed in (string trimmed, byte_range start end')

unfoldable pub scan_lines : List Text → ℕ → Text → Outcome (Json × Locator)
unfolding found_prefix
scan_lines [] offset prefix = err "native text prefix not found"
scan_lines (line ∷ rest) offset prefix = elim (strip_prefix (trim_end_newlines line) prefix) [
  | none ↦ scan_lines rest (offset + length line) prefix
  | some value ↦ ok (found_prefix offset (trim_end_newlines line) value)
]

unfoldable pub extract_text_prefix : Text → Text → Outcome (Json × Locator)
unfolding scan_lines
extract_text_prefix bytes prefix = do
  text ← ok_or (from_utf8 bytes) "native text output is not UTF-8"
  scan_lines (split_inclusive b'\n' text) 0 prefix

-- serde_json, and the workspace's verified read of an artifact.
pub record Reader : Type 0 where
  pub json : Deserializer
  pub resolve : Json → Text → Option Json
  pub read_verified_descriptor : ArtifactDescriptor → Outcome Text

abbrev pub absent : Text → NativeResult
absent reason = not_reported reason []

unfoldable pub has_role : Text → ArtifactDescriptor → Bool
has_role role artifact = any (λ r. same r role) artifact.roles

unfoldable pub find_role : Text → List ArtifactDescriptor → Option ArtifactDescriptor
unfolding has_role
find_role role [] = none
find_role role (artifact ∷ rest) =
    if has_role role artifact then some artifact else find_role role rest

abbrev pub observation_of :
    ObservationContract → ArtifactDescriptor → Json → Locator → NativeObservation
observation_of contract artifact value locator = record {
  namespace = contract.namespace;
  name = contract.name;
  value = value;
  source = from_artifact artifact.artifact_id locator;
  projection_only = true;
}

-- One turn of the loop: the observation, or the reason for which the function returns.
pub data Turn : Type 0 where
  observed : NativeObservation → Turn
  stops : Text → Turn

module _ (reader : Reader) where
  unfoldable pub extract_json : Text → Text → Outcome (Json × Locator)
  extract_json bytes selector = do
    value ← parse_strict reader.json bytes
    selected ← pointer reader.resolve value selector
    ok (selected, record { kind = lit "json_pointer"; value = selector })

  -- The match on `contract.format`.
  unfoldable pub extract_format : ObservationContract → Text → Outcome (Json × Locator)
  unfolding extract_json
  extract_format contract bytes =
      if same contract.format (lit "json")
      then extract_json bytes contract.selector
      else if same contract.format (lit "text_prefix")
      then extract_text_prefix bytes contract.selector
      else err "unsupported native observation format"

  unfoldable pub read_turn : ObservationContract → ArtifactDescriptor → Outcome Text → Turn
  unfolding extract_format
  read_turn contract artifact (ok bytes) = elim (extract_format contract bytes) [
    | ok (value, locator) ↦ observed (observation_of contract artifact value locator)
    | _ ↦
        stops
          (if same contract.format (lit "json") then lit "parse_error" else lit "contract_mismatch")
  ]
  read_turn contract artifact _ = stops (lit "artifact_missing")

  unfoldable pub turn : List ArtifactDescriptor → ObservationContract → Turn
  unfolding read_turn find_role
  turn artifacts contract = elim (find_role contract.artifact_role artifacts) [
    | none ↦ stops (lit "artifact_missing")
    | some artifact ↦ read_turn contract artifact (reader.read_verified_descriptor artifact)
  ]

  -- The loop over the contracts.
  unfoldable pub observe_all :
      List ArtifactDescriptor → List ObservationContract → List NativeObservation → NativeResult
  unfolding turn
  observe_all artifacts [] observations = reported observations
  observe_all artifacts (contract ∷ rest) observations = elim (turn artifacts contract) [
    | stops reason ↦ absent reason
    | observed observation ↦ observe_all artifacts rest (observations ++ observation ∷ [])
  ]

  abbrev pub loop_or_absent : List ArtifactDescriptor → List ObservationContract → NativeResult
  loop_or_absent artifacts [] = absent (lit "native_result_absent")
  loop_or_absent artifacts (contract ∷ rest) = observe_all artifacts (contract ∷ rest) []

  unfoldable pub extract_native_result :
      ToolManifest → Termination → List ArtifactDescriptor → NativeResult
  unfolding observe_all
  extract_native_result manifest (exited code) artifacts =
      loop_or_absent artifacts manifest.native_observation_contracts
  extract_native_result manifest _ artifacts = absent (lit "process_not_exited")
