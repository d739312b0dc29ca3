-- ===== src/RunValidation/Observations/Absence.antt =====
-- The reasons for which `extract_native_result` (src/native.rs) reports nothing, beside those that
-- `validate_native_result` (src/run_validation.rs) knows.
use evidence_workbench.Prelude.{
  inr, ◌⊎◌, inl, ◌≡◌, refl, Bool, true, List, [], ◌∷◌, ◌++◌, Outcome, ok, err, panic, diverge,
  arith, Option, none, some,
}
use evidence_workbench.Text.{Text, lit, same}
use evidence_workbench.Contracts.Run.{
  ArtifactDescriptor, Termination, NativeObservation, not_reported,
}
use evidence_workbench.Manifests.{ToolManifest, ObservationContract}
use evidence_workbench.Native.Projection.{
  find_role, Reader, Turn, observed, stops, turn, read_turn, observe_all,
}
use evidence_workbench.RunValidation.Descriptors.{is_nil}
use evidence_workbench.RunValidation.Observations.{validate_native_result, known_reason}

known_missing : known_reason (lit "artifact_missing") ≡ true
unfolding lit same
known_missing = refl

known_parse : known_reason (lit "parse_error") ≡ true
unfolding lit same
known_parse = refl

known_mismatch : known_reason (lit "contract_mismatch") ≡ true
unfolding lit same
known_mismatch = refl

pub known_absent : known_reason (lit "native_result_absent") ≡ true
unfolding lit same
known_absent = refl

pub known_not_exited : known_reason (lit "process_not_exited") ≡ true
unfolding lit same
known_not_exited = refl

module _ (reader : Reader) (artifacts : List ArtifactDescriptor) (manifest : ToolManifest) where
  -- The turn does not stop for another reason than those that are known.
  abbrev stops_for_known : Turn → Bool
  stops_for_known (observed o) = true
  stops_for_known (stops reason) = known_reason reason

  read_turn-known :
      (c : ObservationContract) (a : ArtifactDescriptor) (bytes : Outcome Text)
      → stops_for_known (read_turn reader c a bytes) ≡ true
  unfolding read_turn
  read_turn-known c a (ok bytes) = ground (arith, known_missing, known_parse, known_mismatch)
  read_turn-known c a (err m) = known_missing
  read_turn-known c a panic = known_missing
  read_turn-known c a diverge = known_missing

  turn-known : (c : ObservationContract) → stops_for_known (turn reader artifacts c) ≡ true
  unfolding turn
  turn-known c = of_found _ refl
    where
      of_found :
          (found : Option ArtifactDescriptor)
          → find_role c.artifact_role artifacts ≡ found
          → stops_for_known (turn reader artifacts c) ≡ true
      of_found none e = ground (arith, e, known_missing)
      of_found (some a) e =
          ground (arith, e, read_turn-known c a (reader.read_verified_descriptor a))

  stops_known :
      (c : ObservationContract) (reason : Text)
      → turn reader artifacts c ≡ stops reason
      → known_reason reason ≡ true
  stops_known c reason h = ground (arith, h, turn-known c)

  abbrev pub KnownAbsence : Text → List NativeObservation → Type 0
  KnownAbsence reason os = (is_nil os ≡ true) × (known_reason reason ≡ true)

  known_cons :
      (c : ObservationContract) (cs : List ObservationContract) (seen : List NativeObservation)
      (reason : Text) (os : List NativeObservation) (t : Turn)
      → turn reader artifacts c ≡ t
      → observe_all reader artifacts (c ∷ cs) seen ≡ not_reported reason os
      → KnownAbsence reason os
        ⊎ ((o : NativeObservation) × (observe_all reader artifacts cs (seen ++ o ∷ [])
              ≡ not_reported reason os))
  unfolding observe_all
  known_cons c cs seen reason os (observed o) e h = inr (o, ground (arith, e, h))
  known_cons c cs seen reason os (stops r) e h = inl (ground (arith, e, h, stops_known c r e))

  -- What the loop returns, when it does not return the observations.
  pub known_absence :
      (cs : List ObservationContract) (seen : List NativeObservation) (reason : Text)
      (os : List NativeObservation)
      → observe_all reader artifacts cs seen ≡ not_reported reason os
      → KnownAbsence reason os
  known_absence [] seen reason os h = unfold observe_all in cc
  known_absence (c ∷ cs) seen reason os h = elim (known_cons c cs seen reason os _ refl h) [
    | inl known ↦ known
    | inr (o, later) ↦ known_absence cs (seen ++ o ∷ []) reason os later
  ]

  pub absent_accepted :
      (reason : Text) (os : List NativeObservation) (termination : Termination)
      → KnownAbsence reason os
      → validate_native_result reader (not_reported reason os) termination artifacts manifest
        ≡ ok tt
  unfolding validate_native_result
  absent_accepted reason os termination (n, k) = ground arith
