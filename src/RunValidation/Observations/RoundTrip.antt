-- ===== src/RunValidation/Observations/RoundTrip.antt =====
-- `extract_native_result` of src/native.rs and then `validate_native_result` of
-- src/run_validation.rs.
use evidence_workbench.Prelude.{ℕ, ◌≡◌, refl, List, [], ◌∷◌, ok, arith}
use evidence_workbench.Text.{lit}
use evidence_workbench.Contracts.Run.{
  ArtifactDescriptor, Termination, exited, signaled, timed_out, spawn_error, interrupted,
  NativeObservation, NativeResult, reported, not_reported,
}
use evidence_workbench.Manifests.{ToolManifest, ObservationContract}
use evidence_workbench.Validation.Topology.Spec.{All}
use evidence_workbench.Native.Projection.{Reader, loop_or_absent, extract_native_result}
use evidence_workbench.RunValidation.Observations.{validate_native_result}
use evidence_workbench.RunValidation.Observations.Reports.{Backed, DistinctContracts}
use evidence_workbench.RunValidation.Observations.Each.{
  Each, Observed-All, unique_of, length_of, contracts_hold, none-Unread, none_matched,
}
use evidence_workbench.RunValidation.Observations.Absence.{
  known_absence, absent_accepted, known_absent, known_not_exited,
}

module _ (reader : Reader) (artifacts : List ArtifactDescriptor) (manifest : ToolManifest) where
  abbrev contracts : List ObservationContract
  contracts = manifest.native_observation_contracts

  reported_accepted :
      (code : ℕ) (c : ObservationContract) (cs : List ObservationContract) (o : NativeObservation)
      (os : List NativeObservation)
      → contracts ≡ c ∷ cs
      → Each reader artifacts manifest (c ∷ cs) (o ∷ os)
      → DistinctContracts (c ∷ cs)
      → validate_native_result reader (reported (o ∷ os)) (exited code) artifacts manifest ≡ ok tt
  unfolding validate_native_result
  reported_accepted code c cs o os e each d = rw e (
      ground (
        arith,
        length_of reader artifacts manifest (c ∷ cs) (o ∷ os) each,
        unique_of reader artifacts manifest (c ∷ cs) (o ∷ os) [] each d
            (none-Unread reader artifacts manifest (c ∷ cs)),
        contracts_hold reader artifacts manifest (c ∷ cs) [] (o ∷ os)
            (none_matched reader artifacts manifest (c ∷ cs)) each d,
      ))

  all_accepted :
      (code : ℕ) (c : ObservationContract) (cs : List ObservationContract)
      (more os : List NativeObservation)
      → contracts ≡ c ∷ cs
      → os ≡ more
      → Each reader artifacts manifest (c ∷ cs) more
      → DistinctContracts (c ∷ cs)
      → validate_native_result reader (reported os) (exited code) artifacts manifest ≡ ok tt
  all_accepted code c cs [] os e j each d = elim each [ ]
  all_accepted code c cs (o ∷ more) os e j each d =
      rw j (reported_accepted code c cs o more e each d)

  accepts :
      (code : ℕ) (cs : List ObservationContract) (result : NativeResult)
      → contracts ≡ cs
      → loop_or_absent reader artifacts cs ≡ result
      → All (Backed artifacts manifest) cs
      → DistinctContracts cs
      → validate_native_result reader result (exited code) artifacts manifest ≡ ok tt
  accepts code [] result e h b d = rw⁻¹ h (
      absent_accepted reader artifacts manifest (lit "native_result_absent") [] (exited code)
        (refl, known_absent))
  accepts code (c ∷ cs) (not_reported reason os) e h b d =
      absent_accepted reader artifacts manifest reason os (exited code)
        (known_absence reader artifacts manifest (c ∷ cs) [] reason os h)
  accepts code (c ∷ cs) (reported os) e h b d =
      let observed = Observed-All reader artifacts manifest (c ∷ cs) [] os b h in
      all_accepted code c cs observed.more os e observed.joins observed.each d

  -- What `extract_native_result` (src/native.rs) records of a run is accepted by
  -- `validate_native_result` (src/run_validation.rs), however the process ended and whatever it
  -- printed, if the manifest's observation contracts are pairwise different and each is backed: one
  -- artifact of the run carries its role, as the raw process stream that the manifest declares.
  pub validate-extract_native_result :
      (termination : Termination)
      → All (Backed artifacts manifest) manifest.native_observation_contracts
      → DistinctContracts manifest.native_observation_contracts
      → validate_native_result reader
          (extract_native_result reader manifest termination artifacts)
          termination
          artifacts
          manifest
        ≡ ok tt
  unfolding extract_native_result
  validate-extract_native_result (exited code) b d = accepts code contracts _ refl refl b d
  validate-extract_native_result (signaled s) b d =
      absent_accepted reader artifacts manifest (lit "process_not_exited") [] _
        (refl, known_not_exited)
  validate-extract_native_result (timed_out s) b d =
      absent_accepted reader artifacts manifest (lit "process_not_exited") [] _
        (refl, known_not_exited)
  validate-extract_native_result (spawn_error s m) b d =
      absent_accepted reader artifacts manifest (lit "process_not_exited") [] _
        (refl, known_not_exited)
  validate-extract_native_result (interrupted s) b d =
      absent_accepted reader artifacts manifest (lit "process_not_exited") [] _
        (refl, known_not_exited)
