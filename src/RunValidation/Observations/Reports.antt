-- ===== src/RunValidation/Observations/Reports.antt =====
-- The observation of one contract, as src/native.rs records it, passes the check that
-- src/run_validation.rs makes of it.
use evidence_workbench.Prelude.{
  ◌≡◌, refl, ap, true, false, ◌&&◌, List, [], ◌∷◌, Outcome, ok, err, panic, diverge, arith, some,
}
use evidence_workbench.Text.{Text, same}
use evidence_workbench.Json.{Json}
use evidence_workbench.Json.Laws.{plus_zero}
use evidence_workbench.Contracts.Run.{ArtifactDescriptor, Locator, NativeObservation}
use evidence_workbench.Manifests.{ToolManifest, ObservationContract}
use evidence_workbench.Validation.Topology.Spec.{All}
use evidence_workbench.Native.Projection.{
  Reader, observed, find_role, extract_format, observation_of, read_turn, turn,
}
use evidence_workbench.RunValidation.Observations.{
  role_contracts, role_artifacts, is_raw_stream, one_exact_stream, validate_observation,
}
use evidence_workbench.RunValidation.Observations.Accepts.{validate_observation_iff}
use evidence_workbench.RunValidation.Observations.Only.{
  role_contracts_iff, role_artifacts_iff, is_raw_stream_iff, one_exact_stream_iff,
}

-- One artifact of the run carries the contract's role: a raw process stream, that the manifest
-- declares once, as an exact captured stream.
pub record Backed (artifacts : List ArtifactDescriptor) (manifest : ToolManifest)
    (contract : ObservationContract) : Type 0 where
  pub artifact : ArtifactDescriptor
  pub stream :
      one_exact_stream (role_contracts contract.artifact_role manifest.artifact_contracts) ≡ true
  pub only : role_artifacts contract.artifact_role artifacts ≡ artifact ∷ []
  pub raw : is_raw_stream contract.artifact_role artifact ≡ true

-- The two contracts are for different observations.
abbrev pub Differs : ObservationContract → ObservationContract → Type 0
Differs c d = (same c.namespace d.namespace && same c.name d.name) ≡ false

abbrev pub DistinctContracts : List ObservationContract → Type 0
DistinctContracts [] = Unit
DistinctContracts (c ∷ cs) = All (Differs c) cs × DistinctContracts cs

find_role-first :
    (role : Text) (artifacts rest : List ArtifactDescriptor) (a : ArtifactDescriptor)
    → role_artifacts role artifacts ≡ a ∷ rest
    → find_role role artifacts ≡ some a
unfolding find_role role_artifacts
find_role-first role [] rest a h = cc
find_role-first role (b ∷ artifacts) rest a h =
    ground (arith, h, find_role-first role artifacts rest a)

module _ (reader : Reader) where
  -- What the observation of one contract is.
  record Read (contract : ObservationContract) (a : ArtifactDescriptor) (o : NativeObservation)
      : Type 0 where
    bytes : Text
    value : Json
    locator : Locator
    read : reader.read_verified_descriptor a ≡ ok bytes
    extracted : extract_format reader contract bytes ≡ ok (value, locator)
    is_observation : o ≡ observation_of contract a value locator

  format_found :
      (contract : ObservationContract) (a : ArtifactDescriptor) (o : NativeObservation)
      (bytes : Text) (found : Outcome (Json × Locator))
      → reader.read_verified_descriptor a ≡ ok bytes
      → extract_format reader contract bytes ≡ found
      → read_turn reader contract a (ok bytes) ≡ observed o
      → Read contract a o
  unfolding read_turn
  format_found contract a o bytes (ok (value, locator)) r e h = record {
    bytes = bytes;
    value = value;
    locator = locator;
    read = r;
    extracted = e;
    is_observation = ground (arith, e, h);
  }
  format_found contract a o bytes (err m) r e h = ground (arith, e, h)
  format_found contract a o bytes panic r e h = ground (arith, e, h)
  format_found contract a o bytes diverge r e h = ground (arith, e, h)

  bytes_found :
      (contract : ObservationContract) (a : ArtifactDescriptor) (o : NativeObservation)
      (found : Outcome Text)
      → reader.read_verified_descriptor a ≡ found
      → read_turn reader contract a found ≡ observed o
      → Read contract a o
  bytes_found contract a o (ok bytes) e h = format_found contract a o bytes _ e refl h
  bytes_found contract a o (err m) e h = unfold read_turn in cc
  bytes_found contract a o panic e h = unfold read_turn in cc
  bytes_found contract a o diverge e h = unfold read_turn in cc

  turn_reads :
      (artifacts : List ArtifactDescriptor) (contract : ObservationContract)
      (a : ArtifactDescriptor) (o : NativeObservation)
      → find_role contract.artifact_role artifacts ≡ some a
      → turn reader artifacts contract ≡ observed o
      → read_turn reader contract a (reader.read_verified_descriptor a) ≡ observed o
  unfolding turn
  turn_reads artifacts contract a o f h = ground (arith, f, h)

  -- The observation is that of the contract, and its check succeeds.
  pub record Reports (artifacts : List ArtifactDescriptor) (manifest : ToolManifest)
      (contract : ObservationContract) (o : NativeObservation) : Type 0 where
    pub same_namespace : o.namespace ≡ contract.namespace
    pub same_name : o.name ≡ contract.name
    pub checks : validate_observation reader artifacts manifest contract o ≡ ok tt

  pub Reports-of :
      (artifacts : List ArtifactDescriptor) (manifest : ToolManifest)
      (contract : ObservationContract) (o : NativeObservation)
      → Backed artifacts manifest contract
      → turn reader artifacts contract ≡ observed o
      → Reports artifacts manifest contract o
  Reports-of artifacts manifest contract o b h =
      let r = bytes_found contract b.artifact o _ refl (
        turn_reads artifacts contract b.artifact o
          (find_role-first contract.artifact_role artifacts [] b.artifact b.only) h) in
      let (c, k, exact, captured) = (one_exact_stream_iff _).0 b.stream in
      record {
        same_namespace = ap (λ (x : NativeObservation). x.namespace) r.is_observation;
        same_name = ap (λ (x : NativeObservation). x.name) r.is_observation;
        checks = (validate_observation_iff reader artifacts manifest contract o).1 (record {
          projection_only = ap (λ (x : NativeObservation). x.projection_only) r.is_observation;
          artifact = b.artifact;
          locator = r.locator;
          bytes = r.bytes;
          source = ap (λ (x : NativeObservation). x.source) r.is_observation;
          stream = c;
          stream_only = (role_contracts_iff contract.artifact_role _ c).0 k;
          stream_exact = exact;
          stream_captured = captured;
          only = (role_artifacts_iff contract.artifact_role artifacts b.artifact).0 b.only;
          raw = (is_raw_stream_iff contract.artifact_role b.artifact).0 b.raw;
          read = r.read;
          value = r.value;
          extracted = r.extracted;
          same_value = ap (λ (x : NativeObservation). plus_zero x.value) r.is_observation;
        });
      }
