-- ===== src/RunValidation/Observations/Accepts.antt =====
-- `validate_observation` of src/run_validation.rs, and its copy of the extraction beside the one of
-- src/native.rs.
use evidence_workbench.Prelude.{
  String, length, ℕ, ◌+◌, ◌≡◌, refl, ◌↔◌, sym, ◌∙◌, ap, Bool, true, List, [], ◌∷◌, ok, ◌>>◌, ensure,
  >>=-eq-ok, >>-eq-ok, ensure-eq-ok, arith, Option-cases, inl, inr, Memᴰ,
}
use evidence_workbench.Text.{Text, lit, same_iff, same_refl}
use evidence_workbench.Text.Utf8.{from_utf8}
use evidence_workbench.Text.Lines.{split_inclusive}
use evidence_workbench.Json.{Json, same_json}
use evidence_workbench.Json.Laws.{plus_zero, same_json_iff}
use evidence_workbench.RunValidation.Observations.Only.{
  IsOnly, role_contracts_iff, role_artifacts_iff, IsRawStream, is_raw_stream_iff,
  one_exact_stream_iff,
}
use evidence_workbench.Contracts.Run.{
  ArtifactDescriptor, Locator, same_locator, same_locator_iff, ObservationSource, from_artifact,
  process_exit, NativeObservation,
}
use evidence_workbench.Manifests.{ToolManifest, ArtifactContract, ObservationContract}
use evidence_workbench.Native.Projection.{
  Reader, byte_range, found_prefix, scan_lines, extract_text_prefix, extract_json, extract_format,
}
use evidence_workbench.RunValidation.Observations.{
  re_scan_lines, re_extract_text_prefix, one_artifact, source_of, extract, validate_observation,
}

scans_agree :
    (lines : List Text) (offset : ℕ) (prefix : Text)
    → re_scan_lines lines offset prefix ≡ scan_lines lines offset prefix
unfolding re_scan_lines scan_lines found_prefix byte_range
scans_agree [] offset prefix = refl
scans_agree (line ∷ rest) offset prefix =
    ground (arith, scans_agree rest (offset + length line) prefix)

prefixes_agree :
    (bytes prefix : Text) → re_extract_text_prefix bytes prefix ≡ extract_text_prefix bytes prefix
unfolding re_extract_text_prefix extract_text_prefix
prefixes_agree bytes prefix = elim (Option-cases (from_utf8 bytes)) [
  | inl e ↦ rw e refl
  | inr (text, e) ↦ rw e (scans_agree (split_inclusive b'\n' text) 0 prefix)
]

both_hold :
    (a b : Bool) (m n : String) → (ensure a m >> ensure b n) ≡ ok tt → (a ≡ true) × (b ≡ true)
both_hold a b m n h = ground arith

module _ (reader : Reader) where
  -- The extraction that validates a run (src/run_validation.rs) and the one that records it
  -- (src/native.rs) are written twice: for every format, selector and output, one returns a value
  -- and locator exactly if the other returns the same.
  pub extract-agrees :
      (contract : ObservationContract) (bytes : Text) (result : Json × Locator)
      → (extract reader contract bytes ≡ ok result)
        ↔ (extract_format reader contract bytes ≡ ok result)
  unfolding extract extract_format extract_json
  extract-agrees contract bytes result = ground (arith, prefixes_agree bytes contract.selector)

  -- One contract of the manifest is for the role, an exact captured stream; one artifact of the run
  -- carries the role, the raw stream of the process; and the extraction of src/native.rs finds in
  -- its verified bytes the locator and, up to the sign of a zero, the value.
  pub record IsExact (artifacts : List ArtifactDescriptor) (manifest : ToolManifest)
      (contract : ObservationContract) (o : NativeObservation) : Type 0 where
    pub projection_only : o.projection_only ≡ true
    pub artifact : ArtifactDescriptor
    pub locator : Locator
    pub bytes : Text
    pub source : o.source ≡ from_artifact artifact.artifact_id locator
    pub stream : ArtifactContract
    pub stream_only :
        IsOnly
          (λ (x : ArtifactContract). x.role ≡ contract.artifact_role)
          manifest.artifact_contracts
          stream
    pub stream_exact : stream.byte_policy ≡ lit "exact"
    pub stream_captured : stream.discovery ≡ lit "captured_stream"
    pub only :
        IsOnly (λ (x : ArtifactDescriptor). Memᴰ contract.artifact_role x.roles) artifacts artifact
    pub raw : IsRawStream contract.artifact_role artifact
    pub read : reader.read_verified_descriptor artifact ≡ ok bytes
    pub value : Json
    pub extracted : extract_format reader contract bytes ≡ ok (value, locator)
    pub same_value : plus_zero o.value ≡ plus_zero value

  source_found :
      (s : ObservationSource) (id : Text) (l : Locator)
      → source_of s ≡ ok (id, l)
      → s ≡ from_artifact id l
  source_found (from_artifact i k) id l h = ground arith
  source_found (process_exit p) id l h = cc

  artifact_found :
      (found : List ArtifactDescriptor) (id : Text) (a : ArtifactDescriptor)
      → one_artifact found id ≡ ok a
      → (found ≡ a ∷ []) × (a.artifact_id ≡ id)
  artifact_found [] id a h = cc
  artifact_found (b ∷ []) id a h = ground (arith, same_iff b.artifact_id id)
  artifact_found (b ∷ c ∷ rest) id a h = cc

  IsExact-found :
      (artifacts : List ArtifactDescriptor) (manifest : ToolManifest)
      (contract : ObservationContract) (o : NativeObservation)
      → validate_observation reader artifacts manifest contract o ≡ ok tt
      → IsExact artifacts manifest contract o
  unfolding validate_observation
  IsExact-found artifacts manifest contract o h =
      let (p, h1) = >>-eq-ok _ _ h in
      let ((id, l), s, h2) = >>=-eq-ok (source_of o.source) _ h1 in
      let (stream, h3) = >>-eq-ok _ _ h2 in
      let (a, found, h4) = >>=-eq-ok (one_artifact _ id) _ h3 in
      let (raw, h5) = >>-eq-ok _ _ h4 in
      let (bytes, read, h6) = >>=-eq-ok (reader.read_verified_descriptor a) _ h5 in
      let ((value, k), ex, h7) = >>=-eq-ok (extract reader contract bytes) _ h6 in
      let (here, equal) =
        both_hold (same_locator l k) (same_json o.value value)
          "native observation locator does not match exact re-extraction"
          "native observation value does not match exact re-extraction" h7 in
      let (only, named) = artifact_found _ id a found in
      let (c, k1, exact, captured) = (one_exact_stream_iff _).0 (ensure-eq-ok _ _ stream) in
      record {
        projection_only = ensure-eq-ok _ _ p;
        artifact = a;
        locator = l;
        bytes = bytes;
        source = source_found o.source id l s ∙ ap (λ i. from_artifact i l) (sym named);
        stream = c;
        stream_only = (role_contracts_iff contract.artifact_role _ c).0 k1;
        stream_exact = exact;
        stream_captured = captured;
        only = (role_artifacts_iff contract.artifact_role artifacts a).0 only;
        raw = (is_raw_stream_iff contract.artifact_role a).0 (ensure-eq-ok _ _ raw);
        read = read;
        value = value;
        extracted =
            (extract-agrees contract bytes (value, l)).0
              (ex ∙ ap (λ j. ok (value, j)) (sym ((same_locator_iff l k).0 here)));
        same_value = (same_json_iff o.value value).0 equal;
      }

  one_artifact_lem : (a : ArtifactDescriptor) → one_artifact (a ∷ []) a.artifact_id ≡ ok a
  one_artifact_lem a = rw (same_refl a.artifact_id) refl

  -- `validate_observation` accepts exactly the observations that are exact: projections of the one
  -- artifact of the run that carries the contract's role, which is the raw stream of the process that
  -- the role names and the only one that the manifest declares for it, as an exact captured stream,
  -- with the locator that the extraction of src/native.rs gives from the verified bytes of this
  -- artifact, and with the value that it gives, where 0.0 and -0.0 count as the same.
  pub validate_observation_iff :
      (artifacts : List ArtifactDescriptor) (manifest : ToolManifest)
      (contract : ObservationContract) (o : NativeObservation)
      → (validate_observation reader artifacts manifest contract o ≡ ok tt)
        ↔ IsExact artifacts manifest contract o
  unfolding validate_observation
  validate_observation_iff artifacts manifest contract o = (
    IsExact-found artifacts manifest contract o,
    λ v.
        rw
          (
            v.projection_only,
            v.source,
            (one_exact_stream_iff _).1 (
              v.stream,
              (role_contracts_iff contract.artifact_role _ v.stream).1 v.stream_only,
              v.stream_exact,
              v.stream_captured,
            ),
            (role_artifacts_iff contract.artifact_role artifacts v.artifact).1 v.only,
          )
          (rw (one_artifact_lem v.artifact) (
            rw ((is_raw_stream_iff contract.artifact_role v.artifact).1 v.raw, v.read)
              (rw ((extract-agrees contract v.bytes (v.value, v.locator)).1 v.extracted) (
                rw
                  (
                    (same_locator_iff v.locator v.locator).1 refl,
                    (same_json_iff o.value v.value).1 v.same_value,
                  )
                  refl)))),
  )
