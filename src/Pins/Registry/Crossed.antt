-- ===== src/Pins/Registry/Crossed.antt =====
-- `cross_validate_stateweaver` of src/upstream_pins.rs, as a part of `all`.
use evidence_workbench.Prelude.{
  ok_or, ◌∙◌, ap, ◌≡◌, subst, Bool, true, List, [], Option, none, some, Outcome, ok, >>=-eq-ok,
  >>-eq-ok, ensure-eq-ok, arith,
}
use evidence_workbench.Text.{Text, lit, same_iff}
use evidence_workbench.Handoffs.Lineage.{ok_or-eq-ok}
use evidence_workbench.Manifests.{ToolManifest}
use evidence_workbench.Manifests.Registry.{load_embedded}
use evidence_workbench.Pins.Records.{
  EvidenceRef, UpstreamPin, TrustedUpstreamPin, CandidatePin, TrustedCandidatePin,
}
use evidence_workbench.Pins.Candidate.{candidate_for_tool}
use evidence_workbench.Pins.Upstream.{
  find_pin, find_actions_artifact, agrees_with_candidate, same_option, cross_validate_stateweaver,
}
use evidence_workbench.Pins.Registry.{sort_pins, load_pins, manifest_of, all_pins}
use evidence_workbench.Pins.Registry.Ready.{ok_list}

-- The pin and the candidate are about the same source and the same artifact.
pub record Agrees (upstream : UpstreamPin) (artifact : EvidenceRef) (candidate : CandidatePin)
    : Type 0 where
  pub repository : upstream.repository_url ≡ candidate.repository_url
  pub commit : upstream.source.commit_sha ≡ candidate.source.commit_sha
  pub tree : upstream.source.tree_sha ≡ candidate.source.tree_sha
  pub id : artifact.id ≡ candidate.candidate.actions_artifact_id
  pub name : artifact.name ≡ candidate.candidate.actions_artifact_name
  pub subject : artifact.subject_commit_sha ≡ candidate.source.commit_sha
  pub sha256 : artifact.sha256 ≡ some candidate.candidate.actions_artifact_sha256
  pub expiry : artifact.expires_at ≡ some candidate.candidate.expires_at
  pub no_authority : candidate.workbench_admission.authority_effect ≡ lit "none"

same_some : (o : Option Text) (t : Text) → same_option o (some t) ≡ true → o ≡ some t
same_some none t h = cc
same_some (some a) t h = ap some ((same_iff a t).0 h)

agreement :
    (upstream : UpstreamPin) (artifact : EvidenceRef) (candidate : CandidatePin)
    → agrees_with_candidate upstream artifact candidate ≡ true
    → Agrees upstream artifact candidate
unfolding agrees_with_candidate
agreement upstream artifact candidate h = record {
  repository = (same_iff _ _).0 (ground (arith, h));
  commit = (same_iff _ _).0 (ground (arith, h));
  tree = (same_iff _ _).0 (ground (arith, h));
  id = (same_iff _ _).0 (ground (arith, h));
  name = (same_iff _ _).0 (ground (arith, h));
  subject = (same_iff _ _).0 (ground (arith, h));
  sha256 = same_some _ _ (ground (arith, h));
  expiry = same_some _ _ (ground (arith, h));
  no_authority = (same_iff _ _).0 (ground (arith, h));
}

-- The candidate, its artifact and the pin that the check compares.
pub record IsCrossed (pins : List TrustedUpstreamPin)
    (candidate_of : Outcome (Option TrustedCandidatePin)) : Type 0 where
  pub upstream : TrustedUpstreamPin
  pub pinned : find_pin (lit "stateweaver-foundation") pins ≡ some upstream
  pub candidate : TrustedCandidatePin
  pub trusted : candidate_of ≡ ok (some candidate)
  pub artifact : EvidenceRef
  pub retained : find_actions_artifact upstream.pin.evidence ≡ some artifact
  pub agrees : Agrees upstream.pin artifact candidate.pin

crossed :
    (pins : List TrustedUpstreamPin) (candidate_of : Outcome (Option TrustedCandidatePin))
    → cross_validate_stateweaver pins candidate_of ≡ ok tt
    → IsCrossed pins candidate_of
unfolding cross_validate_stateweaver
crossed pins candidate_of h =
    let (upstream, p, h₁) =
      >>=-eq-ok
        (ok_or (find_pin (lit "stateweaver-foundation") pins) "StateWeaver upstream pin missing") _
        h in
    let (found, q, h₂) = >>=-eq-ok candidate_of _ h₁ in
    let (candidate, r, h₃) =
      >>=-eq-ok (ok_or found "StateWeaver detailed candidate pin missing") _ h₂ in
    let (artifact, s, h₄) =
      >>=-eq-ok
        (ok_or (find_actions_artifact upstream.pin.evidence)
          "StateWeaver generic Actions artifact missing")
        _ h₃ in
    record {
      upstream = upstream;
      pinned = ok_or-eq-ok _ _ upstream p;
      candidate = candidate;
      trusted = q ∙ ap ok (ok_or-eq-ok found _ candidate r);
      artifact = artifact;
      retained = ok_or-eq-ok _ _ artifact s;
      agrees = agreement upstream.pin artifact candidate.pin (ensure-eq-ok _ _ h₄);
    }

module _ (is_rfc3339 : Text → Bool) (digest_hex : Text → Text)
    (manifest_from_str : Text → Outcome ToolManifest) (manifests_embedded : List Text)
    (pin_from_str : Text → Outcome UpstreamPin) (candidate_from_str : Text → Outcome CandidatePin)
    (candidates_embedded : List Text) where
  -- In the pins that are returned, that of StateWeaver and the trusted candidate of StateWeaver name
  -- the same repository, commit and tree, and the same artifact with its digest and its expiry.
  pub all_pins-IsCrossed :
      (embedded : List Text) (pins : List TrustedUpstreamPin)
      → all_pins is_rfc3339 digest_hex manifest_from_str manifests_embedded pin_from_str
          candidate_from_str candidates_embedded embedded
        ≡ ok pins
      → IsCrossed pins (
          candidate_for_tool is_rfc3339 candidate_from_str digest_hex
            (manifest_of is_rfc3339 digest_hex manifest_from_str manifests_embedded pin_from_str
              candidate_from_str candidates_embedded)
            candidates_embedded
            (lit "stateweaver-foundation"))
  unfolding all_pins
  all_pins-IsCrossed embedded pins h =
      let (manifests, loads, h₁) =
        >>=-eq-ok (load_embedded manifest_from_str digest_hex manifests_embedded) _ h in
      let (found, each, h₂) =
        >>=-eq-ok
          (load_pins is_rfc3339 digest_hex manifest_from_str manifests_embedded pin_from_str
            candidate_from_str candidates_embedded embedded [])
          _ h₁ in
      let (covers, h₃) = >>-eq-ok _ _ h₂ in
      let (checked, h₄) =
        >>-eq-ok
          (cross_validate_stateweaver (sort_pins found) (
            candidate_for_tool is_rfc3339 candidate_from_str digest_hex
              (manifest_of is_rfc3339 digest_hex manifest_from_str manifests_embedded pin_from_str
                candidate_from_str candidates_embedded)
              candidates_embedded (lit "stateweaver-foundation")))
          _ h₃ in
      subst
        (λ pins. IsCrossed pins (
          candidate_for_tool is_rfc3339 candidate_from_str digest_hex
            (manifest_of is_rfc3339 digest_hex manifest_from_str manifests_embedded pin_from_str
              candidate_from_str candidates_embedded)
            candidates_embedded (lit "stateweaver-foundation")))
        (ok_list is_rfc3339 digest_hex manifest_from_str manifests_embedded pin_from_str
          candidate_from_str candidates_embedded (sort_pins found) pins h₄)
        (crossed (sort_pins found) _ checked)
