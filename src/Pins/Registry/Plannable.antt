-- ===== src/Pins/Registry/Plannable.antt =====
-- `require_ready_for_planning` of src/upstream_pins.rs: what is known of a tool that may be planned.
use evidence_workbench.Prelude.{
  ◌≡◌, refl, subst, Bool, true, false, List, [], ◌∷◌, Option, none, some, Outcome, ok, >>=-eq-ok,
  >>-eq-ok, ensure-eq-ok, arith,
}
use evidence_workbench.Text.{Text}
use evidence_workbench.Handoffs.Lineage.{ok_or-eq-ok}
use evidence_workbench.Manifests.{ToolManifest}
use evidence_workbench.Manifests.Registry.{TrustedManifest, validate_id}
use evidence_workbench.Pins.Records.{
  ReadinessState, ready, fail_closed, RuntimeKind, native, python, UpstreamPin, TrustedUpstreamPin,
  CandidatePin,
}
use evidence_workbench.Pins.Upstream.{
  validate_integrity, validate_runtime, validate_all_evidence, validate_identity,
  consistent_blockers, is_ready, is_native, is_some_false, is_closed, validate_upstream,
  validate_readiness, validate_readiness_against_manifest, find_pin,
}
use evidence_workbench.Pins.Fields.{is_nil}
use evidence_workbench.Pins.Registry.{all_pins, get_for_tool, require_ready_for_planning}
use evidence_workbench.Pins.Registry.Ready.{IsPinned, all_pins-cover, found_in, ok_list}

nil_of : {A : Type 0} (xs : List A) → is_nil xs ≡ true → xs ≡ []
nil_of [] h = refl
nil_of (x ∷ xs) h = cc

ready_of : (state : ReadinessState) → is_ready state ≡ true → state ≡ ready
ready_of ready h = refl
ready_of fail_closed h = cc

native_of : (kind : RuntimeKind) → is_native kind ≡ true → kind ≡ native
native_of native h = refl
native_of python h = cc

some-false_of : (flag : Option Bool) → is_some_false flag ≡ true → flag ≡ some false
some-false_of none h = cc
some-false_of (some true) h = cc
some-false_of (some false) h = refl

unblocked_ready :
    (state : ReadinessState) (blockers : List Text)
    → is_ready state ≡ true
    → consistent_blockers state blockers ≡ ok tt
    → is_nil blockers ≡ true
unblocked_ready ready blockers r h = ensure-eq-ok (is_nil blockers) _ h
unblocked_ready fail_closed blockers r h = cc

-- A ready pin is closed, and its manifest is enabled.
closed_of :
    (pin : UpstreamPin) (manifest : TrustedManifest)
    → is_ready pin.execution_readiness.state ≡ true
    → validate_readiness_against_manifest pin manifest ≡ ok tt
    → (manifest.manifest.enabled_by_default ≡ true) × (is_closed pin ≡ true)
unfolding validate_readiness_against_manifest
closed_of pin manifest r h = (ground (arith, h, r), ground (arith, h, r))

module _ (is_rfc3339 : Text → Bool) (digest_hex : Text → Text)
    (manifest_from_str : Text → Outcome ToolManifest) (manifests_embedded : List Text)
    (pin_from_str : Text → Outcome UpstreamPin) (candidate_from_str : Text → Outcome CandidatePin)
    (candidates_embedded : List Text) where
  -- A pin whose tool may be planned: enabled by its manifest, and complete in itself.
  pub record IsPlannable (embedded : List Text) (id : Text) (entry : TrustedUpstreamPin)
      : Type 0 where
    pub id_is : entry.pin.tool_manifest_id ≡ id
    pub pinned :
        IsPinned is_rfc3339 digest_hex manifest_from_str manifests_embedded pin_from_str
          candidate_from_str candidates_embedded embedded entry
    pub enabled : pinned.manifest.manifest.enabled_by_default ≡ true
    pub state : entry.pin.execution_readiness.state ≡ ready
    pub unblocked : entry.pin.execution_readiness.blocker_codes ≡ []
    pub kind : entry.pin.runtime.kind ≡ native
    pub self_contained : entry.pin.runtime.self_contained ≡ true
    pub dependencies : entry.pin.runtime.transitive_dependencies_included ≡ true
    pub no_tools : entry.pin.runtime.external_tools ≡ []
    pub not_released : entry.pin.native_posture.release_eligible ≡ some false

  -- The last check of a pin.
  readiness_of :
      (pin : UpstreamPin)
      → validate_upstream is_rfc3339 pin ≡ ok tt
      → validate_readiness pin.execution_readiness ≡ ok tt
  unfolding validate_upstream
  readiness_of pin h =
      let (identity, h₁) = >>-eq-ok (validate_identity pin) _ h in
      let (evidence, h₂) = >>-eq-ok (validate_all_evidence is_rfc3339 pin) _ h₁ in
      let (runtime, h₃) = >>-eq-ok (validate_runtime pin.runtime) _ h₂ in
      (>>-eq-ok (validate_integrity pin) _ h₃).1

  unblocked_of :
      (pin : UpstreamPin)
      → is_ready pin.execution_readiness.state ≡ true
      → validate_readiness pin.execution_readiness ≡ ok tt
      → is_nil pin.execution_readiness.blocker_codes ≡ true
  unfolding validate_readiness
  unblocked_of pin r h =
      unblocked_ready pin.execution_readiness.state pin.execution_readiness.blocker_codes r
        (>>-eq-ok
          (consistent_blockers pin.execution_readiness.state pin.execution_readiness.blocker_codes)
          _ h).0

  -- A tool that may be planned is pinned by an embedded text, and its manifest is enabled; the pin is
  -- ready, names no blocker, and describes a native delivery that is complete in itself and is not
  -- eligible for release.
  pub require_ready_for_planning-IsPlannable :
      (embedded : List Text) (id : Text) (entry : TrustedUpstreamPin)
      → require_ready_for_planning is_rfc3339 digest_hex manifest_from_str manifests_embedded
          pin_from_str candidate_from_str candidates_embedded embedded id
        ≡ ok entry
      → IsPlannable embedded id entry
  unfolding require_ready_for_planning get_for_tool
  require_ready_for_planning-IsPlannable embedded id entry h =
      let (found, gets, h₁) =
        >>=-eq-ok
          (get_for_tool is_rfc3339 digest_hex manifest_from_str manifests_embedded pin_from_str
            candidate_from_str candidates_embedded embedded id)
          _ h in
      let (r, h₂) = >>-eq-ok _ _ h₁ in
      let (valid, g₁) = >>-eq-ok (validate_id id) _ gets in
      let (pins, loads, g₂) =
        >>=-eq-ok
          (all_pins is_rfc3339 digest_hex manifest_from_str manifests_embedded pin_from_str
            candidate_from_str candidates_embedded embedded)
          _ g₁ in
      let (pinned, is) =
        found_in
          (IsPinned is_rfc3339 digest_hex manifest_from_str manifests_embedded pin_from_str
            candidate_from_str candidates_embedded embedded)
          id pins found
          (all_pins-cover is_rfc3339 digest_hex manifest_from_str manifests_embedded pin_from_str
            candidate_from_str candidates_embedded embedded pins loads).0
          (ok_or-eq-ok (find_pin id pins) _ found g₂) in
      let is_r = ensure-eq-ok _ _ r in
      let (enabled, closed) = closed_of found.pin pinned.manifest is_r pinned.enabled in
      subst (IsPlannable embedded id)
        (ok_list is_rfc3339 digest_hex manifest_from_str manifests_embedded pin_from_str
          candidate_from_str candidates_embedded found entry h₂)
        (record {
          id_is = is;
          pinned = pinned;
          enabled = enabled;
          state = ready_of found.pin.execution_readiness.state is_r;
          unblocked =
              nil_of found.pin.execution_readiness.blocker_codes
                (unblocked_of found.pin is_r (readiness_of found.pin pinned.valid));
          kind = native_of found.pin.runtime.kind (ground (arith, closed));
          self_contained = ground (arith, closed);
          dependencies = ground (arith, closed);
          no_tools = nil_of found.pin.runtime.external_tools (ground (arith, closed));
          not_released =
              some-false_of found.pin.native_posture.release_eligible (ground (arith, closed));
        })
