-- ===== src/Pins/Registry/Ready.antt =====
-- What `all` and `require_ready_for_planning` of src/upstream_pins.rs promise of a pin.
use evidence_workbench.Prelude.{
  ◌||◌, ◌≡◌, refl, sym, ◌∙◌, ap, subst, Bool, List, [], ◌∷◌, some, Outcome, ok, >>=-eq-ok, >>-eq-ok,
  ensure-eq-ok, arith, Memᴰ, Bool-cases, inl, inr,
}
use evidence_workbench.Text.{Text, same, same_iff}
use evidence_workbench.Text.Order.{before}
use evidence_workbench.Collections.{contains, insert, collect_set, SameKeys}
use evidence_workbench.Collections.Laws.{contains-collect_set, equal_sets_iff}
use evidence_workbench.Validation.Topology.Spec.{All}
use evidence_workbench.Manifests.{ToolManifest}
use evidence_workbench.Manifests.Registry.{TrustedManifest, load_embedded}
use evidence_workbench.Pins.Records.{UpstreamPin, TrustedUpstreamPin, CandidatePin}
use evidence_workbench.Pins.Upstream.{
  validate_upstream, validate_readiness_against_manifest, find_pin, cross_validate_stateweaver,
}
use evidence_workbench.Pins.Registry.{
  place_pin, sort_pins, manifest_ids, pin_ids, manifest_of, load_pins, all_pins,
}

module _ (P : TrustedUpstreamPin → Type 0) where
  every_placed :
      (entry : TrustedUpstreamPin) (pins : List TrustedUpstreamPin)
      → P entry × All P pins
      → All P (place_pin entry pins)
  unfolding place_pin
  every_placed entry [] a = a
  every_placed entry (x ∷ xs) (p, (q, a)) =
      elim (Bool-cases (before x.pin.tool_manifest_id entry.pin.tool_manifest_id)) [
        | inl h ↦ rw h (q, every_placed entry xs (p, a))
        | inr h ↦ rw h (p, (q, a))
      ]

  every_sorted : (pins : List TrustedUpstreamPin) → All P pins → All P (sort_pins pins)
  unfolding sort_pins
  every_sorted [] a = tt
  every_sorted (x ∷ xs) (p, a) = every_placed x (sort_pins xs) (p, every_sorted xs a)

  pub found_in :
      (id : Text) (pins : List TrustedUpstreamPin) (entry : TrustedUpstreamPin)
      → All P pins
      → find_pin id pins ≡ some entry
      → P entry × (entry.pin.tool_manifest_id ≡ id)
  unfolding find_pin
  found_in id [] entry a h = cc
  found_in id (x ∷ xs) entry (p, a) h = elim (Bool-cases (same x.pin.tool_manifest_id id)) [
    | inl e ↦
        subst (λ y. P y × (y.pin.tool_manifest_id ≡ id)) (ground (arith, e, h))
          (p, (same_iff x.pin.tool_manifest_id id).0 e)
    | inr n ↦ found_in id xs entry a (ground (arith, n, h))
  ]

-- Sorting changes no identifier.
contains-placed :
    (k : Text) (entry : TrustedUpstreamPin) (pins : List TrustedUpstreamPin)
    → contains k (pin_ids (place_pin entry pins))
      ≡ (same k entry.pin.tool_manifest_id || contains k (pin_ids pins))
unfolding place_pin contains
contains-placed k entry [] = refl
contains-placed k entry (x ∷ xs) =
    elim (Bool-cases (before x.pin.tool_manifest_id entry.pin.tool_manifest_id)) [
      | inl h ↦ rw h (ground (arith, contains-placed k entry xs))
      | inr h ↦ rw h refl
    ]

contains-sorted :
    (k : Text) (pins : List TrustedUpstreamPin)
    → contains k (pin_ids (sort_pins pins)) ≡ contains k (pin_ids pins)
unfolding sort_pins contains
contains-sorted k [] = refl
contains-sorted k (x ∷ xs) =
    contains-placed k x (sort_pins xs)
    ∙ ap (λ b. same k x.pin.tool_manifest_id || b) (contains-sorted k xs)

module _ (is_rfc3339 : Text → Bool) (digest_hex : Text → Text)
    (manifest_from_str : Text → Outcome ToolManifest) (manifests_embedded : List Text)
    (pin_from_str : Text → Outcome UpstreamPin) (candidate_from_str : Text → Outcome CandidatePin)
    (candidates_embedded : List Text) where
  -- The pin is that of an embedded text and belongs to a trusted manifest.
  pub record IsPinned (embedded : List Text) (entry : TrustedUpstreamPin) : Type 0 where
    pub is_embedded : Memᴰ entry.raw embedded
    pub reads : pin_from_str entry.raw ≡ ok entry.pin
    pub digest : entry.sha256 ≡ digest_hex entry.raw
    pub valid : validate_upstream is_rfc3339 entry.pin ≡ ok tt
    pub manifest : TrustedManifest
    pub known :
        manifest_of is_rfc3339 digest_hex manifest_from_str manifests_embedded pin_from_str
          candidate_from_str candidates_embedded entry.pin.tool_manifest_id
        ≡ ok manifest
    pub enabled : validate_readiness_against_manifest entry.pin manifest ≡ ok tt

  more :
      (raw : Text) (embedded : List Text) (pins : List TrustedUpstreamPin)
      → All (IsPinned embedded) pins
      → All (IsPinned (raw ∷ embedded)) pins
  more raw embedded [] a = tt
  more raw embedded (p ∷ ps) (one, rest) = (
    record {
      is_embedded = Memᴰ.tail one.is_embedded;
      reads = one.reads;
      digest = one.digest;
      valid = one.valid;
      manifest = one.manifest;
      known = one.known;
      enabled = one.enabled;
    },
    more raw embedded ps rest,
  )

  pub ok_list : {A : Type 0} (a b : A) → ◌≡◌ {A = Outcome A} (ok a) (ok b) → a ≡ b
  ok_list a b h = cc

  pins_loaded :
      (embedded ids : List Text) (pins : List TrustedUpstreamPin)
      → load_pins is_rfc3339 digest_hex manifest_from_str manifests_embedded pin_from_str
          candidate_from_str candidates_embedded embedded ids
        ≡ ok pins
      → All (IsPinned embedded) pins
  unfolding load_pins
  pins_loaded [] ids pins h = subst (All (IsPinned [])) (ok_list [] pins h) tt
  pins_loaded (raw ∷ embedded) ids pins h =
      let (pin, reads, h₁) = >>=-eq-ok (pin_from_str raw) _ h in
      let (valid, h₂) = >>-eq-ok (validate_upstream is_rfc3339 pin) _ h₁ in
      let (manifest, known, h₃) =
        >>=-eq-ok
          (manifest_of is_rfc3339 digest_hex manifest_from_str manifests_embedded pin_from_str
            candidate_from_str candidates_embedded pin.tool_manifest_id)
          _ h₂ in
      let (enabled, h₄) = >>-eq-ok (validate_readiness_against_manifest pin manifest) _ h₃ in
      let (new, h₅) = >>-eq-ok _ _ h₄ in
      let (later, loads, h₆) =
        >>=-eq-ok
          (load_pins is_rfc3339 digest_hex manifest_from_str manifests_embedded pin_from_str
            candidate_from_str candidates_embedded embedded (insert pin.tool_manifest_id ids))
          _ h₅ in
      let first : TrustedUpstreamPin = record { pin = pin; sha256 = digest_hex raw; raw = raw } in
      let pinned : IsPinned (raw ∷ embedded) first = record {
        is_embedded = Memᴰ.head refl;
        reads = reads;
        digest = refl;
        valid = valid;
        manifest = manifest;
        known = known;
        enabled = enabled;
      } in
      let rest =
        more raw embedded later
          (pins_loaded embedded (insert pin.tool_manifest_id ids) later loads) in
      subst (All (IsPinned (raw ∷ embedded))) (ok_list (first ∷ later) pins h₆) (pinned, rest)

  -- The pins that are returned are the embedded ones, each with the manifest of its tool, and the
  -- tools that are pinned are exactly those that have a manifest.
  pub all_pins-cover :
      (embedded : List Text) (pins : List TrustedUpstreamPin)
      → all_pins is_rfc3339 digest_hex manifest_from_str manifests_embedded pin_from_str
          candidate_from_str candidates_embedded embedded
        ≡ ok pins
      → All (IsPinned embedded) pins
        × ((manifests : List TrustedManifest) × (load_embedded manifest_from_str digest_hex
                manifests_embedded
              ≡ ok manifests)
            × SameKeys (pin_ids pins) (manifest_ids manifests))
  unfolding all_pins
  all_pins-cover embedded pins h =
      let (manifests, loads, h₁) =
        >>=-eq-ok (load_embedded manifest_from_str digest_hex manifests_embedded) _ h in
      let (found, each, h₂) =
        >>=-eq-ok
          (load_pins is_rfc3339 digest_hex manifest_from_str manifests_embedded pin_from_str
            candidate_from_str candidates_embedded embedded [])
          _ h₁ in
      let (equal', h₃) = >>-eq-ok _ _ h₂ in
      let (crossed, h₄) = >>-eq-ok (cross_validate_stateweaver (sort_pins found) _) _ h₃ in
      let covers =
        (equal_sets_iff (collect_set (pin_ids found)) (collect_set (manifest_ids manifests))).0
          (ensure-eq-ok _ _ equal') in
      subst
        (λ pins.
          All (IsPinned embedded) pins
          × ((manifests : List TrustedManifest) × (load_embedded manifest_from_str digest_hex
                  manifests_embedded
                ≡ ok manifests)
              × SameKeys (pin_ids pins) (manifest_ids manifests)))
        (ok_list (sort_pins found) pins h₄)
        (
          every_sorted (IsPinned embedded) found (pins_loaded embedded [] found each),
          (
            manifests,
            loads,
            λ k.
                contains-sorted k found
                ∙ (sym (contains-collect_set k (pin_ids found))
                    ∙ (covers k ∙ contains-collect_set k (manifest_ids manifests))),
          ),
        )
