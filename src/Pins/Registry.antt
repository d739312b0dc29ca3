-- ===== src/Pins/Registry.antt =====
-- src/upstream_pins.rs: `all` and the lookups, over the embedded pins and the embedded manifests.
pub mod Ready
pub mod Crossed
pub mod Plannable
use evidence_workbench.Prelude.{
  Bool, true, false, not, ◌&&◌, Option, none, some, List, [], ◌∷◌, Outcome, Checked, ok, ◌>>=◌,
  ◌>>◌, ensure, ok_or, if◌then◌else◌,
}
use evidence_workbench.Text.{Text, lit, same}
use evidence_workbench.Text.Order.{before}
use evidence_workbench.Collections.{contains, insert, collect_set, equal_sets}
use evidence_workbench.Manifests.{ToolManifest}
use evidence_workbench.Manifests.Registry.{
  TrustedManifest, validate_id, load_embedded, get_manifest,
}
use evidence_workbench.Pins.Records.{UpstreamPin, TrustedUpstreamPin, CandidatePin}
use evidence_workbench.Pins.Candidate.{candidate_for_tool}
use evidence_workbench.Pins.Upstream.{
  is_ready, validate_upstream, validate_readiness_against_manifest, find_pin,
  cross_validate_stateweaver,
}

-- `sort_by` on the identifiers, which is stable.
unfoldable pub place_pin : TrustedUpstreamPin → List TrustedUpstreamPin → List TrustedUpstreamPin
place_pin entry [] = entry ∷ []
place_pin entry (x ∷ xs) =
    let rest = place_pin entry xs in
    if before x.pin.tool_manifest_id entry.pin.tool_manifest_id then x ∷ rest else entry ∷ x ∷ xs

unfoldable pub sort_pins : List TrustedUpstreamPin → List TrustedUpstreamPin
unfolding place_pin
sort_pins [] = []
sort_pins (entry ∷ rest) = place_pin entry (sort_pins rest)

abbrev pub manifest_ids : List TrustedManifest → List Text
manifest_ids [] = []
manifest_ids (entry ∷ rest) = entry.manifest.manifest_id ∷ manifest_ids rest

abbrev pub pin_ids : List TrustedUpstreamPin → List Text
pin_ids [] = []
pin_ids (entry ∷ rest) = entry.pin.tool_manifest_id ∷ pin_ids rest

module _ (is_rfc3339 : Text → Bool) (digest_hex : Text → Text)
    (manifest_from_str : Text → Outcome ToolManifest) (manifests_embedded : List Text)
    (pin_from_str : Text → Outcome UpstreamPin) (candidate_from_str : Text → Outcome CandidatePin)
    (candidates_embedded : List Text) where
  abbrev pub manifest_of : Text → Outcome TrustedManifest
  manifest_of = get_manifest manifest_from_str digest_hex manifests_embedded

  -- The loop over the embedded pins, with the set of identifiers.
  unfoldable pub load_pins : List Text → List Text → Outcome (List TrustedUpstreamPin)
  load_pins [] ids = ok []
  load_pins (raw ∷ rest) ids = do
    pin ← pin_from_str raw
    validate_upstream is_rfc3339 pin
    manifest ← manifest_of pin.tool_manifest_id
    validate_readiness_against_manifest pin manifest
    ensure (not (contains pin.tool_manifest_id ids)) "duplicate upstream pin for tool manifest"
    pins ← load_pins rest (insert pin.tool_manifest_id ids)
    ok (record { pin = pin; sha256 = digest_hex raw; raw = raw } ∷ pins)

  unfoldable pub all_pins : List Text → Outcome (List TrustedUpstreamPin)
  unfolding load_pins sort_pins
  all_pins embedded = do
    manifests ← load_embedded manifest_from_str digest_hex manifests_embedded
    pins ← load_pins embedded []
    ensure (equal_sets (collect_set (pin_ids pins)) (collect_set (manifest_ids manifests)))
        "upstream pin coverage must equal trusted manifest coverage"
    cross_validate_stateweaver (sort_pins pins) (
        candidate_for_tool is_rfc3339 candidate_from_str digest_hex manifest_of candidates_embedded
          (lit "stateweaver-foundation"))
    ok (sort_pins pins)

  module _ (embedded : List Text) where
    unfoldable pub get_for_tool : Text → Outcome TrustedUpstreamPin
    unfolding all_pins
    get_for_tool id = do
      validate_id id
      pins ← all_pins embedded
      ok_or (find_pin id pins) "missing trusted upstream pin"

    unfoldable pub require_ready_for_planning : Text → Outcome TrustedUpstreamPin
    unfolding get_for_tool
    require_ready_for_planning id = do
      pin ← get_for_tool id
      ensure (is_ready pin.pin.execution_readiness.state)
          "tool execution readiness is fail_closed in its exact upstream pin"
      ok pin
