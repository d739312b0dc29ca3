-- ===== src/Manifests/Registry.antt =====
-- src/manifests.rs: `validate_id`, `validate_manifest`, `load_embedded` and the lookups. Reading a
-- manifest is serde_json's and its digest sha2's: `from_str` and `digest_hex` stand for them.
pub mod Trusted
use evidence_workbench.Prelude.{
  ◌≡◌, ℕ, ◌+◌, Bool, true, false, not, ◌&&◌, ◌||◌, List, [], ◌∷◌, ◌++◌, Option, none, some, leb,
  ltb, ◌==◌, all, any, length, map, Outcome, Checked, ok, err, ◌>>=◌, ◌>>◌, ensure, ok_or,
  if◌then◌else◌,
}
use evidence_workbench.Text.{
  Text, lit, same, is_lower, is_upper, is_digit, is_hexdigit, starts_with, ends_with, contains_byte,
}
use evidence_workbench.Text.Order.{before}
use evidence_workbench.Text.Decimal.{decimal}
use evidence_workbench.Text.Trim.{space1, space2, space3}
use evidence_workbench.Collections.{contains, insert}
use evidence_workbench.Contracts.References.{Digest}
use evidence_workbench.Contracts.Run.{ToolRef, LimitationItem}
use evidence_workbench.Manifests.{ToolManifest, ArtifactContract, ManifestLimitation}

abbrev is_nil {ℓ} : {A : Type ℓ} → List A → Bool
is_nil [] = true
is_nil (_ ∷ _) = false

abbrev is_none {ℓ} : {A : Type ℓ} → Option A → Bool
is_none none = true
is_none (some _) = false

unfoldable pub validate_id : Text → Checked
validate_id id =
    let valid =
      not (is_nil id)
      && leb (length id) 64
      && all (λ byte. is_lower byte || is_digit byte || byte == b'-') id in
    ensure (not (not valid || starts_with id (lit "-") || ends_with id (lit "-")))
      "invalid ASCII tool id"

unfoldable pub adapter_implemented : ToolManifest → Bool
adapter_implemented manifest =
    not (same manifest.invocation_contract.operation (lit "catalog_only"))

-- `candidate.contains(char::is_whitespace)`, read in UTF-8.
unfoldable pub contains_whitespace : Text → Bool
contains_whitespace [] = false
contains_whitespace (a ∷ []) = space1 a
contains_whitespace (a ∷ b ∷ []) = space1 a || space2 a b || contains_whitespace (b ∷ [])
contains_whitespace (a ∷ b ∷ c ∷ t) =
    space1 a || space2 a b || space3 a b c || contains_whitespace (b ∷ c ∷ t)

-- `to_ascii_lowercase`.
unfoldable pub to_ascii_lowercase : Text → Text
to_ascii_lowercase = map (λ byte. if is_upper byte then byte + 32 else byte)

-- The loop over the admitted digests of an executable.
unfoldable pub validate_allowed_digests : List Text → List Text → Checked
validate_allowed_digests [] seen = ok tt
validate_allowed_digests (digest ∷ rest) seen = do
  ensure
      (length digest == 64
        && all (λ byte. is_hexdigit byte && not (is_upper byte)) digest
        && not (contains digest seen))
      "invalid or duplicate allowed binary digest"
  validate_allowed_digests rest (insert digest seen)

unfoldable pub validate_candidates : List Text → Checked
validate_candidates [] = ok tt
validate_candidates (candidate ∷ rest) = do
  ensure
      (not (
        contains_byte b'/' candidate
        || contains_byte b'\\' candidate
        || contains_whitespace candidate))
      "unsafe executable candidate"
  ensure
      (not (
        ends_with (to_ascii_lowercase candidate) (lit ".cmd")
        || ends_with (to_ascii_lowercase candidate) (lit ".bat")))
      "names a shell script executable"
  validate_candidates rest

unfoldable pub validate_byte_policies : List ArtifactContract → Checked
validate_byte_policies [] = ok tt
validate_byte_policies (artifact ∷ rest) = do
  ensure (same artifact.byte_policy (lit "exact")) "permits transformed native bytes"
  validate_byte_policies rest

unfoldable pub validate_manifest : ToolManifest → Checked
validate_manifest manifest = do
  ensure (same manifest.schema_version (lit "tool_manifest/v1")) "unsupported manifest schema"
  validate_id manifest.manifest_id
  ensure (same manifest.stability (lit "stable") || same manifest.stability (lit "experimental"))
      "unsupported stability"
  ensure (same manifest.invocation_contract.mode (lit "direct_exec")) "must use direct_exec"
  ensure manifest.identity_contract.binary_digest_required "must require a binary digest"
  ensure
      (not (
        manifest.identity_contract.supporting_tree_digest_required
        && is_none manifest.identity_contract.python_distribution))
      "requires an unspecified supporting tree"
  ensure (not (is_nil manifest.identity_contract.executable_candidates))
      "has no executable candidate"
  ensure
      (not (
        manifest.enabled_by_default
        && is_none manifest.identity_contract.python_distribution
        && is_nil manifest.identity_contract.allowed_binary_sha256))
      "enabled native manifest must admit exact executable bytes"
  validate_allowed_digests manifest.identity_contract.allowed_binary_sha256 []
  validate_candidates manifest.identity_contract.executable_candidates
  validate_byte_policies manifest.artifact_contracts
  ensure (same manifest.exit_code_contract.unknown_code_policy (lit "preserve_unrecognized"))
      "would flatten an unknown exit code"
  ensure (same manifest.authority_contract.mode (lit "not_reported"))
      "v1 only accepts native authority extraction; none is configured yet"

pub record TrustedManifest : Type 0 where
  pub manifest : ToolManifest
  pub sha256 : Text
  pub raw : Text

-- `sort_by` on the identifiers, which is stable.
unfoldable pub place_manifest : TrustedManifest → List TrustedManifest → List TrustedManifest
place_manifest entry [] = entry ∷ []
place_manifest entry (x ∷ xs) =
    let rest = place_manifest entry xs in
    if before x.manifest.manifest_id entry.manifest.manifest_id then x ∷ rest else entry ∷ x ∷ xs

unfoldable pub sort_manifests : List TrustedManifest → List TrustedManifest
unfolding place_manifest
sort_manifests [] = []
sort_manifests (entry ∷ rest) = place_manifest entry (sort_manifests rest)

unfoldable pub find_manifest : Text → List TrustedManifest → Option TrustedManifest
find_manifest id [] = none
find_manifest id (entry ∷ rest) =
    let later = find_manifest id rest in
    if same entry.manifest.manifest_id id then some entry else later

module _ (from_str : Text → Outcome ToolManifest) (digest_hex : Text → Text) where
  abbrev pub trusted : Text → ToolManifest → TrustedManifest
  trusted raw manifest = record { manifest = manifest; sha256 = digest_hex raw; raw = raw }

  -- The loop over the embedded manifests, with the set of identifiers.
  unfoldable pub load_each : List Text → List Text → Outcome (List TrustedManifest)
  load_each [] ids = ok []
  load_each (raw ∷ rest) ids = do
    manifest ← from_str raw
    validate_manifest manifest
    ensure (not (contains manifest.manifest_id ids)) "duplicate embedded manifest id"
    manifests ← load_each rest (insert manifest.manifest_id ids)
    ok (trusted raw manifest ∷ manifests)

  unfoldable pub load_embedded : List Text → Outcome (List TrustedManifest)
  unfolding sort_manifests
  load_embedded embedded = do manifests ← load_each embedded []; ok (sort_manifests manifests)

  module _ (production_embedded : List Text) where
    unfoldable pub get_manifest : Text → Outcome TrustedManifest
    get_manifest id = do
      validate_id id
      manifests ← load_embedded production_embedded
      ok_or (find_manifest id manifests) "unknown trusted tool manifest"

    unfoldable pub get_by_ref : ToolRef → Outcome TrustedManifest
    get_by_ref tool_ref = do
      manifest ← get_manifest tool_ref.manifest_id
      ensure (same tool_ref.manifest_sha256 manifest.sha256)
          "tool reference does not match the exact embedded manifest"
      ok manifest

-- One limitation of a manifest, at its index.
abbrev pub limitation_item : TrustedManifest → ℕ → ManifestLimitation → LimitationItem
limitation_item manifest index limitation = record {
  namespace = manifest.manifest.manifest_id;
  code = limitation.code;
  statement = limitation.statement;
  origin = lit "manifest";
  source =
      lit "embedded-manifest:sha256:" ++ manifest.sha256 ++ lit "#/limitations/" ++ decimal index;
}

unfoldable pub limitations_from :
    TrustedManifest → ℕ → List ManifestLimitation → List LimitationItem
limitations_from manifest index [] = []
limitations_from manifest index (limitation ∷ rest) =
    limitation_item manifest index limitation ∷ limitations_from manifest (index + 1) rest

unfoldable pub limitation_items : TrustedManifest → List LimitationItem
unfolding limitations_from
limitation_items manifest = limitations_from manifest 0 manifest.manifest.limitations

unfoldable pub manifest_digest : TrustedManifest → Digest
manifest_digest manifest = record { algorithm = lit "sha256"; value = manifest.sha256 }
