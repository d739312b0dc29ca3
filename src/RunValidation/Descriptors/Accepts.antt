-- ===== src/RunValidation/Descriptors/Accepts.antt =====
-- What `validate_artifact_descriptor` of src/run_validation.rs accepts.
use evidence_workbench.Prelude.{
  ◌≡◌, refl, ◌↔◌, true, false, ◌||◌, List, [], ◌∷◌, ◌++◌, ok, arith, ◌⊎◌,
}
use evidence_workbench.Text.{Text, lit, same, same_iff}
use evidence_workbench.Text.Trim.{trim}
use evidence_workbench.Collections.{contains, insert, Distinct}
use evidence_workbench.Collections.Fresh.{not_later, fresh_cons, fresh_tail, fresh_head}
use evidence_workbench.Contracts.Run.{ArtifactDescriptor}
use evidence_workbench.Validation.Fields.{is_lower_hex}
use evidence_workbench.Validation.Fields.Laws.{IsPrefixedId, IsSha256}
use evidence_workbench.Validation.Topology.Spec.{All}
use evidence_workbench.Workspace.Identifiers.{validate_storage_id, validate_storage_id_iff}
use evidence_workbench.RunValidation.Descriptors.{
  is_nil, validate_lower_hex, validate_sha256, valid_identifier, validate_roles, validate_origin,
  validate_artifact_descriptor,
}

-- The roles are identifiers, none twice and none among those before.
record RolesFit (roles seen : List Text) : Type 0 where
  each : All (λ r. valid_identifier r 64 ≡ true) roles
  distinct : Distinct roles
  fresh : (k : Text) → contains k roles ≡ true → contains k seen ≡ false

validate_roles-cons :
    (r : Text) (rest seen : List Text)
    → (validate_roles (r ∷ rest) seen ≡ ok tt) ↔ (
        (valid_identifier r 64 ≡ true)
        × (contains r seen ≡ false)
        × (validate_roles rest (insert r seen) ≡ ok tt))
unfolding validate_roles
validate_roles-cons r rest seen = ground arith

roles_sound : (roles seen : List Text) → validate_roles roles seen ≡ ok tt → RolesFit roles seen
roles_sound [] seen h = unfold contains in record { each = tt; distinct = tt; fresh = λ k m. cc }
roles_sound (r ∷ rest) seen h =
    let (valid, new, more) = (validate_roles-cons r rest seen).0 h in
    let later = roles_sound rest (insert r seen) more in
    record {
      each = (valid, later.each);
      distinct = (not_later r rest seen later.fresh, later.distinct);
      fresh = fresh_cons r rest seen new later.fresh;
    }

roles_complete : (roles seen : List Text) → RolesFit roles seen → validate_roles roles seen ≡ ok tt
roles_complete [] seen f = unfold validate_roles in refl
roles_complete (r ∷ rest) seen f = (validate_roles-cons r rest seen).1 (
  f.each.0,
  fresh_head r rest seen f.fresh,
  roles_complete rest (insert r seen) (record {
    each = f.each.1;
    distinct = f.distinct.1;
    fresh = fresh_tail r rest seen f.distinct.0 f.fresh;
  }),
)

-- A native file is copied byte for byte, and a process stream is captured raw.
abbrev pub Fits : Text → Text → Type 0
Fits origin mode =
    ((origin ≡ lit "native_file") × (mode ≡ lit "byte_for_byte_copy"))
    ⊎ (((origin ≡ lit "process_stdout") ⊎ (origin ≡ lit "process_stderr"))
        × (mode ≡ lit "raw_stream_capture"))

origin_iff : (origin mode : Text) → (validate_origin origin mode ≡ ok tt) ↔ Fits origin mode
unfolding validate_origin
origin_iff origin mode = ground (
  arith,
  same_iff origin (lit "native_file"),
  same_iff origin (lit "process_stdout"),
  same_iff origin (lit "process_stderr"),
  same_iff mode (lit "byte_for_byte_copy"),
  same_iff mode (lit "raw_stream_capture"),
)

mode_known :
    (origin mode : Text)
    → Fits origin mode
    → (same mode (lit "byte_for_byte_copy") || same mode (lit "raw_stream_capture")) ≡ true
mode_known origin mode f =
    ground
      (arith, f, same_iff mode (lit "byte_for_byte_copy"), same_iff mode (lit "raw_stream_capture"))

IsSha256-iff : (value : Text) → (validate_sha256 value ≡ ok tt) ↔ IsSha256 value
unfolding validate_sha256 validate_lower_hex is_lower_hex
IsSha256-iff value = ground arith

-- A descriptor of exact bytes: the storage is addressed by the digest, and nothing transforms them.
pub record IsArtifactDescriptor (d : ArtifactDescriptor) : Type 0 where
  pub artifact_id : IsPrefixedId (lit "artifact_") d.artifact_id
  pub some_role : is_nil d.roles ≡ false
  pub each_role : All (λ r. valid_identifier r 64 ≡ true) d.roles
  pub roles : Distinct d.roles
  pub media_type : is_nil d.media_type ≡ false
  pub trimmed : trim d.media_type ≡ d.media_type
  pub algorithm : d.digest.algorithm ≡ lit "sha256"
  pub no_transform : is_nil d.transforms ≡ true
  pub digest : IsSha256 d.digest.value
  pub storage : d.storage.uri ≡ lit "ewb:sha256:" ++ d.digest.value
  pub capture : Fits d.origin d.capture.mode

descriptor_checks :
    (d : ArtifactDescriptor)
    → (validate_artifact_descriptor d ≡ ok tt) ↔ (
        (validate_storage_id d.artifact_id (lit "artifact_") ≡ ok tt)
        × (is_nil d.roles ≡ false)
        × (validate_roles d.roles [] ≡ ok tt)
        × (is_nil d.media_type ≡ false)
        × (same (trim d.media_type) d.media_type ≡ true)
        × (same d.digest.algorithm (lit "sha256") ≡ true)
        × (is_nil d.transforms ≡ true)
        × (validate_sha256 d.digest.value ≡ ok tt)
        × (same d.storage.uri (lit "ewb:sha256:" ++ d.digest.value) ≡ true)
        × (validate_origin d.origin d.capture.mode ≡ ok tt)
        × ((same d.capture.mode (lit "byte_for_byte_copy")
              || same d.capture.mode (lit "raw_stream_capture"))
            ≡ true))
unfolding validate_artifact_descriptor
descriptor_checks d = ground arith

-- `validate_artifact_descriptor` accepts exactly the descriptors of `IsArtifactDescriptor`: an
-- artifact identifier, at least one role and none twice, a trimmed media type, a SHA-256 digest under
-- which the bytes are stored, no transformation, and a capture mode that fits the origin.
pub validate_artifact_descriptor_iff :
    (d : ArtifactDescriptor) → (validate_artifact_descriptor d ≡ ok tt) ↔ IsArtifactDescriptor d
validate_artifact_descriptor_iff d = (
  λ h.
      let (a, b, c, e, f, g, i, j, k, l, m) = (descriptor_checks d).0 h in
      let fit = roles_sound d.roles [] c in
      record {
        artifact_id = (validate_storage_id_iff d.artifact_id (lit "artifact_")).0 a;
        some_role = b;
        each_role = fit.each;
        roles = fit.distinct;
        media_type = e;
        trimmed = (same_iff _ _).0 f;
        algorithm = (same_iff _ _).0 g;
        no_transform = i;
        digest = (IsSha256-iff d.digest.value).0 j;
        storage = (same_iff _ _).0 k;
        capture = (origin_iff d.origin d.capture.mode).0 l;
      },
  λ v. (descriptor_checks d).1 (
    (validate_storage_id_iff d.artifact_id (lit "artifact_")).1 v.artifact_id,
    v.some_role,
    roles_complete d.roles []
        (record { each = v.each_role; distinct = v.roles; fresh = λ k m. unfold contains in refl }),
    v.media_type,
    (same_iff _ _).1 v.trimmed,
    (same_iff _ _).1 v.algorithm,
    v.no_transform,
    (IsSha256-iff d.digest.value).1 v.digest,
    (same_iff _ _).1 v.storage,
    (origin_iff d.origin d.capture.mode).1 v.capture,
    mode_known d.origin d.capture.mode v.capture,
  ),
)
