-- ===== src/Handoffs/Descriptor.antt =====
-- The derived `==` of `ArtifactDescriptor` (src/contracts.rs).
use evidence_workbench.Prelude.{
  ◌≡◌, refl, Bool, true, false, ◌&&◌, List, [], ◌∷◌, ◌==◌, arith, map, and_iff,
}
use evidence_workbench.Text.{Text, same, same_iff}
use evidence_workbench.Json.{Json, same_json}
use evidence_workbench.Json.Laws.{plus_zero, same_json_iff}
use evidence_workbench.Contracts.Run.{ArtifactDescriptor}

unfoldable pub same_texts : List Text → List Text → Bool
same_texts [] [] = true
same_texts (a ∷ as') (b ∷ bs) = same a b && same_texts as' bs
same_texts _ _ = false

unfoldable pub same_values : List Json → List Json → Bool
same_values [] [] = true
same_values (a ∷ as') (b ∷ bs) = same_json a b && same_values as' bs
same_values _ _ = false

unfoldable pub same_descriptor : ArtifactDescriptor → ArtifactDescriptor → Bool
unfolding same_texts same_values
same_descriptor a b =
    same a.artifact_id b.artifact_id
    && same_texts a.roles b.roles
    && same a.media_type b.media_type
    && a.byte_length == b.byte_length
    && same a.digest.algorithm b.digest.algorithm
    && same a.digest.value b.digest.value
    && same a.storage.uri b.storage.uri
    && same a.origin b.origin
    && same a.capture.mode b.capture.mode
    && same_values a.transforms b.transforms

same_texts_iff : (a b : List Text) → same_texts a b ≡ true → a ≡ b
unfolding same_texts
same_texts_iff [] [] h = refl
same_texts_iff [] (_ ∷ _) h = cc
same_texts_iff (_ ∷ _) [] h = cc
same_texts_iff (a ∷ as') (b ∷ bs) h = ground (arith, same_iff a b, same_texts_iff as' bs)

same_values_sound : (a b : List Json) → same_values a b ≡ true → map plus_zero a ≡ map plus_zero b
unfolding same_values
same_values_sound [] [] h = refl
same_values_sound [] (_ ∷ _) h = cc
same_values_sound (_ ∷ _) [] h = cc
same_values_sound (a ∷ as') (b ∷ bs) h =
    let (p, q) = (and_iff (same_json a b) (same_values as' bs)).0 h in
    cc ((same_json_iff a b).0 p, same_values_sound as' bs q)

-- The descriptor with 0.0 for each -0.0 in its transforms.
unfoldable pub plus_zeros : ArtifactDescriptor → ArtifactDescriptor
plus_zeros a = record {
  artifact_id = a.artifact_id;
  roles = a.roles;
  media_type = a.media_type;
  byte_length = a.byte_length;
  digest = a.digest;
  storage = a.storage;
  origin = a.origin;
  capture = a.capture;
  transforms = map plus_zero a.transforms;
}

-- Equal descriptors are the same up to the signs of zeros.
pub same_descriptor_sound :
    (a b : ArtifactDescriptor) → same_descriptor a b ≡ true → plus_zeros a ≡ plus_zeros b
unfolding same_descriptor plus_zeros
same_descriptor_sound a b h = ground (
  arith,
  same_iff a.artifact_id b.artifact_id,
  same_texts_iff a.roles b.roles,
  same_iff a.media_type b.media_type,
  same_iff a.digest.algorithm b.digest.algorithm,
  same_iff a.digest.value b.digest.value,
  same_iff a.storage.uri b.storage.uri,
  same_iff a.origin b.origin,
  same_iff a.capture.mode b.capture.mode,
  same_values_sound a.transforms b.transforms,
)
