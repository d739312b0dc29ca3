-- ===== src/RunValidation/Observations/Only.antt =====
-- A filter of src/run_validation.rs that leaves one element: which one that is.
use evidence_workbench.Prelude.{
  ◌∙◌, ◌≡◌, refl, ◌↔◌, sym, ap, Bool, true, List, [], ◌∷◌, ◌++◌, Memᴰ, Bool-cases, inl, inr, arith,
  if◌then◌else◌, any, ◌&&◌, and_iff,
}
use evidence_workbench.Text.{Text, lit, same, same_iff}
use evidence_workbench.Contracts.Run.{ArtifactDescriptor}
use evidence_workbench.Manifests.{ArtifactContract}
use evidence_workbench.Native.Projection.{has_role}
use evidence_workbench.Validation.Topology.Spec.{All}
use evidence_workbench.RunValidation.Observations.{
  role_contracts, role_artifacts, is_raw_stream, one_exact_stream,
}

-- The element has the property, and the others of the list do not.
pub record IsOnly {A : Type 0} (P : A → Type 0) (xs : List A) (x : A) : Type 0 where
  pub before : List A
  pub after : List A
  pub splits : xs ≡ before ++ x ∷ after
  pub holds : P x
  pub none_before : All (λ y. ¬ (P y)) before
  pub none_after : All (λ y. ¬ (P y)) after

-- A filter, by a test for the property.
module _ {A : Type 0} (P : A → Type 0) (test : A → Bool)
    (test_iff : (x : A) → (test x ≡ true) ↔ P x) (filter : List A → List A)
    (filter_nil : filter [] ≡ [])
    (filter_cons : (x : A) (xs : List A)
      → filter (x ∷ xs) ≡ (if test x then x ∷ filter xs else filter xs)) where
  filter_none : (xs : List A) → filter xs ≡ [] → All (λ y. ¬ (P y)) xs
  filter_none [] h = tt
  filter_none (x ∷ xs) h = elim (Bool-cases (test x)) [
    | inl t ↦ absurd (ground (arith, filter_cons x xs, h, t))
    | inr t ↦ (
      λ p. ground (arith, t, (test_iff x).1 p),
      filter_none xs (ground (arith, filter_cons x xs, h, t)),
    )
  ]

  none_filter : (xs : List A) → All (λ y. ¬ (P y)) xs → filter xs ≡ []
  none_filter [] n = filter_nil
  none_filter (x ∷ xs) n = elim (Bool-cases (test x)) [
    | inl t ↦ absurd (n.0 ((test_iff x).0 t))
    | inr t ↦ ground (arith, filter_cons x xs, none_filter xs n.1, t)
  ]

  IsOnly-of : (xs : List A) (x : A) → filter xs ≡ x ∷ [] → IsOnly P xs x
  IsOnly-of [] x h = absurd (ground (arith, filter_nil, h))
  IsOnly-of (y ∷ xs) x h = elim (Bool-cases (test y)) [
    | inl t ↦ record {
      before = [];
      after = xs;
      splits = ap (λ z. z ∷ xs) (ground (arith, filter_cons y xs, h, t));
      holds = (test_iff x).0 (ground (arith, filter_cons y xs, h, t));
      none_before = tt;
      none_after = filter_none xs (ground (arith, filter_cons y xs, h, t));
    }
    | inr t ↦
        let o = IsOnly-of xs x (ground (arith, filter_cons y xs, h, t)) in
        record {
          before = y ∷ o.before;
          after = o.after;
          splits = ap (λ z. y ∷ z) o.splits;
          holds = o.holds;
          none_before = (λ p. ground (arith, t, (test_iff y).1 p), o.none_before);
          none_after = o.none_after;
        }
  ]

  only_splits :
      (before after : List A) (x : A)
      → P x
      → All (λ y. ¬ (P y)) before
      → All (λ y. ¬ (P y)) after
      → filter (before ++ x ∷ after) ≡ x ∷ []
  only_splits [] after x p n m =
      ground (arith, filter_cons x after, none_filter after m, (test_iff x).1 p)
  only_splits (y ∷ before) after x p n m = elim (Bool-cases (test y)) [
    | inl t ↦ absurd (n.0 ((test_iff y).0 t))
    | inr t ↦
        ground (arith, filter_cons y (before ++ x ∷ after), only_splits before after x p n.1 m, t)
  ]

  pub IsOnly-iff : (xs : List A) (x : A) → (filter xs ≡ x ∷ []) ↔ IsOnly P xs x
  IsOnly-iff xs x = (
    IsOnly-of xs x,
    λ o. ap filter o.splits ∙ only_splits o.before o.after x o.holds o.none_before o.none_after,
  )

any_mem : (role : Text) (roles : List Text) → any (λ r. same r role) roles ≡ true → Memᴰ role roles
unfolding any
any_mem role [] h = cc
any_mem role (r ∷ roles) h = elim (Bool-cases (same r role)) [
  | inl t ↦ Memᴰ.head (sym ((same_iff r role).0 t))
  | inr t ↦ Memᴰ.tail (any_mem role roles (ground (arith, h, t)))
]

mem_any : (role : Text) (roles : List Text) → Memᴰ role roles → any (λ r. same r role) roles ≡ true
unfolding any
mem_any role [] m = elim m [ ]
mem_any role (r ∷ roles) (Memᴰ.head e) = ground (arith, (same_iff r role).1 (sym e))
mem_any role (r ∷ roles) (Memᴰ.tail m) = ground (arith, mem_any role roles m)

module _ (role : Text) where
  pub role_contracts_iff :
      (contracts : List ArtifactContract) (c : ArtifactContract)
      → (role_contracts role contracts ≡ c ∷ [])
        ↔ IsOnly (λ (x : ArtifactContract). x.role ≡ role) contracts c
  unfolding role_contracts
  role_contracts_iff =
      IsOnly-iff (λ (x : ArtifactContract). x.role ≡ role) (λ x. same x.role role)
        (λ x. same_iff x.role role) (role_contracts role) refl (λ x xs. refl)

  pub role_artifacts_iff :
      (artifacts : List ArtifactDescriptor) (a : ArtifactDescriptor)
      → (role_artifacts role artifacts ≡ a ∷ [])
        ↔ IsOnly (λ (x : ArtifactDescriptor). Memᴰ role x.roles) artifacts a
  unfolding role_artifacts has_role
  role_artifacts_iff =
      IsOnly-iff (λ (x : ArtifactDescriptor). Memᴰ role x.roles) (has_role role)
        (λ x. (any_mem role x.roles, mem_any role x.roles)) (role_artifacts role) refl
        (λ x xs. refl)

-- The artifact is what a process wrote to the stream that the role names.
pub data IsRawStream (role : Text) (a : ArtifactDescriptor) : Type 0 where
  stdout :
      role ≡ lit "native_stdout"
      → a.origin ≡ lit "process_stdout"
      → a.capture.mode ≡ lit "raw_stream_capture"
      → IsRawStream role a
  stderr :
      role ≡ lit "native_stderr"
      → a.origin ≡ lit "process_stderr"
      → a.capture.mode ≡ lit "raw_stream_capture"
      → IsRawStream role a

pub is_raw_stream_iff :
    (role : Text) (a : ArtifactDescriptor) → (is_raw_stream role a ≡ true) ↔ IsRawStream role a
unfolding is_raw_stream
is_raw_stream_iff role a = (found, told)
  where
    test1 : Bool
    test1 =
        same role (lit "native_stdout")
        && same a.origin (lit "process_stdout")
        && same a.capture.mode (lit "raw_stream_capture")

    found : is_raw_stream role a ≡ true → IsRawStream role a
    found h = elim (Bool-cases test1) [
      | inl t ↦
          let (u, m) = (and_iff _ _).0 t in
          let (r, o) = (and_iff _ _).0 u in
          stdout ((same_iff _ _).0 r) ((same_iff _ _).0 o) ((same_iff _ _).0 m)
      | inr t ↦
          let (u, m) = (and_iff _ _).0 (ground (arith, h, t)) in
          let (r, o) = (and_iff _ _).0 u in
          stderr ((same_iff _ _).0 r) ((same_iff _ _).0 o) ((same_iff _ _).0 m)
    ]

    told : IsRawStream role a → is_raw_stream role a ≡ true
    told (stdout r o m) = rw ((same_iff _ _).1 r, (same_iff _ _).1 o, (same_iff _ _).1 m) refl
    told (stderr r o m) = ground (
      arith,
      (same_iff role (lit "native_stderr")).1 r,
      (same_iff a.origin (lit "process_stderr")).1 o,
      (same_iff a.capture.mode (lit "raw_stream_capture")).1 m,
    )

-- The list is one contract for exact bytes of a captured stream.
pub one_exact_stream_iff :
    (contracts : List ArtifactContract)
    → (one_exact_stream contracts ≡ true) ↔ (
        (c : ArtifactContract) × (contracts ≡ c ∷ [])
        × (c.byte_policy ≡ lit "exact")
        × (c.discovery ≡ lit "captured_stream"))
one_exact_stream_iff [] = (λ h. cc, λ (c, e, p, q). cc)
one_exact_stream_iff (c ∷ []) = (
  λ h. let (p, q) = (and_iff _ _).0 h in (c, refl, (same_iff _ _).0 p, (same_iff _ _).0 q),
  λ (d, e, p, q). ground (
    arith,
    e,
    p,
    q,
    same_iff c.byte_policy (lit "exact"),
    same_iff c.discovery (lit "captured_stream"),
  ),
)
one_exact_stream_iff (c ∷ d ∷ rest) = (λ h. cc, λ (x, e, p, q). cc)
