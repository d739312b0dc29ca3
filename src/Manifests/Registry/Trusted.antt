-- ===== src/Manifests/Registry/Trusted.antt =====
-- Loading the embedded manifests and looking one up (src/manifests.rs).
use evidence_workbench.Prelude.{
  String, ◌≡◌, refl, ◌∙◌, ap, subst, true, false, not, List, [], ◌∷◌, Option, none, some, Outcome,
  ok, ◌>>◌, >>=-eq-ok, >>-eq-ok, ensure, ok_or, arith, Memᴰ, Bool-cases, inl, inr,
}
use evidence_workbench.Text.{Text, same, same_iff, same_comm}
use evidence_workbench.Text.Order.{before, before_trans, before_total}
use evidence_workbench.Collections.{contains, insert}
use evidence_workbench.Collections.Laws.{contains-insert}
use evidence_workbench.Contracts.Run.{ToolRef}
use evidence_workbench.Validation.Topology.Spec.{All}
use evidence_workbench.Manifests.{ToolManifest}
use evidence_workbench.Manifests.Registry.{
  validate_id, validate_manifest, TrustedManifest, place_manifest, sort_manifests, find_manifest,
  trusted, load_each, load_embedded, get_manifest, get_by_ref,
}

-- The identifier of the entry is above the first one.
abbrev Above : Text → TrustedManifest → Type 0
Above id entry = before id entry.manifest.manifest_id ≡ true

-- The identifiers increase strictly.
abbrev pub Ascending : List TrustedManifest → Type 0
Ascending [] = Unit
Ascending (entry ∷ rest) = All (Above entry.manifest.manifest_id) rest × Ascending rest

abbrev Other : Text → TrustedManifest → Type 0
Other id entry = same id entry.manifest.manifest_id ≡ false

module _ (P : TrustedManifest → Type 0) where
  All-place :
      (entry : TrustedManifest) (ms : List TrustedManifest)
      → P entry
      → All P ms
      → All P (place_manifest entry ms)
  unfolding place_manifest
  All-place entry [] p a = (p, tt)
  All-place entry (x ∷ xs) p a =
      elim (Bool-cases (before x.manifest.manifest_id entry.manifest.manifest_id)) [
        | inl h ↦ rw h (a.0, All-place entry xs p a.1)
        | inr h ↦ rw h (p, a)
      ]

  All-sort : (ms : List TrustedManifest) → All P ms → All P (sort_manifests ms)
  unfolding sort_manifests
  All-sort [] a = tt
  All-sort (x ∷ xs) a = All-place x (sort_manifests xs) a.0 (All-sort xs a.1)

Above-trans :
    (a b : Text) (ms : List TrustedManifest)
    → before a b ≡ true
    → All (Above b) ms
    → All (Above a) ms
Above-trans a b [] h u = tt
Above-trans a b (m ∷ ms) h u =
    (before_trans a b m.manifest.manifest_id h u.0, Above-trans a b ms h u.1)

place-Ascending :
    (entry : TrustedManifest) (ms : List TrustedManifest)
    → All (Other entry.manifest.manifest_id) ms
    → Ascending ms
    → Ascending (place_manifest entry ms)
unfolding place_manifest
place-Ascending entry [] n a = (tt, tt)
place-Ascending entry (x ∷ xs) n a =
    elim (Bool-cases (before x.manifest.manifest_id entry.manifest.manifest_id)) [
      | inl h ↦ rw h (
        All-place (Above x.manifest.manifest_id) entry xs h a.0,
        place-Ascending entry xs n.1 a.1,
      )
      | inr h ↦
          let up =
            before_total x.manifest.manifest_id entry.manifest.manifest_id h
              (same_comm x.manifest.manifest_id entry.manifest.manifest_id ∙ n.0) in
          rw h ((up, Above-trans entry.manifest.manifest_id x.manifest.manifest_id xs up a.0), a)
    ]

abbrev DistinctEntries : List TrustedManifest → Type 0
DistinctEntries [] = Unit
DistinctEntries (x ∷ xs) = All (Other x.manifest.manifest_id) xs × DistinctEntries xs

sort-Ascending : (ms : List TrustedManifest) → DistinctEntries ms → Ascending (sort_manifests ms)
unfolding sort_manifests
sort-Ascending [] d = tt
sort-Ascending (x ∷ xs) d =
    place-Ascending x (sort_manifests xs) (All-sort (Other x.manifest.manifest_id) xs d.0)
      (sort-Ascending xs d.1)

module _ (from_str : Text → Outcome ToolManifest) (digest_hex : Text → Text) where
  -- The entry is that of an embedded text: what it reads as, valid, with the digest of the text.
  pub record IsTrusted (embedded : List Text) (entry : TrustedManifest) : Type 0 where
    pub is_embedded : Memᴰ entry.raw embedded
    pub reads : from_str entry.raw ≡ ok entry.manifest
    pub valid : validate_manifest entry.manifest ≡ ok tt
    pub digest : entry.sha256 ≡ digest_hex entry.raw

  more-IsTrusted :
      (raw : Text) (embedded : List Text) (ms : List TrustedManifest)
      → All (IsTrusted embedded) ms
      → All (IsTrusted (raw ∷ embedded)) ms
  more-IsTrusted raw embedded [] a = tt
  more-IsTrusted raw embedded (m ∷ ms) (one, rest) = (
    record {
      is_embedded = Memᴰ.tail one.is_embedded;
      reads = one.reads;
      valid = one.valid;
      digest = one.digest;
    },
    more-IsTrusted raw embedded ms rest,
  )

  abbrev Fresh : List Text → TrustedManifest → Type 0
  Fresh ids entry = contains entry.manifest.manifest_id ids ≡ false

  record Loaded (embedded ids : List Text) (ms : List TrustedManifest) : Type 0 where
    each : All (IsTrusted embedded) ms
    distinct : DistinctEntries ms
    fresh : All (Fresh ids) ms

  others :
      (id : Text) (ids : List Text) (ms : List TrustedManifest)
      → All (Fresh (insert id ids)) ms
      → All (Other id) ms × All (Fresh ids) ms
  others id ids [] f = (tt, tt)
  others id ids (m ∷ ms) f =
      let (o, r) = others id ids ms f.1 in let (here, before) = one in ((here, o), (before, r))
    where
      one : Other id m × Fresh ids m
      one = ground (
        arith,
        f.0,
        contains-insert m.manifest.manifest_id id ids,
        same_comm id m.manifest.manifest_id,
      )

  loaded :
      (embedded ids : List Text) (ms : List TrustedManifest)
      → load_each from_str digest_hex embedded ids ≡ ok ms
      → Loaded embedded ids ms
  unfolding load_each
  loaded [] ids [] h = record { each = tt; distinct = tt; fresh = tt }
  loaded [] ids (m ∷ ms) h = cc
  loaded (raw ∷ embedded) ids ms h =
      let (manifest, reads, h1) = >>=-eq-ok (from_str raw) _ h in
      let (valid, h2) = >>-eq-ok (validate_manifest manifest) _ h1 in
      let (new, h3) = >>-eq-ok _ _ h2 in
      let (later, more, h4) =
        >>=-eq-ok (load_each from_str digest_hex embedded (insert manifest.manifest_id ids)) _ h3 in
      let rest = loaded embedded (insert manifest.manifest_id ids) later more in
      let (distinct, fresh) = others manifest.manifest_id ids later rest.fresh in
      subst (Loaded (raw ∷ embedded) ids) (same_result raw manifest later ms h4) (record {
        each = (
          record { is_embedded = Memᴰ.head refl; reads = reads; valid = valid; digest = refl },
          more-IsTrusted raw embedded later rest.each,
        );
        distinct = (distinct, rest.distinct);
        fresh = (not_in ids manifest.manifest_id _ new, fresh);
      })
    where
      same_result :
          (raw : Text) (manifest : ToolManifest) (later ms : List TrustedManifest)
          → ◌≡◌ {A = Outcome (List TrustedManifest)}
              (ok (trusted from_str digest_hex raw manifest ∷ later))
              (ok ms)
          → (trusted from_str digest_hex raw manifest ∷ later) ≡ ms
      same_result raw manifest later ms h = ground (arith, h)

      not_in :
          (ids : List Text) (id : Text) (e : String)
          → ensure (not (contains id ids)) e ≡ ok tt
          → contains id ids ≡ false
      not_in ids id e h = ground (arith, h)

  -- `load_embedded` gives the embedded manifests alone, each valid and with the digest of its exact
  -- text, in strictly increasing order of their identifiers, so that none is there twice.
  pub load_embedded-IsTrusted :
      (embedded : List Text) (ms : List TrustedManifest)
      → load_embedded from_str digest_hex embedded ≡ ok ms
      → All (IsTrusted embedded) ms × Ascending ms
  unfolding load_embedded
  load_embedded-IsTrusted embedded ms h =
      let (found, each, sorted) = >>=-eq-ok (load_each from_str digest_hex embedded []) _ h in
      let l = loaded embedded [] found each in
      subst (λ r. All (IsTrusted embedded) r × Ascending r)
        (same_list (sort_manifests found) ms sorted)
        (All-sort (IsTrusted embedded) found l.each, sort-Ascending found l.distinct)
    where
      same_list :
          (a b : List TrustedManifest)
          → ◌≡◌ {A = Outcome (List TrustedManifest)} (ok a) (ok b)
          → a ≡ b
      same_list a b h = ground (arith, h)

  found_of :
      (P : TrustedManifest → Type 0) (id : Text) (ms : List TrustedManifest)
      (entry : TrustedManifest)
      → All P ms
      → find_manifest id ms ≡ some entry
      → P entry × (entry.manifest.manifest_id ≡ id)
  unfolding find_manifest
  found_of P id [] entry a h = cc
  found_of P id (m ∷ ms) entry a h = elim (Bool-cases (same m.manifest.manifest_id id)) [
    | inl e ↦
        subst (λ x. P x × (x.manifest.manifest_id ≡ id)) (ground (arith, e, h))
          (a.0, (same_iff _ _).0 e)
    | inr n ↦ found_of P id ms entry a.1 (ground (arith, n, h))
  ]

  ok_or-eq-ok : {A : Type 0} (o : Option A) (e : String) (a : A) → ok_or o e ≡ ok a → o ≡ some a
  ok_or-eq-ok none e a h = cc
  ok_or-eq-ok (some b) e a h = ground arith

  IsTrusted-of :
      (embedded : List Text) (id : Text) (entry : TrustedManifest)
      → get_manifest from_str digest_hex embedded id ≡ ok entry
      → IsTrusted embedded entry × (entry.manifest.manifest_id ≡ id)
  unfolding get_manifest
  IsTrusted-of embedded id entry h =
      let (valid, h1) = >>-eq-ok (validate_id id) _ h in
      let (ms, l, f) = >>=-eq-ok (load_embedded from_str digest_hex embedded) _ h1 in
      found_of (IsTrusted embedded) id ms entry (load_embedded-IsTrusted embedded ms l).0
        (ok_or-eq-ok (find_manifest id ms) _ entry f)

  -- `get_by_ref` gives only a trusted entry that the reference names exactly: an embedded text that
  -- reads as a valid manifest with the reference's identifier, and whose digest is the reference's.
  pub get_by_ref-IsTrusted :
      (embedded : List Text) (tool_ref : ToolRef) (entry : TrustedManifest)
      → get_by_ref from_str digest_hex embedded tool_ref ≡ ok entry
      → IsTrusted embedded entry
        × (entry.manifest.manifest_id ≡ tool_ref.manifest_id)
        × (tool_ref.manifest_sha256 ≡ digest_hex entry.raw)
  unfolding get_by_ref
  get_by_ref-IsTrusted embedded tool_ref entry h =
      let (found, g, h1) =
        >>=-eq-ok (get_manifest from_str digest_hex embedded tool_ref.manifest_id) _ h in
      let (e, digest) = checked found h1 in
      let (t, named) = IsTrusted-of embedded tool_ref.manifest_id entry (g ∙ ap ok e) in
      (t, named, (same_iff _ _).0 digest ∙ ap (λ (x : TrustedManifest). x.sha256) e ∙ t.digest)
    where
      checked :
          (found : TrustedManifest)
          → (ensure
                (same tool_ref.manifest_sha256 found.sha256)
                "tool reference does not match the exact embedded manifest"
              >> ok found)
            ≡ ok entry
          → (found ≡ entry) × (same tool_ref.manifest_sha256 found.sha256 ≡ true)
      checked found h = ground (arith, h)
