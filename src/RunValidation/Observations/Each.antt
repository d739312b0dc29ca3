-- ===== src/RunValidation/Observations/Each.antt =====
-- The loop of `extract_native_result` (src/native.rs) beside the loops of `validate_native_result`
-- (src/run_validation.rs): one observation for each contract.
use evidence_workbench.Prelude.{
  append-nil, ◌≡◌, refl, ◌∙◌, ap, subst, false, List, [], ◌∷◌, ◌++◌, append_assoc, ok, arith,
  length,
}
use evidence_workbench.Text.{same_comm, Text, same_iff}
use evidence_workbench.Contracts.Run.{ArtifactDescriptor, NativeObservation, reported}
use evidence_workbench.Manifests.{ToolManifest, ObservationContract}
use evidence_workbench.Validation.Topology.Spec.{All}
use evidence_workbench.Native.Projection.{Reader, Turn, observed, stops, turn, observe_all}
use evidence_workbench.RunValidation.Observations.{
  is_observed, unique_identities, matching, validate_contracts,
}
use evidence_workbench.RunValidation.Observations.Reports.{
  Backed, Differs, DistinctContracts, Reports, Reports-of,
}

module _ (reader : Reader) (artifacts : List ArtifactDescriptor) (manifest : ToolManifest) where
  abbrev Fits : ObservationContract → NativeObservation → Type 0
  Fits = Reports reader artifacts manifest

  -- The observations are those of the contracts, one for one.
  abbrev pub Each : List ObservationContract → List NativeObservation → Type 0
  Each [] [] = Unit
  Each (c ∷ cs) (o ∷ os) = Fits c o × Each cs os
  Each [] (_ ∷ _) = ⊥
  Each (_ ∷ _) [] = ⊥

  pub record Observed (cs : List ObservationContract) (before after : List NativeObservation)
      : Type 0 where
    pub more : List NativeObservation
    pub each : Each cs more
    pub joins : after ≡ before ++ more

  observe_cons :
      (c : ObservationContract) (cs : List ObservationContract) (seen os : List NativeObservation)
      (t : Turn)
      → turn reader artifacts c ≡ t
      → observe_all reader artifacts (c ∷ cs) seen ≡ reported os
      → (o : NativeObservation) × (turn reader artifacts c ≡ observed o)
        × (observe_all reader artifacts cs (seen ++ o ∷ []) ≡ reported os)
  unfolding observe_all
  observe_cons c cs seen os (observed o) e h = (o, e, ground (arith, e, h))
  observe_cons c cs seen os (stops reason) e h = ground (arith, e, h)

  pub Observed-All :
      (cs : List ObservationContract) (seen os : List NativeObservation)
      → All (Backed artifacts manifest) cs
      → observe_all reader artifacts cs seen ≡ reported os
      → Observed cs seen os
  unfolding observe_all
  Observed-All [] seen os b h = record {
    more = [];
    each = tt;
    joins = ground (arith, h, append-nil seen);
  }
  Observed-All (c ∷ cs) seen os b h =
      let (o, t, more) = observe_cons c cs seen os _ refl h in
      let rest = Observed-All cs (seen ++ o ∷ []) os b.1 more in
      record {
        more = o ∷ rest.more;
        each = (Reports-of reader artifacts manifest c o b.0 t, rest.each);
        joins = rest.joins ∙ append_assoc seen (o ∷ []) rest.more;
      }

  abbrev Unread : List NativeObservation → ObservationContract → Type 0
  Unread seen c = is_observed c.namespace c.name seen ≡ false

  Unread-more :
      (c : ObservationContract) (o : NativeObservation) (cs : List ObservationContract)
      (seen : List NativeObservation)
      → Fits c o
      → All (Differs c) cs
      → All (Unread seen) cs
      → All (Unread (o ∷ seen)) cs
  unfolding is_observed
  Unread-more c o [] seen f d u = tt
  Unread-more c o (e ∷ cs) seen f d u =
      (rw (f.same_namespace, f.same_name) (ground (arith, d, u)), Unread-more c o cs seen f d.1 u.1)

  Unread-here :
      (c : ObservationContract) (o : NativeObservation) (seen : List NativeObservation)
      → Fits c o
      → Unread seen c
      → is_observed o.namespace o.name seen ≡ false
  Unread-here c o seen f h = rw (f.same_namespace, f.same_name) h

  pub unique_of :
      (cs : List ObservationContract) (os seen : List NativeObservation)
      → Each cs os
      → DistinctContracts cs
      → All (Unread seen) cs
      → unique_identities os seen ≡ ok tt
  unfolding unique_identities
  unique_of [] [] seen e d u = refl
  unique_of (c ∷ cs) (o ∷ os) seen (f, e) d u =
      rw (Unread-here c o seen f u.0)
        (unique_of cs os (o ∷ seen) e d.1 (Unread-more c o cs seen f d.0 u.1))
  unique_of [] (_ ∷ _) seen e d u = elim e [ ]
  unique_of (_ ∷ _) [] seen e d u = elim e [ ]

  pub length_of :
      (cs : List ObservationContract) (os : List NativeObservation)
      → Each cs os
      → length os ≡ length cs
  length_of [] [] e = refl
  length_of (c ∷ cs) (o ∷ os) e = ground (arith, length_of cs os e.1)
  length_of [] (_ ∷ _) e = elim e [ ]
  length_of (_ ∷ _) [] e = elim e [ ]

  -- No observation is that of the contract.
  abbrev Unmatched : List NativeObservation → ObservationContract → Type 0
  Unmatched os c = matching c.namespace c.name os ≡ []

  matching-append :
      (namespace name : Text) (a b : List NativeObservation)
      → matching namespace name (a ++ b) ≡ matching namespace name a ++ matching namespace name b
  unfolding matching
  matching-append namespace name [] b = refl
  matching-append namespace name (o ∷ a) b = ground (arith, matching-append namespace name a b)

  others-Unmatched :
      (c : ObservationContract) (cs : List ObservationContract) (os : List NativeObservation)
      → Each cs os
      → All (Differs c) cs
      → Unmatched os c
  unfolding matching
  others-Unmatched c [] [] e d = refl
  others-Unmatched c (x ∷ cs) (o ∷ os) (f, e) d =
      rw (f.same_namespace, f.same_name)
        (ground (
          arith,
          d,
          same_comm x.namespace c.namespace,
          same_comm x.name c.name,
          others-Unmatched c cs os e d.1,
        ))
  others-Unmatched c [] (_ ∷ _) e d = elim e [ ]
  others-Unmatched c (_ ∷ _) [] e d = elim e [ ]

  Unmatched-more :
      (c : ObservationContract) (o : NativeObservation) (cs : List ObservationContract)
      (front : List NativeObservation)
      → Fits c o
      → All (Differs c) cs
      → All (Unmatched front) cs
      → All (Unmatched (front ++ o ∷ [])) cs
  Unmatched-more c o [] front f d u = tt
  Unmatched-more c o (x ∷ cs) front f d u = (
    matching-append x.namespace x.name front (o ∷ [])
        ∙ ap (λ m. m ++ matching x.namespace x.name (o ∷ [])) u.0
        ∙ unfold matching in rw (f.same_namespace, f.same_name) (rw d.0 refl),
    Unmatched-more c o cs front f d.1 u.1,
  )

  kept :
      (c : ObservationContract) (o : NativeObservation) (os : List NativeObservation)
      → o.namespace ≡ c.namespace
      → o.name ≡ c.name
      → matching c.namespace c.name (o ∷ os) ≡ o ∷ matching c.namespace c.name os
  unfolding matching
  kept c o os n m =
      ground (arith, (same_iff o.namespace c.namespace).1 n, (same_iff o.name c.name).1 m)

  only_match :
      (c : ObservationContract) (cs : List ObservationContract) (o : NativeObservation)
      (front os : List NativeObservation)
      → Unmatched front c
      → Fits c o
      → Each cs os
      → All (Differs c) cs
      → matching c.namespace c.name (front ++ o ∷ os) ≡ o ∷ []
  only_match c cs o front os u f e d =
      matching-append c.namespace c.name front (o ∷ os)
      ∙ ap (λ m. m ++ matching c.namespace c.name (o ∷ os)) u
      ∙ kept c o os f.same_namespace f.same_name
      ∙ ap (λ m. o ∷ m) (others-Unmatched c cs os e d)

  pub contracts_hold :
      (cs : List ObservationContract) (front os : List NativeObservation)
      → All (Unmatched front) cs
      → Each cs os
      → DistinctContracts cs
      → validate_contracts reader artifacts manifest (front ++ os) cs ≡ ok tt
  unfolding validate_contracts
  contracts_hold [] front os u e d = refl
  contracts_hold (c ∷ cs) front (o ∷ os) u (f, e) d = rw (only_match c cs o front os u.0 f e d.0) (
      rw f.checks (
        subst (λ all. validate_contracts reader artifacts manifest all cs ≡ ok tt)
          (append_assoc front (o ∷ []) os)
          (contracts_hold cs (front ++ o ∷ []) os (Unmatched-more c o cs front f d.0 u.1) e d.1)))
  contracts_hold (_ ∷ _) front [] u e d = elim e [ ]

  pub none-Unread : (cs : List ObservationContract) → All (Unread []) cs
  none-Unread [] = tt
  none-Unread (c ∷ cs) = (unfold is_observed in refl, none-Unread cs)

  pub none_matched : (cs : List ObservationContract) → All (Unmatched []) cs
  none_matched [] = tt
  none_matched (c ∷ cs) = (unfold matching in refl, none_matched cs)
