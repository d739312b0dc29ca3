-- ===== src/Manifests/Parameters/Passes.antt =====
-- The two loops of `validate_parameters` (src/manifests.rs): what each keeps, and what a second run
-- over its result does.
use evidence_workbench.Prelude.{
  String, ◌≡◌, refl, sym, ap, subst, Bool, true, false, List, [], ◌∷◌, ◌++◌, append_assoc,
  append-nil, map, Option, none, some, ok, >>=-eq-ok, >>-eq-ok, ok_or, arith, ◌⊎◌, inl, inr,
  Bool-cases,
}
use evidence_workbench.Text.{same_comm, Text, same, split_once}
use evidence_workbench.Text.Order.{before_trans, before, before_ne, before_irrefl}
use evidence_workbench.Collections.{get, put, contains_key}
use evidence_workbench.Collections.Ordered.{Sorted, Below, put-Sorted}
use evidence_workbench.Validation.Topology.Spec.{All}
use evidence_workbench.Manifests.{ParameterContract}
use evidence_workbench.Manifests.Parameters.{
  validate_parameter, supply, fill_one, fill_defaults, assignment,
}
use evidence_workbench.Manifests.Parameters.Resolves.{
  All-put, contains_key-put, contains_key-put_same, split_once_plain, split_once-join, Admitted,
  PlainContract,
}

abbrev ContractMap : Type 0
ContractMap = List (Text × ParameterContract)

abbrev Values : Type 0
Values = List (Text × Text)

ok_or-eq-ok : {A : Type 0} (o : Option A) (e : String) (a : A) → ok_or o e ≡ ok a → o ≡ some a
ok_or-eq-ok none e a h = cc
ok_or-eq-ok (some b) e a h = ground arith

module _ (contracts : ContractMap) where
  -- The names stand in order, and every value is admitted.
  abbrev pub Resolved : Values → Type 0
  Resolved values = Sorted values × All (Admitted contracts) values

  put-Resolved :
      (k v : Text) (values : Values)
      → Admitted contracts (k, v)
      → Resolved values
      → Resolved (put k v values)
  put-Resolved k v values a r =
      (put-Sorted k v values r.0, All-put (Admitted contracts) k v values a r.1)

  pub supply-Resolved :
      (items : List Text) (values out : Values)
      → Resolved values
      → supply contracts items values ≡ ok out
      → Resolved out
  unfolding supply
  supply-Resolved [] values out r h = subst Resolved (ground (arith, h)) r
  supply-Resolved (item ∷ rest) values out r h =
      let ((name, value), s, h1) = >>=-eq-ok (ok_or (split_once b'=' item) _) _ h in
      let (contract, g, h2) = >>=-eq-ok (ok_or (get name contracts) _) _ h1 in
      let (new, h3) = >>-eq-ok _ _ h2 in
      let (valid, more) = >>-eq-ok (validate_parameter contract value) _ h3 in
      supply-Resolved rest (put name value values) out
        (put-Resolved name value values
          (record {
            contract = contract;
            found = ok_or-eq-ok _ _ contract g;
            valid = valid;
            plain = split_once_plain b'=' item name value (ok_or-eq-ok _ _ (name, value) s);
          })
          r)
        more

  -- An entry of the manifest's contracts, found under its own name.
  abbrev pub Entry : Text × ParameterContract → Type 0
  Entry entry = (get entry.1.name contracts ≡ some entry.1) × PlainContract entry.1

  fill_one_cases :
      (c : ParameterContract) (values out : Values)
      → fill_one c values ≡ ok out
      → (out ≡ values) ⊎ ((d : Text) × (c.default ≡ some d) × (out ≡ put c.name d values))
  unfolding fill_one
  fill_one_cases c values out h = of_default _ refl
    where
      of_default :
          (d : Option Text)
          → c.default ≡ d
          → (out ≡ values) ⊎ ((d : Text) × (c.default ≡ some d) × (out ≡ put c.name d values))
      of_default none e = inl (ground (arith, e, h))
      of_default (some d) e = elim (Bool-cases (contains_key c.name values)) [
        | inl k ↦ inl (ground (arith, k, h))
        | inr k ↦ inr (d, e, ground (arith, e, k, h))
      ]

  pub fill-Resolved :
      (entries : ContractMap) (values out : Values)
      → All Entry entries
      → Resolved values
      → fill_defaults entries values ≡ ok out
      → Resolved out
  unfolding fill_defaults
  fill-Resolved [] values out e r h = subst Resolved (ground (arith, h)) r
  fill-Resolved ((name, c) ∷ rest) values out e r h =
      let (filled, one, more) = >>=-eq-ok (fill_one c values) _ h in
      fill-Resolved rest filled out e.1
        (elim (fill_one_cases c values filled one) [
          | inl kept ↦ subst Resolved (sym kept) r
          | inr (d, is_default, added) ↦ subst Resolved (sym added) (
              put-Resolved c.name d values
                (record {
                  contract = c;
                  found = e.0.0;
                  valid = e.0.1.default_valid d is_default;
                  plain = e.0.1.plain;
                })
                r)
        ])
        more

  -- Nothing is left to do for the contract.
  abbrev pub Settled : Values → Text × ParameterContract → Type 0
  Settled values entry =
      (contains_key entry.1.name values ≡ true)
      ⊎ ((entry.1.default ≡ none) × (entry.1.required ≡ false))

  fill_keeps :
      (k : Text) (entries : ContractMap) (values out : Values)
      → fill_defaults entries values ≡ ok out
      → contains_key k values ≡ true
      → contains_key k out ≡ true
  unfolding fill_defaults
  fill_keeps k [] values out h m = ground (arith, h, m)
  fill_keeps k ((name, c) ∷ rest) values out h m =
      let (filled, one, more) = >>=-eq-ok (fill_one c values) _ h in
      fill_keeps k rest filled out more (elim (fill_one_cases c values filled one) [
        | inl kept ↦ rw kept m
        | inr (d, e, added) ↦ rw added (contains_key-put k c.name d values m)
      ])

  fill_one_settles :
      (name : Text) (c : ParameterContract) (values out : Values)
      → fill_one c values ≡ ok out
      → Settled out (name, c)
  unfolding fill_one
  fill_one_settles name c values out h = of_default _ _ _ refl refl refl
    where
      of_default :
          (d : Option Text) (k r : Bool)
          → c.default ≡ d
          → contains_key c.name values ≡ k
          → c.required ≡ r
          → Settled out (name, c)
      of_default d true r e k q = inl (ground (arith, e, k, q, h))
      of_default none false false e k q = inr (e, q)
      of_default none false true e k q = ground (arith, e, k, q, h)
      of_default (some d) false r e k q =
          inl (ground (arith, e, k, q, h, contains_key-put_same c.name d values))

  pub fill_settles :
      (entries : ContractMap) (values out : Values)
      → fill_defaults entries values ≡ ok out
      → All (Settled out) entries
  unfolding fill_defaults
  fill_settles [] values out h = tt
  fill_settles ((name, c) ∷ rest) values out h =
      let (filled, one, more) = >>=-eq-ok (fill_one c values) _ h in
      (
        elim (fill_one_settles name c values filled one) [
          | inl there ↦ inl (fill_keeps c.name rest filled out more there)
          | inr absent ↦ inr absent
        ],
        fill_settles rest filled out more,
      )

  pub Settled-fill :
      (entries : ContractMap) (values : Values)
      → All (Settled values) entries
      → fill_defaults entries values ≡ ok values
  unfolding fill_defaults fill_one
  Settled-fill [] values s = refl
  Settled-fill ((name, c) ∷ rest) values s = rw (one s.0) (Settled-fill rest values s.1)
    where
      one : Settled values (name, c) → fill_one c values ≡ ok values
      one (inl there) = ground (arith, there)
      one (inr (d, q)) = ground (arith, d, q)

  -- A name above all those of the map goes to its end.
  put_last :
      (k v : Text) (front rest : Values)
      → Sorted (front ++ (k, v) ∷ rest)
      → (put k v front ≡ front ++ (k, v) ∷ []) × (contains_key k front ≡ false)
  unfolding put get contains_key
  put_last k v [] rest s = (refl, refl)
  put_last k v ((j, w) ∷ front) rest s =
      let (p, c) = put_last k v front rest s.1 in
      let (n, b) = above j k v front rest s.0 in
      (rw (n, b) (ap (λ m. (j, w) ∷ m) p), ground (arith, n, c))
    where
      above :
          (j k v : Text) (front rest : Values)
          → Below j (front ++ (k, v) ∷ rest)
          → (same k j ≡ false) × (before k j ≡ false)
      above j k v [] rest b =
          ground (arith, b.0, before_ne j k, same_comm j k, before_trans j k j, before_irrefl j)
      above j k v ((i, x) ∷ front) rest b = above j k v front rest b.1

  pub supply_again :
      (front rest : Values)
      → Resolved (front ++ rest)
      → All (Admitted contracts) rest
      → supply contracts (map assignment rest) front ≡ ok (front ++ rest)
  unfolding supply
  supply_again front [] r a = ap ok (sym (append-nil front))
  supply_again front ((k, v) ∷ rest) r a =
      let (p, new) = put_last k v front rest r.0 in
      rw (split_once-join b'=' k v a.0.plain) (
        rw a.0.found (
          rw (new, a.0.valid)
            (rw p (
              subst (λ all. supply contracts (map assignment rest) (front ++ (k, v) ∷ []) ≡ ok all)
                (append_assoc front ((k, v) ∷ []) rest)
                (supply_again (front ++ (k, v) ∷ []) rest
                  (subst Resolved (sym (append_assoc front ((k, v) ∷ []) rest)) r) a.1)))))
