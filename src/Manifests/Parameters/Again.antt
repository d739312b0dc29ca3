-- ===== src/Manifests/Parameters/Again.antt =====
-- `validate_parameters` of src/manifests.rs and then its namesake of src/run_validation.rs.
use evidence_workbench.Prelude.{
  ◌≡◌, refl, sym, ◌∙◌, ap, true, List, [], ◌∷◌, map, some, ok, >>=-eq-ok, arith, Memᴰ,
}
use evidence_workbench.Text.{Text, same_refl}
use evidence_workbench.Collections.{get, put, put_all}
use evidence_workbench.Collections.Ordered.{put_all-Sorted}
use evidence_workbench.Validation.Topology.Spec.{All}
use evidence_workbench.Manifests.{ParameterContract, ToolManifest}
use evidence_workbench.Manifests.Parameters.{
  by_name, contracts_by_name, supply, validate_parameters, assignment, same_values,
  validate_recorded_parameters,
}
use evidence_workbench.Manifests.Parameters.Resolves.{All-put, get-mem, PlainContract}
use evidence_workbench.Manifests.Parameters.Passes.{
  Resolved, Entry, Settled, supply-Resolved, fill-Resolved, fill_settles, Settled-fill,
  supply_again,
}

abbrev Named : Text × ParameterContract → Type 0
Named entry = (entry.0 ≡ entry.1.name) × PlainContract entry.1

All-Named :
    (contracts : List ParameterContract) (m : List (Text × ParameterContract))
    → All PlainContract contracts
    → All Named m
    → All Named (put_all m (map by_name contracts))
unfolding put_all
All-Named [] m p n = n
All-Named (c ∷ rest) m p n =
    All-Named rest (put c.name c m) p.1 (All-put Named c.name c m (refl, p.0) n)

entries_of :
    (contracts entries : List (Text × ParameterContract))
    → ((e : Text × ParameterContract) → Memᴰ e entries → get e.0 contracts ≡ some e.1)
    → All Named entries
    → All (Entry contracts) entries
entries_of contracts [] f n = tt
entries_of contracts (e ∷ rest) f n = (
  (ap (λ k. get k contracts) (sym n.0.0) ∙ f e (Memᴰ.head refl), n.0.1),
  entries_of contracts rest (λ x m. f x (Memᴰ.tail m)) n.1,
)

module _ (manifest : ToolManifest) where
  abbrev contracts : List (Text × ParameterContract)
  contracts = contracts_by_name manifest

  All-entries :
      All PlainContract manifest.invocation_contract.parameters → All (Entry contracts) contracts
  unfolding contracts_by_name
  All-entries p =
      entries_of contracts contracts
        (λ e m.
          get-mem e.0 e.1 contracts
            (put_all-Sorted (map by_name manifest.invocation_contract.parameters) [] tt) m)
        (All-Named manifest.invocation_contract.parameters [] p tt)

  -- What `validate_parameters` resolves, for a manifest whose parameter names have no `=` and whose
  -- defaults are admitted: the names stand in order, every value is admitted by the contract of its
  -- name, and every contract has a value or neither a default nor a requirement.
  pub validate_parameters-Resolved :
      (supplied : List Text) (values : List (Text × Text))
      → All PlainContract manifest.invocation_contract.parameters
      → validate_parameters manifest supplied ≡ ok values
      → Resolved (contracts_by_name manifest) values
        × All (Settled (contracts_by_name manifest) values) (contracts_by_name manifest)
  unfolding validate_parameters
  validate_parameters-Resolved supplied values p h =
      let (given, s, f) = >>=-eq-ok (supply contracts supplied []) _ h in
      (
        fill-Resolved contracts contracts given values (All-entries p)
            (supply-Resolved contracts supplied [] given (tt, tt) s) f,
        fill_settles contracts contracts given values f,
      )

  again :
      (values : List (Text × Text))
      → Resolved contracts values
      → All (Settled contracts values) contracts
      → validate_parameters manifest (map assignment values) ≡ ok values
  unfolding validate_parameters
  again values r s =
      rw (supply_again contracts [] values r r.1) (Settled-fill contracts contracts values s)

  same_values_refl : (values : List (Text × Text)) → same_values values values ≡ true
  unfolding same_values
  same_values_refl [] = refl
  same_values_refl ((k, v) ∷ values) =
      ground (arith, same_refl k, same_refl v, same_values_refl values)

  -- The parameters that `validate_parameters` (src/manifests.rs) resolves from a caller's items pass
  -- the check of recorded parameters in src/run_validation.rs, which writes each as NAME=VALUE,
  -- resolves them again and compares: for a manifest whose parameter names have no `=` and whose
  -- defaults are admitted by their own contracts.
  pub recorded-validate_parameters :
      (supplied : List Text) (values : List (Text × Text))
      → All PlainContract manifest.invocation_contract.parameters
      → validate_parameters manifest supplied ≡ ok values
      → validate_recorded_parameters manifest values ≡ ok tt
  unfolding validate_recorded_parameters
  recorded-validate_parameters supplied values p h =
      let (r, s) = validate_parameters-Resolved supplied values p h in
      rw (again values r s) (rw (same_values_refl values) refl)
