-- ===== src/Native/Capabilities/Accepts.antt =====
-- What `validate_capability_approval` of src/native.rs accepts.
use evidence_workbench.Prelude.{
  ap, ◌∙◌, ◌≡◌, refl, sym, ◌↔◌, true, false, List, [], ◌∷◌, ok, >>=-eq-ok, ensure-eq-ok, arith,
}
use evidence_workbench.Text.{Text, same_iff, same_refl}
use evidence_workbench.Collections.{
  contains, insert, collect_set, difference, within_keys, Distinct, Within, SameKeys,
}
use evidence_workbench.Collections.Laws.{contains-collect_set, within_keys_iff, within_keys_of}
use evidence_workbench.Collections.Fresh.{
  insert_all, contains-insert_all, not_later, fresh_cons, fresh_tail, fresh_head,
}
use evidence_workbench.Contracts.Run.{Invocation}
use evidence_workbench.Validation.Topology.Spec.{All}
use evidence_workbench.Native.Capabilities.{
  is_empty, valid_capability, approve, validate_capability_approval,
}

is_empty-difference : (xs ys : List Text) → is_empty (difference xs ys) ≡ within_keys xs ys
unfolding difference within_keys
is_empty-difference [] ys = refl
is_empty-difference (x ∷ xs) ys = ground (arith, is_empty-difference xs ys)

-- One approval by itself.
abbrev pub IsApproval : List Text → Text → Type 0
IsApproval required capability =
    (valid_capability capability ≡ true) × (contains capability required ≡ true)

record Approves (required allowed seen approved : List Text) : Type 0 where
  each : All (IsApproval required) allowed
  distinct : Distinct allowed
  fresh : (k : Text) → contains k allowed ≡ true → contains k seen ≡ false
  result : approved ≡ insert_all allowed seen

approve_cons :
    (required rest seen approved : List Text) (c : Text)
    → (approve required (c ∷ rest) seen ≡ ok approved) ↔ (
        IsApproval required c
        × (contains c seen ≡ false)
        × (approve required rest (insert c seen) ≡ ok approved))
unfolding approve
approve_cons required rest seen approved c = ground arith

approve_sound :
    (required allowed seen approved : List Text)
    → approve required allowed seen ≡ ok approved
    → Approves required allowed seen approved
approve_sound required [] seen approved h =
    unfold approve contains in
    record { each = tt; distinct = tt; fresh = λ k m. cc; result = ground (arith, h) }
approve_sound required (c ∷ rest) seen approved h =
    let (one, new, more) = (approve_cons required rest seen approved c).0 h in
    let later = approve_sound required rest (insert c seen) approved more in
    record {
      each = (one, later.each);
      distinct = (not_later c rest seen later.fresh, later.distinct);
      fresh = fresh_cons c rest seen new later.fresh;
      result = later.result;
    }

approve_complete :
    (required allowed seen : List Text)
    → All (IsApproval required) allowed
    → Distinct allowed
    → ((k : Text) → contains k allowed ≡ true → contains k seen ≡ false)
    → approve required allowed seen ≡ ok (insert_all allowed seen)
approve_complete required [] seen e d f = unfold approve in refl
approve_complete required (c ∷ rest) seen e d f =
    (approve_cons required rest seen (insert_all rest (insert c seen)) c).1 (
      e.0,
      fresh_head c rest seen f,
      approve_complete required rest (insert c seen) e.1 d.1 (fresh_tail c rest seen d.0 f),
    )

-- The approvals that a caller has to give for an invocation: each capability it requires, once.
pub record IsApproved (required allowed : List Text) : Type 0 where
  pub valid : All (λ c. valid_capability c ≡ true) allowed
  pub distinct : Distinct allowed
  pub same_keys : SameKeys allowed required

All-valid :
    (required allowed : List Text)
    → All (IsApproval required) allowed
    → All (λ c. valid_capability c ≡ true) allowed
All-valid required [] h = tt
All-valid required (c ∷ rest) h = (h.0.0, All-valid required rest h.1)

All-required :
    (required allowed : List Text) → All (IsApproval required) allowed → Within allowed required
unfolding contains
All-required required [] h k m = cc
All-required required (c ∷ rest) h k m =
    ground (arith, All-required required rest h.1 k, same_iff k c)

All-approvals :
    (required allowed : List Text)
    → All (λ c. valid_capability c ≡ true) allowed
    → Within allowed required
    → All (IsApproval required) allowed
All-approvals required [] v w = tt
All-approvals required (c ∷ rest) v w = (
  (v.0, w c (unfold contains in rw (same_refl c) refl)),
  All-approvals required rest v.1 (λ k m. w k (unfold contains in ground (arith, m))),
)

both_ways :
    (allowed required : List Text)
    → Within allowed required
    → Within required allowed
    → SameKeys allowed required
both_ways allowed required f g k = ground (arith, f k, g k)

module _ (invocation : Invocation) (allowed : List Text) where
  abbrev required : List Text
  required = collect_set invocation.required_capabilities

  approval_steps :
      (validate_capability_approval invocation allowed ≡ ok tt)
      → (approved : List Text) × (approve required allowed [] ≡ ok approved)
        × (within_keys required approved ≡ true)
  unfolding validate_capability_approval
  approval_steps h =
      let (approved, a, b) = >>=-eq-ok (approve required allowed []) _ h in
      (approved, a, sym (is_empty-difference required approved) ∙ ensure-eq-ok _ _ b)

  approval_built :
      (approved : List Text)
      → approve required allowed [] ≡ ok approved
      → within_keys required approved ≡ true
      → validate_capability_approval invocation allowed ≡ ok tt
  unfolding validate_capability_approval
  approval_built approved a b = rw a (ground (arith, b, is_empty-difference required approved))

  in_set : (k : Text) → contains k required ≡ contains k invocation.required_capabilities
  in_set k = contains-collect_set k invocation.required_capabilities

  in_approved : (k : Text) → contains k (insert_all allowed []) ≡ contains k allowed
  in_approved k = unfold contains in ground (arith, contains-insert_all k allowed [])

  -- `validate_capability_approval` accepts exactly the lists that approve every capability which
  -- the invocation requires, no other and none twice, each a capability name.
  pub validate_capability_approval_iff :
      (validate_capability_approval invocation allowed ≡ ok tt)
      ↔ IsApproved invocation.required_capabilities allowed
  validate_capability_approval_iff = (
    λ h.
        let (approved, a, b) = approval_steps h in
        let s = approve_sound required allowed [] approved a in
        record {
          valid = All-valid required allowed s.each;
          distinct = s.distinct;
          same_keys =
              both_ways allowed invocation.required_capabilities
                (λ k m. sym (in_set k) ∙ All-required required allowed s.each k m)
                (λ k m.
                  sym (in_approved k)
                  ∙ ap (contains k) (sym s.result)
                  ∙ within_keys_iff required approved b k (in_set k ∙ m));
        },
    λ v.
        approval_built (insert_all allowed [])
          (approve_complete required allowed []
            (All-approvals required allowed v.valid (λ k m. in_set k ∙ sym (v.same_keys k) ∙ m))
            v.distinct (λ k m. unfold contains in refl))
          (within_keys_of required (insert_all allowed [])
            (λ k m. in_approved k ∙ v.same_keys k ∙ sym (in_set k) ∙ m)),
  )
