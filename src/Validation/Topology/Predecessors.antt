-- ===== src/Validation/Topology/Predecessors.antt =====
-- The loop of `validate_audit_topology` (src/data_contract_validation.rs) over the predecessors
-- of a step accepts exactly what `Spec` says.
use evidence_workbench.Prelude.{
  ◌≡◌, refl, ◌↔◌, true, false, ◌||◌, List, [], ◌∷◌, arith, Option, none, some, ok, returns,
}
use evidence_workbench.Text.{Text, lit, same, same_iff, same_comm}
use evidence_workbench.Text.Order.{before, before_trans, before_irrefl}
use evidence_workbench.Collections.{contains, insert}
use evidence_workbench.Collections.Laws.{contains-insert}
use evidence_workbench.Validation.Fields.{validate_prefixed_id}
use evidence_workbench.Validation.Fields.Laws.{
  IsPrefixedId, validate_prefixed_id_iff, returns-validate_prefixed_id,
}
use evidence_workbench.Validation.Topology.{not_after, validate_predecessors}
use evidence_workbench.Validation.Topology.Spec.{All, AscendsFrom, AscendsAfter}

-- What the loop has seen is not above the previous text.
abbrev pub SeenBefore : Option Text → List Text → Type 0
SeenBefore none seen = (k : Text) → contains k seen ≡ false
SeenBefore (some p) seen = (k : Text) → contains k seen ≡ true → (same k p || before k p) ≡ true

pub seen_step :
    (previous : Option Text) (p : Text) (seen : List Text)
    → SeenBefore previous seen
    → not_after previous p ≡ false
    → SeenBefore (some p) (insert p seen)
unfolding not_after
seen_step none p seen s h k m = ground (arith, contains-insert k p seen, s k)
seen_step (some q) p seen s h k m =
    ground (arith, contains-insert k p seen, s k, before_trans k q p, same_iff k q)

pub not_seen :
    (previous : Option Text) (p : Text) (seen : List Text)
    → SeenBefore previous seen
    → not_after previous p ≡ false
    → contains p seen ≡ false
unfolding not_after
not_seen none p seen s h = s p
not_seen (some q) p seen s h =
    ground (arith, s p, before_trans p q p, same_iff p q, before_irrefl p)

pub ascends_nil : (previous : Option Text) → AscendsAfter previous []
ascends_nil none = tt
ascends_nil (some p) = tt

pub ascends_cons :
    (previous : Option Text) (x : Text) (xs : List Text)
    → AscendsAfter previous (x ∷ xs) ↔ ((not_after previous x ≡ false) × AscendsFrom x xs)
unfolding not_after
ascends_cons none x xs = (λ h. (refl, h), λ h. h.1)
ascends_cons (some p) x xs = (λ h. (rw h.0, h.1), λ h. (ground arith, h.1))

abbrev pub step_prefix : Text
step_prefix = lit "step_"

-- What one round over the predecessors asks for.
predecessors_cons :
    (id p : Text) (rest seen : List Text) (previous : Option Text)
    → (validate_predecessors id (p ∷ rest) seen previous ≡ ok tt) ↔ (
        (validate_prefixed_id p step_prefix "audit topology predecessor step id" ≡ ok tt)
        × (same p id ≡ false)
        × (not_after previous p ≡ false)
        × (contains p seen ≡ false)
        × (validate_predecessors id rest (insert p seen) (some p) ≡ ok tt))
unfolding validate_predecessors
predecessors_cons id p rest seen previous = ground arith

-- The loop over the predecessors.
abbrev pub PredecessorsFit : Text → List Text → Option Text → Type 0
PredecessorsFit id ps previous =
    All (IsPrefixedId step_prefix) ps × (contains id ps ≡ false) × AscendsAfter previous ps

pub predecessors_sound :
    (id : Text) (ps seen : List Text) (previous : Option Text)
    → validate_predecessors id ps seen previous ≡ ok tt
    → PredecessorsFit id ps previous
unfolding contains
predecessors_sound id [] seen previous h = (tt, refl, ascends_nil previous)
predecessors_sound id (p ∷ ps) seen previous h =
    let (a, b, c, d, e) = (predecessors_cons id p ps seen previous).0 h in
    let (each, loop, up) = predecessors_sound id ps (insert p seen) (some p) e in
    (
      ((validate_prefixed_id_iff _ _ _).0 a, each),
      ground (arith, same_comm p id),
      (ascends_cons previous p ps).1 (c, up),
    )

pub predecessors_complete :
    (id : Text) (ps seen : List Text) (previous : Option Text)
    → SeenBefore previous seen
    → PredecessorsFit id ps previous
    → validate_predecessors id ps seen previous ≡ ok tt
unfolding contains
predecessors_complete id [] seen previous s f = unfold validate_predecessors in refl
predecessors_complete id (p ∷ ps) seen previous s (each, loop, up) =
    let (after, higher) = (ascends_cons previous p ps).0 up in
    (predecessors_cons id p ps seen previous).1 (
      (validate_prefixed_id_iff _ _ _).1 each.0,
      ground (arith, same_comm p id),
      after,
      not_seen previous p seen s after,
      predecessors_complete id ps (insert p seen) (some p) (seen_step previous p seen s after)
          (each.1, ground arith, higher),
    )

pub returns-validate_predecessors :
    (id : Text) (ps seen : List Text) (previous : Option Text)
    → returns (validate_predecessors id ps seen previous) ≡ true
unfolding validate_predecessors
returns-validate_predecessors id [] seen previous = refl
returns-validate_predecessors id (p ∷ ps) seen previous = ground (
  arith,
  returns-validate_prefixed_id p step_prefix "audit topology predecessor step id",
  returns-validate_predecessors id ps (insert p seen) (some p),
)
