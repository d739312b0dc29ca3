-- ===== src/Validation/Topology/Kahn/Round.antt =====
-- One round of the outer loop of Kahn's algorithm in `validate_audit_topology`.
use evidence_workbench.Prelude.{
  ℕ, suc, ◌+◌, ◌≤◌, ◌<◌, ◌≡◌, refl, ◌∙◌, true, false, not, ◌&&◌, List, [], ◌∷◌, arith, ◌==◌, length,
  Memᴰ, ap, Bool-cases, inl, inr, subst,
}
use evidence_workbench.Text.{Text, same, same_iff, same_refl}
use evidence_workbench.Collections.{contains, get, Distinct}
use evidence_workbench.Contracts.Audit.{AuditTopologyStep}
use evidence_workbench.Validation.Topology.{ids, following, successors, drain}
use evidence_workbench.Validation.Topology.Kahn.Counting.{
  count, unvisited, pending, rank_in, degree, count-Distinct, unvisited-visit, unvisited_none,
  rank_in-le, step_of,
}
use evidence_workbench.Validation.Topology.Kahn.Release.{Enough, ready_after, Released, release_lem}
use evidence_workbench.Validation.Topology.Kahn.Start.{
  edges, following-successors, edges_foreign, edges_step,
}

-- Between two rounds, with `done` the visited steps, the last one first.
pub record Inv (steps : List AuditTopologyStep) (done : List Text) (degrees : List (Text × ℕ))
    (ready : List Text) : Type 0 where
  pub degrees_count :
      (step : AuditTopologyStep)
      → Memᴰ step steps
      → degree step.step_id degrees ≡ unvisited done step.predecessor_step_ids
  pub ready_when :
      (step : AuditTopologyStep)
      → Memᴰ step steps
      → contains step.step_id ready
        ≡ (not (contains step.step_id done) && unvisited done step.predecessor_step_ids == 0)
  pub ready_known : (x : Text) → contains x ready ≡ true → contains x (ids steps) ≡ true
  pub ready_distinct : Distinct ready
  pub done_closed :
      (step : AuditTopologyStep)
      → Memᴰ step steps
      → contains step.step_id done ≡ true
      → unvisited done step.predecessor_step_ids ≡ 0
  pub done_ranked :
      (step : AuditTopologyStep) (p : Text)
      → Memᴰ step steps
      → contains step.step_id done ≡ true
      → contains p step.predecessor_step_ids ≡ true
      → rank_in done p < rank_in done step.step_id
  pub total : pending done steps + length done ≡ length steps

module _ (steps : List AuditTopologyStep) (unique : Distinct (ids steps)) where
  -- The source's `successors`, once it is built.
  abbrev pub after : List (Text × List Text)
  after = successors steps []

  following_nil : (p : Text) → following p [] ≡ []
  unfolding following get
  following_nil p = refl

  count-following : (x p : Text) → count x (following p after) ≡ edges x p steps
  unfolding count
  count-following x p =
      ground (arith, following-successors x p steps [], ap (count x) (following_nil p))

  following_step :
      (step : AuditTopologyStep) (p : Text)
      → Memᴰ step steps
      → count step.step_id (following p after) ≡ count p step.predecessor_step_ids
  following_step step p m =
      count-following step.step_id p ∙ edges_step {step = step} p steps unique m

  following_foreign :
      (x p : Text) → contains x (ids steps) ≡ false → count x (following p after) ≡ 0
  following_foreign x p h = count-following x p ∙ edges_foreign x p steps h

  module _ {done : List Text} {degrees : List (Text × ℕ)} {s : Text} {ready : List Text}
      (inv : Inv steps done degrees (s ∷ ready)) where
    s_is_ready : contains s (s ∷ ready) ≡ true
    unfolding contains
    s_is_ready = ground (arith, same_refl s)

    -- The step that is visited in the round.
    current : (step : AuditTopologyStep) × Memᴰ step steps × (step.step_id ≡ s)
    current = step_of s steps (inv.ready_known s s_is_ready)

    s_fresh : (contains s done ≡ false) × (unvisited done current.0.predecessor_step_ids ≡ 0)
    s_fresh =
        let (step, m, e) = current in
        let h = inv.ready_when step m in ground (arith, h, s_is_ready, e)

    pub next : List Text
    next = following s after

    split_count :
        (step : AuditTopologyStep)
        → unvisited done step.predecessor_step_ids
          ≡ unvisited (s ∷ done) step.predecessor_step_ids + count s step.predecessor_step_ids
    split_count step = unvisited-visit s done step.predecessor_step_ids s_fresh.0

    enough : Enough next degrees
    unfolding next
    enough x = elim (Bool-cases (contains x (ids steps))) [
      | inl known ↦
          let (step, m, e) = step_of x steps known in
          subst (λ y. count y (following s after) ≤ degree y degrees) e
            (omega (arith, following_step step s m, inv.degrees_count step m, split_count step))
      | inr foreign ↦ omega (arith, following_foreign x s foreign)
    ]

    pub released : Released next degrees ready
    released = release_lem next degrees ready enough

    head_gone : contains s ready ≡ false
    head_gone = inv.ready_distinct.0

    ready_step :
        (step : AuditTopologyStep)
        → Memᴰ step steps
        → ready_after step.step_id next degrees ready ≡ (
            not (contains step.step_id (s ∷ done))
            && unvisited (s ∷ done) step.predecessor_step_ids == 0)
    unfolding next contains
    ready_step step m = ground (
      arith,
      inv.ready_when step m,
      inv.done_closed step m,
      inv.degrees_count step m,
      split_count step,
      following_step step s m,
      head_gone,
      same_iff step.step_id s,
      s_fresh,
    )

    known_after : (x : Text) → contains x released.ready' ≡ true → contains x (ids steps) ≡ true
    unfolding next contains
    known_after x h = elim (Bool-cases (contains x (ids steps))) [
      | inl known ↦ known
      | inr foreign ↦
          ground (arith, released.is_ready x, following_foreign x s foreign, inv.ready_known x)
    ]

    -- A step that is visited now has all its predecessors visited before.
    closed_before :
        (step : AuditTopologyStep)
        → Memᴰ step steps
        → contains step.step_id (s ∷ done) ≡ true
        → unvisited done step.predecessor_step_ids ≡ 0
    unfolding contains
    closed_before step m h =
        ground (arith, inv.ready_when step m, inv.done_closed step m, same_iff step.step_id s)

    predecessor_done :
        (step : AuditTopologyStep) (p : Text)
        → Memᴰ step steps
        → contains step.step_id (s ∷ done) ≡ true
        → contains p step.predecessor_step_ids ≡ true
        → (contains p done ≡ true) × (same p s ≡ false)
    predecessor_done step p m h q =
        let old = unvisited_none done step.predecessor_step_ids (closed_before step m h) p q in
        (old, ground (arith, old, s_fresh, same_iff p s))

    ranked_after :
        (step : AuditTopologyStep) (p : Text)
        → Memᴰ step steps
        → contains step.step_id (s ∷ done) ≡ true
        → contains p step.predecessor_step_ids ≡ true
        → rank_in (s ∷ done) p < rank_in (s ∷ done) step.step_id
    unfolding rank_in contains
    ranked_after step p m h q =
        ground (arith, predecessor_done step p m h q, rank_in-le done p, inv.done_ranked step p m)

    pub round : Inv steps (s ∷ done) released.degrees' released.ready'
    unfolding next
    round = record {
      degrees_count = λ step m. omega (
        arith,
        released.falls step.step_id,
        inv.degrees_count step m,
        split_count step,
        following_step step s m,
      );
      ready_when = λ step m. released.is_ready step.step_id ∙ ready_step step m;
      ready_known = known_after;
      ready_distinct = released.distinct inv.ready_distinct.1;
      done_closed = λ step m h. omega (arith, closed_before step m h, split_count step);
      done_ranked = ranked_after;
      total = omega (
        arith,
        inv.total,
        unvisited-visit s done (ids steps) s_fresh.0,
        count-Distinct s (ids steps) unique (inv.ready_known s s_is_ready),
      );
    }

    pub drain_round :
        (fuel visited : ℕ)
        → drain (suc fuel) degrees (s ∷ ready) after visited
          ≡ drain fuel released.degrees' released.ready' after (visited + 1)
    unfolding drain next following
    drain_round fuel visited = ground (arith, released.returns_ok)

    pub some_pending : 0 < pending done steps
    some_pending = omega (
      arith,
      unvisited-visit s done (ids steps) s_fresh.0,
      count-Distinct s (ids steps) unique (inv.ready_known s s_is_ready),
    )
