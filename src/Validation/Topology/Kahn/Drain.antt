-- ===== src/Validation/Topology/Kahn/Drain.antt =====
-- The outer loop of Kahn's algorithm in `validate_audit_topology`: it ends, without a panic, and
-- what it has visited then decides whether the steps can be ranked.
use evidence_workbench.Prelude.{
  ℕ, zero, suc, ◌≤◌, ◌<◌, ◌≡◌, refl, sym, ◌∙◌, true, not, ◌&&◌, List, [], ◌∷◌, arith, ◌==◌, length,
  Memᴰ, Outcome, ok, ap, subst,
}
use evidence_workbench.Text.{Text}
use evidence_workbench.Collections.{contains, Distinct, Within}
use evidence_workbench.Contracts.Audit.{AuditTopologyStep}
use evidence_workbench.Validation.Topology.{ids, in_degree, initially_ready, drain, visit_all}
use evidence_workbench.Validation.Topology.Spec.{Edge, Ranking}
use evidence_workbench.Validation.Topology.Kahn.Counting.{
  unvisited, pending, rank_in, unvisited_none, unvisited_all, unvisited_nil, contains-ids, step_of,
}
use evidence_workbench.Validation.Topology.Kahn.Start.{
  degree-in_degree, contains-ready, ready-Distinct, in_degree-Sorted, in_degree_known,
}
use evidence_workbench.Validation.Topology.Kahn.Round.{Inv, after, round, drain_round, some_pending}

-- The loop has ended with these steps visited and none ready.
pub record Ended (steps : List AuditTopologyStep) (result : Outcome ℕ) : Type 0 where
  pub done : List Text
  pub degrees : List (Text × ℕ)
  pub returns_ok : result ≡ ok (length done)
  pub inv : Inv steps done degrees []

drain_lem :
    (steps : List AuditTopologyStep) (unique : Distinct (ids steps)) (fuel : ℕ) (done : List Text)
    (degrees : List (Text × ℕ)) (ready : List Text)
    → pending done steps ≤ fuel
    → Inv steps done degrees ready
    → Ended steps (drain fuel degrees ready (after steps unique) (length done))
unfolding drain
drain_lem steps unique zero done degrees [] h inv = record {
  done = done;
  degrees = degrees;
  returns_ok = refl;
  inv = inv;
}
drain_lem steps unique (suc fuel) done degrees [] h inv = record {
  done = done;
  degrees = degrees;
  returns_ok = refl;
  inv = inv;
}
drain_lem steps unique zero done degrees (s ∷ ready) h inv =
    absurd (omega (arith, some_pending steps unique inv))
drain_lem steps unique (suc fuel) done degrees (s ∷ ready) h inv =
    let r = round steps unique inv in
    let e = drain_lem steps unique fuel (s ∷ done) _ _ (omega (arith, r.total, inv.total)) r in
    record {
      done = e.done;
      degrees = e.degrees;
      returns_ok =
          drain_round steps unique inv fuel (length done)
          ∙ ap (drain fuel _ _ _) (omega arith)
          ∙ e.returns_ok;
      inv = e.inv;
    }

length-ids : (steps : List AuditTopologyStep) → length (ids steps) ≡ length steps
length-ids [] = refl
length-ids (_ ∷ steps) = ap suc (length-ids steps)

ok_injective : {a b : ℕ} → ok a ≡ ok b → a ≡ b
ok_injective h = cc

module _ (steps : List AuditTopologyStep) (unique : Distinct (ids steps)) where
  ready_first :
      (step : AuditTopologyStep)
      → Memᴰ step steps
      → contains step.step_id (initially_ready (in_degree steps))
        ≡ (not (contains step.step_id []) && unvisited [] step.predecessor_step_ids == 0)
  unfolding contains
  ready_first step m = ground (
    arith,
    contains-ready step.step_id (in_degree steps) (in_degree-Sorted steps),
    in_degree_known step.step_id steps,
    contains-ids {step = step} steps m,
    degree-in_degree {step = step} steps unique m,
    unvisited_nil step.predecessor_step_ids,
  )

  start-Inv : Inv steps [] (in_degree steps) (initially_ready (in_degree steps))
  unfolding contains
  start-Inv = record {
    degrees_count = λ step m.
        degree-in_degree {step = step} steps unique m
        ∙ sym (unvisited_nil step.predecessor_step_ids);
    ready_when = ready_first;
    ready_known = λ x h. ground (
      arith,
      contains-ready x (in_degree steps) (in_degree-Sorted steps),
      in_degree_known x steps,
    );
    ready_distinct = ready-Distinct (in_degree steps);
    done_closed = λ step m h. cc;
    done_ranked = λ step p m h q. cc;
    total = omega (arith, unvisited_nil (ids steps), length-ids steps);
  }

  -- The algorithm comes to its end.
  pub visit_all_ends : Ended steps (visit_all steps)
  unfolding visit_all
  visit_all_ends =
      drain_lem steps unique (length steps) [] _ _
        (omega (arith, unvisited_nil (ids steps), length-ids steps)) start-Inv

  -- All steps are visited exactly if their count says so.
  all_visited :
      (e : Ended steps (visit_all steps))
      → length e.done ≡ length steps
      → (q : Text) → contains q (ids steps) ≡ true
      → contains q e.done ≡ true
  all_visited e full = unvisited_none e.done (ids steps) (omega (arith, e.inv.total))

  -- Once every step is visited, the order of the visits ranks them.
  pub Ranking-of : visit_all steps ≡ ok (length steps) → Ranking steps
  Ranking-of h =
      let e = visit_all_ends in
      let full = all_visited e (ok_injective (sym e.returns_ok ∙ h)) in
      record {
        rank = rank_in e.done;
        rises = λ p q edge.
            subst (λ t. rank_in e.done p < rank_in e.done t) edge.target
              (e.inv.done_ranked edge.step p edge.is_step
                (full edge.step.step_id (contains-ids {step = edge.step} steps edge.is_step))
                edge.source);
      }

  module _
      (known : (step : AuditTopologyStep)
        → Memᴰ step steps
        → Within step.predecessor_step_ids (ids steps))
      (ranking : Ranking steps) where
    -- By induction on the rank: what is not ready at the end has been visited.
    reached :
        (e : Ended steps (visit_all steps)) (bound : ℕ) (step : AuditTopologyStep)
        → Memᴰ step steps
        → ranking.rank step.step_id < bound
        → contains step.step_id e.done ≡ true
    unfolding contains
    reached e zero step m h = absurd (omega arith)
    reached e (suc bound) step m h =
        let before : (p : Text)
            → contains p step.predecessor_step_ids ≡ true
            → contains p e.done ≡ true =
          λ p q.
            let (other, om, i) = step_of p steps (known step m p q) in
            let edge : Edge steps p step.step_id = record {
              step = step;
              is_step = m;
              target = refl;
              source = q;
            } in
            let lower = ranking.rises p step.step_id edge in
            subst (λ t. contains t e.done ≡ true) i
              (reached e bound other om
                (subst (λ t. ranking.rank t < bound) (sym i) (omega (arith, lower)))) in
        ground
          (arith, unvisited_all e.done step.predecessor_step_ids before, e.inv.ready_when step m)

    -- Steps that can be ranked are all visited.
    pub visits_all : visit_all steps ≡ ok (length steps)
    visits_all =
        let e = visit_all_ends in
        let none_left : unvisited e.done (ids steps) ≡ 0 = unvisited_all e.done (ids steps) (λ p h.
          let (step, m, i) = step_of p steps h in
          subst (λ t. contains t e.done ≡ true) i
            (reached e (suc (ranking.rank step.step_id)) step m (omega arith))) in
        e.returns_ok ∙ ap ok (omega (arith, e.inv.total))
