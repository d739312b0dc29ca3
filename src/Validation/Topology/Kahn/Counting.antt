-- ===== src/Validation/Topology/Kahn/Counting.antt =====
-- The counts of the proof about `validate_audit_topology`: how often a text stands in a list, how
-- many predecessors and how many steps are not visited yet.
use evidence_workbench.Prelude.{
  ℕ, suc, ◌+◌, ◌≤◌, ◌<◌, ◌≡◌, refl, true, false, List, [], ◌∷◌, ◌++◌, arith, if◌then◌else◌, none,
  some, length, Memᴰ, inl, inr, Bool-cases,
}
use evidence_workbench.Text.{Text, same, same_iff, same_refl, same_comm}
use evidence_workbench.Collections.{contains, get, Distinct}
use evidence_workbench.Contracts.Audit.{AuditTopologyStep}
use evidence_workbench.Validation.Topology.{ids}

unfoldable pub count : Text → List Text → ℕ
count k [] = 0
count k (x ∷ xs) = (if same k x then 1 else 0) + count k xs

-- How many of the predecessors are not among the visited.
unfoldable pub unvisited : List Text → List Text → ℕ
unvisited done [] = 0
unvisited done (p ∷ ps) = (if contains p done then 0 else 1) + unvisited done ps

-- How many of the steps are not among the visited.
abbrev pub pending : List Text → List AuditTopologyStep → ℕ
pending done steps = unvisited done (ids steps)

-- The number of a visited step: the last one, at the head, has the greatest.
unfoldable pub rank_in : List Text → Text → ℕ
rank_in [] x = 0
rank_in (v ∷ done) x = if same x v then suc (length done) else rank_in done x

unfoldable pub degree : Text → List (Text × ℕ) → ℕ
unfolding get
degree k m = elim (get k m) [ none ↦ 0 | some d ↦ d ]

pub count-append : (k : Text) (xs ys : List Text) → count k (xs ++ ys) ≡ count k xs + count k ys
unfolding count
count-append k [] ys = omega arith
count-append k (x ∷ xs) ys = omega (arith, count-append k xs ys)

pub count_foreign : (k : Text) (xs : List Text) → contains k xs ≡ false → count k xs ≡ 0
unfolding count contains
count_foreign k [] h = refl
count_foreign k (x ∷ xs) h = ground (arith, count_foreign k xs)

pub count_of_contains : (k : Text) (xs : List Text) → contains k xs ≡ true → 0 < count k xs
unfolding count contains
count_of_contains k [] h = cc
count_of_contains k (x ∷ xs) h = ground (arith, count_of_contains k xs)

pub count-Distinct :
    (k : Text) (xs : List Text) → Distinct xs → contains k xs ≡ true → count k xs ≡ 1
unfolding count contains
count-Distinct k [] d h = cc
count-Distinct k (x ∷ xs) d h =
    ground (arith, count-Distinct k xs d.1, count_foreign k xs, same_iff k x)

-- Visiting `s` leaves fewer: those that are `s`.
pub unvisited-visit :
    (s : Text) (done ps : List Text)
    → contains s done ≡ false
    → unvisited done ps ≡ unvisited (s ∷ done) ps + count s ps
unfolding unvisited count contains
unvisited-visit s done [] h = refl
unvisited-visit s done (p ∷ ps) h =
    ground (arith, unvisited-visit s done ps h, same_iff p s, same_comm p s)

pub unvisited_none :
    (done ps : List Text)
    → unvisited done ps ≡ 0
    → (p : Text) → contains p ps ≡ true
    → contains p done ≡ true
unfolding unvisited contains
unvisited_none done [] h p m = cc
unvisited_none done (x ∷ ps) h p m =
    ground (arith, unvisited_none done ps (ground arith) p, same_iff p x)

pub unvisited_all :
    (done ps : List Text)
    → ((p : Text) → contains p ps ≡ true → contains p done ≡ true)
    → unvisited done ps ≡ 0
unfolding unvisited contains
unvisited_all done [] h = refl
unvisited_all done (x ∷ ps) h =
    ground
      (arith, unvisited_all done ps (λ p m. h p (ground arith)), h x (ground (arith, same_refl x)))

pub unvisited_nil : (ps : List Text) → unvisited [] ps ≡ length ps
unfolding unvisited contains
unvisited_nil [] = refl
unvisited_nil (p ∷ ps) = omega (arith, unvisited_nil ps)

pub rank_in-le : (done : List Text) (x : Text) → rank_in done x ≤ length done
unfolding rank_in
rank_in-le [] x = omega arith
rank_in-le (v ∷ done) x = ground (arith, rank_in-le done x)

pub contains-ids :
    {step : AuditTopologyStep} (steps : List AuditTopologyStep)
    → Memᴰ step steps
    → contains step.step_id (ids steps) ≡ true
unfolding contains
contains-ids [] m = elim m [ ]
contains-ids (x ∷ steps) (Memᴰ.head e) = rw e (ground (arith, same_refl x.step_id))
contains-ids {step} (x ∷ steps) (Memᴰ.tail m) = ground (arith, contains-ids {step = step} steps m)

-- A step identifier is that of a step.
pub step_of :
    (k : Text) (steps : List AuditTopologyStep)
    → contains k (ids steps) ≡ true
    → (step : AuditTopologyStep) × Memᴰ step steps × (step.step_id ≡ k)
unfolding contains
step_of k [] h = cc
step_of k (x ∷ steps) h = elim (Bool-cases (same k x.step_id)) [
  | inl e ↦ (x, Memᴰ.head refl, ground (arith, same_iff k x.step_id))
  | inr e ↦ let (step, m, i) = step_of k steps (ground arith) in (step, Memᴰ.tail m, i)
]
