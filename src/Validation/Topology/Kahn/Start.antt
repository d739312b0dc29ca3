-- ===== src/Validation/Topology/Kahn/Start.antt =====
-- The maps with which Kahn's algorithm in `validate_audit_topology` starts: `in_degree`,
-- `successors` and `ready`.
use evidence_workbench.Prelude.{
  ◌||◌, subst, sym, ℕ, ◌+◌, ◌≡◌, refl, ◌∙◌, false, ◌&&◌, List, [], ◌∷◌, ◌++◌, arith, if◌then◌else◌,
  some, ◌==◌, map, length, Memᴰ,
}
use evidence_workbench.Text.{Text, same, same_iff, same_refl}
use evidence_workbench.Collections.{contains, get, put, put_all, contains_key, Distinct}
use evidence_workbench.Collections.Laws.{contains-insert, insert-Distinct, get-put, contains-keys}
use evidence_workbench.Collections.Ordered.{Sorted, put_all-Sorted, Below-foreign}
use evidence_workbench.Contracts.Audit.{AuditTopologyStep}
use evidence_workbench.Validation.Topology.{
  ids, degree_entry, in_degree, following, push_edges, successors, initially_ready,
}
use evidence_workbench.Validation.Topology.Kahn.Counting.{count, count-append, degree, contains-ids}

-- A step of the list has an identifier that the steps after it do not have.
distinct_tail :
    {step : AuditTopologyStep} (x : AuditTopologyStep) (steps : List AuditTopologyStep)
    → contains x.step_id (ids steps) ≡ false
    → Memᴰ step steps
    → same step.step_id x.step_id ≡ false
distinct_tail {step} x steps d m =
    ground (arith, contains-ids {step = step} steps m, same_iff step.step_id x.step_id)

entries : List AuditTopologyStep → List (Text × ℕ)
entries = map degree_entry

degree-entries_foreign :
    (k : Text) (steps : List AuditTopologyStep) (m : List (Text × ℕ))
    → contains k (ids steps) ≡ false
    → get k (put_all m (entries steps)) ≡ get k m
unfolding entries put_all contains
degree-entries_foreign k [] m h = refl
degree-entries_foreign k (x ∷ steps) m h =
    degree-entries_foreign k steps (put x.step_id (length x.predecessor_step_ids) m) (ground arith)
    ∙ ground (arith, get-put k x.step_id (length x.predecessor_step_ids) m)

degree-entries :
    {step : AuditTopologyStep} (steps : List AuditTopologyStep) (m : List (Text × ℕ))
    → Distinct (ids steps)
    → Memᴰ step steps
    → get step.step_id (put_all m (entries steps)) ≡ some (length step.predecessor_step_ids)
unfolding entries put_all
degree-entries [] m d h = elim h [ ]
degree-entries {step} (x ∷ steps) m d (Memᴰ.head e) = rw e (
    degree-entries_foreign x.step_id steps _ d.0
    ∙ ground
        (arith, get-put x.step_id x.step_id (length x.predecessor_step_ids) m, same_refl x.step_id))
degree-entries {step} (x ∷ steps) m d (Memᴰ.tail h) =
    degree-entries {step = step} steps (put x.step_id (length x.predecessor_step_ids) m) d.1 h

-- At the start a step's degree is the number of its predecessors.
pub degree-in_degree :
    {step : AuditTopologyStep} (steps : List AuditTopologyStep)
    → Distinct (ids steps)
    → Memᴰ step steps
    → degree step.step_id (in_degree steps) ≡ length step.predecessor_step_ids
unfolding in_degree degree entries
degree-in_degree {step} steps d m = ground (arith, degree-entries {step = step} steps [] d m)

pub contains-ready :
    (x : Text) (m : List (Text × ℕ))
    → Sorted m
    → contains x (initially_ready m) ≡ (contains_key x m && degree x m == 0)
unfolding initially_ready contains degree contains_key get
contains-ready x [] s = refl
contains-ready x ((k, d) ∷ m) s = ground (
  arith,
  contains-ready x m s.1,
  contains-insert x k (initially_ready m),
  same_iff x k,
  Below-foreign k m s.0,
  contains-keys x m,
)

pub ready-Distinct : (m : List (Text × ℕ)) → Distinct (initially_ready m)
unfolding initially_ready
ready-Distinct [] = tt
ready-Distinct ((k, d) ∷ m) =
    ground (arith, insert-Distinct k (initially_ready m) (ready-Distinct m), ready-Distinct m)

pub in_degree-Sorted : (steps : List AuditTopologyStep) → Sorted (in_degree steps)
unfolding in_degree
in_degree-Sorted steps = put_all-Sorted (map degree_entry steps) [] tt

-- The edges from `p` to the steps named `x`.
unfoldable pub edges : Text → Text → List AuditTopologyStep → ℕ
edges x p [] = 0
edges x p (step ∷ steps) =
    (if same x step.step_id then count p step.predecessor_step_ids else 0) + edges x p steps

following-put :
    (p q : Text) (next : List Text) (m : List (Text × List Text))
    → following p (put q next m) ≡ (if same p q then next else following p m)
unfolding following
following-put p q next m = ground (arith, get-put p q next m)

following-push_edges :
    (x p id : Text) (ps : List Text) (m : List (Text × List Text))
    → count x (following p (push_edges id ps m))
      ≡ count x (following p m) + (if same x id then count p ps else 0)
unfolding push_edges count
following-push_edges x p id [] m = ground arith
following-push_edges x p id (q ∷ ps) m = ground (
  arith,
  following-push_edges x p id ps (put q (following q m ++ id ∷ []) m),
  following-put p q (following q m ++ id ∷ []) m,
  count-append x (following q m) (id ∷ []),
  same_iff p q,
)

pub following-successors :
    (x p : Text) (steps : List AuditTopologyStep) (m : List (Text × List Text))
    → count x (following p (successors steps m)) ≡ count x (following p m) + edges x p steps
unfolding successors edges
following-successors x p [] m = omega arith
following-successors x p (step ∷ steps) m = omega (
  arith,
  following-successors x p steps (push_edges step.step_id step.predecessor_step_ids m),
  following-push_edges x p step.step_id step.predecessor_step_ids m,
)

pub edges_foreign :
    (x p : Text) (steps : List AuditTopologyStep)
    → contains x (ids steps) ≡ false
    → edges x p steps ≡ 0
unfolding edges contains
edges_foreign x p [] h = refl
edges_foreign x p (step ∷ steps) h = ground (arith, edges_foreign x p steps)

pub edges_step :
    {step : AuditTopologyStep} (p : Text) (steps : List AuditTopologyStep)
    → Distinct (ids steps)
    → Memᴰ step steps
    → edges step.step_id p steps ≡ count p step.predecessor_step_ids
unfolding edges
edges_step p [] d m = elim m [ ]
edges_step p (x ∷ steps) d (Memᴰ.head e) =
    subst (λ s. edges s.step_id p (x ∷ steps) ≡ count p s.predecessor_step_ids) (sym e)
      (ground (arith, same_refl x.step_id, edges_foreign x.step_id p steps d.0))
edges_step {step} p (x ∷ steps) d (Memᴰ.tail m) =
    ground
      (arith, distinct_tail {step = step} x steps d.0 m, edges_step {step = step} p steps d.1 m)

contains_key-put :
    (j k : Text) (d : ℕ) (m : List (Text × ℕ))
    → contains_key j (put k d m) ≡ (same j k || contains_key j m)
unfolding contains_key
contains_key-put j k d m = ground (arith, get-put j k d m)

no_key : (k : Text) → contains_key {V = ℕ} k [] ≡ false
unfolding contains_key get
no_key k = refl

contains_key-put_all :
    (k : Text) (steps : List AuditTopologyStep) (m : List (Text × ℕ))
    → contains_key k (put_all m (entries steps)) ≡ (contains k (ids steps) || contains_key k m)
unfolding entries put_all contains
contains_key-put_all k [] m = refl
contains_key-put_all k (x ∷ steps) m = ground (
  arith,
  contains_key-put_all k steps (put x.step_id (length x.predecessor_step_ids) m),
  contains_key-put k x.step_id (length x.predecessor_step_ids) m,
)

-- The keys of `in_degree` are the step identifiers.
pub in_degree_known :
    (k : Text) (steps : List AuditTopologyStep)
    → contains_key k (in_degree steps) ≡ contains k (ids steps)
unfolding in_degree entries
in_degree_known k steps = contains_key-put_all k steps [] ∙ ground (arith, no_key k)
