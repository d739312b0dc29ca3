-- ===== src/Validation/Topology.antt =====
-- src/data_contract_validation.rs: `validate_audit_topology`. Its last part is Kahn's algorithm
-- over ordered maps: `in_degree`, `successors` and `ready` are the source's variables.
pub mod Spec
pub mod Predecessors
pub mod Steps
pub mod Kahn
pub mod Accepts
use evidence_workbench.Prelude.{
  ℕ, zero, suc, ◌+◌, Bool, true, false, not, List, [], ◌∷◌, ◌++◌, Option, none, some, ◌==◌,
  if◌then◌else◌, map, all, length, Outcome, Checked, ok, panic, diverge, ◌>>=◌, ◌>>◌, ensure,
}
use evidence_workbench.Text.{Text, lit, same}
use evidence_workbench.Text.Order.{before}
use evidence_workbench.Collections.{contains, insert, get, put, put_all}
use evidence_workbench.Contracts.Audit.{AuditTopologyStep, AuditTopology}
use evidence_workbench.Validation.Fields.{validate_prefixed_id, validate_plan_record_ref}

-- `previous.is_some_and(|previous| previous >= id)`.
unfoldable pub not_after : Option Text → Text → Bool
not_after none id = false
not_after (some previous) id = not (before previous id)

-- The loop over the predecessors of one step, with `predecessor_ids` and the previous one.
unfoldable pub validate_predecessors : Text → List Text → List Text → Option Text → Checked
unfolding not_after
validate_predecessors step_id [] seen previous = ok tt
validate_predecessors step_id (p ∷ rest) seen previous = do
  validate_prefixed_id p (lit "step_") "audit topology predecessor step id"
  ensure (not (same p step_id)) "audit topology step cannot depend on itself"
  ensure (not (not_after previous p)) "audit topology predecessor ids must be ordered and unique"
  ensure (not (contains p seen)) "audit topology predecessor ids must be unique within a step"
  validate_predecessors step_id rest (insert p seen) (some p)

-- The first loop over the steps; it leaves `step_ids`.
unfoldable pub validate_steps :
    List AuditTopologyStep → List Text → List Text → Option Text → Outcome (List Text)
unfolding not_after validate_predecessors
validate_steps [] step_ids plan_ids previous = ok step_ids
validate_steps (step ∷ rest) step_ids plan_ids previous = do
  validate_prefixed_id step.step_id (lit "step_") "audit topology step id"
  ensure (not (not_after previous step.step_id))
      "audit topology steps must be ordered by unique step id"
  ensure (not (contains step.step_id step_ids)) "audit topology step ids must be unique"
  validate_plan_record_ref step.plan_ref "audit topology plan"
  ensure (not (contains step.plan_ref.plan_id plan_ids)) "audit topology plan ids must be unique"
  validate_predecessors step.step_id step.predecessor_step_ids [] none
  validate_steps rest (insert step.step_id step_ids) (insert step.plan_ref.plan_id plan_ids)
      (some step.step_id)

-- The second loop: every predecessor is a step.
unfoldable pub knows_predecessors : List Text → List AuditTopologyStep → Bool
knows_predecessors step_ids = all (λ step. all (λ p. contains p step_ids) step.predecessor_step_ids)

abbrev pub ids : List AuditTopologyStep → List Text
ids = map (λ step. step.step_id)

abbrev degree_entry : AuditTopologyStep → Text × ℕ
degree_entry step = (step.step_id, length step.predecessor_step_ids)

unfoldable pub in_degree : List AuditTopologyStep → List (Text × ℕ)
in_degree steps = put_all [] (map degree_entry steps)

-- `successors.get(id)`, or the empty list of `or_default`.
unfoldable pub following : Text → List (Text × List Text) → List Text
following id m = elim (get id m) [ none ↦ [] | some next ↦ next ]

-- One step's edges: `successors.entry(p).or_default().push(id)` for each predecessor `p`.
unfoldable pub push_edges : Text → List Text → List (Text × List Text) → List (Text × List Text)
unfolding following
push_edges id [] m = m
push_edges id (p ∷ ps) m = push_edges id ps (put p (following p m ++ id ∷ []) m)

unfoldable pub successors :
    List AuditTopologyStep → List (Text × List Text) → List (Text × List Text)
unfolding push_edges
successors [] m = m
successors (step ∷ rest) m = successors rest (push_edges step.step_id step.predecessor_step_ids m)

unfoldable pub initially_ready : List (Text × ℕ) → List Text
initially_ready [] = []
initially_ready ((id, degree) ∷ m) =
    let rest = initially_ready m in if degree == 0 then insert id rest else rest

-- The inner loop: `*degree -= 1`, and the step is ready at 0. A missing key is the source's
-- `expect`; a subtraction from 0 overflows.
unfoldable pub release :
    List Text → List (Text × ℕ) → List Text → Outcome (List (Text × ℕ) × List Text)
release [] degrees ready = ok (degrees, ready)
release (next ∷ rest) degrees ready = elim (get next degrees) [
  | none ↦ panic
  | some zero ↦ panic
  | some (suc d) ↦ release rest (put next d degrees) (if d == 0 then insert next ready else ready)
]

-- `while let Some(step_id) = ready.pop_first()`, with fuel for the rounds.
unfoldable pub drain : ℕ → List (Text × ℕ) → List Text → List (Text × List Text) → ℕ → Outcome ℕ
unfolding release
drain fuel degrees [] after visited = ok visited
drain zero degrees (id ∷ ready) after visited = diverge
drain (suc fuel) degrees (id ∷ ready) after visited = elim (get id after) [
  | none ↦ drain fuel degrees ready after (visited + 1)
  | some next ↦ release next degrees ready >>= λ (degrees', ready').
      drain fuel degrees' ready' after (visited + 1)
]

unfoldable pub visit_all : List AuditTopologyStep → Outcome ℕ
unfolding in_degree initially_ready successors drain
visit_all steps =
    drain (length steps) (in_degree steps) (initially_ready (in_degree steps)) (successors steps [])
      0

abbrev no_steps : List AuditTopologyStep → Bool
no_steps [] = true
no_steps (_ ∷ _) = false

unfoldable pub validate_audit_topology : AuditTopology → Checked
validate_audit_topology topology = do
  ensure (same topology.schema_version (lit "audit-topology/v1"))
      "unsupported audit topology schema"
  validate_prefixed_id topology.topology_id (lit "topology_") "audit topology id"
  ensure (not (no_steps topology.steps)) "audit topology must contain at least one step"
  step_ids ← validate_steps topology.steps [] [] none
  ensure (knows_predecessors step_ids topology.steps)
      "audit topology predecessor references an unknown step"
  visited ← visit_all topology.steps
  ensure (visited == length topology.steps) "audit topology predecessor graph must be acyclic"
