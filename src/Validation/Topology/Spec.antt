-- ===== src/Validation/Topology/Spec.antt =====
-- What `validate_audit_topology` (src/data_contract_validation.rs) is to accept, said of the
-- topology alone.
use evidence_workbench.Prelude.{
  ℕ, ◌<◌, ◌≡◌, ◌≢◌, true, false, List, [], ◌∷◌, Option, none, some, map, Memᴰ,
}
use evidence_workbench.Text.{Text, lit}
use evidence_workbench.Text.Order.{before}
use evidence_workbench.Collections.{contains, Distinct, Within}
use evidence_workbench.Contracts.Audit.{AuditTopologyStep, AuditTopology}
use evidence_workbench.Validation.Fields.Laws.{IsPrefixedId, IsPlanRecordRef}
use evidence_workbench.Validation.Topology.{ids}

abbrev pub All {ℓ} : {A : Type ℓ} → (A → Type 0) → List A → Type 0
All P [] = Unit
All P (x ∷ xs) = P x × All P xs

-- The texts increase strictly, from a first one on.
abbrev pub AscendsFrom : Text → List Text → Type 0
AscendsFrom p [] = Unit
AscendsFrom p (x ∷ xs) = (before p x ≡ true) × AscendsFrom x xs

abbrev pub AscendsAfter : Option Text → List Text → Type 0
AscendsAfter none [] = Unit
AscendsAfter none (x ∷ xs) = AscendsFrom x xs
AscendsAfter (some p) xs = AscendsFrom p xs

abbrev pub plan_ids : List AuditTopologyStep → List Text
plan_ids = map (λ step. step.plan_ref.plan_id)

-- What is asked of a step by itself.
pub record IsStep (step : AuditTopologyStep) : Type 0 where
  pub step_id : IsPrefixedId (lit "step_") step.step_id
  pub plan_ref : IsPlanRecordRef step.plan_ref
  pub predecessors : All (IsPrefixedId (lit "step_")) step.predecessor_step_ids
  pub no_loop : contains step.step_id step.predecessor_step_ids ≡ false
  pub ascends : AscendsAfter none step.predecessor_step_ids

-- `p` is a predecessor of `q`.
pub record Edge (steps : List AuditTopologyStep) (p q : Text) : Type 0 where
  pub step : AuditTopologyStep
  pub is_step : Memᴰ step steps
  pub target : step.step_id ≡ q
  pub source : contains p step.predecessor_step_ids ≡ true

-- One edge or more.
pub data Walk (steps : List AuditTopologyStep) (p : Text) : Text → Type 0 where
  one : {q : Text} → Edge steps p q → Walk steps p q
  more : {q r : Text} → Walk steps p q → Edge steps q r → Walk steps p r

-- The steps have an order in which each comes after its predecessors.
pub record Ranking (steps : List AuditTopologyStep) : Type 0 where
  pub rank : Text → ℕ
  pub rises : (p q : Text) → Edge steps p q → rank p < rank q

pub record IsAuditTopology (topology : AuditTopology) : Type 0 where
  pub schema : topology.schema_version ≡ lit "audit-topology/v1"
  pub topology_id : IsPrefixedId (lit "topology_") topology.topology_id
  pub some_step : topology.steps ≢ []
  pub each : All IsStep topology.steps
  pub ordered : AscendsAfter none (ids topology.steps)
  pub plans : Distinct (plan_ids topology.steps)
  pub known : All (λ step. Within step.predecessor_step_ids (ids topology.steps)) topology.steps
  pub ranking : Ranking topology.steps
