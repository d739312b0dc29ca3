-- ===== src/Validation/Receipt/Accepts.antt =====
-- What `validate_audit_receipt` and `validate_audit_receipt_against_topology`
-- (src/data_contract_validation.rs) accept.
use evidence_workbench.Prelude.{
  ◌≡◌, ◌≢◌, refl, ◌↔◌, sym, ◌∙◌, true, false, List, [], ◌∷◌, arith, Option, none, some, map,
  Outcome, ok, Memᴰ, subst, ap, inl, inr, is_ok_with, is_ok_with_iff,
}
use evidence_workbench.Prelude.Memᴰ
use evidence_workbench.Text.{Text, lit, same, same_iff, same_refl}
use evidence_workbench.Collections.{contains, get, keys, Distinct}
use evidence_workbench.Collections.Collected.{get-put_all_mem, get-put_all_cases}
use evidence_workbench.Contracts.References.{same_plan_ref_iff}
use evidence_workbench.Contracts.Audit.{
  AuditTopologyStep, AuditTopology, AuditRecordedRun, AuditReceipt,
}
use evidence_workbench.Validation.Fields.{validate_prefixed_id, validate_sha256}
use evidence_workbench.Validation.Fields.Laws.{validate_prefixed_id_iff, validate_sha256_iff}
use evidence_workbench.Validation.Topology.{ids, validate_audit_topology}
use evidence_workbench.Validation.Topology.Spec.{All, IsAuditTopology}
use evidence_workbench.Validation.Topology.Steps.{Distinct-of_ascending}
use evidence_workbench.Validation.Topology.Accepts.{validate_audit_topology_iff}
use evidence_workbench.Validation.Receipt.{
  no_runs, validate_recorded_runs, validate_audit_receipt, step_entry, steps_by_id, match_runs,
  validate_audit_receipt_against_topology,
}
use evidence_workbench.Validation.Receipt.Runs.{IsAuditReceipt, runs_sound, runs_complete}

some_run_test : (runs : List AuditRecordedRun) → (no_runs runs ≡ false) ↔ (runs ≢ [])
some_run_test [] = (λ h. cc, λ h. absurd (h refl))
some_run_test (r ∷ rs) = (λ h e. cc, λ h. refl)

receipt_checks :
    (r : AuditReceipt)
    → (validate_audit_receipt r ≡ ok tt) ↔ (
        (same r.schema_version (lit "audit-receipt/v1") ≡ true)
        × (validate_prefixed_id r.topology_ref.topology_id
              (lit "topology_")
              "audit receipt topology id"
            ≡ ok tt)
        × (validate_sha256 r.topology_ref.topology_digest "audit receipt topology" ≡ ok tt)
        × (no_runs r.recorded_runs ≡ false)
        × (validate_recorded_runs r.recorded_runs [] [] [] none ≡ ok tt))
unfolding validate_audit_receipt
receipt_checks r = ground arith

-- `validate_audit_receipt` accepts a receipt exactly if it is one as `IsAuditReceipt` says: schema,
-- identifiers and digests are well-formed, there is a run, the runs stand in increasing order of
-- their steps, and no plan and no run is named twice.
pub validate_audit_receipt_iff :
    (r : AuditReceipt) → (validate_audit_receipt r ≡ ok tt) ↔ IsAuditReceipt r
unfolding contains
validate_audit_receipt_iff r = (
  λ h.
      let (a, b, c, d, e) = (receipt_checks r).0 h in
      let fit = runs_sound r.recorded_runs [] [] [] none e in
      record {
        schema = (same_iff _ _).0 a;
        topology_id = (validate_prefixed_id_iff _ _ _).0 b;
        topology_digest = (validate_sha256_iff _ _).0 c;
        some_run = (some_run_test r.recorded_runs).0 d;
        each = fit.each;
        ordered = fit.ordered;
        plans = fit.distinct_plans;
        runs = fit.distinct_runs;
      },
  λ v. (receipt_checks r).1 (
    (same_iff _ _).1 v.schema,
    (validate_prefixed_id_iff _ _ _).1 v.topology_id,
    (validate_sha256_iff _ _).1 v.topology_digest,
    (some_run_test r.recorded_runs).1 v.some_run,
    runs_complete r.recorded_runs [] [] [] none (λ k. refl)
        (record {
          each = v.each;
          ordered = v.ordered;
          distinct_plans = v.plans;
          distinct_runs = v.runs;
          fresh_plans = λ k m. refl;
          fresh_runs = λ k m. refl;
        }),
  ),
)

-- The run names a step of the topology and the plan of that step.
pub record RunsStep (steps : List AuditTopologyStep) (r : AuditRecordedRun) : Type 0 where
  pub step : AuditTopologyStep
  pub is_step : Memᴰ step steps
  pub same_step : step.step_id ≡ r.step_id
  pub same_plan : step.plan_ref ≡ r.plan_ref

keys-entries : (steps : List AuditTopologyStep) → keys (map step_entry steps) ≡ ids steps
unfolding keys
keys-entries [] = refl
keys-entries (s ∷ steps) = λ i. s.step_id ∷ keys-entries steps i

entry_mem :
    (steps : List AuditTopologyStep) (step : AuditTopologyStep)
    → Memᴰ step steps
    → Memᴰ (step_entry step) (map step_entry steps)
entry_mem steps step m = Memᴰ.map step_entry m

get_step :
    (steps : List AuditTopologyStep) (step : AuditTopologyStep)
    → Distinct (ids steps)
    → Memᴰ step steps
    → get step.step_id (steps_by_id steps) ≡ some step
unfolding steps_by_id
get_step steps step d m =
    get-put_all_mem step.step_id step (map step_entry steps) []
      (subst Distinct (sym (keys-entries steps)) d) (entry_mem steps step m)

step_got :
    (steps : List AuditTopologyStep) (k : Text) (step : AuditTopologyStep)
    → get k (steps_by_id steps) ≡ some step
    → Memᴰ step steps × (step.step_id ≡ k)
unfolding steps_by_id get
step_got steps k step h = elim (get-put_all_cases k step (map step_entry steps) [] h) [
  | inl m ↦
      let (s, at, e) = Memᴰ.of_map step_entry steps m in
      (subst (λ x. Memᴰ x steps) (ap (λ (p : Text × AuditTopologyStep). p.1) e) at, named s e)
  | inr empty ↦ cc
]
  where
    named : (s : AuditTopologyStep) → step_entry s ≡ (k, step) → step.step_id ≡ k
    named s e =
        sym (ap (λ (p : Text × AuditTopologyStep). p.1.step_id) e)
        ∙ ap (λ (p : Text × AuditTopologyStep). p.0) e

match_cons :
    (r : AuditRecordedRun) (rest : List AuditRecordedRun) (m : List (Text × AuditTopologyStep))
    (found : Option AuditTopologyStep)
    → get r.step_id m ≡ found
    → match_runs (r ∷ rest) m ≡ ok tt
    → (step : AuditTopologyStep) × (get r.step_id m ≡ some step)
      × (r.plan_ref ≡ step.plan_ref)
      × (match_runs rest m ≡ ok tt)
unfolding match_runs
match_cons r rest m none g h = ground (arith, g, h)
match_cons r rest m (some step) g h = (
  step,
  g,
  ground (arith, g, h, same_plan_ref_iff r.plan_ref step.plan_ref),
  ground (arith, g, h),
)

match_sound :
    (steps : List AuditTopologyStep) (runs : List AuditRecordedRun)
    → match_runs runs (steps_by_id steps) ≡ ok tt
    → All (RunsStep steps) runs
match_sound steps [] h = tt
match_sound steps (r ∷ rest) h =
    let (step, g, p, more) = match_cons r rest (steps_by_id steps) _ refl h in
    let (m, e) = step_got steps r.step_id step g in
    (
      record { step = step; is_step = m; same_step = e; same_plan = sym p },
      match_sound steps rest more,
    )

match_complete :
    (steps : List AuditTopologyStep) (runs : List AuditRecordedRun)
    → Distinct (ids steps)
    → All (RunsStep steps) runs
    → match_runs runs (steps_by_id steps) ≡ ok tt
unfolding match_runs
match_complete steps [] d h = refl
match_complete steps (r ∷ rest) d (one, more) =
    let found : get r.step_id (steps_by_id steps) ≡ some one.step =
      subst (λ k. get k (steps_by_id steps) ≡ some one.step) one.same_step
        (get_step steps one.step d one.is_step) in
    ground (
      arith,
      found,
      one.same_plan,
      same_plan_ref_iff r.plan_ref one.step.plan_ref,
      match_complete steps rest d more,
    )

module _ (topology_digest : AuditTopology → Outcome Text) where
  -- The receipt is about the topology: its identity and digest, and for each run a step and its
  -- plan.
  pub record IsAbout (receipt : AuditReceipt) (topology : AuditTopology) : Type 0 where
    pub is_topology : IsAuditTopology topology
    pub is_receipt : IsAuditReceipt receipt
    pub same_id : receipt.topology_ref.topology_id ≡ topology.topology_id
    pub digest : topology_digest topology ≡ ok receipt.topology_ref.topology_digest
    pub runs : All (RunsStep topology.steps) receipt.recorded_runs

  about_checks :
      (r : AuditReceipt) (t : AuditTopology)
      → (validate_audit_receipt_against_topology topology_digest r t ≡ ok tt) ↔ (
          (validate_audit_topology t ≡ ok tt)
          × (validate_audit_receipt r ≡ ok tt)
          × (same r.topology_ref.topology_id t.topology_id ≡ true)
          × (is_ok_with (topology_digest t) (λ digest. same r.topology_ref.topology_digest digest)
              ≡ true)
          × (match_runs r.recorded_runs (steps_by_id t.steps) ≡ ok tt))
  unfolding validate_audit_receipt_against_topology
  about_checks r t = ground arith

  -- `validate_audit_receipt_against_topology` accepts exactly the receipts that are about the
  -- topology: both are well-formed, the receipt has the topology's identifier and the digest that
  -- is computed of it, and each recorded run names a step of the topology with the plan of that
  -- step.
  pub receipt_against_topology_iff :
      (r : AuditReceipt) (t : AuditTopology)
      → (validate_audit_receipt_against_topology topology_digest r t ≡ ok tt) ↔ IsAbout r t
  receipt_against_topology_iff r t = (
    λ h.
        let (a, b, c, d, e) = (about_checks r t).0 h in
        let (digest, ran, equal) = (is_ok_with_iff (topology_digest t) _).0 d in
        record {
          is_topology = (validate_audit_topology_iff t).0 a;
          is_receipt = (validate_audit_receipt_iff r).0 b;
          same_id = (same_iff _ _).0 c;
          digest = ran ∙ ap ok (sym ((same_iff _ _).0 equal));
          runs = match_sound t.steps r.recorded_runs e;
        },
    λ v. (about_checks r t).1 (
      (validate_audit_topology_iff t).1 v.is_topology,
      (validate_audit_receipt_iff r).1 v.is_receipt,
      (same_iff _ _).1 v.same_id,
      (is_ok_with_iff (topology_digest t) _).1
          (r.topology_ref.topology_digest, v.digest, same_refl r.topology_ref.topology_digest),
      match_complete t.steps r.recorded_runs
          (Distinct-of_ascending (ids t.steps) v.is_topology.ordered) v.runs,
    ),
  )
