-- ===== src/Handoffs/Traced.antt =====
-- `verify` of src/evidence_handoffs.rs: the run, the plan and the artifact behind a handoff.
use evidence_workbench.Prelude.{
  ◌≡◌, ◌∙◌, ap, subst, [], ◌∷◌, ok, >>=-eq-ok, >>-eq-ok, ensure, ensure-eq-ok,
}
use evidence_workbench.Text.{Text, same, same_iff}
use evidence_workbench.Contracts.References.{PlanRecordRef, same_plan_ref, same_plan_ref_iff}
use evidence_workbench.Contracts.Run.{ArtifactDescriptor, ArtifactRecord}
use evidence_workbench.Contracts.Records.{RunRecord, PlanRecord}
use evidence_workbench.Contracts.Handoff.{EvidenceHandoff, EvidenceHandoffRecord}
use evidence_workbench.Handoffs.{
  Records, HandoffFiles, captured_as, only_captured, verify_run_artifact, verify_record_lineage,
  load_evidence_handoff, verify,
}
use evidence_workbench.Handoffs.Descriptor.{same_descriptor, plus_zeros, same_descriptor_sound}
use evidence_workbench.Handoffs.Lineage.{ok-injective, only_captured_sound}

module _ (records : Records) where
  -- The artifact is stored, and the run captured it once, with the descriptor that is stored; where
  -- the transforms of a descriptor hold a zero, its sign does not count.
  pub record IsCaptured (run : RunRecord) (artifact_id : Text) (artifact : ArtifactRecord)
      : Type 0 where
    pub stored : records.load_artifact artifact_id ≡ ok artifact
    pub captured : ArtifactDescriptor
    pub once : captured_as artifact_id run.run.artifacts ≡ captured ∷ []
    pub as_stored : plus_zeros captured ≡ plus_zeros artifact.artifact

  -- The run, the plan and the artifact that the handoff names, with the digests it names.
  pub record IsTraced (h : EvidenceHandoff) : Type 0 where
    pub run : RunRecord
    pub plan : PlanRecord
    pub artifact : ArtifactRecord
    pub run_stored : records.load_run h.producer_run_ref.run_id ≡ ok run
    pub run_digest : run.record_digest ≡ h.producer_run_ref.record_digest
    pub run_plan : run.run.source_plan_ref ≡ h.producer_plan_ref
    pub plan_stored : records.load_plan_verified h.producer_plan_ref.plan_id ≡ ok plan
    pub plan_digest : plan.record_digest ≡ h.producer_plan_ref.record_digest
    pub captured : IsCaptured run h.artifact_ref.artifact_id artifact
    pub artifact_digest : artifact.record_digest ≡ h.artifact_ref.record_digest

  IsCaptured-of :
      (run : RunRecord) (artifact_id : Text) (artifact : ArtifactRecord)
      → verify_run_artifact records run artifact_id ≡ ok artifact
      → IsCaptured run artifact_id artifact
  unfolding verify_run_artifact
  IsCaptured-of run artifact_id artifact h =
      let (a, l, h1) = >>=-eq-ok (records.load_artifact artifact_id) _ h in
      let (d, c, h2) = >>=-eq-ok (only_captured (captured_as artifact_id run.run.artifacts)) _ h1 in
      let (s, same') = >>-eq-ok (ensure (same_descriptor d a.artifact) _) (ok a) h2 in
      let e = ok-injective a artifact same' in
      record {
        stored = l ∙ ap ok e;
        captured = d;
        once = only_captured_sound (captured_as artifact_id run.run.artifacts) d c;
        as_stored =
            same_descriptor_sound d a.artifact (ensure-eq-ok _ _ s)
            ∙ ap (λ (x : ArtifactRecord). plus_zeros x.artifact) e;
      }

  IsTraced-of :
      (r : EvidenceHandoffRecord) → verify_record_lineage records r ≡ ok tt → IsTraced r.handoff
  unfolding verify_record_lineage
  IsTraced-of r h =
      let (a, h1) = >>-eq-ok _ _ h in
      let (run, l, h2) = >>=-eq-ok (records.load_run r.handoff.producer_run_ref.run_id) _ h1 in
      let (b, h3) =
        >>-eq-ok (ensure (same run.record_digest r.handoff.producer_run_ref.record_digest) _) _
          h2 in
      let (c, h4) =
        >>-eq-ok (ensure (same_plan_ref run.run.source_plan_ref r.handoff.producer_plan_ref) _) _
          h3 in
      let (plan, p, h5) =
        >>=-eq-ok (records.load_plan_verified r.handoff.producer_plan_ref.plan_id) _ h4 in
      let (d, h6) =
        >>-eq-ok
          (ensure
            (same_plan_ref (record { plan_id = plan.plan_id; record_digest = plan.record_digest })
              r.handoff.producer_plan_ref)
            _)
          _ h5 in
      let (artifact, v, h7) =
        >>=-eq-ok (verify_run_artifact records run r.handoff.artifact_ref.artifact_id) _ h6 in
      record {
        run = run;
        plan = plan;
        artifact = artifact;
        run_stored = l;
        run_digest = (same_iff _ _).0 (ensure-eq-ok _ _ b);
        run_plan = (same_plan_ref_iff _ _).0 (ensure-eq-ok _ _ c);
        plan_stored = p;
        plan_digest =
            ap (λ (x : PlanRecordRef). x.record_digest)
              ((same_plan_ref_iff _ _).0 (ensure-eq-ok _ _ d));
        captured = IsCaptured-of run r.handoff.artifact_ref.artifact_id artifact v;
        artifact_digest = (same_iff _ _).0 (ensure-eq-ok _ _ h7);
      }

  -- A handoff that `verify` accepts has the digest that was asked for and is traced: the run it
  -- names is stored with that digest and came from the plan it names, the plan is stored and valid
  -- with its digest, and the artifact it names is stored with its digest and was captured by the
  -- run once, with the descriptor that is stored, where 0.0 and -0.0 in its transforms count as the
  -- same.
  pub verify-IsTraced :
      (files : HandoffFiles) (id digest : Text) (r : EvidenceHandoffRecord)
      → verify records files id digest ≡ ok r
      → (r.record_digest ≡ digest) × IsTraced r.handoff
  unfolding verify
  verify-IsTraced files id digest r h =
      let (a, h1) = >>-eq-ok _ _ h in
      let (found, l, h2) = >>=-eq-ok (load_evidence_handoff records files id) _ h1 in
      let (b, h3) = >>-eq-ok (ensure (same found.record_digest digest) _) _ h2 in
      let (t, same') = >>-eq-ok (verify_record_lineage records found) (ok found) h3 in
      subst (λ x. (x.record_digest ≡ digest) × IsTraced x.handoff) (ok-injective found r same')
        ((same_iff _ _).0 (ensure-eq-ok _ _ b), IsTraced-of found t)
