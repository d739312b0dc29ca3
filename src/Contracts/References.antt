-- ===== src/Contracts/References.antt =====
-- src/contracts.rs: digests and the references from one record to another.
use evidence_workbench.Prelude.{◌≡◌, Bool, true, ◌&&◌, ◌↔◌, arith}
use evidence_workbench.Text.{Text, same, same_iff}

pub record Digest : Type 0 where
  pub algorithm : Text
  pub value : Text

pub record ContractArtifactRef : Type 0 where
  pub artifact_id : Text
  pub digest : Digest

pub record PlanRecordRef : Type 0 where
  pub plan_id : Text
  pub record_digest : Text

pub record RunRecordRef : Type 0 where
  pub run_id : Text
  pub record_digest : Text

pub record ArtifactRecordRef : Type 0 where
  pub artifact_id : Text
  pub record_digest : Text

pub data ContractAuthorityEffect : Type 0 where
  no_effect : ContractAuthorityEffect

-- The derived `==` of `PlanRecordRef`.
unfoldable pub same_plan_ref : PlanRecordRef → PlanRecordRef → Bool
same_plan_ref a b = same a.plan_id b.plan_id && same a.record_digest b.record_digest

pub same_plan_ref_iff : (a b : PlanRecordRef) → (same_plan_ref a b ≡ true) ↔ (a ≡ b)
unfolding same_plan_ref
same_plan_ref_iff a b =
    ground (arith, same_iff a.plan_id b.plan_id, same_iff a.record_digest b.record_digest)
