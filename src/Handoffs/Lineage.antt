-- ===== src/Handoffs/Lineage.antt =====
-- `create` of src/evidence_handoffs.rs and then `verify`.
use evidence_workbench.Prelude.{
  ◌≡◌, refl, sym, ◌∙◌, ap, subst, Bool, true, false, not, ◌&&◌, List, [], ◌∷◌, Option, none, some,
  Outcome, ok, >>=-eq-ok, >>-eq-ok, ensure, ensure-eq-ok, ok_or, arith, String,
}
use evidence_workbench.Text.{Text, lit, same, same_iff, same_refl}
use evidence_workbench.Collections.{get, put, contains_key}
use evidence_workbench.Collections.Laws.{get-put}
use evidence_workbench.Contracts.Run.{ArtifactDescriptor}
use evidence_workbench.Contracts.Handoff.{EvidenceHandoff, EvidenceHandoffRecord}
use evidence_workbench.Validation.Fields.{is_lower_hex}
use evidence_workbench.Validation.Fields.Laws.{IsSha256}
use evidence_workbench.Workspace.Identifiers.{validate_storage_id, validate_storage_sha256}
use evidence_workbench.Handoffs.{
  Records, HandoffFiles, only_captured, verify_run_artifact, verify_record_lineage, check_record,
  write_evidence_handoff, load_evidence_handoff, load_verified, verify, handoff_of, create,
}

pub ok_or-eq-ok : {A : Type 0} (o : Option A) (e : String) (a : A) → ok_or o e ≡ ok a → o ≡ some a
ok_or-eq-ok none e a h = cc
ok_or-eq-ok (some b) e a h = ground arith

pub ok-injective : {A : Type 0} (a b : A) → ◌≡◌ {A = Outcome A} (ok a) (ok b) → a ≡ b
ok-injective a b h = ground (arith, h)

pub only_captured_sound :
    (ds : List ArtifactDescriptor) (d : ArtifactDescriptor) → only_captured ds ≡ ok d → ds ≡ d ∷ []
only_captured_sound [] d h = cc
only_captured_sound (x ∷ []) d h = ground (arith, h)
only_captured_sound (x ∷ y ∷ ds) d h = cc

storage_sha256_of : (value : Text) → IsSha256 value → validate_storage_sha256 value ≡ ok tt
unfolding validate_storage_sha256 is_lower_hex
storage_sha256_of value v = ground arith

second_test : (a b : Bool) → (a && b) ≡ true → b ≡ true
second_test a b h = ground arith

module _ (records : Records) where
  -- What was loaded under an identifier.
  record Loaded (files : HandoffFiles) (id : Text) (r : EvidenceHandoffRecord) : Type 0 where
    valid_id : validate_storage_id id (lit "handoff_") ≡ ok tt
    stored : get id files ≡ some r
    checked : check_record records r (same r.handoff.handoff_id id) ≡ ok tt

  record Checked (r : EvidenceHandoffRecord) (identified : Bool) : Type 0 where
    is_identified : identified ≡ true
    digest : records.digest_serialized r.handoff ≡ ok r.record_digest

  record_checked :
      (r : EvidenceHandoffRecord) (b : Bool) → check_record records r b ≡ ok tt → Checked r b
  unfolding check_record
  record_checked r b h =
      let (a, h1) = >>-eq-ok _ _ h in
      let (digest, d, h2) = >>=-eq-ok (records.digest_serialized r.handoff) _ h1 in
      record {
        is_identified =
            second_test (same r.schema_version (lit "evidence_handoff_record/v1")) b
              (ensure-eq-ok _ _ a);
        digest = d ∙ ap ok ((same_iff digest r.record_digest).0 (ensure-eq-ok _ _ h2));
      }

  Loaded-of :
      (files : HandoffFiles) (id : Text) (r : EvidenceHandoffRecord)
      → load_evidence_handoff records files id ≡ ok r
      → Loaded files id r
  unfolding load_evidence_handoff
  Loaded-of files id r h =
      let (a, h1) = >>-eq-ok _ _ h in
      let (found, g, h2) = >>=-eq-ok (ok_or (get id files) _) _ h1 in
      let (c, same') =
        >>-eq-ok (check_record records found (same found.handoff.handoff_id id)) (ok found) h2 in
      let e = ok-injective found r same' in
      record {
        valid_id = a;
        stored = ok_or-eq-ok _ _ found g ∙ ap some e;
        checked = subst (λ x. check_record records x (same x.handoff.handoff_id id) ≡ ok tt) e c;
      }

  verify_stored :
      (files : HandoffFiles) (id : Text) (r : EvidenceHandoffRecord)
      → IsSha256 r.record_digest
      → load_evidence_handoff records files id ≡ ok r
      → verify_record_lineage records r ≡ ok tt
      → verify records files id r.record_digest ≡ ok r
  unfolding verify
  verify_stored files id r s l t =
      rw (storage_sha256_of r.record_digest s) (rw l (rw (same_refl r.record_digest) (rw t refl)))

  load_verified_parts :
      (files : HandoffFiles) (id : Text) (r : EvidenceHandoffRecord)
      → load_verified records files id ≡ ok r
      → (load_evidence_handoff records files id ≡ ok r) × (verify_record_lineage records r ≡ ok tt)
  unfolding load_verified
  load_verified_parts files id r h =
      let (found, l, h1) = >>=-eq-ok (load_evidence_handoff records files id) _ h in
      let (t, same') = >>-eq-ok (verify_record_lineage records found) (ok found) h1 in
      let e = ok-injective found r same' in
      (l ∙ ap ok e, subst (λ x. verify_record_lineage records x ≡ ok tt) e t)

  -- The directory after a write: a new file, and the others as they were.
  record Written (files files' : HandoffFiles) (id : Text) : Type 0 where
    new : contains_key id files ≡ false
    others : (k : Text) → same k id ≡ false → get k files' ≡ get k files

  written_of :
      (files files' : HandoffFiles) (r : EvidenceHandoffRecord)
      → write_evidence_handoff records files r ≡ ok files'
      → Written files files' r.handoff.handoff_id
  unfolding write_evidence_handoff
  written_of files files' r h =
      let (a, h1) = >>-eq-ok _ _ h in
      let (b, h2) = >>-eq-ok (check_record records r true) _ h1 in
      let (c, h3) = >>-eq-ok _ _ h2 in
      let (d, same') =
        >>-eq-ok (ensure (not (contains_key r.handoff.handoff_id files)) _)
          (ok (put r.handoff.handoff_id r files)) h3 in
      let e = ok-injective (put r.handoff.handoff_id r files) files' same' in
      record {
        new = not_true (contains_key r.handoff.handoff_id files) (ensure-eq-ok _ _ d);
        others = λ k n. ap (get k) (sym e) ∙ get-put k r.handoff.handoff_id r files ∙ rw n refl;
      }
    where
      not_true : (b : Bool) → not b ≡ true → b ≡ false
      not_true b h = ground (arith, h)

  record Created (files files' : HandoffFiles) (id : Text) (r : EvidenceHandoffRecord)
      : Type 0 where
    written : Written files files' id
    verified : load_verified records files' id ≡ ok r

  Created-of :
      (files files' : HandoffFiles) (id now run_id run_digest artifact_id : Text)
      (r : EvidenceHandoffRecord)
      → create records files id now run_id run_digest artifact_id ≡ ok (files', r)
      → Created files files' id r
  unfolding create
  Created-of files files' id now run_id run_digest artifact_id r h =
      let (a, h1) = >>-eq-ok _ _ h in
      let (run, l, h2) = >>=-eq-ok (records.load_run run_id) _ h1 in
      let (b, h3) = >>-eq-ok _ _ h2 in
      let (artifact, v, h4) = >>=-eq-ok (verify_run_artifact records run artifact_id) _ h3 in
      let (digest, d, h5) =
        >>=-eq-ok (records.digest_serialized (handoff_of records id now run artifact)) _ h4 in
      let (t, h6) = >>-eq-ok (verify_record_lineage records _) _ h5 in
      let (after, w, h7) = >>=-eq-ok (write_evidence_handoff records files _) _ h6 in
      let (found, z, h8) = >>=-eq-ok (load_verified records after id) _ h7 in
      let e = ok-injective (after, found) (files', r) h8 in
      record {
        written =
            subst (λ f. Written files f id)
              (ap (λ (p : HandoffFiles × EvidenceHandoffRecord). p.0) e)
              (written_of files after _ w);
        verified =
            subst
              (λ (p : HandoffFiles × EvidenceHandoffRecord). load_verified records p.0 id ≡ ok p.1)
              e z;
      }

  -- A handoff that `create` returns is one that `verify` accepts in the directory that `create`
  -- leaves, at the handoff's own identifier and digest, if the digests that are computed are SHA-256
  -- digests. `create` replaces no handoff and changes none under another identifier.
  pub verify-create :
      (files files' : HandoffFiles) (id now run_id run_digest artifact_id : Text)
      (r : EvidenceHandoffRecord)
      → ((h : EvidenceHandoff) (digest : Text)
          → records.digest_serialized h ≡ ok digest
          → IsSha256 digest)
      → create records files id now run_id run_digest artifact_id ≡ ok (files', r)
      → (verify records files' r.handoff.handoff_id r.record_digest ≡ ok r)
        × (contains_key id files ≡ false)
        × ((k : Text) → same k id ≡ false → get k files' ≡ get k files)
  verify-create files files' id now run_id run_digest artifact_id r sha h =
      let c = Created-of files files' id now run_id run_digest artifact_id r h in
      let (l, t) = load_verified_parts files' id r c.verified in
      let checked = record_checked r _ (Loaded-of files' id r l).checked in
      let named = (same_iff r.handoff.handoff_id id).0 checked.is_identified in
      (
        subst (λ k. verify records files' k r.record_digest ≡ ok r) (sym named)
            (verify_stored files' id r (sha r.handoff r.record_digest checked.digest) l t),
        c.written.new,
        c.written.others,
      )
