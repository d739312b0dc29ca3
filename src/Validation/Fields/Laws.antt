-- ===== src/Validation/Fields/Laws.antt =====
-- What the field checks of src/data_contract_validation.rs accept, said without their code.
use evidence_workbench.Prelude.{
  ◌≡◌, refl, ◌↔◌, true, ◌++◌, String, arith, length, none, some, ok, returns, Option, >>-eq-ok,
  >>_iff,
}
use evidence_workbench.Text.{Text, lit, strip_prefix, strip_prefix_sound, strip_prefix_append}
use evidence_workbench.Contracts.References.{PlanRecordRef, RunRecordRef}
use evidence_workbench.Validation.Fields.{
  is_lower_hex, validate_prefixed_id, validate_sha256, validate_plan_record_ref,
  validate_run_record_ref,
}

-- The prefix and then 32 lowercase hexadecimal digits.
abbrev pub IsPrefixedId : Text → Text → Type 0
IsPrefixedId start value =
    (suffix : Text) × (value ≡ start ++ suffix)
    × (length suffix ≡ 32)
    × (is_lower_hex suffix ≡ true)

abbrev pub IsSha256 : Text → Type 0
IsSha256 value = (length value ≡ 64) × (is_lower_hex value ≡ true)

abbrev pub IsPlanRecordRef : PlanRecordRef → Type 0
IsPlanRecordRef r = IsPrefixedId (lit "plan_") r.plan_id × IsSha256 r.record_digest

abbrev pub IsRunRecordRef : RunRecordRef → Type 0
IsRunRecordRef r = IsPrefixedId (lit "run_") r.run_id × IsSha256 r.record_digest

prefixed_found :
    (value start : Text) (label : String) (found : Option Text)
    → strip_prefix value start ≡ found
    → validate_prefixed_id value start label ≡ ok tt
    → IsPrefixedId start value
unfolding validate_prefixed_id
prefixed_found value start label none e h = ground arith
prefixed_found value start label (some suffix) e h =
    (suffix, strip_prefix_sound value start e, ground arith, ground arith)

prefixed_built :
    (start suffix : Text) (label : String)
    → length suffix ≡ 32
    → is_lower_hex suffix ≡ true
    → validate_prefixed_id (start ++ suffix) start label ≡ ok tt
unfolding validate_prefixed_id
prefixed_built start suffix label l x = ground (arith, strip_prefix_append start suffix)

pub validate_prefixed_id_iff :
    (value start : Text) (label : String)
    → (validate_prefixed_id value start label ≡ ok tt) ↔ IsPrefixedId start value
validate_prefixed_id_iff value start label = (
  prefixed_found value start label (strip_prefix value start) refl,
  λ (suffix, e, l, x). rw e (prefixed_built start suffix label l x),
)

pub validate_sha256_iff :
    (value : Text) (label : String) → (validate_sha256 value label ≡ ok tt) ↔ IsSha256 value
unfolding validate_sha256
validate_sha256_iff value label = ground arith

pub validate_plan_record_ref_iff :
    (r : PlanRecordRef) (label : String)
    → (validate_plan_record_ref r label ≡ ok tt) ↔ IsPlanRecordRef r
unfolding validate_plan_record_ref
validate_plan_record_ref_iff r label = (
  λ h.
      let (a, b) = >>-eq-ok _ _ h in
      ((validate_prefixed_id_iff _ _ _).0 a, (validate_sha256_iff _ _).0 b),
  λ h. (>>_iff _ _ _).1 ((validate_prefixed_id_iff _ _ _).1 h.0, (validate_sha256_iff _ _).1 h.1),
)

pub validate_run_record_ref_iff :
    (r : RunRecordRef) (label : String)
    → (validate_run_record_ref r label ≡ ok tt) ↔ IsRunRecordRef r
unfolding validate_run_record_ref
validate_run_record_ref_iff r label = (
  λ h.
      let (a, b) = >>-eq-ok _ _ h in
      ((validate_prefixed_id_iff _ _ _).0 a, (validate_sha256_iff _ _).0 b),
  λ h. (>>_iff _ _ _).1 ((validate_prefixed_id_iff _ _ _).1 h.0, (validate_sha256_iff _ _).1 h.1),
)

pub returns-validate_prefixed_id :
    (value start : Text) (label : String) → returns (validate_prefixed_id value start label) ≡ true
unfolding validate_prefixed_id
returns-validate_prefixed_id value start label = ground arith

pub returns-validate_plan_record_ref :
    (r : PlanRecordRef) (label : String) → returns (validate_plan_record_ref r label) ≡ true
unfolding validate_plan_record_ref validate_sha256 validate_prefixed_id
returns-validate_plan_record_ref r label = ground arith

pub returns-validate_run_record_ref :
    (r : RunRecordRef) (label : String) → returns (validate_run_record_ref r label) ≡ true
unfolding validate_run_record_ref validate_sha256 validate_prefixed_id
returns-validate_run_record_ref r label = ground arith
