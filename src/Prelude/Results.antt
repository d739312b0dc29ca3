-- ===== src/Prelude/Results.antt =====
-- `anyhow::Result`: a value, an error with its message, or a panic (`expect`, an underflow of an
-- unsigned number, `unreachable!`). `diverge` is the end of a loop's fuel.
use Prim.Native.String.{String}
use mathlib.Core.Path.{◌≡◌, refl}
use mathlib.Core.Logic.{◌↔◌, ◌⊎◌, inl, inr}
use mathlib.Core.Bool.{Bool, true, false}
use mathlib.Core.Option.{Option, none, some}
use native.Mathlib.Omega.{arith}

pub data Outcome {ℓ} (A : Type ℓ) : Type ℓ where
  ok : A → Outcome A
  err : String → Outcome A
  panic : Outcome A
  diverge : Outcome A

-- `Result<()>`.
abbrev pub Checked : Type 0
Checked = Outcome (Unit {0})

infixl 5 ◌>>=◌ ◌>>◌
abbrev pub ◌>>=◌ {ℓ κ} :
    {Value : Type ℓ} {Next : Type κ} → Outcome Value → (Value → Outcome Next) → Outcome Next
diverge >>= next = diverge
panic >>= next = panic
err message >>= next = err message
ok value >>= next = next value

abbrev pub ◌>>◌ {ℓ} : {Next : Type ℓ} → Checked → Outcome Next → Outcome Next
check >> next = check >>= λ done. next

-- `if !condition { bail!(message) }`.
abbrev pub ensure : Bool → String → Outcome (Unit {0})
ensure true e = ok tt
ensure false e = err e

-- `option.ok_or_else(|| anyhow!(message))`.
abbrev pub ok_or {ℓ} : {A : Type ℓ} → Option A → String → Outcome A
ok_or none e = err e
ok_or (some a) e = ok a

-- The call comes back: with a value or with an error, and neither by a panic nor never.
abbrev pub returns {ℓ} : {A : Type ℓ} → Outcome A → Bool
returns (ok a) = true
returns (err e) = true
returns panic = false
returns diverge = false

-- The call succeeds, with a value that passes the test.
abbrev pub is_ok_with {ℓ} : {A : Type ℓ} → Outcome A → (A → Bool) → Bool
is_ok_with (ok a) test = test a
is_ok_with _ test = false

-- What a call returned on the way to a result.
module _ {ℓ κ} {Value : Type ℓ} {Next : Type κ} where
  pub >>=-eq-ok :
      (call : Outcome Value) (next : Value → Outcome Next) {end' : Next}
      → (call >>= next) ≡ ok end'
      → (value : Value) × (call ≡ ok value) × (next value ≡ ok end')
  >>=-eq-ok diverge next h = cc
  >>=-eq-ok panic next h = cc
  >>=-eq-ok (err message) next h = cc
  >>=-eq-ok (ok value) next h = (value, refl, h)

module _ {ℓ} {A : Type ℓ} where
  -- The two halves of a sequence that succeeds.
  pub >>-eq-ok :
      (m : Outcome (Unit {0})) (k : Outcome A) {a : A} → (m >> k) ≡ ok a → (m ≡ ok tt) × (k ≡ ok a)
  >>-eq-ok (ok _) k h = (refl, h)
  >>-eq-ok (err e) k h = cc
  >>-eq-ok panic k h = cc
  >>-eq-ok diverge k h = cc

pub ensure-eq-ok : (b : Bool) (e : String) → ensure b e ≡ ok tt → b ≡ true
ensure-eq-ok true e h = refl
ensure-eq-ok false e h = cc

module _ {ℓ} {A : Type ℓ} where
  -- A sequence succeeds exactly if its two halves do.
  pub >>_iff :
      (m : Outcome (Unit {0})) (k : Outcome A) (a : A)
      → ((m >> k) ≡ ok a) ↔ ((m ≡ ok tt) × (k ≡ ok a))
  >>_iff m k a = (>>-eq-ok m k, λ h. rw h.0 h.1)

pub ensure_iff : (b : Bool) (e : String) → (ensure b e ≡ ok tt) ↔ (b ≡ true)
ensure_iff b e = (ensure-eq-ok b e, λ h. rw h)

pub is_ok_with_iff {ℓ} :
    {A : Type ℓ} (m : Outcome A) (test : A → Bool)
    → (is_ok_with m test ≡ true) ↔ ((a : A) × (m ≡ ok a) × (test a ≡ true))
is_ok_with_iff (ok a) test = (λ h. (a, refl, h), λ (b, e, h). ground (arith, h, e))
is_ok_with_iff (err e) test = (λ h. cc, λ (b, e, h). cc)
is_ok_with_iff panic test = (λ h. cc, λ (b, e, h). cc)
is_ok_with_iff diverge test = (λ h. cc, λ (b, e, h). cc)

pub outcome_cases {ℓ} :
    {A : Type ℓ} (m : Outcome A) → ((a : A) × (m ≡ ok a)) ⊎ (is_ok_with m (λ _. true) ≡ false)
outcome_cases (ok a) = inl (a, refl)
outcome_cases (err e) = inr refl
outcome_cases panic = inr refl
outcome_cases diverge = inr refl
