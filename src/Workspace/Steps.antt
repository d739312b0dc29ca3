-- ===== src/Workspace/Steps.antt =====
-- The sequence of the steps of an operation of src/workspace.rs: each starts from the files that the
-- one before has left, also where it fails.
use evidence_workbench.Prelude.{refl, ap, ◌≡◌, false, Outcome, ok, err, panic, diverge}
use evidence_workbench.Workspace.Retry.{IoResult, done, failed, retry_transient}
use evidence_workbench.Workspace.Disk.{Disk}

abbrev pub Step : Type 0 → Type 0
Step A = Disk → Outcome A × Disk

abbrev pub follow : {A B : Type 0} → Outcome A × Disk → (A → Step B) → Outcome B × Disk
follow (ok a, d) next = next a d
follow (err message, d) next = (err message, d)
follow (panic, d) next = (panic, d)
follow (diverge, d) next = (diverge, d)

infixl 5 ◌>>=◌ ◌>>◌
abbrev pub ◌>>=◌ : {A B : Type 0} → Step A → (A → Step B) → Step B
(step >>= next) d = follow (step d) next

abbrev pub ◌>>◌ : {A B : Type 0} → Step A → Step B → Step B
step >> next = step >>= λ a. next

-- A check that looks at no file.
abbrev pub check : {A : Type 0} → Outcome A → Step A
check outcome d = (outcome, d)

abbrev pub answer : {A : Type 0} → IoResult A → Outcome A
answer (done a) = ok a
answer (failed error) = err "the system refused"

-- A call of `std::fs`, with `?`.
abbrev pub call : {A : Type 0} → (Disk → IoResult A × Disk) → Step A
call operation d = let (result, d') = operation d in (answer result, d')

abbrev pub flatten : {A : Type 0} → Outcome (IoResult A) → Outcome A
flatten (ok result) = answer result
flatten (err message) = err message
flatten panic = panic
flatten diverge = diverge

-- The same under `retry_transient`.
abbrev pub retried : {A : Type 0} → (Disk → IoResult A × Disk) → Step A
retried operation d = let (result, d') = retry_transient false operation d in (flatten result, d')

-- What the first of two steps returned on the way to a value.
pub follow-eq-ok :
    {A B : Type 0} (first : Outcome A × Disk) (next : A → Step B) {value : B} {d' : Disk}
    → follow first next ≡ (ok value, d')
    → (a : A) × (e : Disk) × (first ≡ (ok a, e)) × (next a e ≡ (ok value, d'))
follow-eq-ok (ok a, e) next h = (a, e, refl, h)
follow-eq-ok (err message, e) next h = let q = ap (λ p. p.0) h in cc
follow-eq-ok (panic, e) next h = let q = ap (λ p. p.0) h in cc
follow-eq-ok (diverge, e) next h = let q = ap (λ p. p.0) h in cc

-- A check leaves the files as they are.
pub follow-check :
    {A B : Type 0} (first : Outcome A × Disk) (next : A → Outcome B)
    → (follow first (λ a. check (next a))).1 ≡ first.1
follow-check (ok a, e) next = refl
follow-check (err message, e) next = refl
follow-check (panic, e) next = refl
follow-check (diverge, e) next = refl

pub ok_inj : {A : Type 0} {a b : A} → ◌≡◌ {A = Outcome A} (ok a) (ok b) → a ≡ b
ok_inj h = cc

-- The step after one that succeeds.
pub follow-ok :
    {A B : Type 0} (first : Outcome A × Disk) (next : A → Step B) {a : A}
    → first.0 ≡ ok a
    → follow first next ≡ next a first.1
follow-ok (ok b, e) next h = ap (λ a. next a e) (ok_inj h)
follow-ok (err message, e) next h = cc
follow-ok (panic, e) next h = cc
follow-ok (diverge, e) next h = cc
