-- ===== src/Validation/Topology/Kahn/Release.antt =====
-- The inner loop of Kahn's algorithm in `validate_audit_topology`: `release`.
use evidence_workbench.Prelude.{
  ℕ, zero, suc, ◌+◌, ◌≤◌, ◌<◌, ◌≡◌, refl, Bool, ◌&&◌, ◌||◌, List, [], ◌∷◌, arith, if◌then◌else◌,
  some, ltb, ◌==◌, ok, Bool-cases, inl, inr,
}
use evidence_workbench.Text.{Text, same, same_iff, same_refl}
use evidence_workbench.Collections.{contains, insert, get, put, Distinct}
use evidence_workbench.Collections.Laws.{contains-insert, insert-Distinct, get-put}
use evidence_workbench.Validation.Topology.{release}
use evidence_workbench.Validation.Topology.Kahn.Counting.{count, degree}

-- No step is released more often than its degree allows.
abbrev pub Enough : List Text → List (Text × ℕ) → Type 0
Enough next degrees = (x : Text) → count x next ≤ degree x degrees

-- `x` is ready after the loop: it was, or its degree has just come down to 0.
abbrev pub ready_after : Text → List Text → List (Text × ℕ) → List Text → Bool
ready_after x next degrees ready =
    contains x ready || (ltb 0 (count x next) && degree x degrees == count x next)

pub record Released (next : List Text) (degrees : List (Text × ℕ)) (ready : List Text)
    : Type 0 where
  pub degrees' : List (Text × ℕ)
  pub ready' : List Text
  pub returns_ok : release next degrees ready ≡ ok (degrees', ready')
  pub falls : (x : Text) → degree x degrees ≡ degree x degrees' + count x next
  pub is_ready : (x : Text) → contains x ready' ≡ ready_after x next degrees ready
  pub distinct : Distinct ready → Distinct ready'

degree-put :
    (x k : Text) (d : ℕ) (m : List (Text × ℕ))
    → degree x (put k d m) ≡ (if same x k then d else degree x m)
unfolding degree
degree-put x k d m = ground (arith, get-put x k d m)

degree-suc : (k : Text) (m : List (Text × ℕ)) (d : ℕ) → degree k m ≡ suc d → get k m ≡ some (suc d)
unfolding degree
degree-suc k m d h = ground arith

release-cons :
    (k : Text) (rest : List Text) (m : List (Text × ℕ)) (ready : List Text) (d : ℕ)
    → get k m ≡ some (suc d)
    → release (k ∷ rest) m ready
      ≡ release rest (put k d m) (if d == 0 then insert k ready else ready)
unfolding release
release-cons k rest m ready d h = rw (h, release) refl

abbrev ready1 : ℕ → Text → List Text → List Text
ready1 d k ready = if d == 0 then insert k ready else ready

contains-ready1 :
    (d : ℕ) (k x : Text) (ready : List Text)
    → contains x (ready1 d k ready) ≡ ((d == 0 && same x k) || contains x ready)
contains-ready1 d k x ready = ground (arith, contains-insert x k ready)

ready1-Distinct :
    (d : ℕ) (k : Text) (ready : List Text) → Distinct ready → Distinct (ready1 d k ready)
ready1-Distinct d k ready h = elim (Bool-cases (d == 0)) [
  | inl e ↦ rw e (insert-Distinct k ready h)
  | inr e ↦ rw e h
]

Enough-rest :
    (k : Text) (rest : List Text) (m : List (Text × ℕ)) (d : ℕ)
    → degree k m ≡ suc d
    → Enough (k ∷ rest) m
    → Enough rest (put k d m)
unfolding count
Enough-rest k rest m d e h x = ground (arith, h x, degree-put x k d m, same_iff x k)

falls_cons :
    (k : Text) (rest : List Text) (m m' : List (Text × ℕ)) (d : ℕ)
    → degree k m ≡ suc d
    → (x : Text) → degree x (put k d m) ≡ degree x m' + count x rest
    → degree x m ≡ degree x m' + count x (k ∷ rest)
unfolding count
falls_cons k rest m m' d e x h = ground (arith, degree-put x k d m, same_iff x k)

ready_cons :
    (k : Text) (rest : List Text) (m : List (Text × ℕ)) (ready : List Text) (d : ℕ) (x : Text)
    → degree k m ≡ suc d
    → count x rest ≤ degree x (put k d m)
    → ready_after x rest (put k d m) (ready1 d k ready) ≡ ready_after x (k ∷ rest) m ready
unfolding count
ready_cons k rest m ready d x e le =
    ground (arith, degree-put x k d m, same_iff x k, contains-ready1 d k x ready)

degree_cases : (n : ℕ) → 0 < n → (d : ℕ) × (n ≡ suc d)
degree_cases zero h = elim h [ ]
degree_cases (suc d) h = (d, refl)

count_head : (k : Text) (rest : List Text) → 0 < count k (k ∷ rest)
unfolding count
count_head k rest = ground (arith, same_refl k)

-- With enough degrees the loop neither misses a key nor underflows, and does this.
pub release_lem :
    (next : List Text) (m : List (Text × ℕ)) (ready : List Text)
    → Enough next m
    → Released next m ready
unfolding release count
release_lem [] m ready h = record {
  degrees' = m;
  ready' = ready;
  returns_ok = refl;
  falls = λ x. omega arith;
  is_ready = λ x. ground arith;
  distinct = λ d. d;
}
release_lem (k ∷ rest) m ready h =
    let (d, e) = degree_cases (degree k m) (omega (arith, h k, count_head k rest)) in
    let enough = Enough-rest k rest m d e h in
    let r = release_lem rest (put k d m) (ready1 d k ready) enough in
    record {
      degrees' = r.degrees';
      ready' = r.ready';
      returns_ok = rw (release-cons k rest m ready d (degree-suc k m d e)) r.returns_ok;
      falls = λ x. falls_cons k rest m r.degrees' d e x (r.falls x);
      is_ready = λ x. rw (r.is_ready x) (ready_cons k rest m ready d x e (enough x));
      distinct = λ s. r.distinct (ready1-Distinct d k ready s);
    }
