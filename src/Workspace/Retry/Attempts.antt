-- ===== src/Workspace/Retry/Attempts.antt =====
-- `retry_transient` of src/workspace.rs, attempt by attempt.
use evidence_workbench.Prelude.{
  ℕ, zero, suc, ◌+◌, ◌<◌, ◌≡◌, refl, ◌⊎◌, inl, inr, Bool, true, false, ◌&&◌, ltb, Outcome, ok,
  arith, Bool-cases,
}
use evidence_workbench.Workspace.Retry.{
  IoError, IoResult, done, failed, is_transient, retry_from, retry_transient,
}

or_else : {A B C : Type 0} → A ⊎ B → (B → C) → A ⊎ C
or_else (inl a) f = inl a
or_else (inr b) f = inr (f b)

pair_eq : {A B : Type 0} (pair : A × B) {a : A} {b : B} → pair.0 ≡ a → pair.1 ≡ b → pair ≡ (a, b)
pair_eq pair p q = rw (p, q) refl

module _ (windows : Bool) {S A : Type 0} (operation : S → IoResult A × S) where
  -- The state after a number of attempts.
  abbrev pub after : ℕ → S → S
  after zero s = s
  after (suc k) s = after k (operation s).1

  -- The attempt fails, and the failure is one that passes.
  abbrev pub FailsForNow : S → Type 0
  FailsForNow s =
      (error : IoError) × ((operation s).0 ≡ failed error) × (is_transient windows error ≡ true)

  -- The first attempts all fail for now.
  abbrev pub AllFailForNow : ℕ → S → Type 0
  AllFailForNow zero s = Unit
  AllFailForNow (suc k) s = FailsForNow s × AllFailForNow k (operation s).1

  -- The attempt is the last one that the loop makes: it succeeds, or fails for good, or is the 25th.
  abbrev pub Settles : S → Type 0
  Settles s =
      ((value : A) × ((operation s).0 ≡ done value))
      ⊎ ((error : IoError) × ((operation s).0 ≡ failed error)
          × (is_transient windows error ≡ false))

  -- What the loop returns: the result and the state of attempt `k`, counted from 0.
  pub record Ends (s : S) (returned : Outcome (IoResult A) × S) : Type 0 where
    pub k : ℕ
    pub bounded : k < 25
    pub before : AllFailForNow k s
    pub result : returned.0 ≡ ok (operation (after k s)).0
    pub state : returned.1 ≡ (operation (after k s)).1
    pub last : Settles (after k s) ⊎ (k ≡ 24)

  stops_done :
      (left attempt : ℕ) (s : S) (value : A)
      → (operation s).0 ≡ done value
      → retry_from windows operation (suc left) attempt s ≡ (ok (done value), (operation s).1)
  unfolding retry_from
  stops_done left attempt s value e = ground (arith, e)

  stops_failed :
      (left attempt : ℕ) (s : S) (error : IoError)
      → (operation s).0 ≡ failed error
      → (is_transient windows error && ltb attempt 24) ≡ false
      → retry_from windows operation (suc left) attempt s ≡ (ok (failed error), (operation s).1)
  unfolding retry_from
  stops_failed left attempt s error e h = ground (arith, e, h)

  goes_on :
      (left attempt : ℕ) (s : S) (error : IoError)
      → (operation s).0 ≡ failed error
      → (is_transient windows error && ltb attempt 24) ≡ true
      → retry_from windows operation (suc left) attempt s
        ≡ retry_from windows operation left (attempt + 1) (operation s).1
  unfolding retry_from
  goes_on left attempt s error e h = ground (arith, e, h)

  -- What the loop returns when it starts at a later attempt.
  record EndsFrom (left attempt : ℕ) (s : S) : Type 0 where
    k : ℕ
    bounded : attempt + k < 25
    before : AllFailForNow k s
    result : (retry_from windows operation left attempt s).0 ≡ ok (operation (after k s)).0
    state : (retry_from windows operation left attempt s).1 ≡ (operation (after k s)).1
    last : Settles (after k s) ⊎ (attempt + k ≡ 24)

  settled :
      (left attempt : ℕ) (s : S)
      → attempt + suc left ≡ 25
      → Settles s
      → EndsFrom (suc left) attempt s
  settled left attempt s n (inl (value, e)) = record {
    k = 0;
    bounded = ground arith;
    before = tt;
    result = rw (stops_done left attempt s value e, e) refl;
    state = rw (stops_done left attempt s value e) refl;
    last = inl (inl (value, e));
  }
  settled left attempt s n (inr (error, e, h)) =
      let stops = stops_failed left attempt s error e (ground (arith, h)) in
      record {
        k = 0;
        bounded = ground arith;
        before = tt;
        result = rw (stops, e) refl;
        state = rw stops refl;
        last = inl (inr (error, e, h));
      }

  went_on :
      (left attempt : ℕ) (s : S)
      → FailsForNow s
      → attempt < 24
      → EndsFrom left (attempt + 1) (operation s).1
      → EndsFrom (suc left) attempt s
  went_on left attempt s (error, e, h) n rest =
      let more = goes_on left attempt s error e (ground (arith, h, n)) in
      record {
        k = suc rest.k;
        bounded = ground (arith, rest.bounded);
        before = ((error, e, h), rest.before);
        result = rw more rest.result;
        state = rw more rest.state;
        last = or_else rest.last (λ h. ground (arith, h));
      }

  gave_up :
      (left attempt : ℕ) (s : S) → attempt ≡ 24 → FailsForNow s → EndsFrom (suc left) attempt s
  gave_up left attempt s n (error, e, h) =
      let stops = stops_failed left attempt s error e (ground (arith, n)) in
      record {
        k = 0;
        bounded = ground (arith, n);
        before = tt;
        result = rw (stops, e) refl;
        state = rw stops refl;
        last = inr (ground (arith, n));
      }

  attempt_cases : (s : S) → Settles s ⊎ FailsForNow s
  attempt_cases s = of_result (operation s).0 refl
    where
      of_result : (result : IoResult A) → (operation s).0 ≡ result → Settles s ⊎ FailsForNow s
      of_result (done value) e = inl (inl (value, e))
      of_result (failed error) e = elim (Bool-cases (is_transient windows error)) [
        | inl h ↦ inr (error, e, h)
        | inr h ↦ inl (inr (error, e, h))
      ]

  ends_from : (left attempt : ℕ) (s : S) → attempt + suc left ≡ 25 → EndsFrom (suc left) attempt s
  ends_from zero attempt s n = elim (attempt_cases s) [
    | inl h ↦ settled 0 attempt s n h
    | inr h ↦ gave_up 0 attempt s (ground (arith, n)) h
  ]
  ends_from (suc left) attempt s n =
      let rest = ends_from left (attempt + 1) (operation s).1 (ground (arith, n)) in
      elim (attempt_cases s) [
        | inl h ↦ settled (suc left) attempt s n h
        | inr h ↦ went_on (suc left) attempt s h (ground (arith, n)) rest
      ]

  -- `retry_transient` comes back after at most 25 attempts, without the panic of its last line. What
  -- it returns is the result and the state of its last attempt; each earlier attempt failed with an
  -- error that passes; and the last one succeeded, failed with an error of another kind, or was the
  -- 25th.
  pub retry_transient_lem : (s : S) → Ends s (retry_transient windows operation s)
  unfolding retry_transient
  retry_transient_lem s =
      let r = ends_from 24 0 s refl in
      record {
        k = r.k;
        bounded = ground (arith, r.bounded);
        before = r.before;
        result = r.result;
        state = r.state;
        last = or_else r.last (λ h. ground (arith, h));
      }

  -- What an attempt that fails for now keeps is kept up to the last attempt.
  pub after-kept :
      (R : S → S → Type 0)
      → ((s : S) → R s s)
      → ((a b c : S) → R a b → R b c → R a c)
      → ((s : S) → FailsForNow s → R s (operation s).1)
      → (k : ℕ) (s : S) → AllFailForNow k s
      → R s (after k s)
  after-kept R same next step zero s h = same s
  after-kept R same next step (suc k) s (now, later) =
      next s (operation s).1 (after k (operation s).1) (step s now)
        (after-kept R same next step k (operation s).1 later)

  -- The state in which the last attempt is made, where the attempts before it keep a relation.
  pub retry_transient-last :
      (R : S → S → Type 0)
      → ((s : S) → R s s)
      → ((a b c : S) → R a b → R b c → R a c)
      → ((s : S) → FailsForNow s → R s (operation s).1)
      → (s : S)
      → (s' : S) × R s s'
        × (retry_transient windows operation s ≡ (ok (operation s').0, (operation s').1))
  retry_transient-last R same next step s =
      let r = retry_transient_lem s in
      (
        after r.k s,
        after-kept R same next step r.k s r.before,
        pair_eq (retry_transient windows operation s) r.result r.state,
      )
