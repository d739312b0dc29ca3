-- ===== src/Text/Trim/Runs.antt =====
-- What `trim` and its kin cut off, said without them: runs of whole characters that pass a test, and
-- nothing of the kind is left at the end that was cut.
use mathlib.Core.List.{reverse-append, reverse-reverse}
use evidence_workbench.Prelude.{
  ℕ, ◌≡◌, refl, sym, ◌∙◌, ap, Bool, true, false, List, [], ◌∷◌, ◌++◌, ◌⊎◌, inl, inr, reverse,
  append_assoc, append-nil, Bool-cases, ◌==◌, ◌||◌,
}
use evidence_workbench.Text.{Text}
use evidence_workbench.Text.Lines.{joined}
use evidence_workbench.Text.Trim.{
  space1, space2, space3, strip_front, trim_start, trim_end, trim, trim_end_newlines,
}
use evidence_workbench.Validation.Topology.Spec.{All}

-- One character, of one byte, of two or of three.
abbrev pub IsChar : (ℕ → Bool) → (ℕ → ℕ → Bool) → (ℕ → ℕ → ℕ → Bool) → Text → Type 0
IsChar one two three v =
    ((a : ℕ) × (v ≡ a ∷ []) × (one a ≡ true))
    ⊎ ((a b : ℕ) × (v ≡ a ∷ b ∷ []) × (two a b ≡ true))
    ⊎ ((a b c : ℕ) × (v ≡ a ∷ b ∷ c ∷ []) × (three a b c ≡ true))

-- The text is a sequence of such characters.
abbrev pub IsRun : (ℕ → Bool) → (ℕ → ℕ → Bool) → (ℕ → ℕ → ℕ → Bool) → Text → Type 0
IsRun one two three v =
    (chars : List Text) × (All (IsChar one two three) chars) × (v ≡ joined chars)

-- White space.
abbrev pub IsBlank : Text → Type 0
IsBlank = IsRun space1 space2 space3

-- Line ends.
abbrev pub IsNewlines : Text → Type 0
IsNewlines = IsRun (λ c. c == b'\r' || c == b'\n') (λ a b. false) (λ a b c. false)

joined-append : (a b : List Text) → joined (a ++ b) ≡ joined a ++ joined b
joined-append [] b = refl
joined-append (x ∷ a) b =
    ap (λ r. x ++ r) (joined-append a b) ∙ sym (append_assoc x (joined a) (joined b))

All-append : (P : Text → Type 0) (a b : List Text) → All P a → All P b → All P (a ++ b)
All-append P [] b p q = q
All-append P (x ∷ a) b p q = (p.0, All-append P a b p.1 q)

module _ (one : ℕ → Bool) (two : ℕ → ℕ → Bool) (three : ℕ → ℕ → ℕ → Bool) where
  -- The same characters, read from their ends.
  IsChar-reverse :
      (v : Text)
      → IsChar one two three v
      → IsChar one (λ b a. two a b) (λ c b a. three a b c) (reverse v)
  IsChar-reverse v (inl (a, e, h)) = inl (a, ap reverse e, h)
  IsChar-reverse v (inr (inl (a, b, e, h))) = inr (inl (b, a, ap reverse e, h))
  IsChar-reverse v (inr (inr (a, b, c, e, h))) = inr (inr (c, b, a, ap reverse e, h))

  reversed :
      (chars : List Text)
      → All (IsChar one two three) chars
      → IsRun one (λ b a. two a b) (λ c b a. three a b c) (reverse (joined chars))
  reversed [] p = ([], tt, refl)
  reversed (x ∷ chars) p =
      let (later, q, e) = reversed chars p.1 in
      (
        later ++ reverse x ∷ [],
        All-append _ later (reverse x ∷ []) q (IsChar-reverse x p.0, tt),
        reverse-append x (joined chars)
            ∙ ap (λ r. r ++ reverse x) e
            ∙ ap (λ r. joined later ++ r) (sym (append-nil (reverse x)))
            ∙ sym (joined-append later (reverse x ∷ [])),
      )

  pub IsRun-reverse :
      (v : Text)
      → IsRun one two three v
      → IsRun one (λ b a. two a b) (λ c b a. three a b c) (reverse v)
  IsRun-reverse v (chars, p, e) = let (back, q, f) = reversed chars p in (back, q, ap reverse e ∙ f)

  empty-IsRun : IsRun one two three []
  empty-IsRun = ([], tt, refl)

  more1 : (a : ℕ) (d : Text) → one a ≡ true → IsRun one two three d → IsRun one two three (a ∷ d)
  more1 a d h (chars, p, e) = ((a ∷ []) ∷ chars, (inl (a, refl, h), p), ap (λ r. a ∷ r) e)

  more2 :
      (a b : ℕ) (d : Text)
      → two a b ≡ true
      → IsRun one two three d
      → IsRun one two three (a ∷ b ∷ d)
  more2 a b d h (chars, p, e) =
      ((a ∷ b ∷ []) ∷ chars, (inr (inl (a, b, refl, h)), p), ap (λ r. a ∷ b ∷ r) e)

  more3 :
      (a b c : ℕ) (d : Text)
      → three a b c ≡ true
      → IsRun one two three d
      → IsRun one two three (a ∷ b ∷ c ∷ d)
  more3 a b c d h (chars, p, e) =
      ((a ∷ b ∷ c ∷ []) ∷ chars, (inr (inr (a, b, c, refl, h)), p), ap (λ r. a ∷ b ∷ c ∷ r) e)

  -- What is dropped is a run.
  pub strip_front_drops :
      (v : Text)
      → (dropped : Text) × (v ≡ dropped ++ strip_front one two three v)
        × IsRun one two three dropped
  unfolding strip_front
  strip_front_drops [] = ([], refl, empty-IsRun)
  strip_front_drops (a ∷ []) = elim (Bool-cases (one a)) [
    | inl h ↦ (a ∷ [], rw h refl, more1 a [] h empty-IsRun)
    | inr h ↦ ([], rw h refl, empty-IsRun)
  ]
  strip_front_drops (a ∷ b ∷ []) =
      let (d, e, r) = strip_front_drops (b ∷ []) in
      elim (Bool-cases (one a)) [
        | inl h ↦ (a ∷ d, rw h (ap (◌∷◌ a) e), more1 a d h r)
        | inr h ↦ elim (Bool-cases (two a b)) [
          | inl g ↦ (a ∷ b ∷ [], rw (h, g) refl, more2 a b [] g empty-IsRun)
          | inr g ↦ ([], rw (h, g) refl, empty-IsRun)
        ]
      ]
  strip_front_drops (a ∷ b ∷ c ∷ t) =
      let (d1, e1, r1) = strip_front_drops (b ∷ c ∷ t) in
      let (d2, e2, r2) = strip_front_drops (c ∷ t) in
      let (d3, e3, r3) = strip_front_drops t in
      elim (Bool-cases (one a)) [
        | inl h ↦ (a ∷ d1, rw h (ap (◌∷◌ a) e1), more1 a d1 h r1)
        | inr h ↦ elim (Bool-cases (two a b)) [
          | inl g ↦ (a ∷ b ∷ d2, rw (h, g) (ap (λ r. a ∷ b ∷ r) e2), more2 a b d2 g r2)
          | inr g ↦ elim (Bool-cases (three a b c)) [
            | inl f ↦
                (a ∷ b ∷ c ∷ d3, rw (h, g, f) (ap (λ r. a ∷ b ∷ c ∷ r) e3), more3 a b c d3 f r3)
            | inr f ↦ ([], rw (h, g, f) refl, empty-IsRun)
          ]
        ]
      ]

  -- No such character stands in front.
  abbrev IsBare : Text → Type 0
  IsBare v = (x rest : Text) → IsChar one two three x → ¬ (v ≡ x ++ rest)

  bare0 : IsBare []
  bare0 x rest (inl (a, e, h)) f = cc
  bare0 x rest (inr (inl (a, b, e, h))) f = cc
  bare0 x rest (inr (inr (a, b, c, e, h))) f = cc

  bare1 : (a : ℕ) → one a ≡ false → IsBare (a ∷ [])
  bare1 a n x rest (inl (a', e, h)) f = cc
  bare1 a n x rest (inr (inl (a', b', e, h))) f = cc
  bare1 a n x rest (inr (inr (a', b', c', e, h))) f = cc

  bare2 : (a b : ℕ) → one a ≡ false → two a b ≡ false → IsBare (a ∷ b ∷ [])
  bare2 a b n m x rest (inl (a', e, h)) f = cc
  bare2 a b n m x rest (inr (inl (a', b', e, h))) f = cc
  bare2 a b n m x rest (inr (inr (a', b', c', e, h))) f = cc

  bare3 :
      (a b c : ℕ) (t : Text)
      → one a ≡ false
      → two a b ≡ false
      → three a b c ≡ false
      → IsBare (a ∷ b ∷ c ∷ t)
  bare3 a b c t n m k x rest (inl (a', e, h)) f = cc
  bare3 a b c t n m k x rest (inr (inl (a', b', e, h))) f = cc
  bare3 a b c t n m k x rest (inr (inr (a', b', c', e, h))) f = cc

  strip_front-IsBare : (v : Text) → IsBare (strip_front one two three v)
  unfolding strip_front
  strip_front-IsBare [] = bare0
  strip_front-IsBare (a ∷ []) = elim (Bool-cases (one a)) [
    | inl h ↦ rw h bare0
    | inr h ↦ rw h (bare1 a h)
  ]
  strip_front-IsBare (a ∷ b ∷ []) =
      let later = strip_front-IsBare (b ∷ []) in
      elim (Bool-cases (one a)) [
        | inl h ↦ rw h later
        | inr h ↦ elim (Bool-cases (two a b)) [
          | inl g ↦ rw (h, g) bare0
          | inr g ↦ rw (h, g) (bare2 a b h g)
        ]
      ]
  strip_front-IsBare (a ∷ b ∷ c ∷ t) =
      let later1 = strip_front-IsBare (b ∷ c ∷ t) in
      let later2 = strip_front-IsBare (c ∷ t) in
      let later3 = strip_front-IsBare t in
      elim (Bool-cases (one a)) [
        | inl h ↦ rw h later1
        | inr h ↦ elim (Bool-cases (two a b)) [
          | inl g ↦ rw (h, g) later2
          | inr g ↦ elim (Bool-cases (three a b c)) [
            | inl f ↦ rw (h, g, f) later3
            | inr f ↦ rw (h, g, f) (bare3 a b c t h g f)
          ]
        ]
      ]

  IsRun-of_bare : (v s t : Text) → IsBare v → v ≡ s ++ t → IsRun one two three s → s ≡ []
  IsRun-of_bare v s t n e ([], p, f) = f
  IsRun-of_bare v s t n e (x ∷ chars, p, f) =
      absurd
        (n x (joined chars ++ t) p.0 (e ∙ ap (λ r. r ++ t) f ∙ append_assoc x (joined chars) t))

  -- What is left does not begin with a run.
  pub strip_front_tight :
      (v s t : Text) → strip_front one two three v ≡ s ++ t → IsRun one two three s → s ≡ []
  strip_front_tight v s t = IsRun-of_bare (strip_front one two three v) s t (strip_front-IsBare v)

-- `value` does not begin or end with white space.
pub record IsTight (value : Text) : Type 0 where
  pub front : (s t : Text) → value ≡ s ++ t → IsBlank s → s ≡ []
  pub back : (s t : Text) → value ≡ t ++ s → IsBlank s → s ≡ []

back_splits : (v front rest : Text) → reverse v ≡ front ++ rest → v ≡ reverse rest ++ reverse front
back_splits v front rest e = sym (reverse-reverse v) ∙ ap reverse e ∙ reverse-append front rest

-- `trim_end` cuts off white space,
trim_end_drops : (v : Text) → (trail : Text) × (v ≡ trim_end v ++ trail) × IsBlank trail
unfolding trim_end
trim_end_drops v =
    let (d, e, r) =
      strip_front_drops space1 (λ b a. space2 a b) (λ c b a. space3 a b c) (reverse v) in
    (
      reverse d,
      back_splits v d _ e,
      IsRun-reverse space1 (λ b a. space2 a b) (λ c b a. space3 a b c) d r,
    )

-- and all of it.
trim_end_tight : (v s t : Text) → trim_end v ≡ t ++ s → IsBlank s → s ≡ []
unfolding trim_end
trim_end_tight v s t e r =
    sym (reverse-reverse s)
    ∙ ap reverse (
        strip_front_tight space1 (λ b a. space2 a b) (λ c b a. space3 a b c) (reverse v) (reverse s)
          (reverse t) (sym (reverse-reverse _) ∙ ap reverse e ∙ reverse-append t s)
          (IsRun-reverse space1 space2 space3 s r))

pub trim_end_newlines_drops :
    (v : Text) → (trail : Text) × (v ≡ trim_end_newlines v ++ trail) × IsNewlines trail
unfolding trim_end_newlines
trim_end_newlines_drops v =
    let (d, e, r) =
      strip_front_drops (λ c. c == b'\r' || c == b'\n') (λ a b. false) (λ a b c. false)
        (reverse v) in
    (
      reverse d,
      back_splits v d _ e,
      IsRun-reverse (λ c. c == b'\r' || c == b'\n') (λ a b. false) (λ a b c. false) d r,
    )

-- What `trim` returns stands in the text between white space, and is tight.
pub trim_drops :
    (v : Text)
    → (lead trail : Text) × (v ≡ lead ++ trim_start v)
      × (v ≡ lead ++ trim v ++ trail)
      × IsBlank lead
      × IsBlank trail
      × IsTight (trim v)
unfolding trim trim_start
trim_drops v =
    let (lead, e, r) = strip_front_drops space1 space2 space3 v in
    let (trail, f, q) = trim_end_drops (trim_start v) in
    (
      lead,
      trail,
      e,
      e ∙ ap (λ r. lead ++ r) f ∙ sym (append_assoc lead _ trail),
      r,
      q,
      record {
        front = λ s t g b.
            strip_front_tight space1 space2 space3 v s (t ++ trail)
              (f ∙ ap (λ r. r ++ trail) g ∙ append_assoc s t trail) b;
        back = trim_end_tight (trim_start v);
      },
    )
