-- ===== src/Text/Lines.antt =====
-- `str::split_inclusive`, which src/native.rs and src/run_validation.rs use to walk a text line by
-- line.
use evidence_workbench.Prelude.{
  ℕ, ◌≡◌, refl, List, [], ◌∷◌, ◌++◌, ◌==◌, if◌then◌else◌, Bool-cases, inl, inr, ap, ◌∙◌,
}
use evidence_workbench.Text.{Text, onto_first}

-- Each part ends with its `c`; there is no empty part at the end.
unfoldable pub split_inclusive : ℕ → Text → List Text
split_inclusive c [] = []
split_inclusive c (x ∷ xs) =
    let parts = split_inclusive c xs in if x == c then (x ∷ []) ∷ parts else onto_first x parts

abbrev pub joined : List Text → Text
joined [] = []
joined (part ∷ parts) = part ++ joined parts

joined-onto_first : (x : ℕ) (parts : List Text) → joined (onto_first x parts) ≡ x ∷ joined parts
joined-onto_first x [] = refl
joined-onto_first x (part ∷ parts) = refl

-- The parts make up the text.
pub joined-split_inclusive : (c : ℕ) (text : Text) → joined (split_inclusive c text) ≡ text
unfolding split_inclusive
joined-split_inclusive c [] = refl
joined-split_inclusive c (x ∷ xs) = elim (Bool-cases (x == c)) [
  | inl e ↦ rw e (ap (λ r. x ∷ r) (joined-split_inclusive c xs))
  | inr n ↦
      rw n
        (joined-onto_first x (split_inclusive c xs) ∙ ap (λ r. x ∷ r) (joined-split_inclusive c xs))
]
