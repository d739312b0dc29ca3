-- ===== src/Text/Order.antt =====
-- The order of `str`: lexicographic by bytes. `BTreeSet`, `BTreeMap` and the ordered identifier
-- lists of src/data_contract_validation.rs use it.
use evidence_workbench.Prelude.{◌≡◌, refl, Bool, true, false, ◌&&◌, ◌||◌, [], ◌∷◌, arith, ltb, ◌==◌}
use evidence_workbench.Text.{Text, same, same_iff}

unfoldable pub before : Text → Text → Bool
before [] [] = false
before [] (y ∷ ys) = true
before (x ∷ xs) [] = false
before (x ∷ xs) (y ∷ ys) = ltb x y || (x == y && before xs ys)

pub before_irrefl : (a : Text) → before a a ≡ false
unfolding before
before_irrefl [] = refl
before_irrefl (x ∷ xs) = ground (arith, before_irrefl xs)

pub before_trans : (a b c : Text) → before a b ≡ true → before b c ≡ true → before a c ≡ true
unfolding before
before_trans [] [] c h k = cc
before_trans [] (y ∷ ys) [] h k = cc
before_trans [] (y ∷ ys) (z ∷ zs) h k = refl
before_trans (x ∷ xs) [] c h k = cc
before_trans (x ∷ xs) (y ∷ ys) [] h k = cc
before_trans (x ∷ xs) (y ∷ ys) (z ∷ zs) h k = ground (arith, before_trans xs ys zs)

pub before_total : (a b : Text) → before a b ≡ false → same a b ≡ false → before b a ≡ true
unfolding before same
before_total [] [] h n = cc
before_total [] (y ∷ ys) h n = cc
before_total (x ∷ xs) [] h n = refl
before_total (x ∷ xs) (y ∷ ys) h n = ground (arith, before_total xs ys)

pub before_ne : (a b : Text) → before a b ≡ true → same a b ≡ false
before_ne a b h = ground (arith, same_iff a b, before_irrefl a)
