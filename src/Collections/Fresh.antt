-- ===== src/Collections/Fresh.antt =====
-- Distinctness of keys that a loop collects in a set as it goes: what each turn keeps.
use evidence_workbench.Prelude.{refl, ◌||◌, ◌≡◌, true, false, List, [], ◌∷◌, arith}
use evidence_workbench.Text.{Text, same_iff, same_refl}
use evidence_workbench.Collections.{contains, insert}
use evidence_workbench.Collections.Laws.{contains-insert}

-- A key that none of the later ones repeats.
pub not_later :
    (key : Text) (later seen : List Text)
    → ((k : Text) → contains k later ≡ true → contains k (insert key seen) ≡ false)
    → contains key later ≡ false
not_later key later seen f = ground (arith, f key, contains-insert key key seen, same_refl key)

pub fresh_cons :
    (key : Text) (later seen : List Text)
    → contains key seen ≡ false
    → ((k : Text) → contains k later ≡ true → contains k (insert key seen) ≡ false)
    → (k : Text) → contains k (key ∷ later) ≡ true
    → contains k seen ≡ false
unfolding contains
fresh_cons key later seen h f k m = ground (arith, f k, contains-insert k key seen, same_iff k key)

pub fresh_tail :
    (key : Text) (later seen : List Text)
    → contains key later ≡ false
    → ((k : Text) → contains k (key ∷ later) ≡ true → contains k seen ≡ false)
    → (k : Text) → contains k later ≡ true
    → contains k (insert key seen) ≡ false
unfolding contains
fresh_tail key later seen h f k m = ground (arith, f k, contains-insert k key seen, same_iff k key)

pub fresh_head :
    (key : Text) (later seen : List Text)
    → ((k : Text) → contains k (key ∷ later) ≡ true → contains k seen ≡ false)
    → contains key seen ≡ false
unfolding contains
fresh_head key later seen f = ground (arith, f key, same_refl key)

-- The set after all the keys.
abbrev pub insert_all : List Text → List Text → List Text
insert_all [] seen = seen
insert_all (x ∷ xs) seen = insert_all xs (insert x seen)

pub contains-insert_all :
    (k : Text) (xs seen : List Text)
    → contains k (insert_all xs seen) ≡ (contains k xs || contains k seen)
unfolding contains
contains-insert_all k [] seen = refl
contains-insert_all k (x ∷ xs) seen =
    ground (arith, contains-insert_all k xs (insert x seen), contains-insert k x seen)
