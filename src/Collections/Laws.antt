-- ===== src/Collections/Laws.antt =====
-- What the ordered sets and maps promise: membership after `insert`, lookup after `put`.
use evidence_workbench.Prelude.{
  ◌≡◌, refl, ◌↔◌, true, false, ◌||◌, List, [], ◌∷◌, some, arith, if◌then◌else◌, length, suc,
  Bool-cases, inl, inr,
}
use evidence_workbench.Text.{Text, same, same_iff, same_refl, same_comm}
use evidence_workbench.Collections.{
  contains, place, insert, collect_set, Distinct, Within, SameKeys, within_keys, equal_sets, get,
  put, keys, contains_key,
}

contains-place : (j k : Text) (s : List Text) → contains j (place k s) ≡ (same j k || contains j s)
unfolding contains place
contains-place j k [] = refl
contains-place j k (x ∷ xs) = ground (arith, contains-place j k xs)

pub contains-insert :
    (j k : Text) (s : List Text) → contains j (insert k s) ≡ (same j k || contains j s)
unfolding insert
contains-insert j k s = elim (Bool-cases (contains k s)) [
  | inl h ↦ elim (Bool-cases (same j k)) [
    | inl e ↦ rw (h, e, (same_iff j k).0 e) h
    | inr e ↦ rw (h, e) refl
  ]
  | inr h ↦ rw h (contains-place j k s)
]

place-Distinct :
    (k : Text) (s : List Text) → contains k s ≡ false → Distinct s → Distinct (place k s)
unfolding contains place
place-Distinct k [] h d = (refl, tt)
place-Distinct k (x ∷ xs) h d =
    ground (arith, place-Distinct k xs, contains-place x k xs, same_comm x k)

pub insert-Distinct : (k : Text) (s : List Text) → Distinct s → Distinct (insert k s)
unfolding insert
insert-Distinct k s d = elim (Bool-cases (contains k s)) [
  | inl h ↦ rw h d
  | inr h ↦ rw h (place-Distinct k s h d)
]

length-place : (k : Text) (s : List Text) → length (place k s) ≡ suc (length s)
unfolding place
length-place k [] = refl
length-place k (x ∷ xs) = ground (arith, length-place k xs)

pub contains-collect_set : (j : Text) (xs : List Text) → contains j (collect_set xs) ≡ contains j xs
unfolding collect_set contains
contains-collect_set j [] = refl
contains-collect_set j (x ∷ xs) =
    ground (arith, contains-insert j x (collect_set xs), contains-collect_set j xs)

pub within_keys_iff : (xs ys : List Text) → within_keys xs ys ≡ true → Within xs ys
unfolding within_keys contains
within_keys_iff [] ys h k m = cc
within_keys_iff (x ∷ xs) ys h k m =
    ground (arith, within_keys_iff xs ys, same_iff k x, within_keys_iff xs ys (ground arith) k)

contains-head : (x : Text) (xs : List Text) → contains x (x ∷ xs) ≡ true
unfolding contains
contains-head x xs = ground (arith, same_refl x)

contains-tail : (k x : Text) (xs : List Text) → contains k xs ≡ true → contains k (x ∷ xs) ≡ true
unfolding contains
contains-tail k x xs h = ground arith

pub within_keys_of : (xs ys : List Text) → Within xs ys → within_keys xs ys ≡ true
unfolding within_keys
within_keys_of [] ys w = refl
within_keys_of (x ∷ xs) ys w =
    rw (w x (contains-head x xs)) (within_keys_of xs ys (λ k m. w k (contains-tail k x xs m)))

-- `==` on sets says that they have the same keys.
pub equal_sets_iff : (xs ys : List Text) → (equal_sets xs ys ≡ true) ↔ SameKeys xs ys
unfolding equal_sets
equal_sets_iff xs ys = (
  λ h k. both k (within_keys_iff xs ys (ground arith) k) (within_keys_iff ys xs (ground arith) k),
  λ s.
      rw (within_keys_of xs ys (λ k m. ground (arith, s k)))
        (within_keys_of ys xs (λ k m. ground (arith, s k))),
)
  where
    both :
        (k : Text)
        → (contains k xs ≡ true → contains k ys ≡ true)
        → (contains k ys ≡ true → contains k xs ≡ true)
        → contains k xs ≡ contains k ys
    both k f g = ground arith

module _ {ℓ} {V : Type ℓ} where
  pub get-put :
      (j k : Text) (v : V) (m : List (Text × V))
      → get j (put k v m) ≡ (if same j k then some v else get j m)
  unfolding get put
  get-put j k v [] = refl
  get-put j k v ((i, w) ∷ m) =
      ground (arith, get-put j k v m, same_iff k i, same_iff j i, same_iff j k)

  pub contains-keys : (k : Text) (m : List (Text × V)) → contains k (keys m) ≡ contains_key k m
  unfolding contains keys contains_key
  contains-keys k [] = refl
  contains-keys k ((j, v) ∷ m) = ground (arith, contains-keys k m)
