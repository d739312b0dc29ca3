-- ===== src/Collections.antt =====
-- `BTreeSet<String>` and `BTreeMap<String, V>` of Rust's standard library, as ordered lists. The
-- repository's validators collect identifiers in them; it does not define them.
pub mod Laws
pub mod Ordered
pub mod Collected
pub mod Fresh
use evidence_workbench.Prelude.{
  ℕ, ◌≡◌, Bool, true, false, not, ◌||◌, ◌&&◌, List, [], ◌∷◌, Option, none, some, if◌then◌else◌,
}
use evidence_workbench.Text.{Text, same}
use evidence_workbench.Text.Order.{before}

-- `set.contains(key)`.
unfoldable pub contains : Text → List Text → Bool
contains k [] = false
contains k (x ∷ xs) = same k x || contains k xs

unfoldable pub place : Text → List Text → List Text
place k [] = k ∷ []
place k (x ∷ xs) = let rest = place k xs in if before k x then k ∷ x ∷ xs else x ∷ rest

-- `set.insert(key)`: a key that is there already stays as it is.
unfoldable pub insert : Text → List Text → List Text
unfolding contains place
insert k s = if contains k s then s else place k s

-- `iter.collect::<BTreeSet<_>>()`.
unfoldable pub collect_set : List Text → List Text
unfolding insert
collect_set [] = []
collect_set (x ∷ xs) = insert x (collect_set xs)

-- The keys are there once each.
abbrev pub Distinct : List Text → Type 0
Distinct [] = Unit
Distinct (x ∷ xs) = (contains x xs ≡ false) × Distinct xs

-- Every key of the first is in the second.
abbrev pub Within : List Text → List Text → Type 0
Within xs ys = (k : Text) → contains k xs ≡ true → contains k ys ≡ true

-- The sets have the same keys.
abbrev pub SameKeys : List Text → List Text → Type 0
SameKeys xs ys = (k : Text) → contains k xs ≡ contains k ys

-- `left == right` of two sets.
unfoldable pub within_keys : List Text → List Text → Bool
within_keys [] ys = true
within_keys (x ∷ xs) ys = contains x ys && within_keys xs ys

unfoldable pub equal_sets : List Text → List Text → Bool
unfolding within_keys contains
equal_sets xs ys = within_keys xs ys && within_keys ys xs

module _ {ℓ} {V : Type ℓ} where
  -- `map.get(key)`.
  unfoldable pub get : Text → List (Text × V) → Option V
  get k [] = none
  get k ((j, v) ∷ m) = if same k j then some v else get k m

  -- `map.insert(key, value)`, which replaces the value of a key that is there.
  unfoldable pub put : Text → V → List (Text × V) → List (Text × V)
  put k v [] = (k, v) ∷ []
  put k v ((j, w) ∷ m) =
      let rest = put k v m in
      if same k j then (k, v) ∷ m else if before k j then (k, v) ∷ (j, w) ∷ m else (j, w) ∷ rest

  -- The pairs of an iterator collected into a map: a later pair replaces an earlier one.
  unfoldable pub put_all : List (Text × V) → List (Text × V) → List (Text × V)
  unfolding put
  put_all m [] = m
  put_all m ((k, v) ∷ rest) = put_all (put k v m) rest

  unfoldable pub keys : List (Text × V) → List Text
  keys [] = []
  keys ((k, v) ∷ m) = k ∷ keys m

  unfoldable pub contains_key : Text → List (Text × V) → Bool
  unfolding get
  contains_key k m = elim (get k m) [ none ↦ false | some _ ↦ true ]

-- `left.difference(&right)`.
unfoldable pub difference : List Text → List Text → List Text
unfolding contains
difference [] ys = []
difference (x ∷ xs) ys = let rest = difference xs ys in if contains x ys then rest else x ∷ rest
