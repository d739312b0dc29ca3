-- ===== src/Manifests/Parameters/Resolves.antt =====
-- The maps of `validate_parameters` (src/manifests.rs): every value that they hold is admitted by a
-- contract of the manifest, and the defaults are settled.
use evidence_workbench.Prelude.{
  ℕ, ◌≡◌, ap, true, false, List, [], ◌∷◌, ◌++◌, some, ok, arith, Memᴰ, inl, inr, Option-cases,
  Bool-cases,
}
use evidence_workbench.Text.{Text, same, same_iff, same_refl, contains_byte, split_once}
use evidence_workbench.Text.Order.{before, before_irrefl}
use evidence_workbench.Collections.{get, put, contains_key}
use evidence_workbench.Collections.Laws.{get-put}
use evidence_workbench.Collections.Ordered.{Sorted, Below}
use evidence_workbench.Validation.Topology.Spec.{All}
use evidence_workbench.Manifests.{ParameterContract}
use evidence_workbench.Manifests.Parameters.{validate_parameter}

module _ {ℓ} {V : Type ℓ} (P : Text × V → Type 0) where
  pub All-put : (k : Text) (v : V) (m : List (Text × V)) → P (k, v) → All P m → All P (put k v m)
  unfolding put
  All-put k v [] p a = (p, tt)
  All-put k v ((j, w) ∷ m) p a = elim (Bool-cases (same k j)) [
    | inl e ↦ rw e (p, a.1)
    | inr n ↦ elim (Bool-cases (before k j)) [
      | inl h ↦ rw (n, h) (p, a)
      | inr h ↦ rw (n, h) (a.0, All-put k v m p a.1)
    ]
  ]

module _ {ℓ} {V : Type ℓ} where
  pub get-mem :
      (k : Text) (v : V) (m : List (Text × V)) → Sorted m → Memᴰ (k, v) m → get k m ≡ some v
  unfolding get
  get-mem k v [] s h = elim h [ ]
  get-mem k v ((j, w) ∷ m) s (Memᴰ.head e) =
      rw (ap (λ (x : Text × V). x.0) e, ap (λ (x : Text × V). x.1) e) (ground (arith, same_refl j))
  get-mem k v ((j, w) ∷ m) s (Memᴰ.tail h) =
      ground (arith, get-mem k v m s.1 h, below_mem j m s.0 h, before_irrefl j, same_iff k j)
    where
      below_mem : (j : Text) (n : List (Text × V)) → Below j n → Memᴰ (k, v) n → before j k ≡ true
      below_mem j [] b h = elim h [ ]
      below_mem j ((i, x) ∷ n) b (Memᴰ.head e) = rw (ap (λ (y : Text × V). y.0) e) b.0
      below_mem j ((i, x) ∷ n) b (Memᴰ.tail h) = below_mem j n b.1 h

  pub contains_key-put :
      (j k : Text) (v : V) (m : List (Text × V))
      → contains_key j m ≡ true
      → contains_key j (put k v m) ≡ true
  unfolding contains_key
  contains_key-put j k v m h = ground (arith, get-put j k v m)

  pub contains_key-put_same :
      (k : Text) (v : V) (m : List (Text × V)) → contains_key k (put k v m) ≡ true
  unfolding contains_key
  contains_key-put_same k v m = ground (arith, get-put k k v m, same_refl k)

-- The name in front of the first `=` has none.
pub split_once_plain :
    (c : ℕ) (text name rest : Text)
    → split_once c text ≡ some (name, rest)
    → contains_byte c name ≡ false
unfolding split_once contains_byte
split_once_plain c [] name rest h = cc
split_once_plain c (x ∷ xs) name rest h = elim (Option-cases (split_once c xs)) [
  | inl e ↦ ground (arith, e, h)
  | inr ((n, r), e) ↦ ground (arith, e, h, split_once_plain c xs n r e)
]

pub split_once-join :
    (c : ℕ) (name rest : Text)
    → contains_byte c name ≡ false
    → split_once c (name ++ c ∷ rest) ≡ some (name, rest)
unfolding split_once contains_byte
split_once-join c [] rest h = ground arith
split_once-join c (x ∷ xs) rest h = ground (arith, split_once-join c xs rest)

-- A value that a contract of the manifest admits, under a name that can stand before `=`.
pub record Admitted (contracts : List (Text × ParameterContract)) (entry : Text × Text)
    : Type 0 where
  pub contract : ParameterContract
  pub found : get entry.0 contracts ≡ some contract
  pub valid : validate_parameter contract entry.1 ≡ ok tt
  pub plain : contains_byte b'=' entry.0 ≡ false

-- What is asked of a contract of the manifest: a name without `=`, and a default that the contract
-- itself admits.
pub record PlainContract (contract : ParameterContract) : Type 0 where
  pub plain : contains_byte b'=' contract.name ≡ false
  pub default_valid :
      (value : Text) → contract.default ≡ some value → validate_parameter contract value ≡ ok tt
