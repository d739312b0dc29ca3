-- ===== src/Collections/Ordered.antt =====
-- The keys of an ordered map stand in increasing order, hence once each.
use evidence_workbench.Prelude.{◌≡◌, refl, true, false, List, [], ◌∷◌, arith, Bool-cases, inl, inr}
use evidence_workbench.Text.{Text, same, same_iff}
use evidence_workbench.Text.Order.{before, before_trans, before_total, before_ne}
use evidence_workbench.Collections.{contains, put, put_all, keys}

-- `k` is below each key.
abbrev pub Below {ℓ} : {V : Type ℓ} → Text → List (Text × V) → Type 0
Below k [] = Unit
Below k ((j, v) ∷ m) = (before k j ≡ true) × Below k m

abbrev pub Sorted {ℓ} : {V : Type ℓ} → List (Text × V) → Type 0
Sorted [] = Unit
Sorted ((j, v) ∷ m) = Below j m × Sorted m

module _ {ℓ} {V : Type ℓ} where
  Below-trans : (i j : Text) (m : List (Text × V)) → before i j ≡ true → Below j m → Below i m
  Below-trans i j [] h b = tt
  Below-trans i j ((k, v) ∷ m) h b = (before_trans i j k h b.0, Below-trans i j m h b.1)

  put-Below :
      (i k : Text) (v : V) (m : List (Text × V))
      → before i k ≡ true
      → Below i m
      → Below i (put k v m)
  unfolding put
  put-Below i k v [] h b = (h, tt)
  put-Below i k v ((j, w) ∷ m) h b = ground (arith, put-Below i k v m h b.1)

  pub put-Sorted : (k : Text) (v : V) (m : List (Text × V)) → Sorted m → Sorted (put k v m)
  unfolding put
  put-Sorted k v [] s = (tt, tt)
  put-Sorted k v ((j, w) ∷ m) s = elim (Bool-cases (same k j)) [
    | inl e ↦ rw (e, (same_iff k j).0 e) s
    | inr n ↦ elim (Bool-cases (before k j)) [
      | inl h ↦ rw (n, h) ((h, Below-trans k j m h s.0), s)
      | inr h ↦ rw (n, h) (put-Below j k v m (before_total k j h n) s.0, put-Sorted k v m s.1)
    ]
  ]

  pub put_all-Sorted : (pairs m : List (Text × V)) → Sorted m → Sorted (put_all m pairs)
  unfolding put_all
  put_all-Sorted [] m s = s
  put_all-Sorted ((k, v) ∷ pairs) m s = put_all-Sorted pairs (put k v m) (put-Sorted k v m s)

  pub Below-foreign : (k : Text) (m : List (Text × V)) → Below k m → contains k (keys m) ≡ false
  unfolding contains keys
  Below-foreign k [] b = refl
  Below-foreign k ((j, v) ∷ m) b = ground (arith, Below-foreign k m b.1, before_ne k j)
