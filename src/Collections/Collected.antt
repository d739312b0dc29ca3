-- ===== src/Collections/Collected.antt =====
-- What a map collected from pairs holds.
use evidence_workbench.Prelude.{
  ◌≡◌, refl, ◌∙◌, true, false, List, [], ◌∷◌, some, arith, Bool-cases, inl, inr, ◌⊎◌, Memᴰ, ap,
}
use evidence_workbench.Text.{Text, same, same_iff, same_refl}
use evidence_workbench.Collections.{contains, Distinct, get, put, put_all, keys}
use evidence_workbench.Collections.Laws.{get-put}

module _ {ℓ} {V : Type ℓ} where
  pub get-put_all_foreign :
      (k : Text) (pairs m : List (Text × V))
      → contains k (keys pairs) ≡ false
      → get k (put_all m pairs) ≡ get k m
  unfolding put_all contains keys
  get-put_all_foreign k [] m h = refl
  get-put_all_foreign k ((j, v) ∷ pairs) m h =
      get-put_all_foreign k pairs (put j v m) (ground arith) ∙ ground (arith, get-put k j v m)

  -- Under keys that are there once each, every pair is found.
  pub get-put_all_mem :
      (k : Text) (v : V) (pairs m : List (Text × V))
      → Distinct (keys pairs)
      → Memᴰ (k, v) pairs
      → get k (put_all m pairs) ≡ some v
  unfolding put_all keys
  get-put_all_mem k v [] m d h = elim h [ ]
  get-put_all_mem k v ((j, w) ∷ pairs) m d (Memᴰ.head e) =
      rw (ap (λ (x : Text × V). x.0) e, ap (λ (x : Text × V). x.1) e)
        (get-put_all_foreign j pairs (put j w m) d.0 ∙ ground (arith, get-put j j w m, same_refl j))
  get-put_all_mem k v ((j, w) ∷ pairs) m d (Memᴰ.tail h) =
      get-put_all_mem k v pairs (put j w m) d.1 h

  pub get-put_all_cases :
      (k : Text) (v : V) (pairs m : List (Text × V))
      → get k (put_all m pairs) ≡ some v
      → Memᴰ (k, v) pairs ⊎ (get k m ≡ some v)
  unfolding put_all
  get-put_all_cases k v [] m h = inr h
  get-put_all_cases k v ((j, w) ∷ pairs) m h = elim (get-put_all_cases k v pairs (put j w m) h) [
    | inl later ↦ inl (Memᴰ.tail later)
    | inr here ↦ elim (Bool-cases (same k j)) [
      | inl e ↦ inl (Memᴰ.head (at_head e here))
      | inr n ↦ inr (ground (arith, here, get-put k j w m))
    ]
  ]
    where
      at_head : same k j ≡ true → get k (put j w m) ≡ some v → ◌≡◌ {A = Text × V} (k, v) (j, w)
      at_head e here = ground (arith, get-put k j w m, same_iff k j)
