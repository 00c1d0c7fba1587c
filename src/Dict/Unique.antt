-- ===== src/Dict/Unique.antt =====
-- Python's `dict`: the invariant that no key is there twice.
use secure_dynamo_kv_store.Prelude.{◌≡◌, refl, inl, inr, none, [], ◌∷◌, arith, Eq, ◌==◌, Bool-cases}
use secure_dynamo_kv_store.Dict.Defs.{Dict, get, put, remove}
use secure_dynamo_kv_store.Dict.Laws.{get-put, get-remove}

module _ {ℓ κ} {K : Type ℓ} {V : Type κ} ⦃e : Eq K⦄ where
  abbrev pub Distinct : Dict K V → Type κ
  Distinct [] = Unit
  Distinct ((k, v) ∷ d) = (get d k ≡ none) × Distinct d

  pub put-Distinct : (d : Dict K V) (k : K) (v : V) → Distinct d → Distinct (put d k v)
  unfolding put get
  put-Distinct [] k v h = (refl, tt)
  put-Distinct ((j, w) ∷ d) k v h = elim (Bool-cases (j == k)) [
    | inl s ↦ rw s h
    | inr s ↦
        rw s (ground (arith, get-put d k j v, e.decides k j, e.decides j k), put-Distinct d k v h.1)
  ]

  pub remove-Distinct : (d : Dict K V) (k : K) → Distinct d → Distinct (remove d k)
  unfolding remove
  remove-Distinct [] k h = tt
  remove-Distinct ((j, w) ∷ d) k h = elim (Bool-cases (j == k)) [
    | inl s ↦ rw s (remove-Distinct d k h.1)
    | inr s ↦ rw s (ground (arith, get-remove d k j), remove-Distinct d k h.1)
  ]
