-- ===== src/Dict/Laws.antt =====
-- Python's `dict`: lemmas on reads after writes, and on the keys.
use secure_dynamo_kv_store.Prelude.{
  ◌≡◌, refl, ◌≢◌, inl, inr, ap, sym, true, false, Option, none, some, [], ◌∷◌, arith, Eq, ◌==◌,
  if◌then◌else◌, Bool-cases, In, here, there, ==_refl, In-cons, eq_of_==,
}
use secure_dynamo_kv_store.Dict.Defs.{Dict, get, put, remove, keys, is_some}

pub is_some-false {ℓ} : {A : Type ℓ} (o : Option A) → is_some o ≡ false → o ≡ none
is_some-false none h = refl
is_some-false (some a) h = cc

pub is_some-true {ℓ} : {A : Type ℓ} (o : Option A) → is_some o ≡ true → (a : A) × (o ≡ some a)
is_some-true none h = cc
is_some-true (some a) h = (a, refl)

module _ {ℓ κ} {K : Type ℓ} {V : Type κ} ⦃e : Eq K⦄ where
  pub get-put :
      (d : Dict K V) (k j : K) (v : V) → get (put d k v) j ≡ (if k == j then some v else get d j)
  unfolding get put
  get-put [] k j v = refl
  get-put ((i, w) ∷ d) k j v =
      ground (arith, e.decides k j, e.decides i k, e.decides i j, get-put d k j v)

  pub get-remove :
      (d : Dict K V) (k j : K) → get (remove d k) j ≡ (if k == j then none else get d j)
  unfolding get remove
  get-remove [] k j = ground arith
  get-remove ((i, w) ∷ d) k j =
      ground (arith, e.decides k j, e.decides i k, e.decides i j, get-remove d k j)

  pub get-put_self : (d : Dict K V) (k : K) (v : V) → get (put d k v) k ≡ some v
  get-put_self d k v = simp (get-put, ==_refl)

  pub get-put_ne : (d : Dict K V) (k j : K) (v : V) → k ≢ j → get (put d k v) j ≡ get d j
  get-put_ne d k j v h = ground (arith, get-put d k j v, e.decides k j)

  -- A key that reads as something is among the keys, and the other way round.
  pub In-keys_of_get : (d : Dict K V) (k : K) {v : V} → get d k ≡ some v → In k (keys d)
  unfolding get
  In-keys_of_get [] k h = cc
  In-keys_of_get ((j, w) ∷ d) k h = elim (Bool-cases (j == k)) [
    | inl s ↦ here (sym (eq_of_== j k s))
    | inr s ↦ there (In-keys_of_get d k (rw s at h))
  ]

  pub get_of_In-keys : (d : Dict K V) (k : K) → In k (keys d) → (v : V) × (get d k ≡ some v)
  unfolding get
  get_of_In-keys [] k m = elim m [ ]
  get_of_In-keys ((j, w) ∷ d) k m = elim (Bool-cases (j == k)) [
    | inl s ↦ (w, rw s)
    | inr s ↦ elim (In-cons m) [
      | inl q ↦ absurd (cc (s, ==_refl k, ap (λ x. x == k) q))
      | inr r ↦ let (v, h) = get_of_In-keys d k r in (v, rw (s, h))
    ]
  ]
