-- ===== src/HintStore/Laws.antt =====
-- src/dynamokv/hint_store.py: the hints as a function of recipient and key, and the operations on
-- it.
use secure_dynamo_kv_store.Prelude.{
  ◌≡◌, refl, ap, String, string_eq, false, ◌&&◌, Option, some, List, [], ◌∷◌, map, if◌then◌else◌,
  ◌==◌, Bool-cases, inl, inr, eq_of_==,
}
use secure_dynamo_kv_store.Prelude.Result.{ok}
use secure_dynamo_kv_store.Dict
use secure_dynamo_kv_store.Dict.{Dict, or_else, is_some}
use secure_dynamo_kv_store.VectorClock.{Version, to_dict, from_dict, reconcile}
use secure_dynamo_kv_store.Storage.{StorageBackend, StorageLaws}
use secure_dynamo_kv_store.HintStore.{
  Blob, Pending, decode, merged, load, add, pending_for, save_or_delete, clear_key,
}

module _ {V : Type 0} where
  pub map-from_dict-to_dict : (vs : List (Version V)) → map from_dict (map to_dict vs) ≡ vs
  unfolding from_dict to_dict
  map-from_dict-to_dict [] = refl
  map-from_dict-to_dict (v ∷ vs) = ap (◌∷◌ v) (map-from_dict-to_dict vs)

  -- What a blob, there or not, holds under a key.
  abbrev pub held : Option (Blob V) → String → List (Version V)
  held o key = map from_dict (Dict.get_or (or_else o []) key [])

  held-merged :
      (blob : Blob V) (k j : String) (v : Version V)
      → held (some (Dict.put blob k (merged blob k v))) j
        ≡ (if k == j then reconcile (held (some blob) k) v else held (some blob) j)
  unfolding merged
  held-merged blob k j v = elim (Bool-cases (k == j)) [
    | inl s ↦ rw (Dict.get-put, s) (map-from_dict-to_dict (reconcile (held (some blob) k) v))
    | inr s ↦ rw (Dict.get-put, s)
  ]

  held-remove :
      (blob : Blob V) (k j : String)
      → held (some (Dict.remove blob k)) j ≡ (if k == j then [] else held (some blob) j)
  held-remove blob k j = elim (Bool-cases (k == j)) [
    | inl s ↦ rw (Dict.get-remove, s)
    | inr s ↦ rw (Dict.get-remove, s)
  ]

  get-decode : (blob : Blob V) (k : String) → Dict.get_or (decode blob) k [] ≡ held (some blob) k
  unfolding Dict.get
  get-decode [] k = refl
  get-decode ((j, vs) ∷ blob) k = elim (Bool-cases (j == k)) [
    | inl s ↦ rw s
    | inr s ↦ rw s (get-decode blob k)
  ]

module _ {V : Type 0} (b : StorageBackend (Blob V)) (laws : StorageLaws b) where
  -- The abstract view: the versions that wait for `target` under `key`.
  unfoldable pub hints : b.State → String → String → List (Version V)
  hints s target key = held (laws.view s target) key

  pub load-view :
      (s : b.State) (t : String) → laws.IsValid s → load b s t ≡ ok (or_else (laws.view s t) [])
  unfolding load
  load-view s t v = rw (laws.get-view s t v)

  -- On a valid state `add` succeeds and leaves it valid; the hints of its recipient and key are
  -- then reconciled with the version, and all others are what they were.
  pub hints-add :
      (s : b.State) (t k : String) (v : Version V)
      → laws.IsValid s
      → (s' : b.State) × (add b s t k v ≡ ok s')
        × laws.IsValid s'
        × ((t' k' : String)
            → hints s' t' k'
              ≡ (if (t == t') && (k == k') then reconcile (hints s t k) v else hints s t' k'))
  unfolding add hints
  hints-add s t k v valid =
      let blob = or_else (laws.view s t) [] in
      let blob' = Dict.put blob k (merged blob k v) in
      (
        b.put s t blob',
        rw (load-view s t valid),
        laws.put-IsValid s t blob' valid,
        λ t' k'. elim (Bool-cases (t == t')) [
          | inl e ↦
              rw (laws.put-view s t t' blob' valid, e, ← eq_of_== t t' e) (held-merged blob k k' v)
          | inr e ↦ rw (laws.put-view s t t' blob' valid, e)
        ],
      )

  held-save_or_delete :
      (s : b.State) (t t' k : String) (blob : Blob V)
      → laws.IsValid s
      → laws.IsValid (save_or_delete b s t blob)
        × (held (laws.view (save_or_delete b s t blob) t') k
            ≡ (if t == t' then held (some blob) k else held (laws.view s t') k))
  unfolding save_or_delete Dict.get
  held-save_or_delete s t t' k [] valid = (
    laws.delete-IsValid s t valid,
    elim (Bool-cases (t == t')) [
      | inl e ↦ rw (laws.delete-view s t t' valid, e)
      | inr e ↦ rw (laws.delete-view s t t' valid, e)
    ],
  )
  held-save_or_delete s t t' k (x ∷ blob) valid = (
    laws.put-IsValid s t (x ∷ blob) valid,
    elim (Bool-cases (t == t')) [
      | inl e ↦ rw (laws.put-view s t t' (x ∷ blob) valid, e)
      | inr e ↦ rw (laws.put-view s t t' (x ∷ blob) valid, e)
    ],
  )

  held_absent :
      (o : Option (Blob V)) (k : String) → Dict.contains (or_else o []) k ≡ false → held o k ≡ []
  held_absent o k h = rw (Dict.is_some-false (Dict.get (or_else o []) k) h)

  -- On a valid state `clear_key` succeeds and leaves it valid; there are then no hints of its
  -- recipient and key, and all others are what they were.
  pub hints-clear_key :
      (s : b.State) (t k : String)
      → laws.IsValid s
      → (s' : b.State) × (clear_key b s t k ≡ ok s')
        × laws.IsValid s'
        × ((t' k' : String)
            → hints s' t' k' ≡ (if (t == t') && (k == k') then [] else hints s t' k'))
  unfolding clear_key hints
  hints-clear_key s t k valid =
      let blob = or_else (laws.view s t) [] in
      elim (Bool-cases (Dict.contains blob k)) [
        | inl c ↦
            let rest = Dict.remove blob k in
            (
              save_or_delete b s t rest,
              rw (load-view s t valid, c),
              (held-save_or_delete s t t k rest valid).0,
              λ t' k'.
                  rw ((held-save_or_delete s t t' k' rest valid).1) (elim (Bool-cases (t == t')) [
                    | inl e ↦ rw (e, ← eq_of_== t t' e) (held-remove blob k k')
                    | inr e ↦ rw e
                  ]),
            )
        | inr c ↦ (
          s,
          rw (load-view s t valid, c),
          valid,
          λ t' k'. elim (Bool-cases (t == t')) [
            | inl e ↦ elim (Bool-cases (k == k')) [
              | inl f ↦
                  rw (e, f, ← eq_of_== t t' e, ← eq_of_== k k' f) (held_absent (laws.view s t) k c)
              | inr f ↦ rw (e, f)
            ]
            | inr e ↦ rw e
          ],
        )
      ]

  -- On a valid state `pending_for` succeeds and lists under each key the hints of the recipient.
  pub pending_for-hints :
      (s : b.State) (t : String)
      → laws.IsValid s
      → (p : Pending V) × (pending_for b s t ≡ ok p)
        × ((k : String) → Dict.get_or p k [] ≡ hints s t k)
  unfolding pending_for hints
  pending_for-hints s t valid =
      let blob = or_else (laws.view s t) [] in
      (decode blob, rw (load-view s t valid), get-decode blob)
