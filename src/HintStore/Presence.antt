-- ===== src/HintStore/Presence.antt =====
-- src/dynamokv/hint_store.py: `has_pending`, and blobs that are stored empty.
use secure_dynamo_kv_store.Prelude.{
  ◌≡◌, refl, String, string_eq, Bool, true, false, not, Option, none, some, List, [], ◌∷◌, is_empty,
  if◌then◌else◌, ◌==◌, Bool-cases, inl, inr,
}
use secure_dynamo_kv_store.Prelude.Result.{ok}
use secure_dynamo_kv_store.Dict
use secure_dynamo_kv_store.Dict.{or_else}
use secure_dynamo_kv_store.VectorClock.{Version}
use secure_dynamo_kv_store.Storage.{StorageBackend, StorageLaws}
use secure_dynamo_kv_store.HintStore.{
  Blob, Pending, decode, merged, add, pending_for, save_or_delete, clear_key, has_pending,
}
use secure_dynamo_kv_store.HintStore.Laws.{load-view}

module _ {V : Type 0} where
  abbrev pub Stocked : Option (Blob V) → Type 0
  Stocked none = Unit
  Stocked (some blob) = is_empty blob ≡ false

  is_empty-decode : (blob : Blob V) → is_empty (decode blob) ≡ is_empty blob
  is_empty-decode [] = refl
  is_empty-decode (e ∷ blob) = refl

  is_empty-put : (blob : Blob V) (k : String) (vs : List _) → is_empty (Dict.put blob k vs) ≡ false
  unfolding Dict.put
  is_empty-put [] k vs = refl
  is_empty-put ((j, w) ∷ blob) k vs = elim (Bool-cases (j == k)) [ inl s ↦ rw s | inr s ↦ rw s ]

  Stocked-if :
      (c : Bool) (o : Option (Blob V)) (p : Option (Blob V))
      → Stocked o
      → Stocked p
      → Stocked (if c then o else p)
  Stocked-if true o p h g = h
  Stocked-if false o p h g = g

  presence :
      (o : Option (Blob V)) → Stocked o → Dict.is_some o ≡ not (is_empty (decode (or_else o [])))
  presence none h = refl
  presence (some blob) h = rw (is_empty-decode blob, h)

module _ {V : Type 0} (b : StorageBackend (Blob V)) (laws : StorageLaws b) where
  -- The states that the hint store reaches: valid, and with no empty blob.
  pub record IsStocked (s : b.State) : Type 0 where
    pub valid : laws.IsValid s
    pub stocked : (t : String) → Stocked (laws.view s t)

  pub init-IsStocked : IsStocked b.init
  init-IsStocked = record { valid = laws.init-IsValid; stocked = λ t. rw (laws.init-view t) tt }

  put-IsStocked :
      (s : b.State) (t : String) (blob : Blob V)
      → is_empty blob ≡ false
      → IsStocked s
      → IsStocked (b.put s t blob)
  put-IsStocked s t blob e h = record {
    valid = laws.put-IsValid s t blob h.valid;
    stocked = λ t'.
        rw (laws.put-view s t t' blob h.valid)
          (Stocked-if (t == t') (some blob) (laws.view s t') e (h.stocked t'));
  }

  -- A successful `add` reaches such a state again.
  pub add-IsStocked :
      (s : b.State) (t k : String) (v : Version V)
      → IsStocked s
      → (s' : b.State) × (add b s t k v ≡ ok s') × IsStocked s'
  unfolding add
  add-IsStocked s t k v h =
      let blob = or_else (laws.view s t) [] in
      let blob' = Dict.put blob k (merged blob k v) in
      (
        b.put s t blob',
        rw (load-view b laws s t h.valid),
        put-IsStocked s t blob' (is_empty-put blob k (merged blob k v)) h,
      )

  save_or_delete-IsStocked :
      (s : b.State) (t : String) (blob : Blob V)
      → IsStocked s
      → IsStocked (save_or_delete b s t blob)
  unfolding save_or_delete
  save_or_delete-IsStocked s t [] h = record {
    valid = laws.delete-IsValid s t h.valid;
    stocked = λ t'.
        rw (laws.delete-view s t t' h.valid)
          (Stocked-if (t == t') none (laws.view s t') tt (h.stocked t'));
  }
  save_or_delete-IsStocked s t (x ∷ blob) h = put-IsStocked s t (x ∷ blob) refl h

  -- And so does `clear_key`, which deletes a blob that becomes empty.
  pub clear_key-IsStocked :
      (s : b.State) (t k : String)
      → IsStocked s
      → (s' : b.State) × (clear_key b s t k ≡ ok s') × IsStocked s'
  unfolding clear_key
  clear_key-IsStocked s t k h =
      let blob = or_else (laws.view s t) [] in
      elim (Bool-cases (Dict.contains blob k)) [
        | inl c ↦ (
          save_or_delete b s t (Dict.remove blob k),
          rw (load-view b laws s t h.valid, c),
          save_or_delete-IsStocked s t (Dict.remove blob k) h,
        )
        | inr c ↦ (s, rw (load-view b laws s t h.valid, c), h)
      ]

  -- On a valid state that holds no empty blob, `has_pending` tells whether `pending_for` returns
  -- anything.
  pub has_pending-pending_for :
      (s : b.State) (t : String)
      → IsStocked s
      → (p : Pending V) × (pending_for b s t ≡ ok p) × (has_pending b s t ≡ not (is_empty p))
  unfolding has_pending pending_for
  has_pending-pending_for s t h = (
    decode (or_else (laws.view s t) []),
    rw (load-view b laws s t h.valid),
    rw (laws.exists-view s t h.valid) (presence (laws.view s t) (h.stocked t)),
  )
