-- ===== src/Node/Local.antt =====
-- src/dynamokv/node.py: a replica's own operations over a lawful backend.
use secure_dynamo_kv_store.Prelude.{
  ◌≡◌, refl, sym, ◌∙◌, String, string_eq, List, map, ◌==◌, if◌then◌else◌, Bool-cases, inl, inr,
  eq_of_==, ==_refl,
}
use secure_dynamo_kv_store.Prelude.Result.{ok}
use secure_dynamo_kv_store.VectorClock.{Version, to_dict, reconcile}
use secure_dynamo_kv_store.VectorClock.Antichain.{Covered, reconcile-Covered, reconcile-Covered_new}
use secure_dynamo_kv_store.HintStore.{Blob}
use secure_dynamo_kv_store.HintStore.Laws.{map-from_dict-to_dict}
use secure_dynamo_kv_store.Storage.{StorageBackend, StorageLaws}
use secure_dynamo_kv_store.Node.Replica.{Stored, Replica, versions_of, get_local, put_local}

module _ {V : Type 0} (sb : StorageBackend (Stored V)) (hb : StorageBackend (Blob V))
    (laws : StorageLaws sb) where
  abbrev pub IsSound : Replica sb hb → Type 0
  IsSound s = laws.IsValid s.storage

  -- The versions that a replica stores under a key.
  unfoldable pub stored : Replica sb hb → String → List (Version V)
  stored s key = versions_of sb hb (laws.view s.storage key)

  pub get_local-stored :
      (s : Replica sb hb) (key : String) → IsSound s → get_local sb hb s key ≡ ok (stored s key)
  unfolding get_local stored
  get_local-stored s key v = rw (laws.get-view s.storage key v)

  -- On a replica whose storage is valid, `put_local` succeeds and leaves it valid; the key then
  -- holds the reconciliation of what it held with the version, every other key what it held, and
  -- the hints and the view of the others are unchanged.
  pub put_local_lem :
      (s : Replica sb hb) (key : String) (v : Version V)
      → IsSound s
      → (s' : Replica sb hb) × (put_local sb hb s key v ≡ ok s')
        × IsSound s'
        × ((j : String)
            → stored s' j ≡ (if key == j then reconcile (stored s key) v else stored s j))
        × (s'.hint_store ≡ s.hint_store)
        × (s'.gossip_state ≡ s.gossip_state)
  unfolding put_local stored
  put_local_lem s key v valid =
      let raw = map to_dict (reconcile (stored s key) v) in
      (
        record s { storage = sb.put s.storage key raw },
        rw (get_local-stored s key valid),
        laws.put-IsValid s.storage key raw valid,
        λ j. elim (Bool-cases (key == j)) [
          | inl e ↦
              rw (laws.put-view s.storage key j raw valid, e)
                (map-from_dict-to_dict (reconcile (stored s key) v))
          | inr e ↦ rw (laws.put-view s.storage key j raw valid, e)
        ],
        refl,
        refl,
      )

  -- From `s` to `s'` no write is forgotten: what some stored version had seen, one still has.
  pub record Keeps (s s' : Replica sb hb) : Type 0 where
    pub sound : IsSound s → IsSound s'
    pub kept :
        IsSound s
        → (key : String) (v : Version V) → Covered v (stored s key)
        → Covered v (stored s' key)

  pub Keeps-refl : (s : Replica sb hb) → Keeps s s
  Keeps-refl s = record { sound = λ h. h; kept = λ h key v c. c }

  -- Whatever becomes of a local write, nothing is forgotten by it.
  pub put_local-Keeps :
      (s s' : Replica sb hb) (key : String) (v : Version V)
      → put_local sb hb s key v ≡ ok s'
      → IsSound s
      → IsSound s'
        × ((j : String) (w : Version V) → Covered w (stored s j) → Covered w (stored s' j))
        × Covered v (stored s' key)
  put_local-Keeps s s' key v e valid =
      let (t, f, sound, views, _, _) = put_local_lem s key v valid in
      let both : ok t ≡ ok s' = sym f ∙ e in
      let same : t ≡ s' = cc in
      rw (← same) (
        sound,
        λ j w c. elim (Bool-cases (key == j)) [
          | inl q ↦ rw (views j, q) (reconcile-Covered (stored s key) v w (rw (eq_of_== key j q) c))
          | inr q ↦ rw (views j, q) c
        ],
        rw (views key, ==_refl key) (reconcile-Covered_new (stored s key) v),
      )

  pub put_local-ok :
      (s : Replica sb hb) (key : String) (v : Version V)
      → IsSound s
      → (s' : Replica sb hb) × (put_local sb hb s key v ≡ ok s')
  put_local-ok s key v valid = let p = put_local_lem s key v valid in (p.0, p.1)
