-- ===== src/HintStore.antt =====
-- src/dynamokv/hint_store.py: writes that are held for a node that cannot be reached, one blob for
-- each recipient in a storage backend of its own.
pub mod Laws
pub mod Presence
use secure_dynamo_kv_store.Prelude.{
  String, string_eq, Bool, Option, none, some, List, [], ◌∷◌, map, is_empty, if◌then◌else◌,
}
use secure_dynamo_kv_store.Prelude.Result.{Result, ok, raise, ◌>>=◌}
use secure_dynamo_kv_store.Dict
use secure_dynamo_kv_store.Dict.{Dict}
use secure_dynamo_kv_store.VectorClock.{Version, VersionDict, to_dict, from_dict, reconcile}
use secure_dynamo_kv_store.Storage.{StorageBackend}

-- The versions that wait for one recipient, by key, as they are stored.
abbrev pub Blob : Type 0 → Type 0
Blob V = Dict String (List (VersionDict V))

-- A blob as the caller reads it.
abbrev pub Pending : Type 0 → Type 0
Pending V = Dict String (List (Version V))

module _ {V : Type 0} where
  -- {key: [Version.from_dict(v) for v in versions] for key, versions in blob.items()}
  abbrev pub decode : Blob V → Pending V
  decode = map (λ (key, versions). (key, map from_dict versions))

  -- blob[key] after `add`
  unfoldable pub merged : Blob V → String → Version V → List (VersionDict V)
  merged blob key version =
      map to_dict (reconcile (map from_dict (Dict.get_or blob key [])) version)

module _ {V : Type 0} (b : StorageBackend (Blob V)) where
  unfoldable pub load : b.State → String → Result (Blob V)
  load s target = do raw ← b.get s target; ok (Dict.or_else raw [])

  unfoldable pub add : b.State → String → String → Version V → Result b.State
  unfolding load merged
  add s target key version = do
    blob ← load s target
    ok (b.put s target (Dict.put blob key (merged blob key version)))

  unfoldable pub pending_for : b.State → String → Result (Pending V)
  unfolding load
  pending_for s target = do blob ← load s target; ok (decode blob)

  -- The blob without the key: an empty one is deleted, not stored.
  unfoldable pub save_or_delete : b.State → String → Blob V → b.State
  save_or_delete s target blob =
      if is_empty blob then (b.delete s target).0 else b.put s target blob

  unfoldable pub clear_key : b.State → String → String → Result b.State
  unfolding load save_or_delete
  clear_key s target key = do
    blob ← load s target
    if Dict.contains blob key then ok (save_or_delete s target (Dict.remove blob key)) else ok s

  unfoldable pub has_pending : b.State → String → Bool
  has_pending s target = b.exists s target
