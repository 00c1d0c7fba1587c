-- ===== src/Node/Replica.antt =====
-- src/dynamokv/node.py: the state of a node and the operations on its own storage.
use secure_dynamo_kv_store.Prelude.{ℕ, String, string_eq, Bool, Option, none, some, List, [], map}
use secure_dynamo_kv_store.Prelude.Result.{Result, ok, ◌>>=◌}
use secure_dynamo_kv_store.Prelude.Int.{ℤ}
use secure_dynamo_kv_store.Dict.{Dict}
use secure_dynamo_kv_store.VectorClock.{Version, VersionDict, to_dict, from_dict, reconcile}
use secure_dynamo_kv_store.Ring.{HashRing}
use secure_dynamo_kv_store.Storage.{StorageBackend}
use secure_dynamo_kv_store.Gossip.{GossipState}
use secure_dynamo_kv_store.Gossip
use secure_dynamo_kv_store.HintStore
use secure_dynamo_kv_store.HintStore.{Blob}

-- What `__init__` sets and nothing changes afterwards. `peers` maps node ids to base URLs.
pub record Node : Type 0 where
  pub node_id : String
  pub ring : HashRing
  pub peers : Dict String String
  pub n : ℕ
  pub r : ℕ
  pub w : ℕ
  pub gossip_failure_timeout : ℕ

-- The list of version dicts that is stored under a key.
abbrev pub Stored : Type 0 → Type 0
Stored V = List (VersionDict V)

module _ {V : Type 0} (sb : StorageBackend (Stored V)) (hb : StorageBackend (Blob V)) where
  -- What a running node changes: its storage, its hint store, its view of the others.
  pub record Replica : Type 0 where
    pub storage : sb.State
    pub hint_store : hb.State
    pub gossip_state : GossipState

  abbrev pub versions_of : Option (Stored V) → List (Version V)
  versions_of none = []
  versions_of (some raw) = map from_dict raw

  unfoldable pub get_local : Replica → String → Result (List (Version V))
  get_local s key = do raw ← sb.get s.storage key; ok (versions_of raw)

  unfoldable pub put_local : Replica → String → Version V → Result Replica
  unfolding get_local
  put_local s key version = do
    existing ← get_local s key
    ok (record s { storage = sb.put s.storage key (map to_dict (reconcile existing version)) })

  unfoldable pub delete_local : Replica → String → Replica × Bool
  delete_local s key =
      let (storage, existed) = sb.delete s.storage key in (record s { storage = storage }, existed)

  unfoldable pub exists_local : Replica → String → Bool
  exists_local s key = sb.exists s.storage key

  unfoldable pub add_hint : Replica → String → String → Version V → Result Replica
  unfolding HintStore.add
  add_hint s target key version = do
    hints ← HintStore.add hb s.hint_store target key version
    ok (record s { hint_store = hints })

  unfoldable pub handle_gossip : Replica → ℕ → Dict String ℤ → Dict String ℤ × Replica
  unfolding Gossip.merge_wire Gossip.to_wire
  handle_gossip s now incoming =
      let merged = Gossip.merge_wire s.gossip_state now incoming in
      (Gossip.to_wire merged, record s { gossip_state = merged })
