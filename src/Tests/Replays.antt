-- ===== src/Tests/Replays.antt =====
-- A replay of two sibling hints in which the second request does not arrive.
use secure_dynamo_kv_store.Prelude.{
  ℕ, ◌≡◌, refl, String, string_eq, nat_eq, ◌==◌, if◌then◌else◌, [], ◌∷◌, any, all, filter,
}
use secure_dynamo_kv_store.Prelude.Int.{pos}
use secure_dynamo_kv_store.Dict
use secure_dynamo_kv_store.VectorClock
use secure_dynamo_kv_store.VectorClock.{Version, VersionDict}
use secure_dynamo_kv_store.Gossip
use secure_dynamo_kv_store.HintStore
use secure_dynamo_kv_store.HintStore.{Blob}
use secure_dynamo_kv_store.Storage.{StorageBackend}
use secure_dynamo_kv_store.Storage.Memory.{memory_storage}
use secure_dynamo_kv_store.Node.Replica
use secure_dynamo_kv_store.Node.Replica.{Node, Replica, Stored}
use secure_dynamo_kv_store.Node.Network
use secure_dynamo_kv_store.Node.Network.{Fate, answered, unreachable, Cluster}
use secure_dynamo_kv_store.Node.Background
use secure_dynamo_kv_store.Node.Background.{flush_hints_for}

abbrev sb : StorageBackend (Stored ℕ)
sb = memory_storage

abbrev hb : StorageBackend (Blob ℕ)
hb = memory_storage

abbrev left : VersionDict ℕ
left = record { value = 1; clock = ("a", pos 1) ∷ [] }

abbrev right : VersionDict ℕ
right = record { value = 2; clock = ("d", pos 1) ∷ [] }

abbrev holder : Node
holder = record {
  node_id = "c";
  ring = record { virtual_nodes = 0; ring = []; sorted_hashes = []; nodes = [] };
  peers = ("b", "http://b:8000") ∷ [];
  n = 1;
  r = 1;
  w = 1;
  gossip_failure_timeout = 6;
}

abbrev recipient : Replica sb hb
recipient = record { storage = []; hint_store = []; gossip_state = Gossip.new "b" 0 }

abbrev holding : Blob ℕ → Replica sb hb
holding blob = record {
  storage = [];
  hint_store = ("b", blob) ∷ [];
  gossip_state = Gossip.new "c" 0;
}

-- The request for the second sibling does not arrive.
abbrev second_lost : String → Version ℕ → Fate
second_lost key version = if version.value == 1 then answered else unreachable

abbrev before : Cluster sb hb
before = ("b", recipient) ∷ ("c", holding (("k", left ∷ right ∷ []) ∷ [])) ∷ []

-- The first delivery clears the whole key: the second version is neither stored nor held.
replay-drops_sibling : (flush_hints_for sb hb holder second_lost "b" before).1 ≡ (
    ("b", record recipient { storage = ("k", left ∷ []) ∷ [] })
    ∷ ("c", record { storage = []; hint_store = []; gossip_state = Gossip.new "c" 0 })
    ∷ [])
unfolding flush_hints_for Background.pending_of Dict.get HintStore.pending_for Network.peer_base_url
    Background.replay_all Background.replay_versions Background.replay_hint Network.request
    VectorClock.from_dict Network.on_replica Network.put_key_local Replica.put_local Dict.put
    HintStore.clear_key VectorClock.reconcile Dict.remove any filter HintStore.load
    HintStore.save_or_delete Replica.get_local all VectorClock.compare VectorClock.count
    VectorClock.dominates_or_equal VectorClock.ge_on VectorClock.is_stale VectorClock.keys
    VectorClock.survivors VectorClock.to_dict
replay-drops_sibling = refl
