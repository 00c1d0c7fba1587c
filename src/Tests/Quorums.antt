-- ===== src/Tests/Quorums.antt =====
-- A write and a read in a cluster of three nodes with N = 2, where R = 2 and W = 1.
use secure_dynamo_kv_store.Prelude.{
  In, false, ℕ, ◌≡◌, refl, String, string_eq, ◌==◌, if◌then◌else◌, List, [], ◌∷◌, Unique, some,
  In-cons, inl, inr, ne_of_==, any, all, filter,
}
use secure_dynamo_kv_store.Prelude.Int.{pos, suc_ℤ, max_ℤ}
use secure_dynamo_kv_store.Prelude.Result.{ok}
use secure_dynamo_kv_store.Dict
use secure_dynamo_kv_store.VectorClock
use secure_dynamo_kv_store.VectorClock.{Version, VectorClock}
use secure_dynamo_kv_store.Ring
use secure_dynamo_kv_store.Ring.{HashRing}
use secure_dynamo_kv_store.Gossip
use secure_dynamo_kv_store.HintStore
use secure_dynamo_kv_store.HintStore.{Blob}
use secure_dynamo_kv_store.Storage.{StorageBackend}
use secure_dynamo_kv_store.Storage.Memory.{
  memory_storage, memory_storage-laws, memory_storage-IsValid,
}
use secure_dynamo_kv_store.Node.Replica
use secure_dynamo_kv_store.Node.Replica.{Node, Replica, Stored}
use secure_dynamo_kv_store.Node.Network
use secure_dynamo_kv_store.Node.Network.{Fate, answered, unreachable, Cluster}
use secure_dynamo_kv_store.Node.Client
use secure_dynamo_kv_store.Node.Coordinator
use secure_dynamo_kv_store.Node.Client.{Schedule, one, preference_list, next_version}
use secure_dynamo_kv_store.Node.Coordinator.{put, get}
use secure_dynamo_kv_store.Node.Growth.{AllSound, Grows}
use secure_dynamo_kv_store.Node.Reads.{Lawful}
use secure_dynamo_kv_store.VectorClock.Antichain.{Antichain}
use secure_dynamo_kv_store.Node.Siblings.{versions, StoredBy, get-Antichain}
use secure_dynamo_kv_store.Node.Worker.{Turn, run, run-Grows}

abbrev test_hash : String → ℕ
test_hash label = if label == "k" then 5 else 40

abbrev test_ring : HashRing
test_ring = record {
  virtual_nodes = 1;
  ring = (10, "a") ∷ (20, "b") ∷ (30, "c") ∷ [];
  sorted_hashes = 10 ∷ 20 ∷ 30 ∷ [];
  nodes = "a" ∷ "b" ∷ "c" ∷ [];
}

abbrev node : String → Node
node node_id = record {
  node_id = node_id;
  ring = test_ring;
  peers = ("a", "http://a:8000") ∷ ("b", "http://b:8000") ∷ ("c", "http://c:8000") ∷ [];
  n = 2;
  r = 2;
  w = 1;
  gossip_failure_timeout = 6;
}

abbrev sb : StorageBackend (Stored ℕ)
sb = memory_storage

abbrev hb : StorageBackend (Blob ℕ)
hb = memory_storage

abbrev fresh : String → Replica sb hb
fresh node_id = record { storage = []; hint_store = []; gossip_state = Gossip.new node_id 0 }

abbrev three : Cluster sb hb
three = ("a", fresh "a") ∷ ("b", fresh "b") ∷ ("c", fresh "c") ∷ []

abbrev in_order : (String → Fate) → Schedule
in_order net = record { order = λ l. l; net = net }

abbrev all_up : String → Fate
all_up _ = answered

in_order-Lawful : (net : String → Fate) → Lawful (in_order net)
in_order-Lawful net = record { once = λ l u. u; asked = λ l a m. m }

abbrev first_version : Version ℕ
first_version = record { value = 7; clock = record { counters = ("a", pos 1) ∷ [] } }

abbrev prefs : List String
prefs = "a" ∷ "b" ∷ []

prefs-Unique : Unique prefs
prefs-Unique = (
  λ m. elim (In-cons m) [ inl e ↦ ne_of_== "a" "b" refl e | inr n ↦ elim n [ ] ],
  (λ m. elim m [ ], tt),
)

prefs-known : (id : String) → preference_list test_hash sb hb (node id) "k" ≡ ok prefs
unfolding preference_list Ring.get_preference_list Ring.walk Ring.owner_at Dict.get any
prefs-known id = refl

abbrev written : Coordinator.PutRun test_hash sb hb
written = put test_hash sb hb (node "a") "k" 7 0 (in_order all_up) all_up (in_order all_up) three

-- The write to `b` was still running: it does not arrive, and leaves a hint with `c`.
abbrev after_straggler : Cluster sb hb
after_straggler =
    (Client.guarded_put_op test_hash sb hb (node "a") "k" first_version (some "c") all_up
      (λ _. unreachable) "b" written.cluster).1

read-answer :
    (get test_hash sb hb (node "b") "k" (in_order all_up) after_straggler).0
    ≡ ok (one first_version)
unfolding get put Client.merged_read Network.gather Network.get_op Network.on_replica
    Replica.get_local Network.call Network.peer_base_url Network.request Dict.put
    Network.get_key_local Coordinator.write_phase Client.first_outside Client.hint_all
    Client.partition Gossip.believed_down Client.guarded_put_op Network.put_op Dict.get Dict.remove
    HintStore.add HintStore.load HintStore.merged Client.deliver_hint Client.merge_results
    Client.next_version preference_list Network.put_hint Network.put_key_local Replica.add_hint
    Replica.put_local max_ℤ suc_ℤ all any filter Ring.bisect_left Ring.get_preference_list
    Ring.member Ring.owner_at Ring.start_of Ring.walk Ring.wrap VectorClock.compare
    VectorClock.count VectorClock.dominates_or_equal VectorClock.from_dict VectorClock.ge_on
    VectorClock.incremented VectorClock.is_stale VectorClock.keys VectorClock.merge
    VectorClock.merge_from VectorClock.merge_items VectorClock.reconcile VectorClock.reconcile_all
    VectorClock.survivors VectorClock.to_dict
read-answer = refl

read-merged :
    (Client.merged_read test_hash sb hb (node "b") "k" prefs 2 (in_order all_up) after_straggler).0
    ≡ ok (first_version ∷ [])
unfolding put Client.merged_read Network.gather Network.get_op Network.on_replica Replica.get_local
    Network.call Network.peer_base_url Network.request Dict.put Network.get_key_local
    Coordinator.write_phase Client.first_outside Client.hint_all Client.partition
    Gossip.believed_down Client.guarded_put_op Network.put_op Dict.get Dict.remove HintStore.add
    HintStore.load HintStore.merged Client.deliver_hint Client.merge_results Client.next_version
    preference_list Network.put_hint Network.put_key_local Replica.add_hint Replica.put_local max_ℤ
    suc_ℤ all any filter Ring.bisect_left Ring.get_preference_list Ring.member Ring.owner_at
    Ring.start_of Ring.walk Ring.wrap VectorClock.compare VectorClock.count
    VectorClock.dominates_or_equal VectorClock.from_dict VectorClock.ge_on VectorClock.incremented
    VectorClock.is_stale VectorClock.keys VectorClock.merge VectorClock.merge_from
    VectorClock.merge_items VectorClock.reconcile VectorClock.reconcile_all VectorClock.survivors
    VectorClock.to_dict
read-merged = refl

after_straggler-AllSound : AllSound test_hash sb hb memory_storage-laws after_straggler
after_straggler-AllSound id s e = memory_storage-IsValid s.storage

abbrev turns : List (Turn ℕ)
turns =
    record {
      stopped = false;
      choice = λ peers. "b";
      fate = answered;
      net = λ _ _ _. answered;
      times = record { ticked = 1; handled = 1; merged = 2; checked = 2 };
    }
    ∷ []

run-Grows_example :
    Grows test_hash sb hb memory_storage-laws after_straggler
      (run sb hb (node "c") turns after_straggler)
run-Grows_example =
    run-Grows test_hash sb hb memory_storage-laws (node "c") turns after_straggler
      after_straggler-AllSound

get-Antichain_example :
    Antichain (versions (one first_version))
    × ((a : Version ℕ)
        → In a (versions (one first_version))
        → StoredBy test_hash sb hb memory_storage-laws "k" prefs after_straggler a)
get-Antichain_example =
    get-Antichain test_hash sb hb memory_storage-laws (node "b") "k" (in_order all_up)
      after_straggler prefs (one first_version) after_straggler-AllSound prefs-Unique
      (in_order-Lawful all_up) (prefs-known "b") read-answer
