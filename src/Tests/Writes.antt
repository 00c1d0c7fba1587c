-- ===== src/Tests/Writes.antt =====
-- Two writes of one key, a version that is replayed after them, and a clock that is forged between
-- them, in a cluster of three nodes with N = 2, R = 2 and W = 1.
use secure_dynamo_kv_store.Prelude.{
  ℕ, ◌≡◌, refl, String, string_eq, [], ◌∷◌, arith, any, all, filter,
}
use secure_dynamo_kv_store.Prelude.Int.{pos, suc_ℤ, max_ℤ}
use secure_dynamo_kv_store.Prelude.Result.{Result, ok}
use secure_dynamo_kv_store.Dict
use secure_dynamo_kv_store.Dict.{Dict}
use secure_dynamo_kv_store.VectorClock
use secure_dynamo_kv_store.VectorClock.{Version, VersionDict, VectorClock}
use secure_dynamo_kv_store.VectorClock.Order.{◌≤c◌}
use secure_dynamo_kv_store.Ring
use secure_dynamo_kv_store.Ring.{HashRing}
use secure_dynamo_kv_store.Gossip
use secure_dynamo_kv_store.HintStore
use secure_dynamo_kv_store.HintStore.{Blob}
use secure_dynamo_kv_store.Storage.Memory.{memory_storage-laws}
use secure_dynamo_kv_store.Auth
use secure_dynamo_kv_store.Auth.{TokenEntry, AuthRequest}
use secure_dynamo_kv_store.Node.Replica
use secure_dynamo_kv_store.Node.Replica.{Node, Replica, Stored}
use secure_dynamo_kv_store.Node.Network
use secure_dynamo_kv_store.Node.Network.{Fate, answered, Cluster}
use secure_dynamo_kv_store.Node.Client
use secure_dynamo_kv_store.Node.Client.{Schedule, preference_list}
use secure_dynamo_kv_store.Node.Coordinator
use secure_dynamo_kv_store.Node.Freshness.{still}
use secure_dynamo_kv_store.Node.Succession.{later_put-gt}
use secure_dynamo_kv_store.Api
use secure_dynamo_kv_store.Api.{KeyValueResponse}
use secure_dynamo_kv_store.Attack.Writes.Programs
use secure_dynamo_kv_store.Attack.Writes.Programs.{
  Writing, public_put, public_get, poison_all, replay_program,
}
use secure_dynamo_kv_store.Attack.Writes.Replay.{clock_of, replay-dropped}
use secure_dynamo_kv_store.Attack.Writes.Forgery.{forged}
use secure_dynamo_kv_store.Tests.Trio.{
  test_hash, node, sb, hb, three, reach, in_order, writing, in_order-Lawful, three-AllSound, hosts,
  prefs, prefs-Unique, prefs-known, request, no_tokens, answer, put_at, get_at,
}

abbrev body : VersionDict ℕ
body = record { value = 9; clock = forged.counters }

abbrev poison_at : Cluster sb hb → Result (Unit {0}) × Cluster sb hb
poison_at cl =
    poison_all test_hash sb hb no_tokens request request (node "node-2") reach hosts "k" body cl

abbrev one_write : Cluster sb hb
one_write = (put_at 1 three).1

abbrev two_writes : Cluster sb hb
two_writes = (put_at 2 one_write).1

abbrev replayed : Result (KeyValueResponse ℕ) × Cluster sb hb
replayed =
    replay_program test_hash sb hb no_tokens request request (node "node-1") (node "node-1") "k" 1 2
      writing writing answered in_order three

abbrev poisoned : Cluster sb hb
poisoned = (poison_at one_write).1

abbrev hijacked : Cluster sb hb
hijacked = (get_at poisoned).1

abbrev recovered : Cluster sb hb
recovered = (put_at 3 hijacked).1

-- The answers to the writes and reads of the two programs.
answers :
    (put_at 1 three ≡ (ok (answer 1 1), one_write))
    × (put_at 2 one_write ≡ (ok (answer 2 2), two_writes))
    × (replayed ≡ (ok (answer 2 2), replayed.1))
    × (poison_at one_write ≡ (ok tt, poisoned))
    × (get_at poisoned ≡ (ok (answer 9 999999), hijacked))
    × (put_at 3 hijacked ≡ (ok (answer 3 1000000), recovered))
    × (get_at recovered ≡ (ok (answer 3 1000000), (get_at recovered).1))
unfolding Api.put_key Api.get_key Coordinator.get Programs.poison_all Programs.replay_program
    Auth.get_auth_context Coordinator.put Client.merged_read Network.gather Network.get_op
    Network.on_replica Replica.get_local Network.call Network.peer_base_url Network.request Dict.put
    Network.get_key_local Coordinator.write_phase Client.first_outside Client.hint_all
    Client.partition Gossip.believed_down Client.guarded_put_op Network.put_op Dict.get Dict.remove
    HintStore.add HintStore.load HintStore.merged Client.deliver_hint Client.merge_results
    Client.next_version preference_list Network.put_hint Network.put_key_local Replica.add_hint
    Replica.put_local max_ℤ suc_ℤ all any filter Ring.bisect_left Ring.get_preference_list
    Ring.member Ring.owner_at Ring.start_of Ring.walk Ring.wrap VectorClock.compare
    VectorClock.count VectorClock.dominates_or_equal VectorClock.from_dict VectorClock.ge_on
    VectorClock.incremented VectorClock.is_stale VectorClock.keys VectorClock.merge
    VectorClock.merge_from VectorClock.merge_items VectorClock.reconcile VectorClock.reconcile_all
    VectorClock.survivors VectorClock.to_dict
answers = (refl, refl, refl, refl, refl, refl, refl)

replay-dropped_example :
    (clock_of (answer 2 2) ≤c clock_of (answer 2 2))
    × (¬ (clock_of (answer 2 2) ≤c clock_of (answer 1 1)))
replay-dropped_example =
    replay-dropped test_hash sb hb memory_storage-laws no_tokens request request (node "node-1")
      (node "node-1") "k" 1 2 writing writing answered in_order three one_write two_writes
      replayed.1 prefs (answer 1 1) (answer 2 2) (answer 2 2) three-AllSound prefs-Unique
      (omega arith) (omega arith) (prefs-known "node-1") (omega arith) (omega arith) (omega arith)
      in_order-Lawful in_order-Lawful in_order-Lawful in_order-Lawful in_order-Lawful answers.0
      answers.1 answers.2

abbrev coordinated : String → ℕ → Cluster sb hb → Coordinator.PutRun test_hash sb hb
coordinated node_id value cl =
    Coordinator.put test_hash sb hb (node node_id) "k" value 0 in_order reach in_order cl

abbrev version : ℕ → VectorClock → Version ℕ
version value clock = record { value = value; clock = clock }

abbrev early : VectorClock
early = record { counters = ("node-1", pos 1) ∷ [] }

abbrev late : VectorClock
late = record { counters = ("node-1", pos 1) ∷ ("node-2", pos 1) ∷ [] }

-- A write through node-1, and the next through node-2.
coordinated-answers :
    ((coordinated "node-1" 1 three).answer ≡ ok (version 1 early))
    × ((coordinated "node-2" 2 (coordinated "node-1" 1 three).cluster).answer ≡ ok (version 2 late))
unfolding Coordinator.put Client.merged_read Network.gather Network.get_op Network.on_replica
    Replica.get_local Network.call Network.peer_base_url Network.request Dict.put
    Network.get_key_local Coordinator.write_phase Client.first_outside Client.hint_all
    Client.partition Gossip.believed_down Client.guarded_put_op Network.put_op Dict.get Dict.remove
    HintStore.add HintStore.load HintStore.merged Client.deliver_hint Client.merge_results
    Client.next_version preference_list Network.put_hint Network.put_key_local Replica.add_hint
    Replica.put_local max_ℤ suc_ℤ all any filter Ring.bisect_left Ring.get_preference_list
    Ring.member Ring.owner_at Ring.start_of Ring.walk Ring.wrap VectorClock.compare
    VectorClock.count VectorClock.dominates_or_equal VectorClock.from_dict VectorClock.ge_on
    VectorClock.incremented VectorClock.is_stale VectorClock.keys VectorClock.merge
    VectorClock.merge_from VectorClock.merge_items VectorClock.reconcile VectorClock.reconcile_all
    VectorClock.survivors VectorClock.to_dict
coordinated-answers = (refl, refl)

later_put-gt_example : (early ≤c late) × (¬ (late ≤c early))
later_put-gt_example =
    later_put-gt test_hash sb hb memory_storage-laws (node "node-1") (node "node-2") "k" 1 2 0 0
      in_order reach in_order in_order reach in_order three (coordinated "node-1" 1 three).cluster
      prefs (version 1 early) (version 2 late) three-AllSound prefs-Unique (omega arith)
      (omega arith) (prefs-known "node-1") (prefs-known "node-2") (omega arith) (omega arith)
      (omega arith) in_order-Lawful in_order-Lawful in_order-Lawful coordinated-answers.0
      (still (coordinated "node-1" 1 three).cluster) coordinated-answers.1
