-- ===== src/Tests/Deletions.antt =====
-- A write, and deletions by way of the internal ports, in a cluster of three nodes.
use secure_dynamo_kv_store.Prelude.{◌≡◌, refl, string_eq, any, all, filter}
use secure_dynamo_kv_store.Prelude.Int.{suc_ℤ, max_ℤ}
use secure_dynamo_kv_store.Prelude.Result.{Result, ok}
use secure_dynamo_kv_store.Dict
use secure_dynamo_kv_store.Dict.{Dict}
use secure_dynamo_kv_store.VectorClock
use secure_dynamo_kv_store.VectorClock.{Version, VersionDict, VectorClock}
use secure_dynamo_kv_store.Ring
use secure_dynamo_kv_store.Ring.{HashRing}
use secure_dynamo_kv_store.Gossip
use secure_dynamo_kv_store.HintStore
use secure_dynamo_kv_store.HintStore.{Blob}
use secure_dynamo_kv_store.Auth
use secure_dynamo_kv_store.Auth.{TokenEntry, AuthRequest}
use secure_dynamo_kv_store.Node.Replica
use secure_dynamo_kv_store.Node.Replica.{Node, Replica, Stored}
use secure_dynamo_kv_store.Node.Network
use secure_dynamo_kv_store.Node.Network.{Fate, answered, Cluster}
use secure_dynamo_kv_store.Node.Client
use secure_dynamo_kv_store.Node.Client.{Schedule, preference_list}
use secure_dynamo_kv_store.Node.Coordinator
use secure_dynamo_kv_store.Api
use secure_dynamo_kv_store.Api.{KeyValueResponse}
use secure_dynamo_kv_store.Attack.Writes.Programs
use secure_dynamo_kv_store.Tests.Trio.{
  test_hash, node, sb, hb, three, reach, hosts, request, no_tokens, answer, put_at,
}
use secure_dynamo_kv_store.Attack.Writes.Programs.{delete_all}

abbrev one_write : Cluster sb hb
one_write = (put_at 1 three).1

abbrev delete_at : Cluster sb hb → Result (Unit {0}) × Cluster sb hb
delete_at cl =
    delete_all test_hash sb hb no_tokens request request (node "node-2") reach hosts "k" cl

answers :
    (put_at 1 three ≡ (ok (answer 1 1), one_write))
    × (delete_at one_write ≡ (ok tt, (delete_at one_write).1))
unfolding Api.put_key Api.get_key Coordinator.get Programs.delete_all Auth.get_auth_context
    Coordinator.put Client.merged_read Network.gather Network.get_op Network.on_replica
    Replica.get_local Network.call Network.peer_base_url Network.request Dict.put
    Network.get_key_local Coordinator.write_phase Client.first_outside Client.hint_all
    Client.partition Gossip.believed_down Client.guarded_put_op Network.put_op Dict.get Dict.remove
    HintStore.add HintStore.load HintStore.merged Client.deliver_hint Client.merge_results
    Client.next_version preference_list Network.put_hint Network.put_key_local Replica.add_hint
    Replica.put_local Replica.delete_local Network.delete_key_local max_ℤ suc_ℤ all any filter
    Ring.bisect_left Ring.get_preference_list Ring.member Ring.owner_at Ring.start_of Ring.walk
    Ring.wrap VectorClock.compare VectorClock.count VectorClock.dominates_or_equal
    VectorClock.from_dict VectorClock.ge_on VectorClock.incremented VectorClock.is_stale
    VectorClock.keys VectorClock.merge VectorClock.merge_from VectorClock.merge_items
    VectorClock.reconcile VectorClock.reconcile_all VectorClock.survivors VectorClock.to_dict
answers = (refl, refl)
