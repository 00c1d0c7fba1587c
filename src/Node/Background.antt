-- ===== src/Node/Background.antt =====
-- src/dynamokv/node.py: the gossip round with the replay of hints, and the views for the dashboard.
use secure_dynamo_kv_store.Prelude.{
  ℕ, String, string_eq, nat_eq, Option, none, some, List, [], ◌∷◌, is_empty, length, filter, ◌==◌,
  if◌then◌else◌,
}
use secure_dynamo_kv_store.Prelude.Int.{ℤ}
use secure_dynamo_kv_store.Prelude.Result.{Result, ok, raise, ◌>>=◌, http_error}
use secure_dynamo_kv_store.Dict
use secure_dynamo_kv_store.Dict.{Dict}
use secure_dynamo_kv_store.VectorClock.{Version, to_dict}
use secure_dynamo_kv_store.Ring.{sorted_points}
use secure_dynamo_kv_store.Storage.{StorageBackend}
use secure_dynamo_kv_store.Gossip.{GossipState, tick, to_wire, merge_wire, believed_down}
use secure_dynamo_kv_store.HintStore.{Blob, Pending, pending_for, clear_key}
use secure_dynamo_kv_store.Node.Replica.{Node, Stored, Replica, handle_gossip}
use secure_dynamo_kv_store.Node.Network.{
  Fate, answered, unreachable, answer_lost, Response, Cluster, on_replica, request, peer_base_url,
  put_key_local,
}

-- When the steps of one round happen: by the clock of the node, and of the peer in `handled`.
pub record Times : Type 0 where
  pub ticked : ℕ
  pub handled : ℕ
  pub merged : ℕ
  pub checked : ℕ

-- The other nodes that are believed down: `down_peers`.
unfoldable pub down_peers : Node → GossipState → ℕ → List String
down_peers node g now =
    filter (λ peer_id. believed_down g peer_id now node.gossip_failure_timeout)
      (Dict.keys node.peers)

-- `peer_ids`
unfoldable pub peer_ids : Node → List String
peer_ids node = Dict.keys node.peers

-- `ring_topology`
unfoldable pub ring_topology : Node → List (ℕ × Result String)
ring_topology node = sorted_points node.ring

module _ {V : Type 0} (sb : StorageBackend (Stored V)) (hb : StorageBackend (Blob V)) where
  abbrev pub Done : Type 0
  Done = Result (Unit {0}) × Cluster sb hb

  -- A step of the node on its own state, which may raise.
  abbrev pub kept_or :
      {A : Type 0}
      → Replica sb hb
      → Result A
      → (A → Replica sb hb)
      → Result (Unit {0}) × Replica sb hb
  kept_or s (raise e) f = (raise e, s)
  kept_or s (ok a) f = (ok tt, f a)

  abbrev pub clear_hint : String → String → Replica sb hb → Result (Unit {0}) × Replica sb hb
  clear_hint target key s =
      kept_or s (clear_key hb s.hint_store target key) (λ hints. record s { hint_store = hints })

  -- What the answer to a replayed hint does: a 200 clears its key, an exception of the client is
  -- swallowed.
  abbrev pub after_replay : Node → String → String → Result (Response V) × Cluster sb hb → Done
  after_replay node target key (raise e, cl) = (ok tt, cl)
  after_replay node target key (ok resp, cl) =
      if resp.status == 200
      then on_replica sb hb node.node_id (raise http_error) (clear_hint target key) cl
      else (ok tt, cl)

  unfoldable pub replay_hint :
      Node → (String → Version V → Fate) → String → String → Version V → Cluster sb hb → Done
  replay_hint node net target key version cl =
      after_replay node target key
        (request sb hb (net key version) target (put_key_local sb hb key (to_dict version)) cl)

  -- What an exception leaves undone.
  abbrev pub and_then : Done → (Cluster sb hb → Done) → Done
  and_then (raise e, cl) k = (raise e, cl)
  and_then (ok done, cl) k = k cl

  -- The two loops of `_flush_hints_for`: over the versions of a key, and over the keys.
  unfoldable pub replay_versions :
      Node → (String → Version V → Fate) → String → String → List (Version V) → Cluster sb hb → Done
  replay_versions node net target key [] cl = (ok tt, cl)
  replay_versions node net target key (version ∷ versions) cl =
      and_then (replay_hint node net target key version cl)
        (replay_versions node net target key versions)

  unfoldable pub replay_all :
      Node → (String → Version V → Fate) → String → Pending V → Cluster sb hb → Done
  replay_all node net target [] cl = (ok tt, cl)
  replay_all node net target ((key, versions) ∷ pending) cl =
      and_then (replay_versions node net target key versions cl)
        (replay_all node net target pending)

  -- `pending` of the node's own hint store.
  unfoldable pub pending_of : Option (Replica sb hb) → String → Result (Pending V)
  pending_of none target = raise http_error
  pending_of (some s) target = pending_for hb s.hint_store target

  abbrev pub replay_pending :
      Node → (String → Version V → Fate) → String → Cluster sb hb → Result (Pending V) → Done
  replay_pending node net target cl (raise e) = (raise e, cl)
  replay_pending node net target cl (ok []) = (ok tt, cl)
  replay_pending node net target cl (ok (p ∷ pending)) =
      and_then (peer_base_url sb hb node target >>= (λ _. ok tt), cl)
        (replay_all node net target (p ∷ pending))

  unfoldable pub flush_hints_for :
      Node → (String → Version V → Fate) → String → Cluster sb hb → Done
  flush_hints_for node net target cl =
      replay_pending node net target cl (pending_of (Dict.get cl node.node_id) target)

  -- The last loop of `gossip_round`: hints for the peers that are not believed down.
  unfoldable pub flush_live :
      Node
      → (String → String → Version V → Fate)
      → GossipState
      → ℕ
      → List String
      → Cluster sb hb
      → Done
  flush_live node net g now [] cl = (ok tt, cl)
  flush_live node net g now (peer_id ∷ peers) cl =
      let go_on = flush_live node net g now peers in
      if believed_down g peer_id now node.gossip_failure_timeout
      then go_on cl
      else and_then (flush_hints_for node (net peer_id) peer_id cl) go_on

  -- The POST of /internal/gossip and the handler that answers it.
  unfoldable pub push :
      Fate → ℕ → String → Dict String ℤ → Cluster sb hb → Result (Dict String ℤ) × Cluster sb hb
  push unreachable now peer_id table cl = (raise http_error, cl)
  push answered now peer_id table cl =
      on_replica sb hb peer_id (raise http_error)
        (λ s. let (reply, s') = handle_gossip sb hb s now table in (ok reply, s')) cl
  push answer_lost now peer_id table cl =
      on_replica sb hb peer_id (raise http_error)
        (λ s. let (reply, s') = handle_gossip sb hb s now table in (raise http_error, s')) cl

  -- The reply is merged; an exception of the client is swallowed.
  abbrev pub pull : Node → ℕ → Result (Dict String ℤ) × Cluster sb hb → Done
  pull node now (raise e, cl) = (ok tt, cl)
  pull node now (ok table, cl) =
      on_replica sb hb node.node_id (raise http_error)
        (λ s. (ok tt, record s { gossip_state = merge_wire s.gossip_state now table })) cl

  abbrev pub wire_of : Option (Replica sb hb) → Dict String ℤ
  wire_of none = []
  wire_of (some s) = to_wire s.gossip_state

  abbrev pub push_pull : Node → Fate → Times → String → Cluster sb hb → Result String → Done
  push_pull node fate times peer_id cl (raise e) = (raise e, cl)
  push_pull node fate times peer_id cl (ok base_url) =
      pull node times.merged
        (push fate times.handled peer_id (wire_of (Dict.get cl node.node_id)) cl)

  -- One push and pull with the peer that `random.choice` picks, if there are peers.
  unfoldable pub exchange : Node → (List String → String) → Fate → Times → Cluster sb hb → Done
  exchange node choice fate times cl =
      let peer_id = choice (Dict.keys node.peers) in
      if is_empty node.peers
      then (ok tt, cl)
      else push_pull node fate times peer_id cl (peer_base_url sb hb node peer_id)

  abbrev pub flush_from :
      Node
      → (String → String → Version V → Fate)
      → ℕ
      → Cluster sb hb
      → Option (Replica sb hb)
      → Done
  flush_from node net now cl none = (raise http_error, cl)
  flush_from node net now cl (some s) =
      flush_live node net s.gossip_state now (Dict.keys node.peers) cl

  unfoldable pub gossip_round :
      Node
      → (List String → String)
      → Fate
      → (String → String → Version V → Fate)
      → Times
      → Cluster sb hb
      → Done
  gossip_round node choice fate net times cl =
      and_then
        (on_replica sb hb node.node_id (raise http_error)
          (λ s. kept_or s (tick s.gossip_state times.ticked) (λ g. record s { gossip_state = g }))
          cl)
        (λ ticked. and_then (exchange node choice fate times ticked) (λ exchanged.
          flush_from node net times.checked exchanged (Dict.get exchanged node.node_id)))

  -- `pending_hints`: how many keys wait for each peer.
  unfoldable pub pending_hints : Replica sb hb → List String → Result (Dict String ℕ)
  pending_hints s [] = ok []
  pending_hints s (peer_id ∷ peers) = do
    pending ← pending_for hb s.hint_store peer_id
    rest ← pending_hints s peers
    ok ((peer_id, length pending) ∷ rest)
