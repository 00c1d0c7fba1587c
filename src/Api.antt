-- ===== src/Api.antt =====
-- src/dynamokv/api/routes.py and src/dynamokv/models.py: the public routes with their
-- authentication, the health check and the state for the dashboard.
pub mod Access
pub mod Answers
pub mod Dashboard
use secure_dynamo_kv_store.Prelude.{
  ℕ, String, string_eq, Bool, true, false, Option, none, some, List, [], ◌∷◌, map, if◌then◌else◌,
}
use secure_dynamo_kv_store.Prelude.Int.{ℤ}
use secure_dynamo_kv_store.Prelude.Result.{Result, ok, raise, ◌>>=◌, http_exception}
use secure_dynamo_kv_store.Dict.{Dict}
use secure_dynamo_kv_store.VectorClock.{Version}
use secure_dynamo_kv_store.Ring.{member}
use secure_dynamo_kv_store.Storage.{StorageBackend}
use secure_dynamo_kv_store.HintStore.{Blob}
use secure_dynamo_kv_store.Auth.{TokenEntry, AuthContext, AuthRequest, get_auth_context}
use secure_dynamo_kv_store.Journal.{Operation}
use secure_dynamo_kv_store.Node.Replica.{Node, Stored, Replica}
use secure_dynamo_kv_store.Node.Network.{Fate, Cluster}
use secure_dynamo_kv_store.Node.Client
use secure_dynamo_kv_store.Node.Coordinator
use secure_dynamo_kv_store.Node.Client.{Schedule, Reading, one, conflict}
use secure_dynamo_kv_store.Node.Background.{down_peers, peer_ids, ring_topology, pending_hints}

pub record KeyValueResponse (V : Type 0) : Type 0 where
  pub key : String
  pub value : V
  pub clock : Dict String ℤ

pub record DeleteResponse : Type 0 where
  pub key : String
  pub deleted : Bool

pub record HealthResponse : Type 0 where
  pub node_id : String
  pub status : String

-- The position of a point is the numerator over 2 ** 64.
pub record RingTopologyOut : Type 0 where
  pub virtual_nodes : ℕ
  pub points : List (ℕ × Result String)

pub record ClusterStateResponse (Time : Type 0) : Type 0 where
  pub node_id : String
  pub public_cluster_urls : List String
  pub ring : RingTopologyOut
  pub peers : Dict String String
  pub pending_hints : Dict String ℕ
  pub recent_ops : List (Operation Time)

unfoldable pub healthz : Node → HealthResponse
healthz node = record { node_id = node.node_id; status = "ok" }

-- {peer_id: ("down" if peer_id in down else "up") for peer_id in node.peer_ids()}
unfoldable pub peer_states : List String → List String → Dict String String
peer_states down = map (λ peer_id. (peer_id, if member down peer_id then "down" else "up"))

abbrev pub delete_out : String → Bool → Result DeleteResponse
delete_out key true = ok (record { key = key; deleted = true })
delete_out key false = raise (http_exception 404)

module _ {V : Type 0} where
  abbrev pub key_value : String → Version V → KeyValueResponse V
  key_value key version = record {
    key = key;
    value = version.value;
    clock = version.clock.counters;
  }

  -- The siblings of a conflict are the detail of a 409.
  abbrev pub read_out : String → Reading V → Result (KeyValueResponse V)
  read_out key (one version) = ok (key_value key version)
  read_out key (conflict versions) = raise (http_exception 409)

module _ {V : Type 0} (hash : String → ℕ) (sb : StorageBackend (Stored V))
    (hb : StorageBackend (Blob V)) where
  -- The dependency on `get_auth_context` is resolved before the handler runs.
  abbrev pub authorized :
      {A : Type 0}
      → Result AuthContext
      → Cluster sb hb
      → Result A × Cluster sb hb
      → Result A × Cluster sb hb
  authorized (raise e) cl handled = (raise e, cl)
  authorized (ok context) cl handled = handled

  unfoldable pub put_key :
      Option (Dict String TokenEntry)
      → AuthRequest
      → Node
      → String
      → V
      → ℕ
      → Schedule
      → (String → Fate)
      → Schedule
      → Cluster sb hb
      → Result (KeyValueResponse V) × Cluster sb hb
  put_key tokens request node key value now reads hint_net writes cl =
      let run = Coordinator.put hash sb hb node key value now reads hint_net writes cl in
      authorized (get_auth_context tokens request key).answer cl
        (run.answer >>= (λ version. ok (key_value key version)), run.cluster)

  unfoldable pub get_key :
      Option (Dict String TokenEntry)
      → AuthRequest
      → Node
      → String
      → Schedule
      → Cluster sb hb
      → Result (KeyValueResponse V) × Cluster sb hb
  get_key tokens request node key reads cl =
      let (answer, cl') = Coordinator.get hash sb hb node key reads cl in
      authorized (get_auth_context tokens request key).answer cl (answer >>= read_out key, cl')

  unfoldable pub delete_key :
      Option (Dict String TokenEntry)
      → AuthRequest
      → Node
      → String
      → Schedule
      → Cluster sb hb
      → Result DeleteResponse × Cluster sb hb
  delete_key tokens request node key sched cl =
      let (answer, cl') = Coordinator.delete hash sb hb node key sched cl in
      authorized (get_auth_context tokens request key).answer cl (answer >>= delete_out key, cl')

  -- Without authentication: the node's own view.
  unfoldable pub cluster_state :
      {Time : Type 0}
      → Node
      → Replica sb hb
      → ℕ
      → List String
      → ℕ
      → List (Operation Time)
      → Result (ClusterStateResponse Time)
  cluster_state node s now public_cluster_urls virtual_nodes recent_ops = do
    hints ← pending_hints sb hb s (peer_ids node)
    ok (record {
      node_id = node.node_id;
      public_cluster_urls = public_cluster_urls;
      ring = record { virtual_nodes = virtual_nodes; points = ring_topology node };
      peers = peer_states (down_peers node s.gossip_state now) (peer_ids node);
      pending_hints = hints;
      recent_ops = recent_ops;
    })
