-- ===== src/Tests/Requests.antt =====
-- Requests to a node of one, with a token that may read and write one namespace.
use secure_dynamo_kv_store.Prelude.{
  ℕ, ◌≡◌, refl, ◌↔◌, String, string_eq, nat_eq, false, none, some, [], ◌∷◌, In, here, filter, any,
  if◌then◌else◌,
}
use secure_dynamo_kv_store.Prelude.Result.{Exn, ok, raise, http_exception}
use secure_dynamo_kv_store.Dict
use secure_dynamo_kv_store.Dict.{Dict}
use secure_dynamo_kv_store.Ring
use secure_dynamo_kv_store.Gossip
use secure_dynamo_kv_store.Gossip.{believed_down}
use secure_dynamo_kv_store.HintStore
use secure_dynamo_kv_store.HintStore.{Blob}
use secure_dynamo_kv_store.Storage.{StorageBackend}
use secure_dynamo_kv_store.Storage.Memory.{memory_storage}
use secure_dynamo_kv_store.Auth
use secure_dynamo_kv_store.Auth.{
  TokenEntry, AuthContext, AuthRequest, namespace_for_key, get_auth_context,
}
use secure_dynamo_kv_store.Auth.Grants.{Grants, get_auth_context_iff}
use secure_dynamo_kv_store.Journal.{Operation}
use secure_dynamo_kv_store.Node.Replica.{Node, Replica, Stored}
use secure_dynamo_kv_store.Node.Network.{answered, Cluster}
use secure_dynamo_kv_store.Node.Client.{Schedule}
use secure_dynamo_kv_store.Node.Background
use secure_dynamo_kv_store.Node.Background.{peer_ids}
use secure_dynamo_kv_store.Api
use secure_dynamo_kv_store.Api.{ClusterStateResponse, put_key, get_key, delete_key, cluster_state}
use secure_dynamo_kv_store.Api.Access.{denied-unchanged}
use secure_dynamo_kv_store.Api.Dashboard.{cluster_state-peers}

abbrev test_hash : String → ℕ
test_hash text = 5

abbrev entry : TokenEntry
entry = record { id = some "app"; namespaces = some (("cart", "read" ∷ "write" ∷ []) ∷ []) }

abbrev tokens : Dict String TokenEntry
tokens = ("secret", entry) ∷ []

abbrev with_token : AuthRequest
with_token = record { method = "PUT"; authorization = some "Bearer secret" }

abbrev without_token : AuthRequest
without_token = record { method = "PUT"; authorization = none }

abbrev app : AuthContext
app = record { client_id = "app"; namespaces = ("cart", "read" ∷ "write" ∷ []) ∷ [] }

get_auth_context_iff_example :
    ((get_auth_context (some tokens) with_token "cart:7").answer ≡ ok app)
    ↔ Grants tokens with_token "cart:7" app
get_auth_context_iff_example = get_auth_context_iff tokens with_token "cart:7" app

abbrev sb : StorageBackend (Stored ℕ)
sb = memory_storage

abbrev hb : StorageBackend (Blob ℕ)
hb = memory_storage

abbrev node : Node
node = record {
  node_id = "a";
  ring = record {
    virtual_nodes = 1;
    ring = (10, "a") ∷ [];
    sorted_hashes = 10 ∷ [];
    nodes = "a" ∷ [];
  };
  peers = ("b", "http://b:8000") ∷ [];
  n = 1;
  r = 1;
  w = 1;
  gossip_failure_timeout = 6;
}

abbrev replica : Replica sb hb
replica = record { storage = []; hint_store = []; gossip_state = Gossip.new "a" 0 }

abbrev alone : Cluster sb hb
alone = ("a", replica) ∷ []

abbrev in_order : Schedule
in_order = record { order = λ l. l; net = λ _. answered }

nobody : (context : AuthContext) → ¬ Grants tokens without_token "cart:7" context
unfolding get_auth_context Auth.strip_prefix
nobody context g =
    let e : raise (http_exception 401) ≡ ok context =
      (get_auth_context_iff tokens without_token "cart:7" context).1 g in
    cc

denied-unchanged_example :
    (e : Exn) × (put_key test_hash sb hb
        (some tokens)
        without_token
        node
        "cart:7"
        1
        0
        in_order
        (λ _. answered)
        in_order
        alone
      ≡ (raise e, alone))
    × (get_key test_hash sb hb (some tokens) without_token node "cart:7" in_order alone
        ≡ (raise e, alone))
    × (delete_key test_hash sb hb (some tokens) without_token node "cart:7" in_order alone
        ≡ (raise e, alone))
denied-unchanged_example =
    denied-unchanged test_hash sb hb tokens without_token node "cart:7" 1 0 in_order (λ _. answered)
      in_order alone nobody

abbrev operation : Operation ℕ
operation = record {
  entry = record {
    timestamp = 1;
    node_id = some "a";
    method = "PUT";
    path = "/v1/keys/cart:7";
    latency_ms = 2;
    status_code = 200;
    outcome = "ok";
  };
  key = some "cart:7";
  conflict = false;
}

abbrev state : ClusterStateResponse ℕ
state = record {
  node_id = "a";
  public_cluster_urls = [];
  ring = record { virtual_nodes = 1; points = (10, ok "a") ∷ [] };
  peers = ("b", "up") ∷ [];
  pending_hints = ("b", 0) ∷ [];
  recent_ops = operation ∷ [];
}

state-answer : cluster_state test_hash sb hb node replica 9 [] 1 (operation ∷ []) ≡ ok state
unfolding cluster_state Background.pending_hints peer_ids HintStore.pending_for
    Background.ring_topology Api.peer_states Dict.get Ring.sorted_points Ring.member any
    Background.down_peers filter believed_down
state-answer = refl

b-peer : In "b" (peer_ids node)
unfolding peer_ids
b-peer = here refl

abbrev peer : String
peer = "b"

cluster_state-peers_example :
    Dict.get state.peers peer
    ≡ some (if believed_down replica.gossip_state peer 9 6 then "down" else "up")
cluster_state-peers_example =
    cluster_state-peers sb hb test_hash node replica 9 [] 1 (operation ∷ []) state peer state-answer
      b-peer
