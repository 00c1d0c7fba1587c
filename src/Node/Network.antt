-- ===== src/Node/Network.antt =====
-- src/dynamokv/node.py and src/dynamokv/api/routes.py: the calls between nodes, the internal
-- handlers that answer them, and the quorum fan-out.
use secure_dynamo_kv_store.Prelude.{
  ℕ, String, string_eq, nat_eq, Bool, true, false, Option, none, some, List, [], ◌∷◌, ◌++◌, map,
  is_empty, length, leb, ◌==◌, if◌then◌else◌,
}
use secure_dynamo_kv_store.Prelude.Result.{Result, ok, raise, ◌>>=◌, runtime_error, http_error}
use secure_dynamo_kv_store.Dict
use secure_dynamo_kv_store.Dict.{Dict}
use secure_dynamo_kv_store.VectorClock.{Version, VersionDict, to_dict, from_dict}
use secure_dynamo_kv_store.Storage.{StorageBackend}
use secure_dynamo_kv_store.HintStore.{Blob}
use secure_dynamo_kv_store.Node.Replica.{
  Node, Stored, Replica, get_local, put_local, delete_local, add_hint,
}

-- What becomes of one HTTP request: it is answered, it never arrives, or it is carried out and the
-- answer is lost. In the last two cases the caller's client raises.
pub data Fate : Type 0 where
  answered unreachable answer_lost : Fate

-- The status of a response and the versions in its body, if any.
pub record Response (V : Type 0) : Type 0 where
  pub status : ℕ
  pub versions : List (VersionDict V)

module _ {V : Type 0} (sb : StorageBackend (Stored V)) (hb : StorageBackend (Blob V)) where
  -- The running replicas, by node id: the host of each peer's URL.
  abbrev pub Cluster : Type 0
  Cluster = Dict String (Replica sb hb)

  abbrev pub empty_response : ℕ → Response V
  empty_response status = record { status = status; versions = [] }

  -- An exception in a handler becomes a 500.
  abbrev pub put_response : Replica sb hb → Result (Replica sb hb) → Response V × Replica sb hb
  put_response s (ok s') = (empty_response 200, s')
  put_response s (raise e) = (empty_response 500, s)

  unfoldable pub put_key_local : String → VersionDict V → Replica sb hb → Response V × Replica sb hb
  put_key_local key body s = put_response s (put_local sb hb s key (from_dict body))

  abbrev pub get_response : Result (List (Version V)) → Response V
  get_response (ok vs) =
      if is_empty vs then empty_response 404 else record { status = 200; versions = map to_dict vs }
  get_response (raise e) = empty_response 500

  unfoldable pub get_key_local : String → Replica sb hb → Response V × Replica sb hb
  get_key_local key s = (get_response (get_local sb hb s key), s)

  unfoldable pub delete_key_local : String → Replica sb hb → Response V × Replica sb hb
  delete_key_local key s =
      let (s', deleted) = delete_local sb hb s key in
      (if deleted then empty_response 200 else empty_response 404, s')

  unfoldable pub put_hint :
      String → String → VersionDict V → Replica sb hb → Response V × Replica sb hb
  put_hint target key body s = put_response s (add_hint sb hb s target key (from_dict body))

  -- Runs a step on one replica of the cluster; there is nobody at an unknown host.
  abbrev pub at_replica {ℓ} :
      {A : Type ℓ}
      → Cluster
      → String
      → A
      → (Replica sb hb → A × Replica sb hb)
      → Option (Replica sb hb)
      → A × Cluster
  at_replica cl host otherwise f none = (otherwise, cl)
  at_replica cl host otherwise f (some s) = let (a, s') = f s in (a, Dict.put cl host s')

  unfoldable pub on_replica {ℓ} :
      {A : Type ℓ} → String → A → (Replica sb hb → A × Replica sb hb) → Cluster → A × Cluster
  on_replica host otherwise f cl = at_replica cl host otherwise f (Dict.get cl host)

  unfoldable pub request :
      Fate
      → String
      → (Replica sb hb → Response V × Replica sb hb)
      → Cluster
      → Result (Response V) × Cluster
  request unreachable host handler cl = (raise http_error, cl)
  request answered host handler cl =
      on_replica host (raise http_error) (λ s. let (resp, s') = handler s in (ok resp, s')) cl
  request answer_lost host handler cl =
      on_replica host (raise http_error) (λ s. let (resp, s') = handler s in (raise http_error, s'))
        cl

  abbrev pub known_address : Option String → Result String
  known_address none = raise runtime_error
  known_address (some base_url) = ok base_url

  unfoldable pub peer_base_url : Node → String → Result String
  peer_base_url node node_id = known_address (Dict.get node.peers node_id)

  -- The address is looked up before the request is made. The URL of a peer names its host.
  abbrev pub with_url :
      Fate
      → String
      → (Replica sb hb → Response V × Replica sb hb)
      → Cluster
      → Result String
      → Result (Response V) × Cluster
  with_url fate node_id handler cl (raise e) = (raise e, cl)
  with_url fate node_id handler cl (ok base_url) = request fate node_id handler cl

  unfoldable pub call :
      Node
      → Fate
      → String
      → (Replica sb hb → Response V × Replica sb hb)
      → Cluster
      → Result (Response V) × Cluster
  call node fate node_id handler cl = with_url fate node_id handler cl (peer_base_url node node_id)

  abbrev pub read_status : Response V → Result (List (Version V))
  read_status resp =
      if resp.status == 200
      then ok (map from_dict resp.versions)
      else if resp.status == 404
      then ok []
      else raise runtime_error

  abbrev pub write_status : Response V → Result Bool
  write_status resp = if resp.status == 200 then ok true else raise runtime_error

  abbrev pub delete_status : Response V → Result Bool
  delete_status resp =
      if resp.status == 200
      then ok true
      else if resp.status == 404
      then ok false
      else raise runtime_error

  abbrev pub then_status {ℓ} :
      {A : Type ℓ} → (Response V → Result A) → Result (Response V) × Cluster → Result A × Cluster
  then_status f (resp, cl) = (resp >>= f, cl)

  -- `op` of `_get_op`, with the fate of the request if one is made.
  unfoldable pub get_op :
      Node → String → (String → Fate) → String → Cluster → Result (List (Version V)) × Cluster
  get_op node key net node_id cl =
      if node_id == node.node_id
      then on_replica node_id (raise http_error) (λ s. (get_local sb hb s key, s)) cl
      else then_status read_status (call node (net node_id) node_id (get_key_local key) cl)

  abbrev pub written : Replica sb hb → Result (Replica sb hb) → Result Bool × Replica sb hb
  written s (ok s') = (ok true, s')
  written s (raise e) = (raise e, s)

  unfoldable pub put_op :
      Node → String → Version V → (String → Fate) → String → Cluster → Result Bool × Cluster
  put_op node key version net node_id cl =
      if node_id == node.node_id
      then on_replica node_id (raise http_error) (λ s. written s (put_local sb hb s key version)) cl
      else then_status write_status
          (call node (net node_id) node_id (put_key_local key (to_dict version)) cl)

  unfoldable pub delete_op :
      Node → String → (String → Fate) → String → Cluster → Result Bool × Cluster
  delete_op node key net node_id cl =
      if node_id == node.node_id
      then on_replica node_id (raise http_error)
          (λ s. let (s', existed) = delete_local sb hb s key in (ok existed, s')) cl
      else then_status delete_status (call node (net node_id) node_id (delete_key_local key) cl)

  -- What `_quorum_op` leaves: the successes, with the nodes that they come from, the operations that
  -- are still running, and the cluster.
  pub record Fanout (A : Type 0) : Type 0 where
    pub successes : List (String × A)
    pub stragglers : List String
    pub cluster : Cluster

  -- The loop of `_quorum_op` over the futures in the order in which they complete.
  unfoldable pub gather :
      {A : Type 0}
      → ℕ
      → (String → Cluster → Result A × Cluster)
      → List String
      → List (String × A)
      → Cluster
      → Fanout A
  gather threshold op [] successes cl = record {
    successes = successes;
    stragglers = [];
    cluster = cl;
  }
  gather threshold op (node_id ∷ order) successes cl =
      let (result, cl') = op node_id cl in
      elim result [
        | raise e ↦ gather threshold op order successes cl'
        | ok a ↦
            let successes' = successes ++ (node_id, a) ∷ [] in
            let rest = gather threshold op order successes' cl' in
            if leb threshold (length successes')
            then record { successes = successes'; stragglers = order; cluster = cl' }
            else rest
      ]
