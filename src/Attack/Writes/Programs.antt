-- ===== src/Attack/Writes/Programs.antt =====
-- scripts/adversarial_scenarios.py: what the programs of categories 4 to 6 do to a cluster. Their
-- requests to public ports are handled by the public routes, those to internal ports by the
-- internal ones, for a client that holds a node's certificate.
use secure_dynamo_kv_store.Prelude.{ℕ, String, string_eq, Option, List, [], ◌∷◌}
use secure_dynamo_kv_store.Prelude.Int.{pos}
use secure_dynamo_kv_store.Prelude.Result.{Result as Fallible, ok}
use secure_dynamo_kv_store.Dict.{Dict}
use secure_dynamo_kv_store.VectorClock.{VersionDict}
use secure_dynamo_kv_store.Storage.{StorageBackend}
use secure_dynamo_kv_store.HintStore.{Blob}
use secure_dynamo_kv_store.Auth.{TokenEntry, AuthRequest}
use secure_dynamo_kv_store.Node.Replica.{Node, Stored}
use secure_dynamo_kv_store.Node.Network.{
  Fate, Cluster, Response, call, put_key_local, delete_key_local,
}
use secure_dynamo_kv_store.Node.Client.{Schedule}
use secure_dynamo_kv_store.Api.{KeyValueResponse, put_key, get_key}
use secure_dynamo_kv_store.Attack.Shell.{Act, ◌>>=◌, pure, and_then}

-- What the surroundings decide about one request for a write.
pub record Writing : Type 0 where
  pub now : ℕ
  pub reads : Schedule
  pub hint_net : String → Fate
  pub writes : Schedule

-- The value of a response and its clock.
module _ {V : Type 0} (hash : String → ℕ) (sb : StorageBackend (Stored V))
    (hb : StorageBackend (Blob V)) (tokens : Option (Dict String TokenEntry))
    (put_request get_request : AuthRequest) where
  abbrev pub public_put : Node → String → V → Writing → Act (Cluster sb hb) (KeyValueResponse V)
  public_put node key value on cl =
      put_key hash sb hb tokens put_request node key value on.now on.reads on.hint_net on.writes cl

  abbrev pub public_get : Node → String → Schedule → Act (Cluster sb hb) (KeyValueResponse V)
  public_get node key reads cl = get_key hash sb hb tokens get_request node key reads cl

  -- A response whose status and body are not looked at.
  abbrev pub sent : {A : Type 0} → Fallible A × Cluster sb hb → Fallible (Unit {0}) × Cluster sb hb
  sent (r, cl) = (ok tt, cl)

  abbrev pub unread : {A : Type 0} → Act (Cluster sb hb) A → Act (Cluster sb hb) (Unit {0})
  unread m cl = sent (m cl)

  -- PUT on a node's internal port, with the certificate of `intruder`.
  abbrev pub internal_put :
      Node → Fate → String → String → VersionDict V → Act (Cluster sb hb) (Response V)
  internal_put intruder fate host key body cl =
      call sb hb intruder fate host (put_key_local sb hb key body) cl

  -- The program of `scenario_4_replay_defense`: the first version is put again after the second
  -- one. It prints the value of the answer, and a refused request ends it, since the answer has
  -- then no clock or no value.
  unfoldable pub replay_program :
      Node
      → Node
      → String
      → V
      → V
      → Writing
      → Writing
      → Fate
      → Schedule
      → Act (Cluster sb hb) (KeyValueResponse V)
  replay_program node intruder key v1 v2 first second fate last = do
    r1 ← public_put node key v1 first
    r2 ← unread (public_put node key v2 second)
    replayed ← internal_put intruder fate node.node_id key (record { value = v1; clock = r1.clock })
    public_get node key last

  -- The loop over the nodes in `scenario_5_clock_forgery`.
  unfoldable pub poison_all :
      Node → (String → Fate) → List String → String → VersionDict V → Act (Cluster sb hb) (Unit {0})
  poison_all intruder net [] key body cl = (ok tt, cl)
  poison_all intruder net (host ∷ hosts) key body cl =
      and_then (internal_put intruder (net host) host key body cl)
        (λ resp. poison_all intruder net hosts key body)

  -- The program of `scenario_5_clock_forgery`: what the two reads answer.
  unfoldable pub forgery_program :
      Node
      → Node
      → String
      → V
      → V
      → V
      → Writing
      → (String → Fate)
      → Schedule
      → Writing
      → Schedule
      → Act (Cluster sb hb) (KeyValueResponse V × KeyValueResponse V)
  forgery_program node intruder key legit poisoned recovered first net middle second last = do
    r1 ← unread (public_put node key legit first)
    sent ←
        poison_all intruder net ("node-1" ∷ "node-2" ∷ "node-3" ∷ []) key
          (record { value = poisoned; clock = ("node-1", pos 999999) ∷ [] })
    hijacked ← public_get node key middle
    r2 ← unread (public_put node key recovered second)
    healed ← public_get node key last
    pure (hijacked, healed)

  -- DELETE on a node's internal port.
  abbrev pub internal_delete : Node → Fate → String → String → Act (Cluster sb hb) (Response V)
  internal_delete intruder fate host key cl =
      call sb hb intruder fate host (delete_key_local sb hb key) cl

  -- The loop over the nodes in `scenario_6_unauthorized_delete`.
  unfoldable pub delete_all :
      Node → (String → Fate) → List String → String → Act (Cluster sb hb) (Unit {0})
  delete_all intruder net [] key cl = (ok tt, cl)
  delete_all intruder net (host ∷ hosts) key cl =
      and_then (internal_delete intruder (net host) host key cl)
        (λ resp. delete_all intruder net hosts key)

  -- A response of which the status is looked at.
  abbrev pub response :
      {A : Type 0} → Fallible A × Cluster sb hb → Fallible (Fallible A) × Cluster sb hb
  response (r, cl) = (ok r, cl)

  -- The program of `scenario_6_unauthorized_delete`: what the read at its end answers.
  unfoldable pub delete_program :
      Node
      → Node
      → String
      → V
      → Writing
      → (String → Fate)
      → Schedule
      → Act (Cluster sb hb) (Fallible (KeyValueResponse V))
  delete_program node intruder key value first net last = do
    r1 ← unread (public_put node key value first)
    deleted ← delete_all intruder net ("node-1" ∷ "node-2" ∷ "node-3" ∷ []) key
    λ cl. response (public_get node key last cl)
