-- ===== src/Node/Client.antt =====
-- src/dynamokv/node.py: the steps of a read and a write, up to the operation that `put` fans out.
use secure_dynamo_kv_store.Prelude.{
  ℕ, String, string_eq, Bool, Option, none, some, List, [], ◌∷◌, map, length, ltb, ◌==◌,
  if◌then◌else◌,
}
use secure_dynamo_kv_store.Prelude.Result.{Result, ok, raise, ◌>>=◌, http_error, http_exception}
use secure_dynamo_kv_store.VectorClock.{Version, to_dict, merge, incremented, reconcile_all}
use secure_dynamo_kv_store.Ring.{get_preference_list, member}
use secure_dynamo_kv_store.Storage.{StorageBackend}
use secure_dynamo_kv_store.Gossip.{GossipState, believed_down}
use secure_dynamo_kv_store.HintStore.{Blob}
use secure_dynamo_kv_store.Node.Replica.{Node, Stored, Replica, add_hint}
use secure_dynamo_kv_store.Node.Network.{
  Fate, Cluster, on_replica, call, put_hint, get_op, put_op, gather,
}

-- What the surroundings decide about one fan-out: the order in which the submitted operations
-- complete, and the fate of the request to each node.
pub record Schedule : Type 0 where
  pub order : List String → List String
  pub net : String → Fate

-- A version, or the siblings of a conflict (the 409).
pub data Reading (V : Type 0) : Type 0 where
  one : Version V → Reading V
  conflict : List (Version V) → Reading V

-- next((nid for nid in hint_candidates if nid not in prefs), None)
unfoldable pub first_outside : List String → List String → Option String
first_outside prefs [] = none
first_outside prefs (nid ∷ candidates) =
    if member prefs nid then first_outside prefs candidates else some nid

-- The loop of `_partition_by_liveness`: the live ones and the presumed down ones.
unfoldable pub partition : GossipState → ℕ → ℕ → List String → List String × List String
partition g now timeout [] = ([], [])
partition g now timeout (node_id ∷ prefs) =
    let (live, down) = partition g now timeout prefs in
    if believed_down g node_id now timeout then (live, node_id ∷ down) else (node_id ∷ live, down)

module _ {V : Type 0} where
  -- The clock and version of a new write.
  unfoldable pub next_version : String → V → List (Version V) → Version V
  next_version node_id value merged = record {
    value = value;
    clock = incremented (merge (map (λ v. v.clock) merged)) node_id;
  }

  -- The two loops of `_merged_read`.
  unfoldable pub merge_results :
      List (Version V) → List (String × List (Version V)) → List (Version V)
  merge_results merged [] = merged
  merge_results merged ((node_id, versions) ∷ results) =
      merge_results (reconcile_all merged versions) results

  abbrev pub reading : List (Version V) → Result (Reading V)
  reading [] = raise (http_exception 404)
  reading (v ∷ []) = ok (one v)
  reading (v ∷ w ∷ vs) = ok (conflict (v ∷ w ∷ vs))

module _ {V : Type 0} (hash : String → ℕ) (sb : StorageBackend (Stored V))
    (hb : StorageBackend (Blob V)) where
  unfoldable pub preference_list : Node → String → Result (List String)
  preference_list node key = get_preference_list hash node.ring key node.n

  unfoldable pub merged_read :
      Node
      → String
      → List String
      → ℕ
      → Schedule
      → Cluster sb hb
      → Result (List (Version V)) × Cluster sb hb
  merged_read node key prefs threshold sched cl =
      let f = gather sb hb threshold (get_op sb hb node key sched.net) (sched.order prefs) [] cl in
      (
        if ltb (length f.successes) threshold
            then raise (http_exception 503)
            else ok (merge_results [] f.successes),
        f.cluster,
      )

  abbrev pub added : Replica sb hb → Result (Replica sb hb) → Result (Unit {0}) × Replica sb hb
  added s (ok s') = (ok tt, s')
  added s (raise e) = (raise e, s)

  -- Best effort on the wire: whatever becomes of the request, the caller goes on.
  unfoldable pub deliver_hint :
      Node
      → Fate
      → String
      → String
      → String
      → Version V
      → Cluster sb hb
      → Result (Unit {0}) × Cluster sb hb
  deliver_hint node fate hint_holder target key version cl =
      if hint_holder == node.node_id
      then on_replica sb hb hint_holder (raise http_error)
          (λ s. added s (add_hint sb hb s target key version)) cl
      else (
        ok tt,
        (call sb hb node fate hint_holder (put_hint sb hb target key (to_dict version)) cl).1,
      )

  -- Hints for the nodes that are presumed down, before anything is written; one that raises ends
  -- the loop.
  unfoldable pub hint_all :
      Node
      → (String → Fate)
      → String
      → List String
      → String
      → Version V
      → Cluster sb hb
      → Result (Unit {0}) × Cluster sb hb
  hint_all node net holder [] key version cl = (ok tt, cl)
  hint_all node net holder (down_id ∷ down) key version cl =
      let (r, cl') = deliver_hint node (net down_id) holder down_id key version cl in
      elim r [ ok done ↦ hint_all node net holder down key version cl' | raise e ↦ (raise e, cl') ]

  abbrev pub hint_presumed_down :
      Node
      → (String → Fate)
      → Option String
      → List String
      → String
      → Version V
      → Cluster sb hb
      → Result (Unit {0}) × Cluster sb hb
  hint_presumed_down node net none down key version cl = (ok tt, cl)
  hint_presumed_down node net (some holder) down key version cl =
      hint_all node net holder down key version cl

  -- A write that failed leaves a hint, unless the node is the holder itself.
  abbrev pub hint_failed :
      Node
      → Fate
      → Option String
      → String
      → String
      → Version V
      → Cluster sb hb
      → Result (Unit {0}) × Cluster sb hb
  hint_failed node fate none node_id key version cl = (ok tt, cl)
  hint_failed node fate (some holder) node_id key version cl =
      if node_id == holder
      then (ok tt, cl)
      else deliver_hint node fate holder node_id key version cl

  abbrev pub guard_put :
      Node
      → String
      → Version V
      → Option String
      → Fate
      → String
      → Result Bool × Cluster sb hb
      → Result Bool × Cluster sb hb
  guard_put node key version holder fate node_id (ok b, cl) = (ok b, cl)
  guard_put node key version holder fate node_id (raise e, cl) =
      let (h, cl') = hint_failed node fate holder node_id key version cl in
      (h >>= (λ _. raise e), cl')

  unfoldable pub guarded_put_op :
      Node
      → String
      → Version V
      → Option String
      → (String → Fate)
      → (String → Fate)
      → String
      → Cluster sb hb
      → Result Bool × Cluster sb hb
  guarded_put_op node key version holder hint_net net node_id cl =
      guard_put node key version holder (hint_net node_id) node_id
        (put_op sb hb node key version net node_id cl)
