-- ===== src/Node/Coordinator.antt =====
-- src/dynamokv/node.py: `get`, `put` and `delete`, as the coordinator of a key runs them.
use secure_dynamo_kv_store.Prelude.{
  ℕ, ◌+◌, min, String, string_eq, Bool, Option, none, some, List, [], length, ltb, any,
  if◌then◌else◌,
}
use secure_dynamo_kv_store.Prelude.Result.{
  Exn, Result, ok, raise, ◌>>=◌, http_error, http_exception,
}
use secure_dynamo_kv_store.Dict
use secure_dynamo_kv_store.VectorClock.{Version}
use secure_dynamo_kv_store.Ring.{get_preference_list}
use secure_dynamo_kv_store.Storage.{StorageBackend}
use secure_dynamo_kv_store.Gossip.{GossipState}
use secure_dynamo_kv_store.HintStore.{Blob}
use secure_dynamo_kv_store.Node.Replica.{Node, Stored, Replica}
use secure_dynamo_kv_store.Node.Network.{Fate, Cluster, delete_op, gather}
use secure_dynamo_kv_store.Node.Client.{
  Reading, Schedule, first_outside, guarded_put_op, hint_presumed_down, merged_read, next_version,
  partition, preference_list, reading,
}

module _ {V : Type 0} (hash : String → ℕ) (sb : StorageBackend (Stored V))
    (hb : StorageBackend (Blob V)) where
  -- A put that has returned or raised: its answer, the writes that are still running, the cluster.
  pub record PutRun : Type 0 where
    pub answer : Result (Version V)
    pub stragglers : List String
    pub cluster : Cluster sb hb

  abbrev pub failed : Exn → Cluster sb hb → PutRun
  failed e cl = record { answer = raise e; stragglers = []; cluster = cl }

  -- The fan-out of the write, after the hints for the nodes that are presumed down.
  abbrev pub write_live :
      Node
      → String
      → Version V
      → ℕ
      → List String
      → Option String
      → (String → Fate)
      → Schedule
      → Result (Unit {0}) × Cluster sb hb
      → PutRun
  write_live node key version threshold live holder hint_net sched (raise e, cl) = failed e cl
  write_live node key version threshold live holder hint_net sched (ok done, cl) =
      let f =
        gather sb hb threshold
          (guarded_put_op hash sb hb node key version holder hint_net sched.net) (sched.order live)
          [] cl in
      record {
        answer =
            if ltb (length f.successes) threshold then raise (http_exception 503) else ok version;
        stragglers = f.stragglers;
        cluster = f.cluster;
      }

  -- From the partition by liveness to the end of `put`.
  unfoldable pub write_phase :
      Node
      → String
      → Version V
      → List String
      → Option String
      → GossipState
      → ℕ
      → (String → Fate)
      → Schedule
      → Cluster sb hb
      → PutRun
  write_phase node key version prefs holder g now hint_net sched cl =
      let (live, down) = partition g now node.gossip_failure_timeout prefs in
      write_live node key version (min node.w (length prefs)) live holder hint_net sched
        (hint_presumed_down hash sb hb node hint_net holder down key version cl)

  -- Nobody coordinates on a node that does not run.
  abbrev pub running : Cluster sb hb → Option (Replica sb hb) → (GossipState → PutRun) → PutRun
  running cl none k = failed http_error cl
  running cl (some s) k = k s.gossip_state

  abbrev pub with_candidates :
      Node
      → String
      → Version V
      → List String
      → ℕ
      → (String → Fate)
      → Schedule
      → Cluster sb hb
      → Result (List String)
      → PutRun
  with_candidates node key version prefs now hint_net writes cl (raise e) = failed e cl
  with_candidates node key version prefs now hint_net writes cl (ok candidates) =
      running cl (Dict.get cl node.node_id) (λ g.
        write_phase node key version prefs (first_outside prefs candidates) g now hint_net writes
          cl)

  abbrev pub after_read :
      Node
      → String
      → V
      → List String
      → ℕ
      → (String → Fate)
      → Schedule
      → Result (List (Version V)) × Cluster sb hb
      → PutRun
  after_read node key value prefs now hint_net writes (raise e, cl) = failed e cl
  after_read node key value prefs now hint_net writes (ok merged, cl) =
      with_candidates node key (next_version node.node_id value merged) prefs now hint_net writes cl
        (get_preference_list hash node.ring key (length prefs + 1))

  abbrev pub put_to :
      Node
      → String
      → V
      → ℕ
      → Schedule
      → (String → Fate)
      → Schedule
      → Cluster sb hb
      → Result (List String)
      → PutRun
  put_to node key value now reads hint_net writes cl (raise e) = failed e cl
  put_to node key value now reads hint_net writes cl (ok prefs) =
      after_read node key value prefs now hint_net writes
        (merged_read hash sb hb node key prefs (min node.r (length prefs)) reads cl)

  unfoldable pub put :
      Node → String → V → ℕ → Schedule → (String → Fate) → Schedule → Cluster sb hb → PutRun
  put node key value now reads hint_net writes cl =
      put_to node key value now reads hint_net writes cl (preference_list hash sb hb node key)

  abbrev pub get_from :
      Node
      → String
      → Schedule
      → Cluster sb hb
      → Result (List String)
      → Result (Reading V) × Cluster sb hb
  get_from node key reads cl (raise e) = (raise e, cl)
  get_from node key reads cl (ok prefs) =
      let (merged, cl') =
        merged_read hash sb hb node key prefs (min node.r (length prefs)) reads cl in
      (merged >>= reading, cl')

  unfoldable pub get : Node → String → Schedule → Cluster sb hb → Result (Reading V) × Cluster sb hb
  get node key reads cl = get_from node key reads cl (preference_list hash sb hb node key)

  abbrev pub delete_from :
      Node → String → Schedule → Cluster sb hb → Result (List String) → Result Bool × Cluster sb hb
  delete_from node key sched cl (raise e) = (raise e, cl)
  delete_from node key sched cl (ok prefs) =
      let threshold = min node.w (length prefs) in
      let f =
        gather sb hb threshold (delete_op sb hb node key sched.net) (sched.order prefs) [] cl in
      (
        if ltb (length f.successes) threshold
            then raise (http_exception 503)
            else ok (any (λ (node_id, existed). existed) f.successes),
        f.cluster,
      )

  -- A delete keeps no tombstone: the key is gone from the replicas that answered.
  unfoldable pub delete : Node → String → Schedule → Cluster sb hb → Result Bool × Cluster sb hb
  delete node key sched cl = delete_from node key sched cl (preference_list hash sb hb node key)
