-- ===== src/Node/Durable.antt =====
-- src/dynamokv/node.py: `put`, the clock of the new version and the replicas that store it.
use secure_dynamo_kv_store.Prelude.{
  ℕ, ◌≤◌, min, ◌≡◌, subst, inl, inr, String, string_eq, Bool, Option, List, [], ◌∷◌, map, arith,
  length, ltb, Bool-cases, In, here, there, In-cons, In-map, map-In, Option-cases, Unique, Below,
}
use secure_dynamo_kv_store.Prelude.Result.{Result, ok, raise, http_exception, http_error}
use secure_dynamo_kv_store.Dict
use secure_dynamo_kv_store.VectorClock.{Version}
use secure_dynamo_kv_store.VectorClock.Order.{◌≤c◌}
use secure_dynamo_kv_store.VectorClock.Merge.{next-gt}
use secure_dynamo_kv_store.Gossip.{GossipState, believed_down}
use secure_dynamo_kv_store.HintStore.{Blob}
use secure_dynamo_kv_store.Storage.{StorageBackend, StorageLaws}
use secure_dynamo_kv_store.Node.Replica.{Node, Stored}
use secure_dynamo_kv_store.Node.Network.{Fate, Cluster, gather}
use secure_dynamo_kv_store.Node.Client.{
  Schedule, first_outside, partition, next_version, preference_list, merged_read,
  hint_presumed_down, guarded_put_op,
}
use secure_dynamo_kv_store.Node.Coordinator.{
  write_live, write_phase, with_candidates, after_read, put_to, put,
}
use secure_dynamo_kv_store.Node.Gather.{gather-Gathered, names, length-names, ltb-false}
use secure_dynamo_kv_store.Node.Writes.{guarded_put_op-IsOp}
use secure_dynamo_kv_store.Node.Growth.{AllSound, Holds, hint_presumed_down-Grows}
use secure_dynamo_kv_store.Node.Reads.{Lawful, Same-AllSound, merged_read-Same}

-- The clock of a new version is above the clock of each version that the write has read, and not
-- at most it: the coordinator's write supersedes them all.
pub next_version-gt :
    {V : Type 0} (node_id : String) (value : V) (merged : List (Version V)) (v : Version V)
    → In v merged
    → (v.clock ≤c (next_version node_id value merged).clock)
      × (¬ ((next_version node_id value merged).clock ≤c v.clock))
unfolding next_version
next_version-gt node_id value merged v m =
    next-gt (map (λ w. w.clock) merged) v.clock node_id (In-map (λ w. w.clock) m)

-- Those that are not presumed down are some of the list.
partition-live :
    (g : GossipState) (now timeout : ℕ) (prefs : List String)
    → Unique prefs
    → Unique (partition g now timeout prefs).0 × Below (partition g now timeout prefs).0 prefs
unfolding partition
partition-live g now timeout [] u = (tt, λ a m. m)
partition-live g now timeout (id ∷ prefs) u =
    let (v, b) = partition-live g now timeout prefs u.1 in
    elim (Bool-cases (believed_down g id now timeout)) [
      | inl s ↦ rw s (v, λ a m. there (b a m))
      | inr s ↦ rw s (
        (λ m. u.0 (b id m), v),
        λ a m. elim (In-cons m) [ inl e ↦ here e | inr n ↦ there (b a n) ],
      )
    ]

module _ {V : Type 0} (hash : String → ℕ) (sb : StorageBackend (Stored V))
    (hb : StorageBackend (Blob V)) (laws : StorageLaws sb) where
  -- At least `threshold` different nodes of the list store the version, or one that has seen it.
  pub record Acked (key : String) (prefs : List String) (threshold : ℕ) (v : Version V)
      (cl : Cluster sb hb) : Type 0 where
    pub acks : List String
    pub unique : Unique acks
    pub known : Below acks prefs
    pub enough : threshold ≤ length acks
    pub each : (id : String) → In id acks → Holds hash sb hb laws key v id cl
    pub all_sound : AllSound hash sb hb laws cl

  write_live-Acked :
      (node : Node) (key : String) (version v : Version V) (threshold : ℕ)
      (live prefs : List String) (holder : Option String) (hint_net : String → Fate)
      (sched : Schedule) (r : Result (Unit {0}) × Cluster sb hb)
      → AllSound hash sb hb laws r.1
      → Unique live
      → Below live prefs
      → Lawful sched
      → (write_live hash sb hb node key version threshold live holder hint_net sched r).answer
        ≡ ok v
      → Acked key prefs threshold v
          (write_live hash sb hb node key version threshold live holder hint_net sched r).cluster
  write_live-Acked node key version v threshold live prefs holder hint_net sched (raise x, cl) h u b
        law e =
      cc
  write_live-Acked node key version v threshold live prefs holder hint_net sched (ok done, cl) h u b
        law e =
      let op = guarded_put_op hash sb hb node key version holder hint_net sched.net in
      let f = gather sb hb threshold op (sched.order live) [] cl in
      let g =
        gather-Gathered sb hb op (AllSound hash sb hb laws)
          (λ id a c. Holds hash sb hb laws key version id c)
          (guarded_put_op-IsOp hash sb hb laws node key version holder hint_net sched.net) threshold
          (sched.order live) cl (law.once live u) h in
      elim (Bool-cases (ltb (length f.successes) threshold)) [
        | inl t ↦ let no : raise (http_exception 503) ≡ ok v = rw t at e in cc
        | inr t ↦
            let m : ok version ≡ ok v = rw t at e in
            let same : version ≡ v = cc in
            record {
              acks = names f.successes;
              unique = g.unique;
              known = λ a i. b a (law.asked live a (g.known a i));
              enough =
                  omega
                    (arith, length-names f.successes, ltb-false (length f.successes) threshold t);
              each = λ id i.
                  let ((j, c), k, n) = map-In (λ (x : String × Bool). x.0) f.successes i in
                  rw n (subst (λ w. Holds hash sb hb laws key w j f.cluster) same (g.each j c k));
              all_sound = g.holds;
            }
      ]

  write_phase-Acked :
      (node : Node) (key : String) (version v : Version V) (prefs : List String)
      (holder : Option String) (g : GossipState) (now : ℕ) (hint_net : String → Fate)
      (sched : Schedule) (cl : Cluster sb hb)
      → AllSound hash sb hb laws cl
      → Unique prefs
      → Lawful sched
      → (write_phase hash sb hb node key version prefs holder g now hint_net sched cl).answer ≡ ok v
      → Acked key prefs
          (min node.w (length prefs))
          v
          (write_phase hash sb hb node key version prefs holder g now hint_net sched cl).cluster
  unfolding write_phase
  write_phase-Acked node key version v prefs holder g now hint_net sched cl h u law e =
      let parts = partition g now node.gossip_failure_timeout prefs in
      let (lu, lb) = partition-live g now node.gossip_failure_timeout prefs u in
      let grown =
        hint_presumed_down-Grows hash sb hb laws node hint_net holder parts.1 key version cl h in
      write_live-Acked node key version v (min node.w (length prefs)) parts.0 prefs holder hint_net
        sched (hint_presumed_down hash sb hb node hint_net holder parts.1 key version cl)
        grown.sound lu lb law e

  with_candidates-Acked :
      (node : Node) (key : String) (version v : Version V) (prefs : List String) (now : ℕ)
      (hint_net : String → Fate) (sched : Schedule) (cl : Cluster sb hb) (c : Result (List String))
      → AllSound hash sb hb laws cl
      → Unique prefs
      → Lawful sched
      → (with_candidates hash sb hb node key version prefs now hint_net sched cl c).answer ≡ ok v
      → Acked key prefs
          (min node.w (length prefs))
          v
          (with_candidates hash sb hb node key version prefs now hint_net sched cl c).cluster
  with_candidates-Acked node key version v prefs now hint_net sched cl (raise x) h u law e = cc
  with_candidates-Acked node key version v prefs now hint_net sched cl (ok candidates) h u law e =
      elim (Option-cases (Dict.get cl node.node_id)) [
        | inl n ↦ let no : raise http_error ≡ ok v = rw n at e in cc
        | inr (s, q) ↦ rw q (
            write_phase-Acked node key version v prefs (first_outside prefs candidates)
              s.gossip_state now hint_net sched cl h u law (rw q at e))
      ]

  after_read-Acked :
      (node : Node) (key : String) (value : V) (v : Version V) (prefs : List String) (now : ℕ)
      (hint_net : String → Fate) (sched : Schedule) (r : Result (List (Version V)) × Cluster sb hb)
      → AllSound hash sb hb laws r.1
      → Unique prefs
      → Lawful sched
      → (after_read hash sb hb node key value prefs now hint_net sched r).answer ≡ ok v
      → Acked key prefs
          (min node.w (length prefs))
          v
          (after_read hash sb hb node key value prefs now hint_net sched r).cluster
  after_read-Acked node key value v prefs now hint_net sched (raise x, cl) h u law e = cc
  after_read-Acked node key value v prefs now hint_net sched (ok merged, cl) h u law e =
      with_candidates-Acked node key (next_version node.node_id value merged) v prefs now hint_net
        sched cl _ h u law e

  pub put-Acked :
      (node : Node) (key : String) (value : V) (now : ℕ) (reads : Schedule)
      (hint_net : String → Fate) (writes : Schedule) (cl : Cluster sb hb) (prefs : List String)
      (v : Version V)
      → AllSound hash sb hb laws cl
      → preference_list hash sb hb node key ≡ ok prefs
      → Unique prefs
      → Lawful reads
      → Lawful writes
      → (put hash sb hb node key value now reads hint_net writes cl).answer ≡ ok v
      → Acked key prefs
          (min node.w (length prefs))
          v
          (put hash sb hb node key value now reads hint_net writes cl).cluster
  unfolding put
  put-Acked node key value now reads hint_net writes cl prefs v h p u lr lw e =
      let q : (put_to hash sb hb node key value now reads hint_net writes cl (ok prefs)).answer
          ≡ ok v =
        rw p at e in
      let threshold = min node.r (length prefs) in
      let after = merged_read hash sb hb node key prefs threshold reads cl in
      rw p (
        after_read-Acked node key value v prefs now hint_net writes after
          (Same-AllSound hash sb hb laws cl after.1
            (merged_read-Same hash sb hb laws node key prefs threshold reads cl h u lr) h)
          u lw q)
