-- ===== src/Node/Succession.antt =====
-- src/dynamokv/node.py: `put` after `put`, with steps of any nodes in between.
use secure_dynamo_kv_store.Prelude.{
  ℕ, ◌+◌, ◌≤◌, ◌<◌, min, ◌≡◌, refl, subst, inl, inr, String, string_eq, Option, List, [], length,
  ltb, arith, Unique, Bool-cases, Option-cases,
}
use secure_dynamo_kv_store.Prelude.Result.{Result, ok, raise, http_exception, http_error}
use secure_dynamo_kv_store.Dict
use secure_dynamo_kv_store.VectorClock.{Version}
use secure_dynamo_kv_store.VectorClock.Order.{◌≤c◌, ≤c_trans}
use secure_dynamo_kv_store.HintStore.{Blob}
use secure_dynamo_kv_store.Storage.{StorageBackend, StorageLaws}
use secure_dynamo_kv_store.Node.Replica.{Node, Stored}
use secure_dynamo_kv_store.Node.Network.{Fate, Cluster, gather}
use secure_dynamo_kv_store.Node.Client.{
  Schedule, next_version, preference_list, merged_read, guarded_put_op,
}
use secure_dynamo_kv_store.Node.Coordinator.{
  write_live, write_phase, with_candidates, after_read, put_to, put,
}
use secure_dynamo_kv_store.Node.Quorum.{overlap, thresholds}
use secure_dynamo_kv_store.Node.Growth.{AllSound}
use secure_dynamo_kv_store.Node.Reads.{Lawful, merged_read-ReadBy}
use secure_dynamo_kv_store.Node.Durable.{Acked, put-Acked, next_version-gt}
use secure_dynamo_kv_store.Node.Freshness.{Between, Between-Grows, Acked-Grows}

module _ {V : Type 0} (hash : String → ℕ) (sb : StorageBackend (Stored V))
    (hb : StorageBackend (Blob V)) where
  write_live-answer :
      (node : Node) (key : String) (version v : Version V) (threshold : ℕ) (live : List String)
      (holder : Option String) (hint_net : String → Fate) (sched : Schedule)
      (r : Result (Unit {0}) × Cluster sb hb)
      → (write_live hash sb hb node key version threshold live holder hint_net sched r).answer
        ≡ ok v
      → version ≡ v
  write_live-answer node key version v threshold live holder hint_net sched (raise x, cl) e = cc
  write_live-answer node key version v threshold live holder hint_net sched (ok done, cl) e =
      let op = guarded_put_op hash sb hb node key version holder hint_net sched.net in
      let f = gather sb hb threshold op (sched.order live) [] cl in
      elim (Bool-cases (ltb (length f.successes) threshold)) [
        | inl t ↦ let no : raise (http_exception 503) ≡ ok v = rw t at e in cc
        | inr t ↦ let m : ok version ≡ ok v = rw t at e in cc
      ]

  with_candidates-answer :
      (node : Node) (key : String) (version v : Version V) (prefs : List String) (now : ℕ)
      (hint_net : String → Fate) (sched : Schedule) (cl : Cluster sb hb) (c : Result (List String))
      → (with_candidates hash sb hb node key version prefs now hint_net sched cl c).answer ≡ ok v
      → version ≡ v
  unfolding write_phase
  with_candidates-answer node key version v prefs now hint_net sched cl (raise x) e = cc
  with_candidates-answer node key version v prefs now hint_net sched cl (ok candidates) e =
      elim (Option-cases (Dict.get cl node.node_id)) [
        | inl n ↦ let no : raise http_error ≡ ok v = rw n at e in cc
        | inr (s, q) ↦ write_live-answer node key version v _ _ _ hint_net sched _ (rw q at e)
      ]

  after_read-answer :
      (node : Node) (key : String) (value : V) (v : Version V) (prefs : List String) (now : ℕ)
      (hint_net : String → Fate) (sched : Schedule) (r : Result (List (Version V)) × Cluster sb hb)
      → (after_read hash sb hb node key value prefs now hint_net sched r).answer ≡ ok v
      → (merged : List (Version V)) × (r.0 ≡ ok merged)
        × (next_version node.node_id value merged ≡ v)
  after_read-answer node key value v prefs now hint_net sched (raise x, cl) e = cc
  after_read-answer node key value v prefs now hint_net sched (ok merged, cl) e =
      (merged, refl, with_candidates-answer node key _ v prefs now hint_net sched cl _ e)

  -- The version that a put returns is the next one over all that it has read.
  pub put-next :
      (node : Node) (key : String) (value : V) (now : ℕ) (reads : Schedule)
      (hint_net : String → Fate) (writes : Schedule) (cl : Cluster sb hb) (prefs : List String)
      (v : Version V)
      → preference_list hash sb hb node key ≡ ok prefs
      → (put hash sb hb node key value now reads hint_net writes cl).answer ≡ ok v
      → (merged : List (Version V)) × ((merged_read hash sb hb node key prefs
            (min node.r (length prefs))
            reads
            cl).0
          ≡ ok merged)
        × (next_version node.node_id value merged ≡ v)
  unfolding put
  put-next node key value now reads hint_net writes cl prefs v p e =
      let q : (put_to hash sb hb node key value now reads hint_net writes cl (ok prefs)).answer
          ≡ ok v =
        rw p at e in
      after_read-answer node key value v prefs now hint_net writes _ q

  module _ (laws : StorageLaws sb) where
    -- A write goes above a version that more than the others of its read quorum store.
    pub next_put-gt :
        (node : Node) (key : String) (value : V) (now : ℕ) (reads : Schedule)
        (hint_net : String → Fate) (writes : Schedule) (cl : Cluster sb hb) (prefs : List String)
        (write_threshold : ℕ) (v u : Version V)
        → Unique prefs
        → preference_list hash sb hb node key ≡ ok prefs
        → Lawful reads
        → Acked hash sb hb laws key prefs write_threshold v cl
        → length prefs < min node.r (length prefs) + write_threshold
        → (put hash sb hb node key value now reads hint_net writes cl).answer ≡ ok u
        → (v.clock ≤c u.clock) × (¬ (u.clock ≤c v.clock))
    next_put-gt node key value now reads hint_net writes cl prefs write_threshold v u uq p lr acked
          lt done =
        let (merged, q, next) =
          put-next node key value now reads hint_net writes cl prefs u p done in
        let by =
          merged_read-ReadBy hash sb hb laws node key prefs (min node.r (length prefs)) reads cl
            merged acked.all_sound uq lr q in
        let (a, i, j) =
          overlap by.readers acked.acks prefs by.unique acked.unique by.known acked.known
            (omega (arith, lt, by.enough, acked.enough)) in
        let (t, m, above) = by.seen a v i (acked.each a j) in
        let (up, strict) = next_version-gt node.node_id value merged t m in
        subst (λ (x : Version V). (v.clock ≤c x.clock) × (¬ (x.clock ≤c v.clock))) next
          (≤c_trans _ _ _ above up, λ below. strict (≤c_trans _ _ _ below above))

    -- Let 0 < R, 0 < W and R + W > N, and let a `put` on one node return the version `v`. If a
    -- `put` of the same key on the same or another node with the same preference list begins
    -- after that and returns `u`, then the clock of `u` is above that of `v`, and not at most it.
    -- In between, what `read_your_writes` allows may happen. Every replica's storage starts in a
    -- valid state, the nodes of the list are different, at least one and at most N, and each
    -- operation of a fan-out completes at most once.
    pub later_put-gt :
        (first second : Node) (key : String) (value value' : V) (now now' : ℕ) (reads : Schedule)
        (hint_net : String → Fate) (writes reads' : Schedule) (hint_net' : String → Fate)
        (writes' : Schedule) (cl cl' : Cluster sb hb) (prefs : List String) (v u : Version V)
        → AllSound hash sb hb laws cl
        → Unique prefs
        → 0 < length prefs
        → length prefs ≤ first.n
        → preference_list hash sb hb first key ≡ ok prefs
        → preference_list hash sb hb second key ≡ ok prefs
        → 0 < second.r
        → 0 < first.w
        → first.n < second.r + first.w
        → Lawful reads
        → Lawful writes
        → Lawful reads'
        → (put hash sb hb first key value now reads hint_net writes cl).answer ≡ ok v
        → Between hash sb hb laws
            (put hash sb hb first key value now reads hint_net writes cl).cluster
            cl'
        → (put hash sb hb second key value' now' reads' hint_net' writes' cl').answer ≡ ok u
        → (v.clock ≤c u.clock) × (¬ (u.clock ≤c v.clock))
    later_put-gt first second key value value' now now' reads hint_net writes reads' hint_net'
          writes' cl cl' prefs v u h uq p le pw ps hr hw quorum lr lw lr' done between done' =
        let acked =
          put-Acked hash sb hb laws first key value now reads hint_net writes cl prefs v h pw uq lr
            lw done in
        let g = Between-Grows hash sb hb laws _ cl' acked.all_sound between in
        next_put-gt second key value' now' reads' hint_net' writes' cl' prefs
          (min first.w (length prefs)) v u uq ps lr'
          (Acked-Grows hash sb hb laws key prefs _ v _ cl' g acked)
          (thresholds first.n second.r first.w (length prefs) hr hw p quorum le) done'
