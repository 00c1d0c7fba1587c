-- ===== src/Node/Freshness.antt =====
-- src/dynamokv/node.py: `get` after `put`, with steps of any nodes in between.
use secure_dynamo_kv_store.Prelude.{
  ℕ, ◌+◌, ◌≤◌, ◌<◌, min, ◌≡◌, inl, inr, String, string_eq, Option, List, [], ◌∷◌, arith, length,
  In-cons, Unique,
}
use secure_dynamo_kv_store.Prelude.Int.{ℤ}
use secure_dynamo_kv_store.Prelude.Result.{ok, >>=-eq-ok}
use secure_dynamo_kv_store.Dict.{Dict}
use secure_dynamo_kv_store.VectorClock.{Version, VersionDict}
use secure_dynamo_kv_store.VectorClock.Order.{◌≤c◌}
use secure_dynamo_kv_store.VectorClock.Antichain.{Covered}
use secure_dynamo_kv_store.HintStore.{Blob}
use secure_dynamo_kv_store.Storage.{StorageBackend, StorageLaws}
use secure_dynamo_kv_store.Node.Replica.{Node, Stored, handle_gossip}
use secure_dynamo_kv_store.Node.Network.{Fate, Cluster, on_replica, call, put_key_local, get_op}
use secure_dynamo_kv_store.Node.Client.{
  Schedule, Reading, one, conflict, reading, preference_list, merged_read, deliver_hint,
  guarded_put_op,
}
use secure_dynamo_kv_store.Node.Coordinator.{put, get, get_from}
use secure_dynamo_kv_store.Node.Local.{stored}
use secure_dynamo_kv_store.Node.Quorum.{overlap, thresholds}
use secure_dynamo_kv_store.Node.Growth.{
  AllSound, Grows, Grows-refl, Grows-trans, call-Grows, put_key_local-Retains, deliver_hint-Grows,
  on_replica-Grows, guarded_put_op-Grows,
}
use secure_dynamo_kv_store.Node.Reads.{Lawful, Same, Same-AllSound, get_op-Same, merged_read-ReadBy}
use secure_dynamo_kv_store.Node.Background.{Times, gossip_round}
use secure_dynamo_kv_store.Node.Rounds.{gossip_round-Grows}
use secure_dynamo_kv_store.Node.Durable.{Acked, put-Acked}

module _ {V : Type 0} where
  -- The answer of a read has seen `v`: it is a version that has, or siblings of which one has.
  abbrev pub Seen : Version V → Reading V → Type 0
  Seen v (one u) = v.clock ≤c u.clock
  Seen v (conflict us) = Covered v us

  reading-Seen :
      (v : Version V) (merged : List (Version V)) (r : Reading V)
      → Covered v merged
      → reading merged ≡ ok r
      → Seen v r
  reading-Seen v [] r (u, m, le) e = elim m [ ]
  reading-Seen v (u ∷ []) r (t, m, le) e =
      let same : one u ≡ r = cc in
      elim (In-cons m) [ inl q ↦ rw (← same, ← q) le | inr z ↦ elim z [ ] ]
  reading-Seen v (u ∷ w ∷ us) r c e = let same : conflict (u ∷ w ∷ us) ≡ r = cc in rw (← same) c

module _ {V : Type 0} (hash : String → ℕ) (sb : StorageBackend (Stored V))
    (hb : StorageBackend (Blob V)) (laws : StorageLaws sb) where
  -- What happens between two calls, one operation of some node at a time: a read, a write of a
  -- fan-out with the hint that it leaves where it fails, a hint, the replay of a hint, and gossip; or a
  -- whole gossip round.
  -- A write that was still running when its `put` returned is one of these.
  pub data Between : Cluster sb hb → Cluster sb hb → Type 0 where
    still : (cl : Cluster sb hb) → Between cl cl
    read_by :
        (cl cl' : Cluster sb hb) (node : Node) (key : String) (net : String → Fate) (id : String)
        → Between (get_op sb hb node key net id cl).1 cl'
        → Between cl cl'
    write_by :
        (cl cl' : Cluster sb hb) (node : Node) (key : String) (version : Version V)
        (holder : Option String) (hint_net net : String → Fate) (id : String)
        → Between (guarded_put_op hash sb hb node key version holder hint_net net id cl).1 cl'
        → Between cl cl'
    hint_by :
        (cl cl' : Cluster sb hb) (node : Node) (fate : Fate) (holder target key : String)
        (version : Version V)
        → Between (deliver_hint hash sb hb node fate holder target key version cl).1 cl'
        → Between cl cl'
    replay_by :
        (cl cl' : Cluster sb hb) (node : Node) (fate : Fate) (id key : String)
        (body : VersionDict V)
        → Between (call sb hb node fate id (put_key_local sb hb key body) cl).1 cl'
        → Between cl cl'
    gossip_to :
        (cl cl' : Cluster sb hb) (id : String) (now : ℕ) (incoming : Dict String ℤ)
        → Between (on_replica sb hb id [] (λ s. handle_gossip sb hb s now incoming) cl).1 cl'
        → Between cl cl'
    round_by :
        (cl cl' : Cluster sb hb) (node : Node) (choice : List String → String) (fate : Fate)
        (net : String → String → Version V → Fate) (times : Times)
        → Between (gossip_round sb hb node choice fate net times cl).1 cl'
        → Between cl cl'

  pub Same-Grows :
      (cl cl' : Cluster sb hb)
      → Same hash sb hb laws cl cl'
      → AllSound hash sb hb laws cl
      → Grows hash sb hb laws cl cl'
  Same-Grows cl cl' same h = record {
    sound = Same-AllSound hash sb hb laws cl cl' same h;
    kept = λ key v id (s, g, c). (s, rw (same id) g, c);
  }

  -- None of this forgets a write.
  pub Between-Grows :
      (cl cl' : Cluster sb hb)
      → AllSound hash sb hb laws cl
      → Between cl cl'
      → Grows hash sb hb laws cl cl'
  unfolding handle_gossip stored
  Between-Grows cl cl' h (still _) = Grows-refl hash sb hb laws cl h
  Between-Grows cl cl' h (read_by _ _ node key net id b) =
      let g = Same-Grows cl _ (get_op-Same hash sb hb laws node key net id cl) h in
      Grows-trans hash sb hb laws g (Between-Grows _ cl' g.sound b)
  Between-Grows cl cl' h (write_by _ _ node key v holder hint_net net id b) =
      let g = guarded_put_op-Grows hash sb hb laws node key v holder hint_net net id cl h in
      Grows-trans hash sb hb laws g (Between-Grows _ cl' g.sound b)
  Between-Grows cl cl' h (hint_by _ _ node fate holder target key v b) =
      let g = deliver_hint-Grows hash sb hb laws node fate holder target key v cl h in
      Grows-trans hash sb hb laws g (Between-Grows _ cl' g.sound b)
  Between-Grows cl cl' h (replay_by _ _ node fate id key body b) =
      let g =
        call-Grows hash sb hb laws node fate id (put_key_local sb hb key body) cl h
          (put_key_local-Retains hash sb hb laws key body) in
      Grows-trans hash sb hb laws g (Between-Grows _ cl' g.sound b)
  Between-Grows cl cl' h (gossip_to _ _ id now incoming b) =
      let g =
        on_replica-Grows hash sb hb laws cl id [] (λ s. handle_gossip sb hb s now incoming) h
          (λ s v. (v, λ key w c. c)) in
      Grows-trans hash sb hb laws g (Between-Grows _ cl' g.sound b)
  Between-Grows cl cl' h (round_by _ _ node choice fate net times b) =
      let g = gossip_round-Grows hash sb hb laws node choice fate net times cl h in
      Grows-trans hash sb hb laws g (Between-Grows _ cl' g.sound b)

  -- A write that `acks` hold is seen by every read that more than the others must answer.
  pub get_from-Seen :
      (node : Node) (key : String) (sched : Schedule) (cl : Cluster sb hb) (prefs : List String)
      (v : Version V) (r : Reading V) (write_threshold : ℕ)
      → AllSound hash sb hb laws cl
      → Unique prefs
      → Lawful sched
      → Acked hash sb hb laws key prefs write_threshold v cl
      → length prefs < min node.r (length prefs) + write_threshold
      → (get_from hash sb hb node key sched cl (ok prefs)).0 ≡ ok r
      → Seen v r
  get_from-Seen node key sched cl prefs v r write_threshold h u law acked lt e =
      let threshold = min node.r (length prefs) in
      let run = merged_read hash sb hb node key prefs threshold sched cl in
      let (merged, q, f) = >>=-eq-ok run.0 reading e in
      let by =
        merged_read-ReadBy hash sb hb laws node key prefs threshold sched cl merged h u law q in
      let (a, i, j) =
        overlap by.readers acked.acks prefs by.unique acked.unique by.known acked.known
          (omega (arith, lt, by.enough, acked.enough)) in
      reading-Seen v merged r (by.seen a v i (acked.each a j)) f

  pub Acked-Grows :
      (key : String) (prefs : List String) (threshold : ℕ) (v : Version V) (cl cl' : Cluster sb hb)
      → Grows hash sb hb laws cl cl'
      → Acked hash sb hb laws key prefs threshold v cl
      → Acked hash sb hb laws key prefs threshold v cl'
  Acked-Grows key prefs threshold v cl cl' g a = record {
    acks = a.acks;
    unique = a.unique;
    known = a.known;
    enough = a.enough;
    each = λ id i. g.kept key v id (a.each id i);
    all_sound = g.sound;
  }

  pub read_your_writes :
      (writer reader : Node) (key : String) (value : V) (now : ℕ) (reads : Schedule)
      (hint_net : String → Fate) (writes later : Schedule) (cl cl' : Cluster sb hb)
      (prefs : List String) (v : Version V) (r : Reading V)
      → AllSound hash sb hb laws cl
      → Unique prefs
      → 0 < length prefs
      → length prefs ≤ writer.n
      → preference_list hash sb hb writer key ≡ ok prefs
      → preference_list hash sb hb reader key ≡ ok prefs
      → 0 < reader.r
      → 0 < writer.w
      → writer.n < reader.r + writer.w
      → Lawful reads
      → Lawful writes
      → Lawful later
      → (put hash sb hb writer key value now reads hint_net writes cl).answer ≡ ok v
      → Between (put hash sb hb writer key value now reads hint_net writes cl).cluster cl'
      → (get hash sb hb reader key later cl').0 ≡ ok r
      → Seen v r
  unfolding get
  read_your_writes writer reader key value now reads hint_net writes later cl cl' prefs v r h u p le
        pw pr hr hw quorum lr lw ll done between e =
      let acked =
        put-Acked hash sb hb laws writer key value now reads hint_net writes cl prefs v h pw u lr lw
          done in
      let g = Between-Grows _ cl' acked.all_sound between in
      get_from-Seen reader key later cl' prefs v r (min writer.w (length prefs)) g.sound u ll
        (Acked-Grows key prefs _ v _ cl' g acked)
        (thresholds writer.n reader.r writer.w (length prefs) hr hw p quorum le) (rw pr at e)
