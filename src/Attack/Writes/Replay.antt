-- ===== src/Attack/Writes/Replay.antt =====
-- scripts/adversarial_scenarios.py: category 4, a version that is replayed after a later one.
use secure_dynamo_kv_store.Prelude.{
  ℕ, ◌+◌, ◌≤◌, ◌<◌, ◌≡◌, refl, sym, subst, String, Option, List, length, Unique,
}
use secure_dynamo_kv_store.Prelude.Result.{Result as Fallible, ok, raise}
use secure_dynamo_kv_store.Dict.{Dict}
use secure_dynamo_kv_store.VectorClock.{VectorClock, VersionDict}
use secure_dynamo_kv_store.VectorClock.Order.{◌≤c◌, ≤c_trans}
use secure_dynamo_kv_store.Storage.{StorageBackend, StorageLaws}
use secure_dynamo_kv_store.HintStore.{Blob}
use secure_dynamo_kv_store.Auth.{TokenEntry, AuthRequest}
use secure_dynamo_kv_store.Node.Replica.{Node, Stored}
use secure_dynamo_kv_store.Node.Network.{Fate, Cluster}
use secure_dynamo_kv_store.Node.Client.{Schedule, one, preference_list}
use secure_dynamo_kv_store.Node.Growth.{AllSound}
use secure_dynamo_kv_store.Node.Reads.{Lawful}
use secure_dynamo_kv_store.Node.Durable.{put-Acked}
use secure_dynamo_kv_store.Node.Freshness.{Between, still, replay_by, read_your_writes}
use secure_dynamo_kv_store.Node.Succession.{later_put-gt}
use secure_dynamo_kv_store.Api.{KeyValueResponse}
use secure_dynamo_kv_store.Api.Answers.{put_key-ok, get_key-ok}
use secure_dynamo_kv_store.Attack.Shell.{and_then}
use secure_dynamo_kv_store.Attack.Writes.Programs.{
  Writing, public_put, public_get, internal_put, replay_program,
}

-- The clock of a response.
abbrev pub clock_of : {V : Type 0} → KeyValueResponse V → VectorClock
clock_of r = record { counters = r.clock }

module _ {W A B : Type 0} where
  pub and_then-ok :
      (r : Fallible A × W) (k : A → W → Fallible B × W) (b : B) (w : W)
      → and_then r k ≡ (ok b, w)
      → (a : A) × (r.0 ≡ ok a) × (k a r.1 ≡ (ok b, w))
  and_then-ok (raise e, v) k b w h = cc
  and_then-ok (ok a, v) k b w h = (a, refl, h)

module _ {V : Type 0} (hash : String → ℕ) (sb : StorageBackend (Stored V))
    (hb : StorageBackend (Blob V)) (laws : StorageLaws sb) where
  -- Let 0 < R, 0 < W and R + W > N. Where both writes of the program of category 4 are
  -- acknowledged and it ends without an exception, its last read answers with a clock that is at
  -- least that of the second write, and not at most that of the first, which was sent again in
  -- between. Every replica's storage starts in a valid state, the nodes of the key's preference
  -- list are different, at least one and at most N, and each operation of a fan-out completes at
  -- most once.
  pub replay-dropped :
      (tokens : Option (Dict String TokenEntry)) (put_request get_request : AuthRequest)
      (node intruder : Node) (key : String) (v1 v2 : V) (first second : Writing) (fate : Fate)
      (last : Schedule) (cl cl1 cl2 cl' : Cluster sb hb) (prefs : List String)
      (r1 r2 final : KeyValueResponse V)
      → AllSound hash sb hb laws cl
      → Unique prefs
      → 0 < length prefs
      → length prefs ≤ node.n
      → preference_list hash sb hb node key ≡ ok prefs
      → 0 < node.r
      → 0 < node.w
      → node.n < node.r + node.w
      → Lawful first.reads
      → Lawful first.writes
      → Lawful second.reads
      → Lawful second.writes
      → Lawful last
      → public_put hash sb hb tokens put_request get_request node key v1 first cl ≡ (ok r1, cl1)
      → public_put hash sb hb tokens put_request get_request node key v2 second cl1 ≡ (ok r2, cl2)
      → replay_program hash sb hb tokens put_request get_request node intruder key v1 v2 first
          second fate last cl
        ≡ (ok final, cl')
      → (clock_of r2 ≤c clock_of final) × (¬ (clock_of final ≤c clock_of r1))
  unfolding replay_program
  replay-dropped tokens put_request get_request node intruder key v1 v2 first second fate last cl
        cl1 cl2 cl' prefs r1 r2 final h u p le pl hr hw quorum lr1 lw1 lr2 lw2 ll e1 e2 e =
      let (v, a1, c1, k1) =
        put_key-ok hash sb hb tokens put_request node key v1 first.now first.reads first.hint_net
          first.writes cl cl1 r1 e1 in
      let (w, a2, c2, k2) =
        put_key-ok hash sb hb tokens put_request node key v2 second.now second.reads second.hint_net
          second.writes cl1 cl2 r2 e2 in
      let body : VersionDict V = record { value = v1; clock = r1.clock } in
      let replayed =
        internal_put hash sb hb tokens put_request get_request intruder fate node.node_id key body
          cl2 in
      let after : and_then replayed
            (λ resp. public_get hash sb hb tokens put_request get_request node key last)
          ≡ (ok final, cl') =
        rw (e1, e2) at e in
      let (resp, _, g) = and_then-ok replayed _ final cl' after in
      let (x, q, _, k3) =
        get_key-ok hash sb hb tokens get_request node key last replayed.1 cl' final g in
      let acked =
        put-Acked hash sb hb laws node key v1 first.now first.reads first.hint_net first.writes cl
          prefs v h pl u lr1 lw1 a1 in
      let (up, strict) =
        later_put-gt hash sb hb laws node node key v1 v2 first.now second.now first.reads
          first.hint_net first.writes second.reads second.hint_net second.writes cl cl1 prefs v w h
          u p le pl pl hr hw quorum lr1 lw1 lr2 a1
          (subst (λ (c : Cluster sb hb). Between hash sb hb laws c cl1) (sym c1) (still cl1)) a2 in
      let seen =
        read_your_writes hash sb hb laws node node key v2 second.now second.reads second.hint_net
          second.writes last cl1 replayed.1 prefs w (one x)
          (subst (AllSound hash sb hb laws) c1 acked.all_sound) u p le pl pl hr hw quorum lr2 lw2 ll
          a2
          (subst (λ (c : Cluster sb hb). Between hash sb hb laws c replayed.1) (sym c2)
            (replay_by cl2 replayed.1 intruder fate node.node_id key body (still replayed.1)))
          q in
      rw (← k1, ← k2, ← k3) (seen, λ below. strict (≤c_trans w.clock x.clock v.clock seen below))
