-- ===== src/Node/Rounds.antt =====
-- src/dynamokv/node.py: `gossip_round` and stored writes.
use secure_dynamo_kv_store.Prelude.{
  ℕ, ◌≡◌, refl, inl, inr, String, string_eq, nat_eq, Option, none, some, List, [], ◌∷◌, ◌==◌,
  Bool-cases, is_empty,
}
use secure_dynamo_kv_store.Prelude.Int.{ℤ}
use secure_dynamo_kv_store.Prelude.Result.{Result, ok, raise, ◌>>=◌, http_error}
use secure_dynamo_kv_store.Dict
use secure_dynamo_kv_store.Dict.{Dict}
use secure_dynamo_kv_store.VectorClock.{Version, to_dict}
use secure_dynamo_kv_store.HintStore.{Blob, Pending}
use secure_dynamo_kv_store.Gossip.{GossipState, believed_down, tick}
use secure_dynamo_kv_store.Storage.{StorageBackend, StorageLaws}
use secure_dynamo_kv_store.Node.Replica.{Node, Stored, Replica, handle_gossip}
use secure_dynamo_kv_store.Node.Network.{
  Fate, answered, unreachable, answer_lost, Response, Cluster, on_replica, request, peer_base_url,
  put_key_local,
}
use secure_dynamo_kv_store.Node.Background.{
  Times, Done, kept_or, clear_hint, after_replay, replay_hint, and_then, replay_versions,
  replay_all, pending_of, replay_pending, flush_hints_for, flush_live, push, pull, wire_of,
  push_pull, exchange, flush_from, gossip_round,
}
use secure_dynamo_kv_store.Node.Local.{IsSound, stored}
use secure_dynamo_kv_store.Node.Growth.{
  AllSound, Retains, Grows, Grows-refl, Grows-trans, on_replica-Grows, request-Grows,
  put_key_local-Retains,
}

module _ {V : Type 0} (hash : String → ℕ) (sb : StorageBackend (Stored V))
    (hb : StorageBackend (Blob V)) (laws : StorageLaws sb) where
  -- A step on a replica that leaves its storage alone.
  Keeping :
      (s s' : Replica sb hb)
      → s'.storage ≡ s.storage
      → IsSound sb hb laws s
      → Retains hash sb hb laws s s'
  unfolding stored
  Keeping s s' e v = (rw e v, λ key w c. rw e c)

  kept_or-Retains :
      {A : Type 0} (s : Replica sb hb) (r : Result A) (f : A → Replica sb hb)
      → ((a : A) → (f a).storage ≡ s.storage)
      → IsSound sb hb laws s
      → Retains hash sb hb laws s (kept_or sb hb s r f).1
  kept_or-Retains s (raise e) f same v = Keeping s s refl v
  kept_or-Retains s (ok a) f same v = Keeping s (f a) (same a) v

  abbrev GrowsTo : Cluster sb hb → Done sb hb → Type 0
  GrowsTo cl d = Grows hash sb hb laws cl d.1

  and_then-Grows :
      (cl : Cluster sb hb) (d : Done sb hb) (k : Cluster sb hb → Done sb hb)
      → GrowsTo cl d
      → ((c : Cluster sb hb) → AllSound hash sb hb laws c → GrowsTo c (k c))
      → GrowsTo cl (and_then sb hb d k)
  and_then-Grows cl (raise e, c) k g h = g
  and_then-Grows cl (ok done, c) k g h = Grows-trans hash sb hb laws g (h c g.sound)

  pub clear_hint-Grows :
      (node : Node) (target key : String) (cl : Cluster sb hb)
      → AllSound hash sb hb laws cl
      → GrowsTo cl
          (on_replica sb hb node.node_id (raise http_error) (clear_hint sb hb target key) cl)
  clear_hint-Grows node target key cl h =
      on_replica-Grows hash sb hb laws cl node.node_id (raise http_error)
        (clear_hint sb hb target key) h
        (λ s v. kept_or-Retains s _ (λ hints. record s { hint_store = hints }) (λ a. refl) v)

  after_replay-Grows :
      (node : Node) (target key : String) (cl : Cluster sb hb)
      (r : Result (Response V) × Cluster sb hb)
      → Grows hash sb hb laws cl r.1
      → GrowsTo cl (after_replay sb hb node target key r)
  after_replay-Grows node target key cl (raise e, c) g = g
  after_replay-Grows node target key cl (ok resp, c) g = elim (Bool-cases (resp.status == 200)) [
    | inl q ↦ rw q (Grows-trans hash sb hb laws g (clear_hint-Grows node target key c g.sound))
    | inr q ↦ rw q g
  ]

  replay_hint-Grows :
      (node : Node) (net : String → Version V → Fate) (target key : String) (v : Version V)
      (cl : Cluster sb hb)
      → AllSound hash sb hb laws cl
      → GrowsTo cl (replay_hint sb hb node net target key v cl)
  unfolding replay_hint
  replay_hint-Grows node net target key v cl h =
      after_replay-Grows node target key cl
        (request sb hb (net key v) target (put_key_local sb hb key (to_dict v)) cl)
        (request-Grows hash sb hb laws (net key v) target (put_key_local sb hb key (to_dict v)) cl h
          (put_key_local-Retains hash sb hb laws key (to_dict v)))

  replay_versions-Grows :
      (node : Node) (net : String → Version V → Fate) (target key : String) (vs : List (Version V))
      (cl : Cluster sb hb)
      → AllSound hash sb hb laws cl
      → GrowsTo cl (replay_versions sb hb node net target key vs cl)
  unfolding replay_versions
  replay_versions-Grows node net target key [] cl h = Grows-refl hash sb hb laws cl h
  replay_versions-Grows node net target key (v ∷ vs) cl h =
      and_then-Grows cl (replay_hint sb hb node net target key v cl)
        (replay_versions sb hb node net target key vs)
        (replay_hint-Grows node net target key v cl h)
        (λ c k. replay_versions-Grows node net target key vs c k)

  replay_all-Grows :
      (node : Node) (net : String → Version V → Fate) (target : String) (pending : Pending V)
      (cl : Cluster sb hb)
      → AllSound hash sb hb laws cl
      → GrowsTo cl (replay_all sb hb node net target pending cl)
  unfolding replay_all
  replay_all-Grows node net target [] cl h = Grows-refl hash sb hb laws cl h
  replay_all-Grows node net target ((key, vs) ∷ pending) cl h =
      and_then-Grows cl (replay_versions sb hb node net target key vs cl)
        (replay_all sb hb node net target pending)
        (replay_versions-Grows node net target key vs cl h)
        (λ c k. replay_all-Grows node net target pending c k)

  replay_pending-Grows :
      (node : Node) (net : String → Version V → Fate) (target : String) (cl : Cluster sb hb)
      (r : Result (Pending V))
      → AllSound hash sb hb laws cl
      → GrowsTo cl (replay_pending sb hb node net target cl r)
  replay_pending-Grows node net target cl (raise e) h = Grows-refl hash sb hb laws cl h
  replay_pending-Grows node net target cl (ok []) h = Grows-refl hash sb hb laws cl h
  replay_pending-Grows node net target cl (ok (p ∷ pending)) h =
      and_then-Grows cl (peer_base_url sb hb node target >>= (λ _. ok tt), cl)
        (replay_all sb hb node net target (p ∷ pending)) (Grows-refl hash sb hb laws cl h)
        (λ c k. replay_all-Grows node net target (p ∷ pending) c k)

  flush_live-Grows :
      (node : Node) (net : String → String → Version V → Fate) (g : GossipState) (now : ℕ)
      (peers : List String) (cl : Cluster sb hb)
      → AllSound hash sb hb laws cl
      → GrowsTo cl (flush_live sb hb node net g now peers cl)
  unfolding flush_live flush_hints_for
  flush_live-Grows node net g now [] cl h = Grows-refl hash sb hb laws cl h
  flush_live-Grows node net g now (id ∷ peers) cl h =
      elim (Bool-cases (believed_down g id now node.gossip_failure_timeout)) [
        | inl q ↦ rw q (flush_live-Grows node net g now peers cl h)
        | inr q ↦ rw q (
            and_then-Grows cl (flush_hints_for sb hb node (net id) id cl)
              (flush_live sb hb node net g now peers)
              (replay_pending-Grows node (net id) id cl
                (pending_of sb hb (Dict.get cl node.node_id) id) h)
              (λ c k. flush_live-Grows node net g now peers c k))
      ]

  push-Grows :
      (fate : Fate) (now : ℕ) (id : String) (table : Dict String ℤ) (cl : Cluster sb hb)
      → AllSound hash sb hb laws cl
      → Grows hash sb hb laws cl (push sb hb fate now id table cl).1
  unfolding push handle_gossip
  push-Grows unreachable now id table cl h = Grows-refl hash sb hb laws cl h
  push-Grows answered now id table cl h =
      on_replica-Grows hash sb hb laws cl id (raise http_error) _ h (λ s v. Keeping s _ refl v)
  push-Grows answer_lost now id table cl h =
      on_replica-Grows hash sb hb laws cl id (raise http_error) _ h (λ s v. Keeping s _ refl v)

  pull-Grows :
      (node : Node) (now : ℕ) (cl : Cluster sb hb) (r : Result (Dict String ℤ) × Cluster sb hb)
      → Grows hash sb hb laws cl r.1
      → GrowsTo cl (pull sb hb node now r)
  pull-Grows node now cl (raise e, c) g = g
  pull-Grows node now cl (ok table, c) g = Grows-trans hash sb hb laws g (
      on_replica-Grows hash sb hb laws c node.node_id (raise http_error) _ g.sound
        (λ s v. Keeping s _ refl v))

  push_pull-Grows :
      (node : Node) (fate : Fate) (times : Times) (id : String) (cl : Cluster sb hb)
      (r : Result String)
      → AllSound hash sb hb laws cl
      → GrowsTo cl (push_pull sb hb node fate times id cl r)
  push_pull-Grows node fate times id cl (raise e) h = Grows-refl hash sb hb laws cl h
  push_pull-Grows node fate times id cl (ok url) h =
      pull-Grows node times.merged cl
        (push sb hb fate times.handled id (wire_of sb hb (Dict.get cl node.node_id)) cl)
        (push-Grows fate times.handled id (wire_of sb hb (Dict.get cl node.node_id)) cl h)

  exchange-Grows :
      (node : Node) (choice : List String → String) (fate : Fate) (times : Times)
      (cl : Cluster sb hb)
      → AllSound hash sb hb laws cl
      → GrowsTo cl (exchange sb hb node choice fate times cl)
  unfolding exchange
  exchange-Grows node choice fate times cl h = elim (Bool-cases (is_empty node.peers)) [
    | inl q ↦ rw q (Grows-refl hash sb hb laws cl h)
    | inr q ↦ rw q (
        push_pull-Grows node fate times (choice (Dict.keys node.peers)) cl
          (peer_base_url sb hb node (choice (Dict.keys node.peers))) h)
  ]

  flush_from-Grows :
      (node : Node) (net : String → String → Version V → Fate) (now : ℕ) (cl : Cluster sb hb)
      (o : Option (Replica sb hb))
      → AllSound hash sb hb laws cl
      → GrowsTo cl (flush_from sb hb node net now cl o)
  flush_from-Grows node net now cl none h = Grows-refl hash sb hb laws cl h
  flush_from-Grows node net now cl (some s) h =
      flush_live-Grows node net s.gossip_state now (Dict.keys node.peers) cl h

  pub gossip_round-Grows :
      (node : Node) (choice : List String → String) (fate : Fate)
      (net : String → String → Version V → Fate) (times : Times) (cl : Cluster sb hb)
      → AllSound hash sb hb laws cl
      → Grows hash sb hb laws cl (gossip_round sb hb node choice fate net times cl).1
  unfolding gossip_round
  gossip_round-Grows node choice fate net times cl h =
      let advance : Replica sb hb → Result (Unit {0}) × Replica sb hb = λ s.
        kept_or sb hb s (tick s.gossip_state times.ticked) (λ g. record s { gossip_state = g }) in
      let finish : Cluster sb hb → Done sb hb =
        λ c. flush_from sb hb node net times.checked c (Dict.get c node.node_id) in
      and_then-Grows cl (on_replica sb hb node.node_id (raise http_error) advance cl)
        (λ c. and_then sb hb (exchange sb hb node choice fate times c) finish)
        (on_replica-Grows hash sb hb laws cl node.node_id (raise http_error) advance h
          (λ s v. kept_or-Retains s _ (λ g. record s { gossip_state = g }) (λ a. refl) v))
        (λ c k.
          and_then-Grows c (exchange sb hb node choice fate times c) finish
            (exchange-Grows node choice fate times c k)
            (λ d j. flush_from-Grows node net times.checked d (Dict.get d node.node_id) j))
