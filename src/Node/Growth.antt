-- ===== src/Node/Growth.antt =====
-- src/dynamokv/node.py: what the calls between nodes do to stored writes.
use secure_dynamo_kv_store.Prelude.{
  ℕ, ◌≡◌, sym, ◌∙◌, inl, inr, String, string_eq, nat_eq, Bool, Option, none, some, List, [], ◌∷◌,
  ◌==◌, Bool-cases, Option-cases, eq_of_==,
}
use secure_dynamo_kv_store.Prelude.Result.{Result, ok, raise, >>=-eq-ok, http_error}
use secure_dynamo_kv_store.Dict
use secure_dynamo_kv_store.VectorClock.{Version, VersionDict, to_dict, from_dict}
use secure_dynamo_kv_store.VectorClock.Antichain.{Covered}
use secure_dynamo_kv_store.HintStore
use secure_dynamo_kv_store.HintStore.{Blob}
use secure_dynamo_kv_store.Storage.{StorageBackend, StorageLaws}
use secure_dynamo_kv_store.Node.Replica.{Node, Stored, Replica, put_local, add_hint}
use secure_dynamo_kv_store.Node.Network.{
  Fate, answered, unreachable, answer_lost, Response, Cluster, on_replica, request, peer_base_url,
  call, put_key_local, put_hint, put_op, written,
}
use secure_dynamo_kv_store.Node.Client.{
  added, deliver_hint, hint_all, hint_presumed_down, hint_failed, guard_put, guarded_put_op,
}
use secure_dynamo_kv_store.Node.Local.{IsSound, stored, put_local-Keeps}
use secure_dynamo_kv_store.Node.Gather.{Result-cases}

module _ {V : Type 0} (hash : String → ℕ) (sb : StorageBackend (Stored V))
    (hb : StorageBackend (Blob V)) (laws : StorageLaws sb) where
  -- The storage of every running replica is in a state that its own operations reach.
  abbrev pub AllSound : Cluster sb hb → Type 0
  AllSound cl = (id : String) (s : Replica sb hb) → Dict.get cl id ≡ some s → IsSound sb hb laws s

  -- The replica at `id` stores a version that has seen all that `v` has seen.
  abbrev pub Holds : String → Version V → String → Cluster sb hb → Type 0
  Holds key v id cl =
      (s : Replica sb hb) × (Dict.get cl id ≡ some s) × Covered v (stored sb hb laws s key)

  -- A step on a replica that forgets no write.
  abbrev pub Retains : Replica sb hb → Replica sb hb → Type 0
  Retains s s' =
      IsSound sb hb laws s'
      × ((key : String) (v : Version V)
          → Covered v (stored sb hb laws s key)
          → Covered v (stored sb hb laws s' key))

  -- And one on the cluster.
  pub record Grows (cl cl' : Cluster sb hb) : Type 0 where
    pub sound : AllSound cl'
    pub kept : (key : String) (v : Version V) (id : String) → Holds key v id cl → Holds key v id cl'

  pub Grows-refl : (cl : Cluster sb hb) → AllSound cl → Grows cl cl
  Grows-refl cl h = record { sound = h; kept = λ key v id q. q }

  pub Grows-trans : {a b c : Cluster sb hb} → Grows a b → Grows b c → Grows a c
  Grows-trans g h = record {
    sound = h.sound;
    kept = λ key v id q. h.kept key v id (g.kept key v id q);
  }

  -- Replacing one replica by one that retains its writes.
  pub put-Grows :
      (cl : Cluster sb hb) (host : String) (s s' : Replica sb hb)
      → AllSound cl
      → Dict.get cl host ≡ some s
      → Retains s s'
      → Grows cl (Dict.put cl host s')
  put-Grows cl host s s' h g r = record {
    sound = λ id t e. elim (Bool-cases (host == id)) [
      | inl q ↦
          let f : some s' ≡ some t = rw (Dict.get-put, q) at e in
          let same : s' ≡ t = cc in rw (← same) r.0
      | inr q ↦ h id t (rw (Dict.get-put, q) at e)
    ];
    kept = λ key v id (t, e, c). elim (Bool-cases (host == id)) [
      | inl q ↦
          let f : some s ≡ some t = sym g ∙ rw (eq_of_== host id q) e in
          let same : t ≡ s = cc in (s', rw (Dict.get-put, q), r.1 key v (rw same at c))
      | inr q ↦ (t, rw (Dict.get-put, q, e), c)
    ];
  }

  module _ {A : Type 0} where
    pub on_replica-Grows :
        (cl : Cluster sb hb) (host : String) (o : A) (f : Replica sb hb → A × Replica sb hb)
        → AllSound cl
        → ((s : Replica sb hb) → IsSound sb hb laws s → Retains s (f s).1)
        → Grows cl (on_replica sb hb host o f cl).1
    unfolding on_replica
    on_replica-Grows cl host o f h r = elim (Option-cases (Dict.get cl host)) [
      | inl n ↦ rw (n, on_replica) (Grows-refl cl h)
      | inr (s, g) ↦ rw (g, on_replica) (put-Grows cl host s (f s).1 h g (r s (h host s g)))
    ]

  pub request-Grows :
      (fate : Fate) (host : String) (handler : Replica sb hb → Response V × Replica sb hb)
      (cl : Cluster sb hb)
      → AllSound cl
      → ((s : Replica sb hb) → IsSound sb hb laws s → Retains s (handler s).1)
      → Grows cl (request sb hb fate host handler cl).1
  unfolding request
  request-Grows unreachable host handler cl h r = Grows-refl cl h
  request-Grows answered host handler cl h r = on_replica-Grows cl host (raise http_error) _ h r
  request-Grows answer_lost host handler cl h r = on_replica-Grows cl host (raise http_error) _ h r

  pub call-Grows :
      (node : Node) (fate : Fate) (host : String)
      (handler : Replica sb hb → Response V × Replica sb hb) (cl : Cluster sb hb)
      → AllSound cl
      → ((s : Replica sb hb) → IsSound sb hb laws s → Retains s (handler s).1)
      → Grows cl (call sb hb node fate host handler cl).1
  unfolding call
  call-Grows node fate host handler cl h r = elim (Result-cases (peer_base_url sb hb node host)) [
    | inr (e, q) ↦ rw q (Grows-refl cl h)
    | inl (url, q) ↦ rw q (request-Grows fate host handler cl h r)
  ]

  Retains-refl : (s : Replica sb hb) → IsSound sb hb laws s → Retains s s
  Retains-refl s v = (v, λ key w c. c)

  put_local-Retains :
      (s s' : Replica sb hb) (key : String) (v : Version V)
      → put_local sb hb s key v ≡ ok s'
      → IsSound sb hb laws s
      → Retains s s'
  put_local-Retains s s' key v e valid =
      let (a, b, c) = put_local-Keeps sb hb laws s s' key v e valid in (a, b)

  pub put_key_local-Retains :
      (key : String) (body : VersionDict V) (s : Replica sb hb)
      → IsSound sb hb laws s
      → Retains s (put_key_local sb hb key body s).1
  unfolding put_key_local
  put_key_local-Retains key body s v =
      elim (Result-cases (put_local sb hb s key (from_dict body))) [
        | inl (s', q) ↦ rw q (put_local-Retains s s' key (from_dict body) q v)
        | inr (e, q) ↦ rw q (Retains-refl s v)
      ]

  written-Retains :
      (key : String) (v : Version V) (s : Replica sb hb)
      → IsSound sb hb laws s
      → Retains s (written sb hb s (put_local sb hb s key v)).1
  written-Retains key w s v = elim (Result-cases (put_local sb hb s key w)) [
    | inl (s', q) ↦ rw q (put_local-Retains s s' key w q v)
    | inr (e, q) ↦ rw q (Retains-refl s v)
  ]

  -- Holding a hint changes nothing that is stored.
  add_hint-Retains :
      (s s' : Replica sb hb) (target key : String) (v : Version V)
      → add_hint sb hb s target key v ≡ ok s'
      → IsSound sb hb laws s
      → Retains s s'
  unfolding add_hint stored
  add_hint-Retains s s' target key v e valid =
      let (hints, f, g) = >>=-eq-ok (HintStore.add hb s.hint_store target key v) _ e in
      let same : record s { hint_store = hints } ≡ s' = cc in rw (← same) (valid, λ key w c. c)

  put_hint-Retains :
      (target key : String) (body : VersionDict V) (s : Replica sb hb)
      → IsSound sb hb laws s
      → Retains s (put_hint sb hb target key body s).1
  unfolding put_hint
  put_hint-Retains target key body s v =
      elim (Result-cases (add_hint sb hb s target key (from_dict body))) [
        | inl (s', q) ↦ rw q (add_hint-Retains s s' target key (from_dict body) q v)
        | inr (e, q) ↦ rw q (Retains-refl s v)
      ]

  added-Retains :
      (target key : String) (v : Version V) (s : Replica sb hb)
      → IsSound sb hb laws s
      → Retains s (added hash sb hb s (add_hint sb hb s target key v)).1
  added-Retains target key w s v = elim (Result-cases (add_hint sb hb s target key w)) [
    | inl (s', q) ↦ rw q (add_hint-Retains s s' target key w q v)
    | inr (e, q) ↦ rw q (Retains-refl s v)
  ]

  put_op-Grows :
      (node : Node) (key : String) (v : Version V) (net : String → Fate) (id : String)
      (cl : Cluster sb hb)
      → AllSound cl
      → Grows cl (put_op sb hb node key v net id cl).1
  unfolding put_op
  put_op-Grows node key v net id cl h = elim (Bool-cases (id == node.node_id)) [
    | inl q ↦ rw q (on_replica-Grows cl id (raise http_error) _ h (written-Retains key v))
    | inr q ↦ rw q (
        call-Grows node (net id) id (put_key_local sb hb key (to_dict v)) cl h
          (put_key_local-Retains key (to_dict v)))
  ]

  pub deliver_hint-Grows :
      (node : Node) (fate : Fate) (holder target key : String) (v : Version V) (cl : Cluster sb hb)
      → AllSound cl
      → Grows cl (deliver_hint hash sb hb node fate holder target key v cl).1
  unfolding deliver_hint
  deliver_hint-Grows node fate holder target key v cl h =
      elim (Bool-cases (holder == node.node_id)) [
        | inl q ↦
            rw q (on_replica-Grows cl holder (raise http_error) _ h (added-Retains target key v))
        | inr q ↦ rw q (
            call-Grows node fate holder (put_hint sb hb target key (to_dict v)) cl h
              (put_hint-Retains target key (to_dict v)))
      ]

  hint_all-Grows :
      (node : Node) (net : String → Fate) (holder : String) (down : List String) (key : String)
      (v : Version V) (cl : Cluster sb hb)
      → AllSound cl
      → Grows cl (hint_all hash sb hb node net holder down key v cl).1
  unfolding hint_all
  hint_all-Grows node net holder [] key v cl h = Grows-refl cl h
  hint_all-Grows node net holder (d ∷ down) key v cl h =
      let one = deliver_hint hash sb hb node (net d) holder d key v cl in
      let g = deliver_hint-Grows node (net d) holder d key v cl h in
      elim (Result-cases one.0) [
        | inl (a, q) ↦
            rw (q, hint_all)
              (Grows-trans g (hint_all-Grows node net holder down key v one.1 g.sound))
        | inr (e, q) ↦ rw (q, hint_all) g
      ]

  pub hint_presumed_down-Grows :
      (node : Node) (net : String → Fate) (holder : Option String) (down : List String)
      (key : String) (v : Version V) (cl : Cluster sb hb)
      → AllSound cl
      → Grows cl (hint_presumed_down hash sb hb node net holder down key v cl).1
  hint_presumed_down-Grows node net none down key v cl h = Grows-refl cl h
  hint_presumed_down-Grows node net (some holder) down key v cl h =
      hint_all-Grows node net holder down key v cl h

  hint_failed-Grows :
      (node : Node) (fate : Fate) (holder : Option String) (id key : String) (v : Version V)
      (cl : Cluster sb hb)
      → AllSound cl
      → Grows cl (hint_failed hash sb hb node fate holder id key v cl).1
  hint_failed-Grows node fate none id key v cl h = Grows-refl cl h
  hint_failed-Grows node fate (some holder) id key v cl h = elim (Bool-cases (id == holder)) [
    | inl q ↦ rw q (Grows-refl cl h)
    | inr q ↦ rw q (deliver_hint-Grows node fate holder id key v cl h)
  ]

  guard_put-Grows :
      (node : Node) (key : String) (v : Version V) (holder : Option String) (fate : Fate)
      (id : String) (cl : Cluster sb hb) (r : Result Bool × Cluster sb hb)
      → Grows cl r.1
      → Grows cl (guard_put hash sb hb node key v holder fate id r).1
  guard_put-Grows node key v holder fate id cl (ok b, cl') g = g
  guard_put-Grows node key v holder fate id cl (raise e, cl') g =
      Grows-trans g (hint_failed-Grows node fate holder id key v cl' g.sound)

  pub guarded_put_op-Grows :
      (node : Node) (key : String) (v : Version V) (holder : Option String)
      (hint_net net : String → Fate) (id : String) (cl : Cluster sb hb)
      → AllSound cl
      → Grows cl (guarded_put_op hash sb hb node key v holder hint_net net id cl).1
  unfolding guarded_put_op
  guarded_put_op-Grows node key v holder hint_net net id cl h =
      guard_put-Grows node key v holder (hint_net id) id cl (put_op sb hb node key v net id cl)
        (put_op-Grows node key v net id cl h)
