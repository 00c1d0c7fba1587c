-- ===== src/Node/Writes.antt =====
-- src/dynamokv/node.py: `_put_op` and its acknowledgement.
use secure_dynamo_kv_store.Prelude.{
  ℕ, ◌≡◌, inl, inr, String, string_eq, nat_eq, Bool, Option, some, ◌==◌, Bool-cases, Option-cases,
}
use secure_dynamo_kv_store.Prelude.Result.{Result, ok, raise, ◌>>=◌, >>=-eq-ok, http_error}
use secure_dynamo_kv_store.Dict
use secure_dynamo_kv_store.VectorClock.{Version, to_dict, from_dict}
use secure_dynamo_kv_store.HintStore.{Blob}
use secure_dynamo_kv_store.Storage.{StorageBackend, StorageLaws}
use secure_dynamo_kv_store.Node.Replica.{Node, Stored, Replica, put_local}
use secure_dynamo_kv_store.Node.Network.{
  Fate, answered, unreachable, answer_lost, Cluster, on_replica, request, peer_base_url, call,
  Response, put_key_local, put_op, written, write_status,
}
use secure_dynamo_kv_store.Node.Client.{hint_failed, guard_put, guarded_put_op}
use secure_dynamo_kv_store.Node.Local.{put_local-ok, put_local-Keeps}
use secure_dynamo_kv_store.Node.Gather.{IsOp, Result-cases}
use secure_dynamo_kv_store.Node.Growth.{AllSound, Holds, guarded_put_op-Grows}

module _ {V : Type 0} (hash : String → ℕ) (sb : StorageBackend (Stored V))
    (hb : StorageBackend (Blob V)) (laws : StorageLaws sb) where
  -- A local write that is acknowledged is there.
  on_replica-gains :
      (key : String) (v : Version V) (host : String) (cl : Cluster sb hb) (s s' : Replica sb hb)
      → AllSound hash sb hb laws cl
      → Dict.get cl host ≡ some s
      → put_local sb hb s key v ≡ ok s'
      → Holds hash sb hb laws key v host (Dict.put cl host s')
  on_replica-gains key v host cl s s' h g e =
      let (a, b, c) = put_local-Keeps sb hb laws s s' key v e (h host s g) in
      (s', Dict.get-put_self cl host s', c)

  local_put-gains :
      (key : String) (v : Version V) (host : String) (cl : Cluster sb hb) (b : Bool)
      → AllSound hash sb hb laws cl
      → (on_replica sb hb host
          (raise http_error)
          (λ s. written sb hb s (put_local sb hb s key v))
          cl).0
        ≡ ok b
      → Holds hash sb hb laws key v host
          (on_replica sb hb host
            (raise http_error)
            (λ s. written sb hb s (put_local sb hb s key v))
            cl).1
  unfolding on_replica
  local_put-gains key v host cl b h e = elim (Option-cases (Dict.get cl host)) [
    | inl n ↦ let f : raise http_error ≡ ok b = rw (n, on_replica) at e in cc
    | inr (s, g) ↦
        let (s', f) = put_local-ok sb hb laws s key v (h host s g) in
        rw (g, on_replica, f) (on_replica-gains key v host cl s s' h g f)
  ]

  -- The caller's client raises unless the request is answered, and the handler of a replica that
  -- answers has carried the write out.
  request_put-gains :
      (fate : Fate) (key : String) (v : Version V) (host : String) (cl : Cluster sb hb)
      (resp : Response V)
      → AllSound hash sb hb laws cl
      → (request sb hb fate host (put_key_local sb hb key (to_dict v)) cl).0 ≡ ok resp
      → Holds hash sb hb laws key v host
          (request sb hb fate host (put_key_local sb hb key (to_dict v)) cl).1
  unfolding request on_replica put_key_local from_dict to_dict
  request_put-gains unreachable key v host cl resp h e = cc
  request_put-gains answer_lost key v host cl resp h e = elim (Option-cases (Dict.get cl host)) [
    | inl n ↦ let f : raise http_error ≡ ok resp = rw (n, on_replica) at e in cc
    | inr (s, g) ↦ let f : raise http_error ≡ ok resp = rw (g, on_replica) at e in cc
  ]
  request_put-gains answered key v host cl resp h e = elim (Option-cases (Dict.get cl host)) [
    | inl n ↦ let f : raise http_error ≡ ok resp = rw (n, on_replica) at e in cc
    | inr (s, g) ↦
        let (s', f) = put_local-ok sb hb laws s key v (h host s g) in
        rw (g, on_replica, f) (on_replica-gains key v host cl s s' h g f)
  ]

  pub call_put-gains :
      (node : Node) (fate : Fate) (key : String) (v : Version V) (host : String)
      (cl : Cluster sb hb) (resp : Response V)
      → AllSound hash sb hb laws cl
      → (call sb hb node fate host (put_key_local sb hb key (to_dict v)) cl).0 ≡ ok resp
      → Holds hash sb hb laws key v host
          (call sb hb node fate host (put_key_local sb hb key (to_dict v)) cl).1
  unfolding call
  call_put-gains node fate key v host cl resp h e =
      elim (Result-cases (peer_base_url sb hb node host)) [
        | inr (x, q) ↦ let f : raise x ≡ ok resp = rw q at e in cc
        | inl (url, q) ↦ rw q (request_put-gains fate key v host cl resp h (rw q at e))
      ]

  pub remote_put-gains :
      (fate : Fate) (key : String) (v : Version V) (host : String) (cl : Cluster sb hb) (b : Bool)
      → AllSound hash sb hb laws cl
      → (request sb hb fate host (put_key_local sb hb key (to_dict v)) cl).0 >>= write_status sb hb
        ≡ ok b
      → Holds hash sb hb laws key v host
          (request sb hb fate host (put_key_local sb hb key (to_dict v)) cl).1
  remote_put-gains fate key v host cl b h e =
      let (resp, q, _) = >>=-eq-ok _ (write_status sb hb) e in
      request_put-gains fate key v host cl resp h q

  -- A replica that acknowledges a write has it.
  pub put_op-gains :
      (node : Node) (key : String) (v : Version V) (net : String → Fate) (id : String)
      (cl : Cluster sb hb) (b : Bool)
      → AllSound hash sb hb laws cl
      → (put_op sb hb node key v net id cl).0 ≡ ok b
      → Holds hash sb hb laws key v id (put_op sb hb node key v net id cl).1
  unfolding put_op
  put_op-gains node key v net id cl b h e = elim (Bool-cases (id == node.node_id)) [
    | inl q ↦ rw q (local_put-gains key v id cl b h (rw q at e))
    | inr q ↦
        (let (resp, f, _) = >>=-eq-ok _ (write_status sb hb) (rw q at e) in
          rw q (call_put-gains node (net id) key v id cl resp h f))
  ]

  guard_put-gains :
      (node : Node) (key : String) (v : Version V) (holder : Option String) (fate : Fate)
      (id : String) (b : Bool) (r : Result Bool × Cluster sb hb)
      → (r.0 ≡ ok b → Holds hash sb hb laws key v id r.1)
      → (guard_put hash sb hb node key v holder fate id r).0 ≡ ok b
      → Holds hash sb hb laws key v id (guard_put hash sb hb node key v holder fate id r).1
  guard_put-gains node key v holder fate id b (ok c, cl) g e = g e
  guard_put-gains node key v holder fate id b (raise x, cl) g e =
      absurd (never (hint_failed hash sb hb node fate holder id key v cl).0 e)
    where
      never : (m : Result (Unit {0})) → (m >>= (λ _. raise x)) ≡ ok b → ⊥
      never (ok u) f = cc
      never (raise y) f = cc

  -- The operation that `put` fans out, with its hints, is one that `_quorum_op` can gather.
  pub guarded_put_op-IsOp :
      (node : Node) (key : String) (v : Version V) (holder : Option String)
      (hint_net net : String → Fate)
      → IsOp sb hb
          (guarded_put_op hash sb hb node key v holder hint_net net)
          (AllSound hash sb hb laws)
          (λ id b cl. Holds hash sb hb laws key v id cl)
  unfolding guarded_put_op
  guarded_put_op-IsOp node key v holder hint_net net = record {
    keeps = λ id cl h.
        (guarded_put_op-Grows hash sb hb laws node key v holder hint_net net id cl h).sound;
    gains = λ id cl b h e.
        guard_put-gains node key v holder (hint_net id) id b (put_op sb hb node key v net id cl)
          (put_op-gains node key v net id cl b h) e;
    stays = λ id j cl b h q.
        (guarded_put_op-Grows hash sb hb laws node key v holder hint_net net id cl h).kept key v j
          q;
  }
