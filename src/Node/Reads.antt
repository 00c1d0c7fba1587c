-- ===== src/Node/Reads.antt =====
-- src/dynamokv/node.py: `_get_op` and `_merged_read`.
use secure_dynamo_kv_store.Prelude.{
  ℕ, ◌≤◌, ◌≡◌, refl, sym, ap, ◌∙◌, inl, inr, String, string_eq, nat_eq, some, List, [], ◌∷◌, arith,
  length, ltb, ◌==◌, Bool-cases, Option-cases, In, In-cons, Unique, Below, eq_of_==, map-In, subst,
}
use secure_dynamo_kv_store.Prelude.Result.{ok, raise, ◌>>=◌, http_error, http_exception}
use secure_dynamo_kv_store.Dict
use secure_dynamo_kv_store.VectorClock.{Version, reconcile_all}
use secure_dynamo_kv_store.VectorClock.Order.{≤c_trans}
use secure_dynamo_kv_store.VectorClock.Antichain.{Covered}
use secure_dynamo_kv_store.VectorClock.Converge.{reconcile_all-Covered, reconcile_all-Covered_new}
use secure_dynamo_kv_store.HintStore.{Blob}
use secure_dynamo_kv_store.HintStore.Laws.{map-from_dict-to_dict}
use secure_dynamo_kv_store.Storage.{StorageBackend, StorageLaws}
use secure_dynamo_kv_store.Node.Replica.{Node, Stored, Replica, get_local}
use secure_dynamo_kv_store.Node.Network.{
  Fate, answered, unreachable, answer_lost, Cluster, on_replica, request, peer_base_url, call,
  get_key_local, get_op, get_response, read_status, gather,
}
use secure_dynamo_kv_store.Node.Client.{Schedule, merge_results, merged_read}
use secure_dynamo_kv_store.Node.Local.{stored, get_local-stored}
use secure_dynamo_kv_store.Node.Gather.{
  IsOp, Result-cases, gather-Gathered, names, length-names, ltb-false,
}
use secure_dynamo_kv_store.Node.Growth.{AllSound, Holds}

-- The operations of a list of nodes complete once each, in some order.
pub record Lawful (sched : Schedule) : Type 0 where
  pub once : (l : List String) → Unique l → Unique (sched.order l)
  pub asked : (l : List String) → Below (sched.order l) l

module _ {V : Type 0} (hash : String → ℕ) (sb : StorageBackend (Stored V))
    (hb : StorageBackend (Blob V)) (laws : StorageLaws sb) where
  -- The same replicas run in the same states.
  abbrev pub Same : Cluster sb hb → Cluster sb hb → Type 0
  Same cl cl' = (j : String) → Dict.get cl' j ≡ Dict.get cl j

  -- What a read of a node returns.
  abbrev pub Answers : String → Cluster sb hb → String → List (Version V) → Type 0
  Answers key cl id vs =
      (s : Replica sb hb) × (Dict.get cl id ≡ some s) × (vs ≡ stored sb hb laws s key)

  put_back :
      (cl : Cluster sb hb) (host j : String) (s : Replica sb hb)
      → Dict.get cl host ≡ some s
      → Dict.get (Dict.put cl host s) j ≡ Dict.get cl j
  put_back cl host j s g = elim (Bool-cases (host == j)) [
    | inl q ↦ rw (Dict.get-put, q, ← eq_of_== host j q, g)
    | inr q ↦ rw (Dict.get-put, q)
  ]

  module _ {A : Type 0} where
    on_replica-Same :
        (cl : Cluster sb hb) (host : String) (o : A) (f : Replica sb hb → A × Replica sb hb)
        → ((s : Replica sb hb) → (f s).1 ≡ s)
        → Same cl (on_replica sb hb host o f cl).1
    unfolding on_replica
    on_replica-Same cl host o f same j = elim (Option-cases (Dict.get cl host)) [
      | inl n ↦ rw (n, on_replica)
      | inr (s, g) ↦ rw (g, on_replica, same s) (put_back cl host j s g)
    ]

  request-Same :
      (fate : Fate) (host key : String) (cl : Cluster sb hb)
      → Same cl (request sb hb fate host (get_key_local sb hb key) cl).1
  unfolding request get_key_local
  request-Same unreachable host key cl j = refl
  request-Same answered host key cl j = on_replica-Same cl host (raise http_error) _ (λ s. refl) j
  request-Same answer_lost host key cl j =
      on_replica-Same cl host (raise http_error) _ (λ s. refl) j

  pub get_op-Same :
      (node : Node) (key : String) (net : String → Fate) (id : String) (cl : Cluster sb hb)
      → Same cl (get_op sb hb node key net id cl).1
  unfolding get_op call
  get_op-Same node key net id cl j = elim (Bool-cases (id == node.node_id)) [
    | inl q ↦ rw q (on_replica-Same cl id (raise http_error) _ (λ s. refl) j)
    | inr q ↦ elim (Result-cases (peer_base_url sb hb node id)) [
      | inr (x, p) ↦ rw (q, p)
      | inl (url, p) ↦ rw (q, p) (request-Same (net id) id key cl j)
    ]
  ]

  -- A response to a read is read as what the handler had.
  status-response : (vs : List (Version V)) → read_status sb hb (get_response sb hb (ok vs)) ≡ ok vs
  status-response [] = refl
  status-response (v ∷ vs) = ap ok (map-from_dict-to_dict (v ∷ vs))

  local_get-Answers :
      (key host : String) (cl : Cluster sb hb) (vs : List (Version V))
      → AllSound hash sb hb laws cl
      → (on_replica sb hb host (raise http_error) (λ s. (get_local sb hb s key, s)) cl).0 ≡ ok vs
      → Answers key cl host vs
  unfolding on_replica
  local_get-Answers key host cl vs h e = elim (Option-cases (Dict.get cl host)) [
    | inl n ↦ let f : raise http_error ≡ ok vs = rw (n, on_replica) at e in cc
    | inr (s, g) ↦
        let f : get_local sb hb s key ≡ ok vs = rw (g, on_replica) at e in
        let k = get_local-stored sb hb laws s key (h host s g) in
        let both : ok (stored sb hb laws s key) ≡ ok vs = sym k ∙ f in (s, g, cc)
  ]

  remote_get-Answers :
      (fate : Fate) (key host : String) (cl : Cluster sb hb) (vs : List (Version V))
      → AllSound hash sb hb laws cl
      → (request sb hb fate host (get_key_local sb hb key) cl).0 >>= read_status sb hb ≡ ok vs
      → Answers key cl host vs
  unfolding request on_replica get_key_local
  remote_get-Answers unreachable key host cl vs h e = cc
  remote_get-Answers answer_lost key host cl vs h e = elim (Option-cases (Dict.get cl host)) [
    | inl n ↦ let f : raise http_error ≡ ok vs = rw (n, on_replica) at e in cc
    | inr (s, g) ↦ let f : raise http_error ≡ ok vs = rw (g, on_replica) at e in cc
  ]
  remote_get-Answers answered key host cl vs h e = elim (Option-cases (Dict.get cl host)) [
    | inl n ↦ let f : raise http_error ≡ ok vs = rw (n, on_replica) at e in cc
    | inr (s, g) ↦
        let k = get_local-stored sb hb laws s key (h host s g) in
        let f : read_status sb hb (get_response sb hb (ok (stored sb hb laws s key))) ≡ ok vs =
          rw (g, on_replica, k) at e in
        let both : ok (stored sb hb laws s key) ≡ ok vs =
          sym (status-response (stored sb hb laws s key)) ∙ f in
        (s, g, cc)
  ]

  get_op-Answers :
      (node : Node) (key : String) (net : String → Fate) (id : String) (cl : Cluster sb hb)
      (vs : List (Version V))
      → AllSound hash sb hb laws cl
      → (get_op sb hb node key net id cl).0 ≡ ok vs
      → Answers key cl id vs
  unfolding get_op call
  get_op-Answers node key net id cl vs h e = elim (Bool-cases (id == node.node_id)) [
    | inl q ↦ local_get-Answers key id cl vs h (rw q at e)
    | inr q ↦ elim (Result-cases (peer_base_url sb hb node id)) [
      | inr (x, p) ↦ let f : raise x ≡ ok vs = rw (q, p) at e in cc
      | inl (url, p) ↦ remote_get-Answers (net id) key id cl vs h (rw (q, p) at e)
    ]
  ]

  pub Same-AllSound :
      (cl cl' : Cluster sb hb)
      → Same cl cl'
      → AllSound hash sb hb laws cl
      → AllSound hash sb hb laws cl'
  Same-AllSound cl cl' same h id s g = h id s (sym (same id) ∙ g)

  pub get_op-IsOp :
      (node : Node) (key : String) (net : String → Fate) (cl₀ : Cluster sb hb)
      → AllSound hash sb hb laws cl₀
      → IsOp sb hb (get_op sb hb node key net) (Same cl₀) (λ id vs cl. Answers key cl₀ id vs)
  get_op-IsOp node key net cl₀ h = record {
    keeps = λ id cl same j. get_op-Same node key net id cl j ∙ same j;
    gains = λ id cl vs same e.
        let (s, g, q) = get_op-Answers node key net id cl vs (Same-AllSound cl₀ cl same h) e in
        (s, sym (same id) ∙ g, q);
    stays = λ id j cl vs same q. q;
  }

  -- What a merge of the answers has seen: all that one of them has.
  merge_results-kept :
      (m : List (Version V)) (rs : List (String × List (Version V))) (v : Version V)
      → Covered v m
      → Covered v (merge_results m rs)
  unfolding merge_results
  merge_results-kept m [] v c = c
  merge_results-kept m ((id, vs) ∷ rs) v c =
      merge_results-kept (reconcile_all m vs) rs v (reconcile_all-Covered m vs v c)

  pub merge_results-Covered :
      (m : List (Version V)) (rs : List (String × List (Version V))) (id : String)
      (vs : List (Version V)) (v : Version V)
      → In (id, vs) rs
      → Covered v vs
      → Covered v (merge_results m rs)
  unfolding merge_results
  merge_results-Covered m [] id vs v i c = elim i [ ]
  merge_results-Covered m ((j, ws) ∷ rs) id vs v i (r, k, le) = elim (In-cons i) [
    | inl e ↦
        let here_now : vs ≡ ws = ap (λ (x : String × List (Version V)). x.1) e in
        let (t, l, up) = reconcile_all-Covered_new m ws r (rw here_now at k) in
        merge_results-kept (reconcile_all m ws) rs v (t, l, ≤c_trans v.clock r.clock t.clock le up)
    | inr n ↦ merge_results-Covered (reconcile_all m ws) rs id vs v n (r, k, le)
  ]

  -- A read that reaches its threshold: different nodes of the list that answered, as many as were
  -- asked for, and all that one of them stores is in the merge.
  pub record ReadBy (key : String) (prefs : List String) (threshold : ℕ) (cl : Cluster sb hb)
      (merged : List (Version V)) : Type 0 where
    pub readers : List String
    pub unique : Unique readers
    pub known : Below readers prefs
    pub enough : threshold ≤ length readers
    pub seen :
        (id : String) (v : Version V)
        → In id readers
        → Holds hash sb hb laws key v id cl
        → Covered v merged

  -- A read that returns has been answered by different nodes of the list, at least the threshold
  -- of them, and the versions that it returns have seen all that the versions stored by any of
  -- these nodes have. Every replica's storage is in a valid state, the nodes of the list are
  -- different, and each operation of the fan-out completes at most once.
  pub merged_read-ReadBy :
      (node : Node) (key : String) (prefs : List String) (threshold : ℕ) (sched : Schedule)
      (cl : Cluster sb hb) (merged : List (Version V))
      → AllSound hash sb hb laws cl
      → Unique prefs
      → Lawful sched
      → (merged_read hash sb hb node key prefs threshold sched cl).0 ≡ ok merged
      → ReadBy key prefs threshold cl merged
  unfolding merged_read
  merged_read-ReadBy node key prefs threshold sched cl merged h u law e =
      let f = gather sb hb threshold (get_op sb hb node key sched.net) (sched.order prefs) [] cl in
      let g =
        gather-Gathered sb hb (get_op sb hb node key sched.net) (Same cl)
          (λ id vs c. Answers key cl id vs) (get_op-IsOp node key sched.net cl h) threshold
          (sched.order prefs) cl (law.once prefs u) (λ j. refl) in
      elim (Bool-cases (ltb (length f.successes) threshold)) [
        | inl t ↦ let no : raise (http_exception 503) ≡ ok merged = rw t at e in cc
        | inr t ↦
            let m : ok (merge_results [] f.successes) ≡ ok merged = rw t at e in
            let same : merge_results [] f.successes ≡ merged = cc in
            record {
              readers = names f.successes;
              unique = g.unique;
              known = λ a i. law.asked prefs a (g.known a i);
              enough =
                  omega
                    (arith, length-names f.successes, ltb-false (length f.successes) threshold t);
              seen = λ id v i (s, q, c).
                  let ((j, vs), k, n) =
                    map-In (λ (x : String × List (Version V)). x.0) f.successes i in
                  let (s', q', w) = g.each j vs k in
                  let both : some s ≡ some s' = sym q ∙ rw n q' in
                  let one : s ≡ s' = cc in
                  subst (Covered v) same
                    (merge_results-Covered [] f.successes j vs v k (rw w (rw one at c)));
            }
      ]

  pub merged_read-Same :
      (node : Node) (key : String) (prefs : List String) (threshold : ℕ) (sched : Schedule)
      (cl : Cluster sb hb)
      → AllSound hash sb hb laws cl
      → Unique prefs
      → Lawful sched
      → Same cl (merged_read hash sb hb node key prefs threshold sched cl).1
  unfolding merged_read
  merged_read-Same node key prefs threshold sched cl h u law =
      (gather-Gathered sb hb (get_op sb hb node key sched.net) (Same cl)
        (λ id vs c. Answers key cl id vs) (get_op-IsOp node key sched.net cl h) threshold
        (sched.order prefs) cl (law.once prefs u) (λ j. refl)).holds
