-- ===== src/Node/Siblings.antt =====
-- src/dynamokv/node.py: `get`, a version or siblings.
use secure_dynamo_kv_store.Prelude.{
  ℕ, min, ◌≡◌, refl, sym, ◌∙◌, subst, inl, inr, String, string_eq, some, List, [], ◌∷◌, ◌++◌,
  length, ltb, Bool-cases, In, here, there, In-append-split, Unique, In-map,
}
use secure_dynamo_kv_store.Prelude.Result.{ok, raise, >>=-eq-ok, http_exception}
use secure_dynamo_kv_store.Dict
use secure_dynamo_kv_store.VectorClock.{Version, reconcile, reconcile_all}
use secure_dynamo_kv_store.VectorClock.Antichain.{Antichain}
use secure_dynamo_kv_store.VectorClock.Converge.{reconcile_all-Maximal}
use secure_dynamo_kv_store.HintStore.{Blob}
use secure_dynamo_kv_store.Storage.{StorageBackend, StorageLaws}
use secure_dynamo_kv_store.Node.Replica.{Node, Stored, Replica}
use secure_dynamo_kv_store.Node.Network.{Cluster, get_op, gather}
use secure_dynamo_kv_store.Node.Client.{
  Schedule, Reading, one, conflict, reading, preference_list, merge_results, merged_read,
}
use secure_dynamo_kv_store.Node.Coordinator.{get_from, get}
use secure_dynamo_kv_store.Node.Local.{stored}
use secure_dynamo_kv_store.Node.Gather.{gather-Gathered}
use secure_dynamo_kv_store.Node.Growth.{AllSound}
use secure_dynamo_kv_store.Node.Reads.{Lawful, Same, Answers, get_op-IsOp}

module _ {V : Type 0} where
  -- The versions of all answers.
  flat : List (String × List (Version V)) → List (Version V)
  flat [] = []
  flat ((id, vs) ∷ rs) = vs ++ flat rs

  In-flat :
      (rs : List (String × List (Version V))) (a : Version V)
      → In a (flat rs)
      → (id : String) × (vs : List (Version V)) × In (id, vs) rs × In a vs
  unfolding flat
  In-flat [] a m = elim m [ ]
  In-flat ((id, vs) ∷ rs) a m = elim (In-append-split vs (flat rs) m) [
    | inl l ↦ (id, vs, here refl, l)
    | inr r ↦ let (j, ws, i, k) = In-flat rs a r in (j, ws, there i, k)
  ]

  reconcile_all-append :
      (m vs ws : List (Version V))
      → reconcile_all m (vs ++ ws) ≡ reconcile_all (reconcile_all m vs) ws
  unfolding reconcile_all
  reconcile_all-append m [] ws = refl
  reconcile_all-append m (v ∷ vs) ws = reconcile_all-append (reconcile m v) vs ws

  merge_results-flat :
      (m : List (Version V)) (rs : List (String × List (Version V)))
      → merge_results m rs ≡ reconcile_all m (flat rs)
  unfolding merge_results flat reconcile_all
  merge_results-flat m [] = refl
  merge_results-flat m ((id, vs) ∷ rs) =
      merge_results-flat (reconcile_all m vs) rs ∙ sym (reconcile_all-append m vs (flat rs))

  -- The versions that a read returns.
  abbrev pub versions : Reading V → List (Version V)
  versions (one v) = v ∷ []
  versions (conflict vs) = vs

  reading-versions :
      (merged : List (Version V)) (r : Reading V) → reading merged ≡ ok r → merged ≡ versions r
  reading-versions [] r e = cc
  reading-versions (v ∷ []) r e = let same : one v ≡ r = cc in rw (← same)
  reading-versions (v ∷ w ∷ vs) r e = let same : conflict (v ∷ w ∷ vs) ≡ r = cc in rw (← same)

module _ {V : Type 0} (hash : String → ℕ) (sb : StorageBackend (Stored V))
    (hb : StorageBackend (Blob V)) (laws : StorageLaws sb) where
  -- Some node of the list stores the version.
  abbrev pub StoredBy : String → List String → Cluster sb hb → Version V → Type 0
  StoredBy key prefs cl a =
      (id : String) × (s : Replica sb hb) × In id prefs
      × (Dict.get cl id ≡ some s)
      × In a (stored sb hb laws s key)

  pub merged_read-Maximal :
      (node : Node) (key : String) (prefs : List String) (threshold : ℕ) (sched : Schedule)
      (cl : Cluster sb hb) (merged : List (Version V))
      → AllSound hash sb hb laws cl
      → Unique prefs
      → Lawful sched
      → (merged_read hash sb hb node key prefs threshold sched cl).0 ≡ ok merged
      → Antichain merged × ((a : Version V) → In a merged → StoredBy key prefs cl a)
  unfolding merged_read
  merged_read-Maximal node key prefs threshold sched cl merged h u law e =
      let f = gather sb hb threshold (get_op sb hb node key sched.net) (sched.order prefs) [] cl in
      let g =
        gather-Gathered sb hb (get_op sb hb node key sched.net) (Same hash sb hb laws cl)
          (λ id vs c. Answers hash sb hb laws key cl id vs)
          (get_op-IsOp hash sb hb laws node key sched.net cl h) threshold (sched.order prefs) cl
          (law.once prefs u) (λ j. refl) in
      elim (Bool-cases (ltb (length f.successes) threshold)) [
        | inl t ↦ let no : raise (http_exception 503) ≡ ok merged = rw t at e in cc
        | inr t ↦
            let m : ok (merge_results [] f.successes) ≡ ok merged = rw t at e in
            let same : merge_results [] f.successes ≡ merged = cc in
            let all : reconcile_all [] (flat f.successes) ≡ merged =
              sym (merge_results-flat [] f.successes) ∙ same in
            let best = reconcile_all-Maximal (flat f.successes) in
            (
              subst Antichain all best.antichain,
              λ a i.
                  let (id, vs, k, n) = In-flat f.successes a (best.sound a (rw (← all) at i)) in
                  let (s, q, w) = g.each id vs k in
                  (
                    id,
                    s,
                    law.asked prefs id
                        (g.known id (In-map (λ (x : String × List (Version V)). x.0) k)),
                    q,
                    rw w at n,
                  ),
            )
      ]

  -- What `get` returns, a version or the siblings of a conflict, are versions that nodes of the
  -- key's preference list store under the key, and none of them has seen another. Every replica's
  -- storage is in a valid state, the nodes of the list are different, and each operation of the
  -- fan-out completes at most once.
  pub get-Antichain :
      (node : Node) (key : String) (sched : Schedule) (cl : Cluster sb hb) (prefs : List String)
      (r : Reading V)
      → AllSound hash sb hb laws cl
      → Unique prefs
      → Lawful sched
      → preference_list hash sb hb node key ≡ ok prefs
      → (get hash sb hb node key sched cl).0 ≡ ok r
      → Antichain (versions r) × ((a : Version V) → In a (versions r) → StoredBy key prefs cl a)
  unfolding get
  get-Antichain node key sched cl prefs r h u law p e =
      let threshold = min node.r (length prefs) in
      let run = merged_read hash sb hb node key prefs threshold sched cl in
      let q : (get_from hash sb hb node key sched cl (ok prefs)).0 ≡ ok r = rw p at e in
      let (merged, f, g) = >>=-eq-ok run.0 reading q in
      rw (← reading-versions merged r g)
        (merged_read-Maximal node key prefs threshold sched cl merged h u law f)
