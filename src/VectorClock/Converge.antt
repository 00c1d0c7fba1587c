-- ===== src/VectorClock/Converge.antt =====
-- src/dynamokv/vector_clock.py: `reconcile`, one version after the other, against an abstract
-- description of what is left.
use secure_dynamo_kv_store.Prelude.{
  ◌≡◌, ◌⊎◌, inl, inr, List, [], ◌∷◌, In, here, there, In-cons, In-All, ◌↔◌,
}
use secure_dynamo_kv_store.VectorClock.{Version, reconcile, reconcile_all}
use secure_dynamo_kv_store.VectorClock.Order.{◌≤c◌, ≤c_trans}
use secure_dynamo_kv_store.VectorClock.Antichain.{
  Antichain, Covered, Incomparable, reconcile-Antichain, reconcile-In, reconcile-Covered,
  reconcile-Covered_new, reconcile-Covered_same,
}

module _ {ℓ} {V : Type ℓ} where
  -- `out` is what is left of `vs`: no superseded version, none made up, and none forgotten but
  -- for one that has seen as much.
  pub record Maximal (vs out : List (Version V)) : Type ℓ where
    pub antichain : Antichain out
    pub sound : (a : Version V) → In a out → In a vs
    pub complete : (a : Version V) → In a vs → Covered a out

  reconcile_all-Antichain : (m vs : List (Version V)) → Antichain m → Antichain (reconcile_all m vs)
  unfolding reconcile_all
  reconcile_all-Antichain m [] h = h
  reconcile_all-Antichain m (v ∷ vs) h =
      reconcile_all-Antichain (reconcile m v) vs (reconcile-Antichain m v h)

  reconcile_all-In :
      (m vs : List (Version V)) (a : Version V) → In a (reconcile_all m vs) → In a m ⊎ In a vs
  unfolding reconcile_all
  reconcile_all-In m [] a i = inl i
  reconcile_all-In m (v ∷ vs) a i = elim (reconcile_all-In (reconcile m v) vs a i) [
    | inl l ↦ elim (reconcile-In m v a l) [ inl p ↦ inl p | inr e ↦ inr (here e) ]
    | inr r ↦ inr (there r)
  ]

  pub reconcile_all-Covered :
      (m vs : List (Version V)) (a : Version V) → Covered a m → Covered a (reconcile_all m vs)
  unfolding reconcile_all
  reconcile_all-Covered m [] a c = c
  reconcile_all-Covered m (v ∷ vs) a c =
      reconcile_all-Covered (reconcile m v) vs a (reconcile-Covered m v a c)

  pub reconcile_all-Covered_new :
      (m vs : List (Version V)) (a : Version V) → In a vs → Covered a (reconcile_all m vs)
  unfolding reconcile_all
  reconcile_all-Covered_new m [] a i = elim i [ ]
  reconcile_all-Covered_new m (v ∷ vs) a (here e) =
      rw e (reconcile_all-Covered (reconcile m v) vs v (reconcile-Covered_new m v))
  reconcile_all-Covered_new m (v ∷ vs) a (there i) =
      reconcile_all-Covered_new (reconcile m v) vs a i

  -- Merging versions one at a time into an empty list leaves the maximal ones: what is left are
  -- versions of the input, none of which has seen another, and for each version of the input
  -- there is one left that has seen all that it has.
  pub reconcile_all-Maximal : (vs : List (Version V)) → Maximal vs (reconcile_all [] vs)
  reconcile_all-Maximal vs = record {
    antichain = reconcile_all-Antichain [] vs tt;
    sound = λ a i. elim (reconcile_all-In [] vs a i) [ inl n ↦ elim n [ ] | inr m ↦ m ];
    complete = reconcile_all-Covered_new [] vs;
  }

  Antichain-le :
      (vs : List (Version V)) (a b : Version V)
      → Antichain vs
      → In a vs
      → In b vs
      → a.clock ≤c b.clock
      → a ≡ b
  Antichain-le [] a b h i j le = elim i [ ]
  Antichain-le (v ∷ vs) a b h i j le = elim (In-cons i) [
    | inl p ↦ elim (In-cons j) [
      | inl q ↦ cc
      | inr n ↦ absurd ((In-All (Incomparable v) vs h.0 n).0 (rw p at le))
    ]
    | inr m ↦ elim (In-cons j) [
      | inl q ↦ absurd ((In-All (Incomparable v) vs h.0 m).1 (rw q at le))
      | inr n ↦ Antichain-le vs a b h.1 m n le
    ]
  ]

  -- Two lists with the same versions, in whatever order and however often, have the same maximal
  -- clocks: each version left of one has an equal clock left of the other.
  pub Maximal-agree :
      (vs ws xs ys : List (Version V))
      → Maximal vs xs
      → Maximal ws ys
      → ((a : Version V) → In a vs ↔ In a ws)
      → (x : Version V) → In x xs
      → (y : Version V) × In y ys × (x.clock ≤c y.clock) × (y.clock ≤c x.clock)
  Maximal-agree vs ws xs ys p q same x i =
      let (y, j, up) = q.complete x ((same x).0 (p.sound x i)) in
      let (z, k, down) = p.complete y ((same y).1 (q.sound y j)) in
      let e = Antichain-le xs x z p.antichain i k (≤c_trans x.clock y.clock z.clock up down) in
      (y, j, up, rw e down)

  -- If two lists of versions have the same members, in whatever order and however often, then for
  -- each version that is left of the merge of one there is a version left of the merge of the
  -- other whose clock counts the same.
  pub reconcile_all-converges :
      (vs ws : List (Version V))
      → ((a : Version V) → In a vs ↔ In a ws)
      → (x : Version V) → In x (reconcile_all [] vs)
      → (y : Version V) × In y (reconcile_all [] ws) × (x.clock ≤c y.clock) × (y.clock ≤c x.clock)
  reconcile_all-converges vs ws same =
      Maximal-agree vs ws (reconcile_all [] vs) (reconcile_all [] ws) (reconcile_all-Maximal vs)
        (reconcile_all-Maximal ws) same

  -- Of two versions with the same clock the one that is merged second is dropped, whatever the
  -- values are.
  pub reconcile_same_clock :
      (vs : List (Version V)) (v w : Version V)
      → v.clock ≡ w.clock
      → reconcile (reconcile vs v) w ≡ reconcile vs v
  reconcile_same_clock vs v w e =
      reconcile-Covered_same (reconcile vs v) w (rw (← e) (reconcile-Covered_new vs v))
