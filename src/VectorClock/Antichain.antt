-- ===== src/VectorClock/Antichain.antt =====
-- src/dynamokv/vector_clock.py: `reconcile` on a list of siblings.
use secure_dynamo_kv_store.Prelude.{
  ◌≡◌, refl, ◌⊎◌, inl, inr, Bool, true, false, not, List, [], ◌∷◌, ◌++◌, arith, filter, In, here,
  All, In-cons, In-append_left, In-append_right, In-append-split, In-filter, filter-In, In-All,
  All-In, All-append, any-true, any_of_In, Bool-cases,
}
use secure_dynamo_kv_store.VectorClock.{
  Version, compare, is_dominates, dominates_or_equal, is_stale, survivors, reconcile,
}
use secure_dynamo_kv_store.VectorClock.Order.{
  ◌≤c◌, ≤c_refl, ≤c_trans, dominates_or_equal_iff, is_dominates_iff,
}

module _ {ℓ} {V : Type ℓ} where
  -- Neither version knows of the other's write.
  abbrev pub Incomparable : Version V → Version V → Type 0
  Incomparable v w = (¬ (v.clock ≤c w.clock)) × (¬ (w.clock ≤c v.clock))

  abbrev pub Antichain : List (Version V) → Type 0
  Antichain [] = Unit
  Antichain (v ∷ vs) = All (Incomparable v) vs × Antichain vs

  -- Some version of the list has seen all the writes that `a` has seen.
  abbrev pub Covered : Version V → List (Version V) → Type ℓ
  Covered a vs = (r : Version V) × In r vs × (a.clock ≤c r.clock)

  stale→Covered : (vs : List (Version V)) (v : Version V) → is_stale vs v ≡ true → Covered v vs
  unfolding is_stale
  stale→Covered vs v h =
      let (r, m, t) = any-true (λ w. dominates_or_equal w.clock v.clock) vs h in
      (r, m, (dominates_or_equal_iff r.clock v.clock).0 t)

  Covered→stale : (vs : List (Version V)) (v : Version V) → Covered v vs → is_stale vs v ≡ true
  unfolding is_stale
  Covered→stale vs v (r, m, le) =
      any_of_In (λ w. dominates_or_equal w.clock v.clock) vs m
        ((dominates_or_equal_iff r.clock v.clock).1 le)

  fresh-not-le :
      (vs : List (Version V)) (v w : Version V)
      → is_stale vs v ≡ false
      → In w vs
      → ¬ (v.clock ≤c w.clock)
  fresh-not-le vs v w h m le = cc (h, Covered→stale vs v (w, m, le))

  -- A version that is covered, such as a retransmission, changes nothing.
  pub reconcile-Covered_same :
      (vs : List (Version V)) (v : Version V) → Covered v vs → reconcile vs v ≡ vs
  unfolding reconcile
  reconcile-Covered_same vs v c = rw (Covered→stale vs v c)

  survivor-In :
      (vs : List (Version V)) (v w : Version V)
      → In w (survivors vs v)
      → In w vs × (is_dominates (compare v.clock w.clock) ≡ false)
  unfolding survivors
  survivor-In vs v w m =
      let q = filter-In (λ w. not (is_dominates (compare v.clock w.clock))) vs m in
      (q.0, ground arith)

  -- A survivor of a fresh version is incomparable to it.
  survivor-Incomparable :
      (vs : List (Version V)) (v w : Version V)
      → is_stale vs v ≡ false
      → In w (survivors vs v)
      → Incomparable w v
  survivor-Incomparable vs v w h m =
      let (n, d) = survivor-In vs v w m in
      let up = fresh-not-le vs v w h n in
      (λ le. cc (d, (is_dominates_iff v.clock w.clock).1 (le, up)), up)

  Antichain-filter :
      (p : Version V → Bool) (vs : List (Version V)) → Antichain vs → Antichain (filter p vs)
  unfolding filter
  Antichain-filter p [] h = tt
  Antichain-filter p (v ∷ vs) h = elim (Bool-cases (p v)) [
    | inl s ↦ rw s (
      All-In (Incomparable v) (filter p vs)
          (λ a m. In-All (Incomparable v) vs h.0 (filter-In p vs m).0),
      Antichain-filter p vs h.1,
    )
    | inr s ↦ rw s (Antichain-filter p vs h.1)
  ]

  Antichain-snoc :
      (vs : List (Version V)) (v : Version V)
      → Antichain vs
      → All (λ w. Incomparable w v) vs
      → Antichain (vs ++ v ∷ [])
  Antichain-snoc [] v h g = (tt, tt)
  Antichain-snoc (w ∷ vs) v h g =
      (All-append (Incomparable w) vs (v ∷ []) h.0 (g.0, tt), Antichain-snoc vs v h.1 g.1)

  -- If no two versions of a list have seen one another, none have after another version is merged
  -- into it.
  pub reconcile-Antichain :
      (vs : List (Version V)) (v : Version V) → Antichain vs → Antichain (reconcile vs v)
  unfolding reconcile survivors
  reconcile-Antichain vs v h = elim (Bool-cases (is_stale vs v)) [
    | inl s ↦ rw s h
    | inr s ↦ rw s (
        Antichain-snoc (survivors vs v) v (Antichain-filter _ vs h) (
          All-In (λ w. Incomparable w v) (survivors vs v)
            (λ w m. survivor-Incomparable vs v w s m)))
  ]

  -- Nothing is made up.
  pub reconcile-In :
      (vs : List (Version V)) (v a : Version V) → In a (reconcile vs v) → In a vs ⊎ (a ≡ v)
  unfolding reconcile
  reconcile-In vs v a m = elim (Bool-cases (is_stale vs v)) [
    | inl s ↦ inl (rw s at m)
    | inr s ↦ elim (In-append-split (survivors vs v) (v ∷ []) (rw s at m)) [
      | inl l ↦ inl (survivor-In vs v a l).0
      | inr r ↦ elim (In-cons r) [ inl e ↦ inr e | inr n ↦ elim n [ ] ]
    ]
  ]

  -- What comes in is covered afterwards.
  pub reconcile-Covered_new : (vs : List (Version V)) (v : Version V) → Covered v (reconcile vs v)
  unfolding reconcile
  reconcile-Covered_new vs v = elim (Bool-cases (is_stale vs v)) [
    | inl s ↦ rw s (stale→Covered vs v s)
    | inr s ↦ rw s (v, In-append_right (survivors vs v) (here refl), ≤c_refl v.clock)
  ]

  reconcile-Covered_member :
      (vs : List (Version V)) (v r : Version V) → In r vs → Covered r (reconcile vs v)
  unfolding reconcile survivors
  reconcile-Covered_member vs v r m = elim (Bool-cases (is_stale vs v)) [
    | inl s ↦ rw s (r, m, ≤c_refl r.clock)
    | inr s ↦ elim (Bool-cases (is_dominates (compare v.clock r.clock))) [
      | inl d ↦ rw s (
        v,
        In-append_right (survivors vs v) (here refl),
        ((is_dominates_iff v.clock r.clock).0 d).0,
      )
      | inr d ↦ rw s (
        r,
        In-append_left (v ∷ [])
            (In-filter (λ w. not (is_dominates (compare v.clock w.clock))) vs m (rw d)),
        ≤c_refl r.clock,
      )
    ]
  ]

  -- What was covered stays covered.
  pub reconcile-Covered :
      (vs : List (Version V)) (v a : Version V) → Covered a vs → Covered a (reconcile vs v)
  reconcile-Covered vs v a (r, m, le) =
      let (s, n, ge) = reconcile-Covered_member vs v r m in
      (s, n, ≤c_trans a.clock r.clock s.clock le ge)
