-- ===== src/VectorClock/Merge.antt =====
-- src/dynamokv/vector_clock.py: `incremented` and `merge`.
use secure_dynamo_kv_store.Prelude.{
  ◌≡◌, string_eq, inl, inr, String, List, [], ◌∷◌, arith, if◌then◌else◌, ◌==◌, In, Bool-cases,
  ==_refl, eq_of_==, In-cons,
}
use secure_dynamo_kv_store.Prelude.Int.{
  ℤ, pos, ◌≤ℤ◌, suc_ℤ, max_ℤ, suc_ℤ-gt, max_ℤ-ge_left, max_ℤ-ge_right, ≤ℤ_refl, ≤ℤ_trans,
}
use secure_dynamo_kv_store.Dict
use secure_dynamo_kv_store.Dict.{Dict}
use secure_dynamo_kv_store.VectorClock.{
  VectorClock, count, incremented, merge_items, merge_from, merge,
}
use secure_dynamo_kv_store.VectorClock.Order.{◌≤c◌}

pub count-incremented :
    (c : VectorClock) (n k : String)
    → count (incremented c n) k ≡ (if n == k then suc_ℤ (count c n) else count c k)
unfolding count incremented
count-incremented c n k =
    ground (arith, Dict.get-put c.counters n k (suc_ℤ (Dict.get_or c.counters n (pos 0))))

-- A clock is at most the clock that is incremented from it, and the incremented one is not at
-- most it.
pub incremented-gt :
    (c : VectorClock) (n : String) → (c ≤c incremented c n) × (¬ (incremented c n ≤c c))
incremented-gt c n = (
  λ k. elim (Bool-cases (n == k)) [
    | inl s ↦ rw (count-incremented, s, eq_of_== n k s) (omega (arith, suc_ℤ-gt (count c k)))
    | inr s ↦ rw (count-incremented, s) (≤ℤ_refl (count c k))
  ],
  λ h.
      let own : suc_ℤ (count c n) ≤ℤ count c n = rw (count-incremented, ==_refl n) at (h n) in
      omega (arith, suc_ℤ-gt (count c n)),
)

-- A counter of a dict under construction.
abbrev cnt : Dict String ℤ → String → ℤ
cnt r k = Dict.get_or r k (pos 0)

abbrev step : Dict String ℤ → String → ℤ → Dict String ℤ
step r k v = Dict.put r k (max_ℤ (cnt r k) v)

cnt-step :
    (r : Dict String ℤ) (k j : String) (v : ℤ)
    → cnt (step r k v) j ≡ (if k == j then max_ℤ (cnt r k) v else cnt r j)
cnt-step r k j v = ground (arith, Dict.get-put r k j (max_ℤ (cnt r k) v))

step-ge : (r : Dict String ℤ) (k j : String) (v : ℤ) → cnt r j ≤ℤ cnt (step r k v) j
step-ge r k j v = elim (Bool-cases (k == j)) [
  | inl s ↦ rw (cnt-step r k j v, s, eq_of_== k j s) (max_ℤ-ge_left (cnt r j) v)
  | inr s ↦ rw (cnt-step r k j v, s) (≤ℤ_refl (cnt r j))
]

merge_items-ge_left :
    (r items : Dict String ℤ) (j : String) → cnt r j ≤ℤ cnt (merge_items r items) j
unfolding merge_items
merge_items-ge_left r [] j = ≤ℤ_refl (cnt r j)
merge_items-ge_left r ((k, v) ∷ items) j =
    ≤ℤ_trans (cnt r j) (cnt (step r k v) j) (cnt (merge_items (step r k v) items) j)
      (step-ge r k j v) (merge_items-ge_left (step r k v) items j)

merge_items-ge_right :
    (r items : Dict String ℤ) (j : String)
    → pos 0 ≤ℤ cnt r j
    → cnt items j ≤ℤ cnt (merge_items r items) j
unfolding merge_items Dict.get
merge_items-ge_right r [] j h = h
merge_items-ge_right r ((k, v) ∷ items) j h = elim (Bool-cases (k == j)) [
  | inl s ↦
      let e = eq_of_== k j s in
      let top : cnt (step r k v) k ≡ max_ℤ (cnt r k) v = simp (cnt-step, ==_refl) in
      let up : v ≤ℤ cnt (step r k v) k = rw top (max_ℤ-ge_right (cnt r k) v) in
      rw s (
        ≤ℤ_trans v (cnt (step r k v) j) (cnt (merge_items (step r k v) items) j) (rw (← e) up)
          (merge_items-ge_left (step r k v) items j))
  | inr s ↦ rw s (
      merge_items-ge_right (step r k v) items j
        (≤ℤ_trans (pos 0) (cnt r j) (cnt (step r k v) j) h (step-ge r k j v)))
]

merge_from-ge_left :
    (r : Dict String ℤ) (cs : List VectorClock) (j : String) → cnt r j ≤ℤ cnt (merge_from r cs) j
unfolding merge_from
merge_from-ge_left r [] j = ≤ℤ_refl (cnt r j)
merge_from-ge_left r (c ∷ cs) j =
    let r' = merge_items r c.counters in
    ≤ℤ_trans (cnt r j) (cnt r' j) (cnt (merge_from r' cs) j) (merge_items-ge_left r c.counters j)
      (merge_from-ge_left r' cs j)

merge_from-ge :
    (r : Dict String ℤ) (cs : List VectorClock) (c : VectorClock) (j : String)
    → In c cs
    → pos 0 ≤ℤ cnt r j
    → cnt c.counters j ≤ℤ cnt (merge_from r cs) j
unfolding merge_from
merge_from-ge r [] c j m z = elim m [ ]
merge_from-ge r (b ∷ cs) c j m z =
    let r' = merge_items r b.counters in
    elim (In-cons m) [
      | inl e ↦ rw e (
          ≤ℤ_trans (cnt b.counters j) (cnt r' j) (cnt (merge_from r' cs) j)
            (merge_items-ge_right r b.counters j z) (merge_from-ge_left r' cs j))
      | inr n ↦
          merge_from-ge r' cs c j n
            (≤ℤ_trans (pos 0) (cnt r j) (cnt r' j) z (merge_items-ge_left r b.counters j))
    ]

-- The merge of clocks is above each of them.
pub merge-ge : (cs : List VectorClock) (c : VectorClock) → In c cs → c ≤c merge cs
unfolding merge count Dict.get
merge-ge cs c m j = merge_from-ge [] cs c j m (omega arith)

-- The clock that a coordinator gives a new write, over the versions that it has read.
pub next-gt :
    (cs : List VectorClock) (c : VectorClock) (n : String)
    → In c cs
    → (c ≤c incremented (merge cs) n) × (¬ (incremented (merge cs) n ≤c c))
next-gt cs c n m =
    let up = merge-ge cs c m in
    let gt = incremented-gt (merge cs) n in
    (λ k. omega (arith, up k, gt.0 k), λ h. gt.1 (λ k. omega (arith, h k, up k)))
