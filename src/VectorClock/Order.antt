-- ===== src/VectorClock/Order.antt =====
-- src/dynamokv/vector_clock.py: `compare` and the pointwise order of clocks.
use secure_dynamo_kv_store.Prelude.{
  ◌≡◌, string_eq, ◌⊎◌, inl, inr, ◌↔◌, String, true, false, List, arith, In, all-In, all_of_In,
  all-false, Bool-cases, Option-cases, In-append_left, In-append_right,
}
use secure_dynamo_kv_store.Prelude.Int.{pos, ◌≤ℤ◌, ◌<ℤ◌, leb_ℤ, leb_ℤ→le, le→leb_ℤ, leb_ℤ→gt}
use secure_dynamo_kv_store.Dict
use secure_dynamo_kv_store.Dict.{Dict}
use secure_dynamo_kv_store.VectorClock.{
  VectorClock, Comparison, equal, dominates, dominated, concurrent, count, keys, ge_on, compare,
  is_dominates, dominates_or_equal, clock_eq,
}

-- Each node's counter in `a` is at most that in `b`.
infix 50 ◌≤c◌
abbrev pub ◌≤c◌ : VectorClock → VectorClock → Type 0
a ≤c b = (k : String) → count a k ≤ℤ count b k

pub ≤c_refl : (a : VectorClock) → a ≤c a
≤c_refl a k = omega arith

pub ≤c_trans : (a b c : VectorClock) → a ≤c b → b ≤c c → a ≤c c
≤c_trans a b c h g k = omega (arith, h k, g k)

-- A node that neither clock names counts 0 in both.
count_absent :
    (a b : VectorClock) (k : String)
    → (In k (keys a b)) ⊎ ((count a k ≡ pos 0) × (count b k ≡ pos 0))
unfolding count keys
count_absent a b k = elim (Option-cases (Dict.get a.counters k)) [
  | inr (v, h) ↦ inl (In-append_left (Dict.keys b.counters) (Dict.In-keys_of_get a.counters k h))
  | inl p ↦ elim (Option-cases (Dict.get b.counters k)) [
    | inr (v, h) ↦ inl (In-append_right (Dict.keys a.counters) (Dict.In-keys_of_get b.counters k h))
    | inl q ↦ inr (rw p, rw q)
  ]
]

-- The test over the union of the keys is the pointwise order.
ge_on→≤c : (a b : VectorClock) → ge_on (keys a b) a b ≡ true → b ≤c a
unfolding ge_on
ge_on→≤c a b h k = elim (count_absent a b k) [
  | inl m ↦
      leb_ℤ→le (count b k) (count a k) (all-In (λ j. leb_ℤ (count b j) (count a j)) (keys a b) h m)
  | inr (p, q) ↦ rw (p, q) (omega arith)
]

≤c→ge_on : (ks : List String) (a b : VectorClock) → b ≤c a → ge_on ks a b ≡ true
unfolding ge_on
≤c→ge_on ks a b h = all_of_In _ ks (λ k m. le→leb_ℤ (count b k) (count a k) (h k))

ge_on-false :
    (ks : List String) (a b : VectorClock)
    → ge_on ks a b ≡ false
    → (k : String) × (count a k <ℤ count b k)
unfolding ge_on
ge_on-false ks a b h =
    let (k, m, f) = all-false (λ j. leb_ℤ (count b j) (count a j)) ks h in
    (k, leb_ℤ→gt (count b k) (count a k) f)

ge_on→≤c_flip : (a b : VectorClock) → ge_on (keys a b) b a ≡ true → a ≤c b
unfolding ge_on
ge_on→≤c_flip a b h k = elim (count_absent a b k) [
  | inl m ↦
      leb_ℤ→le (count a k) (count b k) (all-In (λ j. leb_ℤ (count a j) (count b j)) (keys a b) h m)
  | inr (p, q) ↦ rw (p, q) (omega arith)
]

-- What each answer of `compare` says of the two clocks.
abbrev pub Says : Comparison → VectorClock → VectorClock → Type 0
Says equal a b = (a ≤c b) × (b ≤c a)
Says dominates a b = (b ≤c a) × ((k : String) × (count b k <ℤ count a k))
Says dominated a b = (a ≤c b) × ((k : String) × (count a k <ℤ count b k))
Says concurrent a b =
    ((k : String) × (count b k <ℤ count a k)) × ((k : String) × (count a k <ℤ count b k))

-- Every answer of `compare` says what it means: with "equal" the two clocks count the same, with
-- "dominates" and "dominated" one is pointwise at most the other and strictly behind at some
-- node, and with "concurrent" each of them is strictly ahead at some node.
pub compare-Says : (a b : VectorClock) → Says (compare a b) a b
unfolding compare
compare-Says a b = elim (Bool-cases (ge_on (keys a b) a b)) [
  | inl p ↦ elim (Bool-cases (ge_on (keys a b) b a)) [
    | inl q ↦ rw (p, q) (ge_on→≤c_flip a b q, ge_on→≤c a b p)
    | inr q ↦ rw (p, q) (ge_on→≤c a b p, ge_on-false (keys a b) b a q)
  ]
  | inr p ↦ elim (Bool-cases (ge_on (keys a b) b a)) [
    | inl q ↦ rw (p, q) (ge_on→≤c_flip a b q, ge_on-false (keys a b) a b p)
    | inr q ↦ rw (p, q) (ge_on-false (keys a b) b a q, ge_on-false (keys a b) a b p)
  ]
]

-- `dominates_or_equal` holds exactly if each counter of the other clock is at most that of this
-- one.
pub dominates_or_equal_iff : (a b : VectorClock) → (dominates_or_equal a b ≡ true) ↔ (b ≤c a)
unfolding dominates_or_equal compare
dominates_or_equal_iff a b =
    (λ h. ge_on→≤c a b (ground arith), λ h. let p = ≤c→ge_on (keys a b) a b h in ground (arith, p))

-- `clock_eq` decides that the clocks count the same.
pub clock_eq_iff : (a b : VectorClock) → (clock_eq a b ≡ true) ↔ ((a ≤c b) × (b ≤c a))
unfolding clock_eq compare
clock_eq_iff a b = (
  λ h. (ge_on→≤c_flip a b (ground arith), ge_on→≤c a b (ground arith)),
  λ h. ground (arith, ≤c→ge_on (keys a b) a b h.1, ≤c→ge_on (keys a b) b a h.0),
)

-- `compare` answers "dominates" exactly when the order holds one way and not the other.
pub is_dominates_iff :
    (a b : VectorClock) → (is_dominates (compare a b) ≡ true) ↔ ((b ≤c a) × (¬ (a ≤c b)))
unfolding compare
is_dominates_iff a b = (
  λ h. (ge_on→≤c a b (ground arith), λ le. let q = ≤c→ge_on (keys a b) b a le in ground (arith, q)),
  λ (h, n). elim (Bool-cases (ge_on (keys a b) b a)) [
    | inl q ↦ absurd (n (ge_on→≤c_flip a b q))
    | inr q ↦ rw (≤c→ge_on (keys a b) a b h, q)
  ],
)
