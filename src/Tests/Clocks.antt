-- ===== src/Tests/Clocks.antt =====
-- Clocks and siblings of two coordinators, `a` and `b`.
use secure_dynamo_kv_store.Prelude.{
  ℕ, ◌≡◌, refl, ◌↔◌, string_eq, List, [], ◌∷◌, In, here, there, In-cons, inl, inr, all, any, filter,
}
use secure_dynamo_kv_store.Prelude.Int.{pos}
use secure_dynamo_kv_store.Dict
use secure_dynamo_kv_store.VectorClock.{
  VectorClock, Version, compare, dominates_or_equal, reconcile, reconcile_all,
}
use secure_dynamo_kv_store.VectorClock.Order.{◌≤c◌, Says, compare-Says}
use secure_dynamo_kv_store.VectorClock.Converge.{
  Maximal, reconcile_all-Maximal, reconcile_all-converges, reconcile_same_clock,
}

abbrev at_a : VectorClock
at_a = record { counters = ("a", pos 2) ∷ [] }

abbrev at_b : VectorClock
at_b = record { counters = ("a", pos 1) ∷ ("b", pos 1) ∷ [] }

abbrev both : VectorClock
both = record { counters = ("a", pos 2) ∷ ("b", pos 1) ∷ [] }

abbrev left : Version ℕ
left = record { value = 1; clock = at_a }

abbrev right : Version ℕ
right = record { value = 2; clock = at_b }

abbrev newest : Version ℕ
newest = record { value = 3; clock = both }

-- A second write with the clock of `left`.
abbrev twin : Version ℕ
twin = record { value = 4; clock = at_a }

abbrev arrivals : List (Version ℕ)
arrivals = left ∷ right ∷ []

swapped : (a : Version ℕ) → In a (left ∷ right ∷ []) ↔ In a (right ∷ left ∷ [])
swapped a = (
  λ m. elim (In-cons m) [
    | inl e ↦ there (here e)
    | inr n ↦ elim (In-cons n) [ inl e ↦ here e | inr z ↦ elim z [ ] ]
  ],
  λ m. elim (In-cons m) [
    | inl e ↦ there (here e)
    | inr n ↦ elim (In-cons n) [ inl e ↦ here e | inr z ↦ elim z [ ] ]
  ],
)

survives : In left (reconcile_all [] arrivals)
unfolding reconcile_all reconcile any filter dominates_or_equal all Dict.get
survives = here refl

compare-Says_example : Says (compare at_a at_b) at_a at_b
compare-Says_example = compare-Says at_a at_b

reconcile_all-Maximal_example : Maximal arrivals (reconcile_all [] arrivals)
reconcile_all-Maximal_example = reconcile_all-Maximal arrivals

reconcile_all-converges_example :
    (y : Version ℕ) × In y (reconcile_all [] (right ∷ left ∷ []))
    × (left.clock ≤c y.clock)
    × (y.clock ≤c left.clock)
reconcile_all-converges_example =
    reconcile_all-converges arrivals (right ∷ left ∷ []) swapped left survives

reconcile_same_clock_example : reconcile (reconcile [] left) twin ≡ reconcile [] left
reconcile_same_clock_example = reconcile_same_clock [] left twin refl
