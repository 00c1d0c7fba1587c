-- ===== src/VectorClock.antt =====
-- src/dynamokv/vector_clock.py: vector clocks, versions, and the merge of sibling versions.
pub mod Order
pub mod Merge
pub mod Antichain
pub mod Converge
use secure_dynamo_kv_store.Prelude.{
  string_eq, String, Bool, true, false, not, ◌&&◌, List, [], ◌∷◌, ◌++◌, all, any, filter,
  if◌then◌else◌,
}
use secure_dynamo_kv_store.Prelude.Int.{ℤ, pos, leb_ℤ, suc_ℤ, max_ℤ}
use secure_dynamo_kv_store.Dict
use secure_dynamo_kv_store.Dict.{Dict}

pub record VectorClock : Type 0 where
  pub counters : Dict String ℤ

-- `get`: a missing entry is treated as 0.
unfoldable pub count : VectorClock → String → ℤ
count c node_id = Dict.get_or c.counters node_id (pos 0)

unfoldable pub incremented : VectorClock → String → VectorClock
incremented c node_id = record {
  counters = Dict.put c.counters node_id (suc_ℤ (Dict.get_or c.counters node_id (pos 0)));
}

pub data Comparison : Type 0 where
  equal dominates dominated concurrent : Comparison

-- The union of the keys; its order and repetitions do not matter to `all`.
unfoldable pub keys : VectorClock → VectorClock → List String
keys a b = Dict.keys a.counters ++ Dict.keys b.counters

-- all(a.get(k) >= b.get(k) for k in keys)
unfoldable pub ge_on : List String → VectorClock → VectorClock → Bool
unfolding count
ge_on ks a b = all (λ k. leb_ℤ (count b k) (count a k)) ks

unfoldable pub compare : VectorClock → VectorClock → Comparison
unfolding ge_on keys
compare a b =
    let self_ge = ge_on (keys a b) a b in
    let other_ge = ge_on (keys a b) b a in
    if self_ge && other_ge
    then equal
    else if self_ge
    then dominates
    else if other_ge
    then dominated
    else concurrent

-- in ("dominates", "equal")
abbrev pub at_least : Comparison → Bool
at_least dominates = true
at_least equal = true
at_least _ = false

abbrev pub is_dominates : Comparison → Bool
is_dominates dominates = true
is_dominates _ = false

abbrev pub is_equal : Comparison → Bool
is_equal equal = true
is_equal _ = false

unfoldable pub dominates_or_equal : VectorClock → VectorClock → Bool
unfolding compare
dominates_or_equal a b = at_least (compare a b)

-- `__eq__` between two clocks
unfoldable pub clock_eq : VectorClock → VectorClock → Bool
unfolding compare
clock_eq a b = is_equal (compare a b)

-- The loops of `merge`: over one clock's items, then over the clocks.
unfoldable pub merge_items : Dict String ℤ → Dict String ℤ → Dict String ℤ
merge_items result [] = result
merge_items result ((k, v) ∷ items) =
    merge_items (Dict.put result k (max_ℤ (Dict.get_or result k (pos 0)) v)) items

unfoldable pub merge_from : Dict String ℤ → List VectorClock → Dict String ℤ
unfolding merge_items
merge_from result [] = result
merge_from result (c ∷ clocks) = merge_from (merge_items result c.counters) clocks

unfoldable pub merge : List VectorClock → VectorClock
unfolding merge_from
merge clocks = record { counters = merge_from [] clocks }

pub record Version {ℓ} (V : Type ℓ) : Type ℓ where
  pub value : V
  pub clock : VectorClock

-- The dict with the keys "value" and "clock" that a version is stored and sent as.
pub record VersionDict {ℓ} (V : Type ℓ) : Type ℓ where
  pub value : V
  pub clock : Dict String ℤ

module _ {ℓ} {V : Type ℓ} where
  unfoldable pub to_dict : Version V → VersionDict V
  to_dict v = record { value = v.value; clock = v.clock.counters }

  unfoldable pub from_dict : VersionDict V → Version V
  from_dict d = record { value = d.value; clock = record { counters = d.clock } }

  -- The test of the loop of `reconcile`: is `incoming` stale or a duplicate?
  unfoldable pub is_stale : List (Version V) → Version V → Bool
  is_stale existing incoming = any (λ v. dominates_or_equal v.clock incoming.clock) existing

  unfoldable pub survivors : List (Version V) → Version V → List (Version V)
  survivors existing incoming =
      filter (λ v. not (is_dominates (compare incoming.clock v.clock))) existing

  unfoldable pub reconcile : List (Version V) → Version V → List (Version V)
  unfolding is_stale survivors
  reconcile existing incoming =
      if is_stale existing incoming then existing else survivors existing incoming ++ incoming ∷ []

  -- One version at a time into a running merge, as a read does with the replicas' answers.
  unfoldable pub reconcile_all : List (Version V) → List (Version V) → List (Version V)
  reconcile_all merged [] = merged
  reconcile_all merged (v ∷ vs) = reconcile_all (reconcile merged v) vs
