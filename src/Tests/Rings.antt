-- ===== src/Tests/Rings.antt =====
-- A ring of two nodes with one point each, and a third node that joins.
use secure_dynamo_kv_store.Prelude.{
  ℕ, zero, suc, min, ◌≡◌, refl, ◌⊎◌, inl, inr, String, string_eq, nat_eq, ◌==◌, if◌then◌else◌,
  false, List, [], ◌∷◌, any, length, is_empty, In, In-cons, Unique, Below, some, arith, ne_of_==,
}
use secure_dynamo_kv_store.Prelude.Result.{ok}
use secure_dynamo_kv_store.Dict
use secure_dynamo_kv_store.Ring
use secure_dynamo_kv_store.Ring.{HashRing, label, build, add_node, get_node, get_preference_list}
use secure_dynamo_kv_store.Ring.Lookup.{Successor}
use secure_dynamo_kv_store.Ring.Points.{IsRing, NoCollision}
use secure_dynamo_kv_store.Ring.Membership.{IsFull, build-IsRing, build-IsFull}
use secure_dynamo_kv_store.Ring.Stability.{get_node_lem, add_node-moves}
use secure_dynamo_kv_store.Ring.Preference.{get_preference_list_lem}

abbrev test_hash : String → ℕ
test_hash text =
    if text == "a#0" then 10 else if text == "b#0" then 20 else if text == "c#0" then 30 else 15

abbrev names : List String
names = "a" ∷ "b" ∷ []

abbrev two : HashRing
two = build test_hash names 1

-- Each of two names has a hash of its own.
apart :
    (a b : String) → In a names → In b names → test_hash (label a 0) ≡ test_hash (label b 0) → a ≡ b
unfolding label Ring.decimal
apart a b m n h = elim (In-cons m) [
  | inl p ↦ elim (In-cons n) [
    | inl q ↦ rw (p, q) refl
    | inr k ↦ elim (In-cons k) [
      | inl q ↦ absurd (ne_of_== 10 20 refl (rw (p, q) at h))
      | inr z ↦ elim z [ ]
    ]
  ]
  | inr k ↦ elim (In-cons k) [
    | inl p ↦ elim (In-cons n) [
      | inl q ↦ absurd (ne_of_== 20 10 refl (rw (p, q) at h))
      | inr j ↦ elim (In-cons j) [ inl q ↦ rw (p, q) refl | inr z ↦ elim z [ ] ]
    ]
    | inr z ↦ elim z [ ]
  ]
]

names-NoCollision : NoCollision test_hash 1 names
names-NoCollision a b zero zero m n p q h = apart a b m n h
names-NoCollision a b (suc i) j m n p q h = absurd (omega arith)
names-NoCollision a b zero (suc j) m n p q h = absurd (omega arith)

two-nonempty : is_empty two.sorted_hashes ≡ false
unfolding build any Ring.insort
two-nonempty = refl

build-IsRing_example : IsRing (build test_hash names 1)
build-IsRing_example = build-IsRing test_hash names 1

two-IsRing : IsRing two
two-IsRing = build-IsRing test_hash names 1

build-IsFull_example : IsFull test_hash (build test_hash names 1)
build-IsFull_example = build-IsFull test_hash names 1 (omega arith) names-NoCollision

two-IsFull : IsFull test_hash two
two-IsFull = build-IsFull test_hash names 1 (omega arith) names-NoCollision

get_node_lem_example :
    (n : String) × (p : ℕ) × (get_node test_hash two "key" ≡ ok n)
    × In n two.nodes
    × Successor two.sorted_hashes 15 p
    × (Dict.get two.ring p ≡ some n)
get_node_lem_example = get_node_lem test_hash two "key" two-IsRing two-nonempty

get_preference_list_lem_example :
    (m : String) × (rest : List String) × (get_preference_list test_hash two "key" 3
      ≡ ok (m ∷ rest))
    × (get_node test_hash two "key" ≡ ok m)
    × Unique (m ∷ rest)
    × Below (m ∷ rest) two.nodes
    × (length (m ∷ rest) ≡ min 3 (length two.nodes))
get_preference_list_lem_example =
    get_preference_list_lem test_hash two "key" 3 two-IsRing two-IsFull two-nonempty (omega arith)

add_node-moves_example :
    (get_node test_hash (add_node test_hash two "c") "key" ≡ get_node test_hash two "key")
    ⊎ (get_node test_hash (add_node test_hash two "c") "key" ≡ ok "c")
add_node-moves_example = add_node-moves test_hash "key" two "c" two-nonempty

-- A request for no nodes is answered with all of them.
preference_list-zero : get_preference_list test_hash two "key" 0 ≡ ok ("b" ∷ "a" ∷ [])
unfolding build any Ring.insort get_preference_list Ring.walk Ring.owner_at Ring.label Ring.decimal
    Ring.add_node Ring.add_points Ring.add_nodes Ring.member Ring.start_of Ring.wrap
    Ring.bisect_left Dict.get Dict.put
preference_list-zero = refl
