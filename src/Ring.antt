-- ===== src/Ring.antt =====
-- src/dynamokv/ring.py: the consistent hash ring with virtual nodes.
pub mod Lookup
pub mod Points
pub mod Membership
pub mod Preference
pub mod Stability
use secure_dynamo_kv_store.Prelude.{
  ℕ, zero, suc, ◌+◌, ◌/◌, ◌%◌, min, String, nat_eq, string_eq, Bool, true, false, Option, none,
  some, List, [], ◌∷◌, ◌++◌, ltb, ◌==◌, if◌then◌else◌, length, is_empty, get_elem?, any, map,
  filter, not,
}
use Prim.Native.String
use secure_dynamo_kv_store.Prelude.Result.{
  Result, ok, raise, key_error, index_error, runtime_error, ◌>>=◌,
}
use secure_dynamo_kv_store.Dict
use secure_dynamo_kv_store.Dict.{Dict}

-- `sorted_hashes` is ascending; `nodes` is a set, kept in the order of insertion.
pub record HashRing : Type 0 where
  pub virtual_nodes : ℕ
  pub ring : Dict ℕ String
  pub sorted_hashes : List ℕ
  pub nodes : List String

-- A decimal digit, and a number in decimal: `fuel` bounds the digits.
abbrev digit : ℕ → String
digit d =
    if d == 0
    then "0"
    else if d == 1
    then "1"
    else if d == 2
    then "2"
    else if d == 3
    then "3"
    else if d == 4
    then "4"
    else if d == 5
    then "5"
    else if d == 6
    then "6"
    else if d == 7
    then "7"
    else if d == 8
    then "8"
    else "9"

unfoldable pub decimal : ℕ → ℕ → String
decimal zero n = ""
decimal (suc fuel) n =
    let rest = String.◌++◌ (decimal fuel (n / 10)) (digit (n % 10)) in
    if ltb n 10 then digit n else rest

-- f"{node_id}#{i}"
unfoldable pub label : String → ℕ → String
unfolding decimal
label node_id i = String.◌++◌ node_id (String.◌++◌ "#" (decimal (suc i) i))

-- `bisect.bisect_left` on an ascending list: the first position that is not below `h`.
unfoldable pub bisect_left : List ℕ → ℕ → ℕ
bisect_left [] h = 0
bisect_left (x ∷ xs) h = let rest = bisect_left xs h in if ltb x h then suc rest else 0

-- `bisect.insort` on an ascending list: after the equal ones.
unfoldable pub insort : List ℕ → ℕ → List ℕ
insort [] h = h ∷ []
insort (x ∷ xs) h = let rest = insort xs h in if ltb h x then h ∷ x ∷ xs else x ∷ rest

-- l.pop(idx)
unfoldable pub pop_at : List ℕ → ℕ → Result (List ℕ)
pop_at [] idx = raise index_error
pop_at (x ∷ xs) zero = ok xs
pop_at (x ∷ xs) (suc idx) = do rest ← pop_at xs idx; ok (x ∷ rest)

unfoldable pub member : List String → String → Bool
member ns node_id = any (λ n. n == node_id) ns

-- HashRing(virtual_nodes=...), before the loop over its nodes.
abbrev pub new : ℕ → HashRing
new virtual_nodes = record {
  virtual_nodes = virtual_nodes;
  ring = [];
  sorted_hashes = [];
  nodes = [];
}

-- ring[h]
abbrev pub found : Option String → Result String
found none = raise key_error
found (some node_id) = ok node_id

abbrev pub owner : Dict ℕ String → ℕ → Result String
owner ring h = found (Dict.get ring h)

-- ring[sorted_hashes[i]]
abbrev pub at_point : Dict ℕ String → Option ℕ → Result String
at_point ring none = raise index_error
at_point ring (some h) = owner ring h

unfoldable pub owner_at : HashRing → ℕ → Result String
owner_at r i = at_point r.ring (get_elem? r.sorted_hashes i)

-- Past the last point the walk starts again at the first.
unfoldable pub wrap : List ℕ → ℕ → ℕ
wrap hashes idx = if idx == length hashes then 0 else idx

-- `hash` stands for `_hash`: the first eight bytes of BLAKE2b of the text, as a number.
module _ (hash : String → ℕ) where
  unfoldable pub add_points : ℕ → ℕ → String → HashRing → HashRing
  unfolding label
  add_points zero i node_id r = r
  add_points (suc rounds) i node_id r =
      let h = hash (label node_id i) in
      add_points rounds (suc i) node_id
        (record r { ring = Dict.put r.ring h node_id; sorted_hashes = insort r.sorted_hashes h })

  unfoldable pub add_node : HashRing → String → HashRing
  unfolding add_points member
  add_node r node_id =
      if member r.nodes node_id
      then r
      else add_points r.virtual_nodes 0 node_id (record r { nodes = r.nodes ++ node_id ∷ [] })

  -- The loop of `__init__`.
  unfoldable pub add_nodes : HashRing → List String → HashRing
  unfolding add_node
  add_nodes r [] = r
  add_nodes r (node_id ∷ rest) = add_nodes (add_node r node_id) rest

  unfoldable pub build : List String → ℕ → HashRing
  unfolding add_nodes
  build node_ids virtual_nodes = add_nodes (new virtual_nodes) node_ids

  -- One round of `remove_node`: `del` raises where the point is gone already.
  unfoldable pub remove_point : HashRing → ℕ → Result HashRing
  remove_point r h =
      if Dict.contains r.ring h
      then (do
        hashes ← pop_at r.sorted_hashes (bisect_left r.sorted_hashes h)
        ok (record r { ring = Dict.remove r.ring h; sorted_hashes = hashes }))
      else raise key_error

  unfoldable pub remove_points : ℕ → ℕ → String → HashRing → Result HashRing
  unfolding label remove_point
  remove_points zero i node_id r = ok r
  remove_points (suc rounds) i node_id r = do
    r' ← remove_point r (hash (label node_id i))
    remove_points rounds (suc i) node_id r'

  -- A raise leaves a half-removed node behind; its state is not returned.
  unfoldable pub remove_node : HashRing → String → Result HashRing
  unfolding remove_points member
  remove_node r node_id =
      if member r.nodes node_id
      then remove_points r.virtual_nodes 0 node_id
          (record r { nodes = filter (λ n. not (n == node_id)) r.nodes })
      else ok r

  -- The position at which a key's walk starts.
  unfoldable pub start_of : HashRing → String → ℕ
  unfolding wrap bisect_left
  start_of r key = wrap r.sorted_hashes (bisect_left r.sorted_hashes (hash key))

  unfoldable pub get_node : HashRing → String → Result String
  unfolding owner_at start_of
  get_node r key =
      if is_empty r.sorted_hashes then raise runtime_error else owner_at r (start_of r key)

-- The loop of `get_preference_list`, with `rounds` rounds left from `i`. It stops as soon as the
-- result has `target` nodes, which it asks only after adding one. The source's `seen` is the set
-- of the names in `result`.
unfoldable pub walk : HashRing → ℕ → ℕ → ℕ → ℕ → List String → Result (List String)
unfolding member
walk r start target zero i result = ok result
walk r start target (suc rounds) i result = do
  node_id ← owner_at r ((start + i) % length r.sorted_hashes)
  let result' = result ++ node_id ∷ []
  let skip = walk r start target rounds (suc i) result
  let go_on = walk r start target rounds (suc i) result'
  if member result node_id then skip else if length result' == target then ok result' else go_on

unfoldable pub get_preference_list : (String → ℕ) → HashRing → String → ℕ → Result (List String)
unfolding walk start_of
get_preference_list hash r key n =
    if is_empty r.sorted_hashes
    then raise runtime_error
    else walk r (start_of hash r key) (min n (length r.nodes)) (length r.sorted_hashes) 0 []

-- `sorted_points`, with a point's position as the numerator over 2 ** 64.
unfoldable pub sorted_points : HashRing → List (ℕ × Result String)
sorted_points r = map (λ h. (h, owner r.ring h)) r.sorted_hashes
