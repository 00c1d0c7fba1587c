-- ===== src/Ring/Stability.antt =====
-- src/dynamokv/ring.py: `get_node`, before and after a node joins.
use secure_dynamo_kv_store.Prelude.{
  ℕ, zero, suc, ◌≡◌, refl, ap, ◌∙◌, ◌⊎◌, inl, inr, false, Option, some, List, [], ◌∷◌, ◌++◌, nat_eq,
  string_eq, String, ltb, ◌==◌, is_empty, In, Bool-cases, Option-cases,
}
use secure_dynamo_kv_store.Prelude.Result.{ok}
use secure_dynamo_kv_store.Dict
use secure_dynamo_kv_store.Ring.{
  HashRing, label, member, insort, at_point, add_points, add_node, get_node,
}
use secure_dynamo_kv_store.Ring.Lookup.{
  first_ge, first, or_first, get_elem?-wrap, Successor, wrap-Successor,
}
use secure_dynamo_kv_store.Ring.Points.{IsRing, with_point}

-- The point where the walk for a hash starts.
abbrev landing : List ℕ → ℕ → Option ℕ
landing hs h = or_first (first_ge hs h) hs

landing-some : (hs : List ℕ) (h : ℕ) → is_empty hs ≡ false → (p : ℕ) × (landing hs h ≡ some p)
landing-some [] h e = cc
landing-some (x ∷ xs) h e = elim (Option-cases (first_ge (x ∷ xs) h)) [
  | inl n ↦ (x, rw n)
  | inr (p, f) ↦ (p, rw f)
]

get_node-landing :
    (hash : String → ℕ) (r : HashRing) (key : String)
    → is_empty r.sorted_hashes ≡ false
    → get_node hash r key ≡ at_point r.ring (landing r.sorted_hashes (hash key))
unfolding get_node
get_node-landing hash r key e =
    rw e (ap (at_point r.ring) (get_elem?-wrap r.sorted_hashes (hash key)))

-- On a ring with a point, whose points are ascending and owned by nodes of the ring (`IsRing`),
-- `get_node` answers with a node of the ring: the owner of the first point that is not below the
-- key's hash, or of the first of all points where there is none.
pub get_node_lem :
    (hash : String → ℕ) (r : HashRing) (key : String)
    → IsRing r
    → is_empty r.sorted_hashes ≡ false
    → (n : String) × (p : ℕ) × (get_node hash r key ≡ ok n)
      × In n r.nodes
      × Successor r.sorted_hashes (hash key) p
      × (Dict.get r.ring p ≡ some n)
get_node_lem hash r key v e =
    let (p, f) = landing-some r.sorted_hashes (hash key) e in
    let s =
      wrap-Successor r.sorted_hashes (hash key) p v.sorted
        (get_elem?-wrap r.sorted_hashes (hash key) ∙ f) in
    let (n, m, g) = v.owned p s.point in (n, p, rw (get_node-landing hash r key e, f, g), m, s, g)

first_ge-insort :
    (hs : List ℕ) (q h : ℕ)
    → (first_ge (insort hs q) h ≡ some q) ⊎ (first_ge (insort hs q) h ≡ first_ge hs h)
unfolding first_ge insort
first_ge-insort [] q h = elim (Bool-cases (ltb q h)) [ inl s ↦ inr (rw s) | inr s ↦ inl (rw s) ]
first_ge-insort (x ∷ xs) q h = elim (Bool-cases (ltb q x)) [
  | inl t ↦ elim (Bool-cases (ltb q h)) [ inl s ↦ inr (rw (t, s)) | inr s ↦ inl (rw (t, s)) ]
  | inr t ↦ elim (Bool-cases (ltb x h)) [
    | inl s ↦ rw (t, s) (first_ge-insort xs q h)
    | inr s ↦ inr (rw (t, s))
  ]
]

first-insort :
    (hs : List ℕ) (q : ℕ) → (first (insort hs q) ≡ some q) ⊎ (first (insort hs q) ≡ first hs)
unfolding insort
first-insort [] q = inl refl
first-insort (x ∷ xs) q = elim (Bool-cases (ltb q x)) [ inl t ↦ inl (rw t) | inr t ↦ inr (rw t) ]

-- A point more is either where a hash lands now, or it changes nothing for the hash.
landing-insort :
    (hs : List ℕ) (q h : ℕ)
    → (landing (insort hs q) h ≡ some q) ⊎ (landing (insort hs q) h ≡ landing hs h)
landing-insort hs q h = elim (first_ge-insort hs q h) [
  | inl e ↦ inl (rw e)
  | inr e ↦ elim (Option-cases (first_ge hs h)) [
    | inl n ↦ rw (e, n) (first-insort hs q)
    | inr (p, f) ↦ inr (rw (e, f))
  ]
]

is_empty-insort : (hs : List ℕ) (q : ℕ) → is_empty (insort hs q) ≡ false
unfolding insort
is_empty-insort [] q = refl
is_empty-insort (x ∷ xs) q = elim (Bool-cases (ltb q x)) [ inl t ↦ rw t | inr t ↦ rw t ]

module _ (hash : String → ℕ) (key : String) where
  with_point-moves :
      (r : HashRing) (q : ℕ) (x : String)
      → is_empty r.sorted_hashes ≡ false
      → (get_node hash (with_point r q x) key ≡ get_node hash r key)
        ⊎ (get_node hash (with_point r q x) key ≡ ok x)
  with_point-moves r q x e =
      let new = get_node-landing hash (with_point r q x) key (is_empty-insort r.sorted_hashes q) in
      elim (landing-insort r.sorted_hashes q (hash key)) [
        | inl l ↦ inr (rw (new, l, Dict.get-put_self))
        | inr l ↦
            let (p, f) = landing-some r.sorted_hashes (hash key) e in
            elim (Bool-cases (q == p)) [
              | inl s ↦ inr (rw (new, l, f, Dict.get-put, s))
              | inr s ↦ inl (rw (new, get_node-landing hash r key e, l, f, Dict.get-put, s))
            ]
      ]

  add_points-moves :
      (rounds i : ℕ) (x : String) (r : HashRing)
      → is_empty r.sorted_hashes ≡ false
      → (get_node hash (add_points hash rounds i x r) key ≡ get_node hash r key)
        ⊎ (get_node hash (add_points hash rounds i x r) key ≡ ok x)
  unfolding add_points
  add_points-moves zero i x r e = inl refl
  add_points-moves (suc rounds) i x r e =
      let q = hash (label x i) in
      elim (add_points-moves rounds (suc i) x (with_point r q x)
        (is_empty-insort r.sorted_hashes q)) [
          | inr new ↦ inr new
          | inl same ↦ elim (with_point-moves r q x e) [
            | inl old ↦ inl (same ∙ old)
            | inr mine ↦ inr (same ∙ mine)
          ]
        ]

  get_node-nodes :
      (r : HashRing) (ns : List String)
      → get_node hash (record r { nodes = ns }) key ≡ get_node hash r key
  unfolding get_node
  get_node-nodes r ns = refl

  -- On a ring with a point, `add_node` leaves a key with the node that `get_node` answered before
  -- or moves it to the node that joins: no key moves between two old nodes, whether or not points
  -- collide.
  pub add_node-moves :
      (r : HashRing) (x : String)
      → is_empty r.sorted_hashes ≡ false
      → (get_node hash (add_node hash r x) key ≡ get_node hash r key)
        ⊎ (get_node hash (add_node hash r x) key ≡ ok x)
  unfolding add_node
  add_node-moves r x e = elim (Bool-cases (member r.nodes x)) [
    | inl s ↦ rw s (inl refl)
    | inr s ↦
        let ns = r.nodes ++ x ∷ [] in
        rw (s, ← get_node-nodes r ns)
          (add_points-moves r.virtual_nodes 0 x (record r { nodes = ns }) e)
  ]
