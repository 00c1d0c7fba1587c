-- ===== src/Ring/Points.antt =====
-- The invariants of a ring and of one virtual point added to it.
use secure_dynamo_kv_store.Prelude.{
  ℕ, ◌≤◌, ◌<◌, ◌≡◌, refl, ◌⊎◌, inl, inr, sym, some, List, [], ◌∷◌, arith, nat_eq, string_eq, String,
  ltb, ◌==◌, In, here, there, In-cons, In-All, All-In, Bool-cases, eq_of_==, ne_of_==,
}
use secure_dynamo_kv_store.Dict
use secure_dynamo_kv_store.Ring.{HashRing, insort, label}
use secure_dynamo_kv_store.Ring.Lookup.{Sorted}

pub In-insort : (hs : List ℕ) (p q : ℕ) → In q (insort hs p) → (q ≡ p) ⊎ In q hs
unfolding insort
In-insort [] p q m = In-cons m
In-insort (x ∷ xs) p q m = elim (Bool-cases (ltb p x)) [
  | inl s ↦ In-cons (rw s at m)
  | inr s ↦ elim (In-cons (rw s at m)) [
    | inl i ↦ inr (here i)
    | inr n ↦ elim (In-insort xs p q n) [ inl i ↦ inl i | inr k ↦ inr (there k) ]
  ]
]

pub insort-In_new : (hs : List ℕ) (p : ℕ) → In p (insort hs p)
unfolding insort
insort-In_new [] p = here refl
insort-In_new (x ∷ xs) p = elim (Bool-cases (ltb p x)) [
  | inl s ↦ rw s (here refl)
  | inr s ↦ rw s (there (insort-In_new xs p))
]

pub insort-In : (hs : List ℕ) (p q : ℕ) → In q hs → In q (insort hs p)
unfolding insort
insort-In [] p q m = elim m [ ]
insort-In (x ∷ xs) p q m = elim (Bool-cases (ltb p x)) [
  | inl s ↦ rw s (there m)
  | inr s ↦ rw s (elim (In-cons m) [ inl i ↦ here i | inr n ↦ there (insort-In xs p q n) ])
]

pub insort-Sorted : (hs : List ℕ) (p : ℕ) → Sorted hs → Sorted (insort hs p)
unfolding insort
insort-Sorted [] p s = (tt, tt)
insort-Sorted (x ∷ xs) p s = elim (Bool-cases (ltb p x)) [
  | inl t ↦ rw t (
    (
      ground arith,
      All-In (λ y. p ≤ y) xs (λ y m. let up = In-All (λ y. x ≤ y) xs s.0 m in ground arith),
    ),
    s,
  )
  | inr t ↦ rw t (
    All-In (λ y. x ≤ y) (insort xs p)
        (λ y m. elim (In-insort xs p y m) [
          | inl i ↦ ground arith
          | inr n ↦ In-All (λ y. x ≤ y) xs s.0 n
        ]),
    insort-Sorted xs p s.1,
  )
]

-- What holds of every ring that is built by `add_node`, whatever the hash does.
pub record IsRing (r : HashRing) : Type 0 where
  pub sorted : Sorted r.sorted_hashes
  pub owned :
      (h : ℕ) → In h r.sorted_hashes → (n : String) × In n r.nodes × (Dict.get r.ring h ≡ some n)

abbrev pub Owns : HashRing → String → Type 0
Owns r n = (h : ℕ) × In h r.sorted_hashes × (Dict.get r.ring h ≡ some n)

-- One round of the loop of `add_node`.
abbrev pub with_point : HashRing → ℕ → String → HashRing
with_point r h x = record r { ring = Dict.put r.ring h x; sorted_hashes = insort r.sorted_hashes h }

pub with_point-IsRing :
    (r : HashRing) (h : ℕ) (x : String) → In x r.nodes → IsRing r → IsRing (with_point r h x)
with_point-IsRing r h x i v = record {
  sorted = insort-Sorted r.sorted_hashes h v.sorted;
  owned = λ q m. elim (Bool-cases (h == q)) [
    | inl s ↦ (x, i, rw (Dict.get-put, s))
    | inr s ↦ elim (In-insort r.sorted_hashes h q m) [
      | inl e ↦ absurd (ne_of_== h q s (sym e))
      | inr n ↦ let (w, j, g) = v.owned q n in (w, j, rw (Dict.get-put, s, g))
    ]
  ];
}

pub with_point-Owns_new : (r : HashRing) (h : ℕ) (x : String) → Owns (with_point r h x) x
with_point-Owns_new r h x = (h, insort-In_new r.sorted_hashes h, Dict.get-put_self r.ring h x)

-- A point is lost only to a new point at the same hash.
pub with_point-Owns :
    (r : HashRing) (h : ℕ) (x n : String)
    → (Dict.get r.ring h ≡ some n → n ≡ x)
    → Owns r n
    → Owns (with_point r h x) n
with_point-Owns r h x n same (q, m, g) = elim (Bool-cases (h == q)) [
  | inl s ↦
      let e : n ≡ x = same (rw (eq_of_== h q s) g) in
      (q, insort-In r.sorted_hashes h q m, rw (Dict.get-put, s, e))
  | inr s ↦ (q, insort-In r.sorted_hashes h q m, rw (Dict.get-put, s, g))
]

-- The hash keeps the points of different names among `names` apart.
abbrev pub NoCollision : (String → ℕ) → ℕ → List String → Type 0
NoCollision hash virtual_nodes names =
    (a b : String) (i j : ℕ)
    → In a names
    → In b names
    → i < virtual_nodes
    → j < virtual_nodes
    → hash (label a i) ≡ hash (label b j)
    → a ≡ b

-- Every entry of the ring is a point of the node that owns it.
abbrev pub Entries : (String → ℕ) → HashRing → Type 0
Entries hash r =
    (h : ℕ) (n : String)
    → Dict.get r.ring h ≡ some n
    → In n r.nodes × ((i : ℕ) × (i < r.virtual_nodes) × (h ≡ hash (label n i)))

pub with_point-Entries :
    (hash : String → ℕ) (r : HashRing) (i : ℕ) (x : String)
    → In x r.nodes
    → i < r.virtual_nodes
    → Entries hash r
    → Entries hash (with_point r (hash (label x i)) x)
with_point-Entries hash r i x m lt es h n g = elim (Bool-cases (hash (label x i) == h)) [
  | inl s ↦
      let e : some x ≡ some n = rw (Dict.get-put, s) at g in
      let e' : n ≡ x = cc in (rw e' m, (i, lt, rw e' (sym (eq_of_== (hash (label x i)) h s))))
  | inr s ↦ es h n (rw (Dict.get-put, s) at g)
]
