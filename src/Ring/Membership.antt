-- ===== src/Ring/Membership.antt =====
-- src/dynamokv/ring.py: `add_node` and `__init__`, and the invariants of a ring.
use secure_dynamo_kv_store.Prelude.{
  ℕ, zero, suc, ◌+◌, ◌≤◌, ◌<◌, ◌≡◌, refl, inl, inr, sym, subst, true, false, some, List, [], ◌∷◌,
  ◌++◌, arith, nat_eq, string_eq, String, ◌==◌, In, here, there, In-cons, Bool-cases, eq_of_==,
  ==_refl, In-append_left, In-append_right, In-append-split, any_of_In, any-true, Unique,
  Unique-snoc, Below,
}
use secure_dynamo_kv_store.Dict
use secure_dynamo_kv_store.Ring.{
  HashRing, new, label, member, add_points, add_node, add_nodes, build,
}
use secure_dynamo_kv_store.Ring.Points.{
  IsRing, Owns, NoCollision, Entries, with_point, with_point-IsRing, with_point-Owns,
  with_point-Owns_new, with_point-Entries,
}

pub member→In : (ns : List String) (n : String) → member ns n ≡ true → In n ns
unfolding member
member→In ns n h =
    let (a, m, e) = any-true (λ x. x == n) ns h in subst (λ x. In x ns) (eq_of_== a n e) m

pub In→member : (ns : List String) (n : String) → In n ns → member ns n ≡ true
unfolding member
In→member ns n m = any_of_In (λ x. x == n) ns m (==_refl n)

pub member-false : (ns : List String) (n : String) → member ns n ≡ false → ¬ In n ns
member-false ns n h m = cc (h, In→member ns n m)

module _ (hash : String → ℕ) where
  abbrev point : String → ℕ → ℕ
  point n i = hash (label n i)

  add_points-IsRing :
      (rounds i : ℕ) (x : String) (r : HashRing)
      → In x r.nodes
      → IsRing r
      → IsRing (add_points hash rounds i x r)
  unfolding add_points
  add_points-IsRing zero i x r m v = v
  add_points-IsRing (suc rounds) i x r m v =
      add_points-IsRing rounds (suc i) x (with_point r (point x i) x) m
        (with_point-IsRing r (point x i) x m v)

  pub nodes-add_points :
      (rounds i : ℕ) (x : String) (r : HashRing) → (add_points hash rounds i x r).nodes ≡ r.nodes
  unfolding add_points
  nodes-add_points zero i x r = refl
  nodes-add_points (suc rounds) i x r =
      nodes-add_points rounds (suc i) x (with_point r (point x i) x)

  virtual_nodes-add_points :
      (rounds i : ℕ) (x : String) (r : HashRing)
      → (add_points hash rounds i x r).virtual_nodes ≡ r.virtual_nodes
  unfolding add_points
  virtual_nodes-add_points zero i x r = refl
  virtual_nodes-add_points (suc rounds) i x r =
      virtual_nodes-add_points rounds (suc i) x (with_point r (point x i) x)

  enrol : HashRing → String → HashRing
  enrol r x = record r { nodes = r.nodes ++ x ∷ [] }

  enrol-IsRing : (r : HashRing) (x : String) → IsRing r → IsRing (enrol r x)
  unfolding enrol
  enrol-IsRing r x v = record {
    sorted = v.sorted;
    owned = λ h m. let (n, i, g) = v.owned h m in (n, In-append_left (x ∷ []) i, g);
  }

  -- Adding a node keeps the points ascending and each of them owned by a node of the ring.
  pub add_node-IsRing : (r : HashRing) (x : String) → IsRing r → IsRing (add_node hash r x)
  unfolding add_node enrol
  add_node-IsRing r x v = elim (Bool-cases (member r.nodes x)) [
    | inl s ↦ rw s v
    | inr s ↦ rw s (
        add_points-IsRing r.virtual_nodes 0 x (enrol r x) (In-append_right r.nodes (here refl))
          (enrol-IsRing r x v))
  ]

  pub add_nodes-IsRing : (r : HashRing) (ns : List String) → IsRing r → IsRing (add_nodes hash r ns)
  unfolding add_nodes
  add_nodes-IsRing r [] v = v
  add_nodes-IsRing r (x ∷ ns) v = add_nodes-IsRing (add_node hash r x) ns (add_node-IsRing r x v)

  -- The ring that `__init__` builds has ascending points, each of them owned by a node of the
  -- ring.
  pub build-IsRing : (ns : List String) (v : ℕ) → IsRing (build hash ns v)
  unfolding build
  build-IsRing ns v =
      add_nodes-IsRing (new v) ns (record { sorted = tt; owned = λ h m. elim m [ ] })

  -- Every node owns a point, and every entry is a point of its owner.
  pub record IsFull (r : HashRing) : Type 0 where
    pub entries : Entries hash r
    pub covers : (n : String) → In n r.nodes → Owns r n
    pub unique : Unique r.nodes

  add_points-Owns :
      (rounds i : ℕ) (x n : String) (r : HashRing)
      → In x r.nodes
      → i + rounds ≤ r.virtual_nodes
      → NoCollision hash r.virtual_nodes r.nodes
      → Entries hash r
      → Owns r n
      → Entries hash (add_points hash rounds i x r) × Owns (add_points hash rounds i x r) n
  unfolding add_points
  add_points-Owns zero i x n r m le nc es o = (es, o)
  add_points-Owns (suc rounds) i x n r m le nc es o =
      let lt : i < r.virtual_nodes = omega arith in
      let same : Dict.get r.ring (point x i) ≡ some n → n ≡ x =
        λ g. let (k, (j, jlt, e)) = es (point x i) n g in sym (nc x n i j m k lt jlt e) in
      add_points-Owns rounds (suc i) x n (with_point r (point x i) x) m (omega arith) nc
        (with_point-Entries hash r i x m lt es) (with_point-Owns r (point x i) x n same o)

  add_points-Owns_new :
      (rounds : ℕ) (x : String) (r : HashRing)
      → 0 < rounds
      → In x r.nodes
      → rounds ≤ r.virtual_nodes
      → NoCollision hash r.virtual_nodes r.nodes
      → Entries hash r
      → Entries hash (add_points hash rounds 0 x r) × Owns (add_points hash rounds 0 x r) x
  unfolding add_points
  add_points-Owns_new zero x r pos m le nc es = absurd (omega arith)
  add_points-Owns_new (suc rounds) x r pos m le nc es =
      add_points-Owns rounds 1 x x (with_point r (point x 0) x) m (omega arith) nc
        (with_point-Entries hash r 0 x m (omega arith) es) (with_point-Owns_new r (point x 0) x)

  NoCollision-mono :
      (v : ℕ) (ms ns : List String) → Below ms ns → NoCollision hash v ns → NoCollision hash v ms
  NoCollision-mono v ms ns sub nc a b i j p q = nc a b i j (sub a p) (sub b q)

  -- Adding a node leaves every node, old or new, with a point of its own.
  pub add_node-IsFull :
      (r : HashRing) (x : String)
      → 0 < r.virtual_nodes
      → NoCollision hash r.virtual_nodes (r.nodes ++ x ∷ [])
      → IsFull r
      → IsFull (add_node hash r x)
  unfolding add_node enrol
  add_node-IsFull r x pos nc f = elim (Bool-cases (member r.nodes x)) [
    | inl s ↦ rw s f
    | inr s ↦
        let e = enrol r x in
        let m : In x e.nodes = In-append_right r.nodes (here refl) in
        let es : Entries hash e =
          λ h n g. let (i, p) = f.entries h n g in (In-append_left (x ∷ []) i, p) in
        let added = add_points hash r.virtual_nodes 0 x e in
        let mine = add_points-Owns_new r.virtual_nodes x e pos m (omega arith) nc es in
        let kept : (n : String) → In n r.nodes → Owns added n =
          λ n i. (add_points-Owns r.virtual_nodes 0 x n e m (omega arith) nc es (f.covers n i)).1 in
        rw s (record {
          entries = mine.0;
          covers = λ n k.
              elim (In-append-split r.nodes (x ∷ [])
                (rw (nodes-add_points r.virtual_nodes 0 x e) at k)) [
                  | inl l ↦ kept n l
                  | inr q ↦ elim (In-cons q) [
                    | inl i ↦ subst (Owns added) (sym i) mine.1
                    | inr z ↦ elim z [ ]
                  ]
                ];
          unique =
              rw (nodes-add_points r.virtual_nodes 0 x e)
                (Unique-snoc r.nodes x f.unique (member-false r.nodes x s));
        })
  ]

  pub virtual_nodes-add_node :
      (r : HashRing) (x : String) → (add_node hash r x).virtual_nodes ≡ r.virtual_nodes
  unfolding add_node
  virtual_nodes-add_node r x = elim (Bool-cases (member r.nodes x)) [
    | inl s ↦ rw s
    | inr s ↦ rw (s, virtual_nodes-add_points)
  ]

  nodes-add_node :
      (r : HashRing) (x n : String) → In n (add_node hash r x).nodes → In n (r.nodes ++ x ∷ [])
  unfolding add_node
  nodes-add_node r x n m = elim (Bool-cases (member r.nodes x)) [
    | inl s ↦ In-append_left (x ∷ []) (rw s at m)
    | inr s ↦ rw (s, nodes-add_points) at m
  ]

  add_nodes-IsFull :
      (r : HashRing) (ns names : List String)
      → 0 < r.virtual_nodes
      → NoCollision hash r.virtual_nodes names
      → Below r.nodes names
      → Below ns names
      → IsFull r
      → IsFull (add_nodes hash r ns)
  unfolding add_nodes
  add_nodes-IsFull r [] names pos nc a b f = f
  add_nodes-IsFull r (x ∷ ns) names pos nc a b f =
      let both : Below (r.nodes ++ x ∷ []) names = λ n m.
        elim (In-append-split r.nodes (x ∷ []) m) [
          | inl l ↦ a n l
          | inr q ↦ elim (In-cons q) [ inl i ↦ b n (here i) | inr z ↦ elim z [ ] ]
        ] in
      let e = virtual_nodes-add_node r x in
      add_nodes-IsFull (add_node hash r x) ns names (rw e pos) (rw e nc)
        (λ n m. both n (nodes-add_node r x n m)) (λ n m. b n (there m))
        (add_node-IsFull r x pos
          (NoCollision-mono r.virtual_nodes (r.nodes ++ x ∷ []) names both nc) f)

  -- If there is at least one virtual node and no two different names have a point in common, then
  -- on the ring that `__init__` builds every entry is a point of the node that owns it, every
  -- node owns a point, and no node is listed twice.
  pub build-IsFull :
      (ns : List String) (v : ℕ) → 0 < v → NoCollision hash v ns → IsFull (build hash ns v)
  unfolding build Dict.get
  build-IsFull ns v pos nc =
      add_nodes-IsFull (new v) ns ns pos nc (λ n m. elim m [ ]) (λ n m. m)
        (record { entries = λ h n g. cc; covers = λ n m. elim m [ ]; unique = tt })
