-- ===== src/Ring/Preference.antt =====
-- src/dynamokv/ring.py: `get_preference_list`.
use native.Mathlib.Nat.{mod-lt, mod-eq_of_lt, add-mod_right}
use secure_dynamo_kv_store.Prelude.{
  ℕ, zero, suc, ◌+◌, ◌-◌, ◌%◌, ◌≤◌, ◌<◌, min, ◌≡◌, refl, ◌∙◌, ap, ◌⊎◌, inl, inr, sym, false, List,
  [], ◌∷◌, ◌++◌, nat_eq, string_eq, arith, String, leb, ◌==◌, is_empty, length, length-append, In,
  here, not-In-nil, In-cons, In-append_left, In-append_right, In-append-split, Bool-cases, eq_of_==,
  ne_of_==, Unique, Unique-snoc, Below, Unique-length-le, get_elem?-In, get_elem?-lt, In-get_elem?,
  append_assoc, append-nil,
}
use secure_dynamo_kv_store.Prelude.Result.{Result, ok}
use secure_dynamo_kv_store.Ring.{
  HashRing, bisect_left, member, start_of, owner_at, walk, get_node, get_preference_list,
}
use secure_dynamo_kv_store.Ring.Lookup.{wrap-lt, bisect_left-le}
use secure_dynamo_kv_store.Ring.Points.{IsRing, Owns}
use secure_dynamo_kv_store.Ring.Membership.{IsFull, member→In, member-false}

-- Every position of the hashes has an owner among the nodes.
owner_at-total :
    (r : HashRing) (i : ℕ)
    → IsRing r
    → i < length r.sorted_hashes
    → (n : String) × (owner_at r i ≡ ok n) × In n r.nodes
unfolding owner_at
owner_at-total r i v lt =
    let (h, e) = get_elem?-lt r.sorted_hashes i lt in
    let (n, m, g) = v.owned h (get_elem?-In r.sorted_hashes i e) in (n, rw (e, g), m)

-- Every node that owns a point is the owner at some position.
Owns-owner_at :
    (r : HashRing) (n : String)
    → Owns r n
    → (i : ℕ) × (i < length r.sorted_hashes) × (owner_at r i ≡ ok n)
unfolding owner_at
Owns-owner_at r n (h, m, g) =
    let (i, lt, e) = In-get_elem? h r.sorted_hashes m in (i, lt, rw (e, g))

module _ (r : HashRing) (start target : ℕ) where
  -- The owner that the walk meets in round `i`.
  met : ℕ → Result String
  met i = owner_at r ((start + i) % length r.sorted_hashes)

  -- What the loop has gathered so far.
  record Gathered (result : List String) : Type 0 where
    unique : Unique result
    known : Below result r.nodes
    room : length result < target

  -- What the loop returns: either it is full or it has met everyone.
  record Walked (i rounds : ℕ) (result ps : List String) : Type 0 where
    unique : Unique ps
    known : Below ps r.nodes
    bounded : length ps ≤ target
    grown : (t : List String) × (ps ≡ result ++ t)
    first :
        result ≡ [] → 0 < rounds → (n : String) × (t : List String) × (met i ≡ ok n) × (ps ≡ n ∷ t)
    full :
        (length ps ≡ target)
        ⊎ ((j : ℕ) (n : String) → i ≤ j → j < i + rounds → met j ≡ ok n → In n ps)

  Gathered-snoc :
      (result : List String) (n : String)
      → Gathered result
      → In n r.nodes
      → member result n ≡ false
      → Unique (result ++ n ∷ []) × Below (result ++ n ∷ []) r.nodes
  Gathered-snoc result n g m s = (
    Unique-snoc result n g.unique (member-false result n s),
    λ a i. elim (In-append-split result (n ∷ []) i) [
      | inl l ↦ g.known a l
      | inr q ↦ elim (In-cons q) [ inl e ↦ rw e m | inr z ↦ elim z [ ] ]
    ],
  )

  -- One round later: what was met in it is there.
  Walked-step :
      (i rounds : ℕ) (result more ps : List String) (n : String)
      → met i ≡ ok n
      → In n more
      → (result ≡ [] → more ≡ n ∷ [])
      → (t : List String) × (more ≡ result ++ t)
      → Walked (suc i) rounds more ps
      → Walked i (suc rounds) result ps
  Walked-step i rounds result more ps n e m alone (t, te) w =
      let (u, ue) = w.grown in
      let there_now : In n ps = rw ue (In-append_left u m) in
      record {
        unique = w.unique;
        known = w.known;
        bounded = w.bounded;
        grown = (t ++ u, ue ∙ rw te (append_assoc result t u));
        first = λ none_yet _. (n, u, e, ue ∙ ap (λ (xs : List String). xs ++ u) (alone none_yet));
        full = elim w.full [
          | inl f ↦ inl f
          | inr all_met ↦ inr (λ j k le lt q. elim (Bool-cases (leb (suc i) j)) [
            | inl s ↦ all_met j k (ground arith) (omega arith) q
            | inr s ↦
                let here_now : j ≡ i = ground arith in
                let same : ok k ≡ ok n = sym q ∙ ap met here_now ∙ e in
                let name : k ≡ n = cc in rw name there_now
          ])
        ];
      }

  walk-Walked :
      (i rounds : ℕ) (result : List String)
      → IsRing r
      → 0 < length r.sorted_hashes
      → Gathered result
      → (ps : List String) × (walk r start target rounds i result ≡ ok ps)
        × Walked i rounds result ps
  unfolding walk met
  walk-Walked i zero result v pos g = (
    result,
    refl,
    record {
      unique = g.unique;
      known = g.known;
      bounded = omega (arith, g.room);
      grown = ([], sym (append-nil result));
      first = λ none_yet lt. absurd (omega arith);
      full = inr (λ j k le lt q. absurd (omega arith));
    },
  )
  walk-Walked i (suc rounds) result v pos g =
      let (n, e, m) =
        owner_at-total r ((start + i) % length r.sorted_hashes) v (mod-lt (start + i) pos) in
      elim (Bool-cases (member result n)) [
        | inl s ↦
            let (ps, f, w) = walk-Walked (suc i) rounds result v pos g in
            (
              ps,
              rw (e, s, f),
              Walked-step i rounds result result ps n e (member→In result n s)
                  (λ none_yet. absurd (not-In-nil (rw none_yet at (member→In result n s))))
                  ([], sym (append-nil result)) w,
            )
        | inr s ↦
            let more = result ++ n ∷ [] in
            let (u, k) = Gathered-snoc result n g m s in
            let size : length more ≡ suc (length result) =
              omega (arith, length-append result (n ∷ [])) in
            let last : In n more = In-append_right result (here refl) in
            elim (Bool-cases (length more == target)) [
              | inl t ↦
                  let stop : length more ≡ target = eq_of_== (length more) target t in
                  (
                    more,
                    rw (e, s, t),
                    Walked-step i rounds result more more n e last (λ none_yet. rw none_yet)
                        (n ∷ [], refl)
                        (record {
                          unique = u;
                          known = k;
                          bounded = omega arith;
                          grown = ([], sym (append-nil more));
                          first = λ none_yet lt. absurd (not-In-nil (rw none_yet at last));
                          full = inl stop;
                        }),
                  )
              | inr t ↦
                  let open_end = ne_of_== (length more) target t in
                  let (ps, f, w) =
                    walk-Walked (suc i) rounds more v pos
                      (record { unique = u; known = k; room = omega (arith, g.room) }) in
                  (
                    ps,
                    rw (e, s, t, f),
                    Walked-step i rounds result more ps n e last (λ none_yet. rw none_yet)
                        (n ∷ [], refl) w,
                  )
            ]
      ]

-- From any start, a full turn meets every position.
turn :
    (start k total : ℕ)
    → start < total
    → k < total
    → (j : ℕ) × (j < total) × ((start + j) % total ≡ k)
turn start k total s h = elim (Bool-cases (leb start k)) [
  | inl t ↦
      let le : start ≤ k = ground arith in
      let e : start + (k - start) ≡ k = omega arith in
      (k - start, omega arith, rw e (mod-eq_of_lt h))
  | inr t ↦
      let gt : k < start = ground arith in
      let e : start + (k + total - start) ≡ k + total = omega arith in
      (k + total - start, omega arith, rw e (add-mod_right k total ∙ mod-eq_of_lt h))
]

module _ (hash : String → ℕ) (r : HashRing) (key : String) where
  start-lt : is_empty r.sorted_hashes ≡ false → start_of hash r key < length r.sorted_hashes
  unfolding start_of
  start-lt e =
      let idx = bisect_left r.sorted_hashes (hash key) in
      wrap-lt r.sorted_hashes idx e (bisect_left-le r.sorted_hashes (hash key))

  -- What the whole walk returns: as many nodes as asked for and there are.
  length-Walked :
      (n : ℕ) (ps : List String)
      → IsFull hash r
      → is_empty r.sorted_hashes ≡ false
      → Walked r (start_of hash r key) (min n (length r.nodes)) 0 (length r.sorted_hashes) [] ps
      → length ps ≡ min n (length r.nodes)
  unfolding met
  length-Walked n ps f e w = elim w.full [
    | inl s ↦ s
    | inr all_met ↦
        let everyone : Below r.nodes ps = λ a m.
          let (k, lt, q) = Owns-owner_at r a (f.covers a m) in
          let (j, jlt, t) = turn (start_of hash r key) k (length r.sorted_hashes) (start-lt e) lt in
          all_met j a (omega arith) (omega arith) (rw (t, q)) in
        omega (arith, Unique-length-le r.nodes ps f.unique everyone, w.bounded)
  ]

  start-met :
      is_empty r.sorted_hashes ≡ false → get_node hash r key ≡ met r (start_of hash r key) 0 0
  unfolding get_node met
  start-met e =
      let home : start_of hash r key + 0 ≡ start_of hash r key = omega arith in
      rw (e, home, mod-eq_of_lt (start-lt e))

  somebody : IsRing r → is_empty r.sorted_hashes ≡ false → 0 < length r.nodes
  somebody v e =
      let (n, q, m) = owner_at-total r (start_of hash r key) v (start-lt e) in
      let (i, lt, g) = In-get_elem? n r.nodes m in omega arith

  -- On a ring with a point, whose points are ascending and owned by nodes of the ring (`IsRing`)
  -- and on which every node owns a point and none is listed twice (`IsFull`), a request for n > 0
  -- nodes returns a list of distinct nodes of the ring, n of them or all if there are fewer, and
  -- the first is the one that `get_node` answers.
  pub get_preference_list_lem :
      (n : ℕ)
      → IsRing r
      → IsFull hash r
      → is_empty r.sorted_hashes ≡ false
      → 0 < n
      → (m : String) × (rest : List String) × (get_preference_list hash r key n ≡ ok (m ∷ rest))
        × (get_node hash r key ≡ ok m)
        × Unique (m ∷ rest)
        × Below (m ∷ rest) r.nodes
        × (length (m ∷ rest) ≡ min n (length r.nodes))
  unfolding get_preference_list met
  get_preference_list_lem n v f e pos =
      let some_node = somebody v e in
      let pos_hashes : 0 < length r.sorted_hashes = omega (arith, start-lt e) in
      let (ps, q, w) =
        walk-Walked r (start_of hash r key) (min n (length r.nodes)) 0 (length r.sorted_hashes) [] v
          pos_hashes (record { unique = tt; known = λ a i. elim i [ ]; room = omega arith }) in
      let (m, rest, g, s) = w.first refl pos_hashes in
      (
        m,
        rest,
        rw (e, q, s),
        start-met e ∙ g,
        rw s at w.unique,
        rw s at w.known,
        rw s at (length-Walked n ps f e w),
      )
