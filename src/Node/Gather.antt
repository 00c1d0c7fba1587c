-- ===== src/Node/Gather.antt =====
-- src/dynamokv/node.py: `_quorum_op`, for any operation with an invariant.
use secure_dynamo_kv_store.Prelude.{
  ℕ, suc, ◌≤◌, ◌≡◌, refl, sym, ap, subst, ◌⊎◌, inl, inr, String, false, List, [], ◌∷◌, ◌++◌, map,
  arith, leb, ltb, length, In, here, there, In-cons, In-append-split, Unique, Unique-snoc, Below,
  Bool-cases,
}
use secure_dynamo_kv_store.Prelude.Result.{Result, ok, raise}
use secure_dynamo_kv_store.Storage.{StorageBackend}
use secure_dynamo_kv_store.HintStore.{Blob}
use secure_dynamo_kv_store.Node.Replica.{Stored}
use secure_dynamo_kv_store.Node.Network.{Cluster, Fanout, gather}

-- The nodes that the successes come from.
abbrev pub names : {A : Type 0} → List (String × A) → List String
names = map (λ s. s.0)

pub length-names : {A : Type 0} (l : List (String × A)) → length (names l) ≡ length l
length-names [] = refl
length-names (s ∷ l) = ap suc (length-names l)

pub ltb-false : (a b : ℕ) → ltb a b ≡ false → b ≤ a
ltb-false a b h = ground arith

pub Result-cases : {A : Type 0} (r : Result A) → ((a : A) × (r ≡ ok a)) ⊎ ((e : _) × (r ≡ raise e))
Result-cases (ok a) = inl (a, refl)
Result-cases (raise e) = inr (e, refl)

module _ {V A : Type 0} (sb : StorageBackend (Stored V)) (hb : StorageBackend (Blob V)) where
  -- An operation of the fan-out keeps an invariant `I`; where it succeeds it gains `Q` of its node,
  -- and it takes `Q` from no other.
  pub record IsOp (op : String → Cluster sb hb → Result A × Cluster sb hb)
      (I : Cluster sb hb → Type 0) (Q : String → A → Cluster sb hb → Type 0) : Type 0 where
    pub keeps : (id : String) (cl : Cluster sb hb) → I cl → I (op id cl).1
    pub gains :
        (id : String) (cl : Cluster sb hb) (a : A)
        → I cl
        → (op id cl).0 ≡ ok a
        → Q id a (op id cl).1
    pub stays : (id j : String) (cl : Cluster sb hb) (b : A) → I cl → Q j b cl → Q j b (op id cl).1

  -- What a fan-out has so far, with `order` still to complete.
  pub record Running (I : Cluster sb hb → Type 0) (Q : String → A → Cluster sb hb → Type 0)
      (order : List String) (successes : List (String × A)) (cl : Cluster sb hb) : Type 0 where
    pub holds : I cl
    pub each : (j : String) (b : A) → In (j, b) successes → Q j b cl
    pub unique : Unique (names successes)
    pub apart : (a : String) → In a (names successes) → ¬ In a order

  -- What it returns.
  pub record Gathered (I : Cluster sb hb → Type 0) (Q : String → A → Cluster sb hb → Type 0)
      (from : List String) (f : Fanout sb hb A) : Type 0 where
    pub holds : I f.cluster
    pub each : (j : String) (b : A) → In (j, b) f.successes → Q j b f.cluster
    pub unique : Unique (names f.successes)
    pub known : Below (names f.successes) from

  names-snoc :
      (l : List (String × A)) (id : String) (a : A) → names (l ++ (id, a) ∷ []) ≡ names l ++ id ∷ []
  names-snoc [] id a = refl
  names-snoc ((j, b) ∷ l) id a = ap (◌∷◌ j) (names-snoc l id a)

  module _ (op : String → Cluster sb hb → Result A × Cluster sb hb) (I : Cluster sb hb → Type 0)
      (Q : String → A → Cluster sb hb → Type 0) (is_op : IsOp op I Q) where
    Running-ok :
        (id : String) (order : List String) (successes : List (String × A)) (cl : Cluster sb hb)
        (a : A)
        → Unique (id ∷ order)
        → Running I Q (id ∷ order) successes cl
        → (op id cl).0 ≡ ok a
        → Running I Q order (successes ++ (id, a) ∷ []) (op id cl).1
    Running-ok id order successes cl a u h e = record {
      holds = is_op.keeps id cl h.holds;
      each = λ j b m. elim (In-append-split successes ((id, a) ∷ []) m) [
        | inl l ↦ is_op.stays id j cl b h.holds (h.each j b l)
        | inr r ↦ elim (In-cons r) [
          | inl q ↦
              subst (λ (x : String × A). Q x.0 x.1 (op id cl).1) (sym q)
                (is_op.gains id cl a h.holds e)
          | inr z ↦ elim z [ ]
        ]
      ];
      unique =
          rw (names-snoc successes id a)
            (Unique-snoc (names successes) id h.unique (λ m. h.apart id m (here refl)));
      apart = λ b m.
          elim (In-append-split (names successes) (id ∷ []) (rw (names-snoc successes id a) at m)) [
            | inl l ↦ λ n. h.apart b l (there n)
            | inr r ↦ elim (In-cons r) [ inl q ↦ λ n. u.0 (rw q at n) | inr z ↦ elim z [ ] ]
          ];
    }

    Running-raise :
        (id : String) (order : List String) (successes : List (String × A)) (cl : Cluster sb hb)
        → Running I Q (id ∷ order) successes cl
        → Running I Q order successes (op id cl).1
    Running-raise id order successes cl h = record {
      holds = is_op.keeps id cl h.holds;
      each = λ j b m. is_op.stays id j cl b h.holds (h.each j b m);
      unique = h.unique;
      apart = λ b m n. h.apart b m (there n);
    }

    gather-Running :
        (threshold : ℕ) (order : List String) (successes : List (String × A)) (cl : Cluster sb hb)
        (from : List String)
        → Unique order
        → Below order from
        → Below (names successes) from
        → Running I Q order successes cl
        → Gathered I Q from (gather sb hb threshold op order successes cl)
    unfolding gather
    gather-Running threshold [] successes cl from u b k h = record {
      holds = h.holds;
      each = h.each;
      unique = h.unique;
      known = k;
    }
    gather-Running threshold (id ∷ order) successes cl from u b k h =
        elim (Result-cases (op id cl).0) [
          | inr (e, q) ↦
              rw (q, gather)
                (gather-Running threshold order successes (op id cl).1 from u.1
                  (λ a m. b a (there m)) k (Running-raise id order successes cl h))
          | inl (a, q) ↦
              let more = successes ++ (id, a) ∷ [] in
              let next = Running-ok id order successes cl a u h q in
              let k' : Below (names more) from = λ c m.
                elim (In-append-split (names successes) (id ∷ [])
                  (rw (names-snoc successes id a) at m)) [
                    | inl l ↦ k c l
                    | inr r ↦ elim (In-cons r) [ inl i ↦ b c (here i) | inr z ↦ elim z [ ] ]
                  ] in
              elim (Bool-cases (leb threshold (length more))) [
                | inl s ↦
                    rw (q, gather, s)
                      (record {
                        holds = next.holds;
                        each = next.each;
                        unique = next.unique;
                        known = k';
                      })
                | inr s ↦
                    rw (q, gather, s)
                      (gather-Running threshold order more (op id cl).1 from u.1
                        (λ c m. b c (there m)) k' next)
              ]
        ]

    -- When a fan-out returns, each of its successes still has what it gained, and they come from
    -- different nodes of those that were asked.
    pub gather-Gathered :
        (threshold : ℕ) (order : List String) (cl : Cluster sb hb)
        → Unique order
        → I cl
        → Gathered I Q order (gather sb hb threshold op order [] cl)
    gather-Gathered threshold order cl u h =
        gather-Running threshold order [] cl order u (λ a m. m) (λ a m. elim m [ ])
          (record { holds = h; each = λ j b m. elim m [ ]; unique = tt; apart = λ a m. elim m [ ] })
