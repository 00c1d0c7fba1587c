-- ===== src/Gossip/Liveness.antt =====
-- src/dynamokv/gossip.py: `merge_wire` on the table, and `believed_down`.
use secure_dynamo_kv_store.Prelude.{
  ℕ, ◌+◌, ◌≤◌, ◌≡◌, ◌≢◌, ◌↔◌, refl, ◌∙◌, sym, ap, String, string_eq, Bool, true, false, Option,
  none, some, List, [], ◌∷◌, arith, ltb, ◌==◌, if◌then◌else◌, Bool-cases, Option-cases, inl, inr,
  eq_of_==, ne_of_==, ==_ne, In, In-filter, filter-In, subst,
}
use secure_dynamo_kv_store.Prelude.Int.{ℤ, ◌≤ℤ◌, ◌<ℤ◌, ltb_ℤ}
use secure_dynamo_kv_store.Dict
use secure_dynamo_kv_store.Dict.{Dict, Distinct}
use secure_dynamo_kv_store.Gossip.{
  Entry, GossipState, newer, store, merge_items, merge_wire, silent, believed_down, down_nodes,
}

-- What one incoming counter, or none, makes of an entry.
abbrev pub fresher : Option Entry → Option ℤ → ℕ → Option Entry
fresher current none now = current
fresher none (some c) now = some (record { counter = c; last_seen = now })
fresher (some e) (some c) now =
    if ltb_ℤ e.counter c then some (record { counter = c; last_seen = now }) else some e

get-store :
    (t : Dict String Entry) (k j : String) (c : ℤ) (now : ℕ)
    → Dict.get (store t k (newer (Dict.get t k) c now)) j
      ≡ (if k == j then fresher (Dict.get t k) (some c) now else Dict.get t j)
get-store t k j c now = elim (Option-cases (Dict.get t k)) [
  | inl p ↦ rw p (Dict.get-put t k j (record { counter = c; last_seen = now }))
  | inr (e, p) ↦ elim (Bool-cases (ltb_ℤ e.counter c)) [
    | inl s ↦ rw (p, s) (Dict.get-put t k j (record { counter = c; last_seen = now }))
    | inr s ↦
        rw (p, s)
          (elim (Bool-cases (k == j)) [
            | inl q ↦ rw q (subst (λ x. Dict.get t x ≡ some e) (eq_of_== k j q) p)
            | inr q ↦ rw q
          ])
  ]
]

get-merge_items_self :
    (self : String) (now : ℕ) (t : Dict String Entry) (incoming : Dict String ℤ)
    → Dict.get (merge_items self now t incoming) self ≡ Dict.get t self
unfolding merge_items
get-merge_items_self self now t [] = refl
get-merge_items_self self now t ((k, c) ∷ incoming) = elim (Bool-cases (k == self)) [
  | inl s ↦ rw s (get-merge_items_self self now t incoming)
  | inr s ↦ rw s (
      get-merge_items_self self now (store t k (newer (Dict.get t k) c now)) incoming
      ∙ rw (get-store t k self c now, s))
]

get-merge_items :
    (self : String) (now : ℕ) (t : Dict String Entry) (incoming : Dict String ℤ) (j : String)
    → Distinct incoming
    → j ≢ self
    → Dict.get (merge_items self now t incoming) j
      ≡ fresher (Dict.get t j) (Dict.get incoming j) now
unfolding merge_items Dict.get
get-merge_items self now t [] j d h = refl
get-merge_items self now t ((k, c) ∷ incoming) j d h = elim (Bool-cases (k == j)) [
  | inl s ↦
      let e = eq_of_== k j s in
      let other : (k == self) ≡ false = ==_ne k self (λ q. h (sym e ∙ q)) in
      let once : Dict.get incoming j ≡ none = subst (λ x. Dict.get incoming x ≡ none) e d.0 in
      let table = store t k (newer (Dict.get t k) c now) in
      rw (other, s)
        (get-merge_items self now table incoming j d.1 h
          ∙ rw (once, get-store t k j c now, s) (ap (λ x. fresher (Dict.get t x) (some c) now) e))
  | inr s ↦ elim (Bool-cases (k == self)) [
    | inl q ↦ rw (q, s) (get-merge_items self now t incoming j d.1 h)
    | inr q ↦
        let table = store t k (newer (Dict.get t k) c now) in
        rw (q, s) (get-merge_items self now table incoming j d.1 h ∙ rw (get-store t k j c now, s))
  ]
]

-- If the incoming table names each node once, `merge_wire` never touches the node's own entry,
-- whatever the peer sends; the entry of each other node becomes the incoming counter, stamped
-- with the time of the merge, where there was none or its counter was lower, and stays as it was
-- otherwise.
pub merge_wire_lem :
    (s : GossipState) (now : ℕ) (incoming : Dict String ℤ) (j : String)
    → Distinct incoming
    → Dict.get (merge_wire s now incoming).table j ≡ (
        if j == s.node_id
        then Dict.get s.table j
        else fresher (Dict.get s.table j) (Dict.get incoming j) now)
unfolding merge_wire
merge_wire_lem s now incoming j d = elim (Bool-cases (j == s.node_id)) [
  | inl q ↦ rw q (
      subst (λ x. Dict.get (merge_items s.node_id now s.table incoming) x ≡ Dict.get s.table x)
        (sym (eq_of_== j s.node_id q)) (get-merge_items_self s.node_id now s.table incoming))
  | inr q ↦ rw q (get-merge_items s.node_id now s.table incoming j d (ne_of_== j s.node_id q))
]

fresher_twice :
    (o : Option Entry) (c : Option ℤ) (now later : ℕ)
    → fresher (fresher o c now) c later ≡ fresher o c now
fresher_twice none none now later = refl
fresher_twice none (some c) now later = ground arith
fresher_twice (some e) none now later = refl
fresher_twice (some e) (some c) now later = ground arith

settle :
    (b : Bool) (o o' : Option Entry) (c : Option ℤ) (now later : ℕ)
    → o' ≡ (if b then o else fresher o c now)
    → (if b then o' else fresher o' c later) ≡ o'
settle true o o' c now later e = refl
settle false o o' c now later e = rw e (fresher_twice o c now later)

-- A table that names each node once and arrives again, however late, changes no entry: a replayed
-- message is no sign of life.
pub merge_wire_again :
    (s : GossipState) (now later : ℕ) (incoming : Dict String ℤ) (j : String)
    → Distinct incoming
    → Dict.get (merge_wire (merge_wire s now incoming) later incoming).table j
      ≡ Dict.get (merge_wire s now incoming).table j
unfolding merge_wire
merge_wire_again s now later incoming j d =
    merge_wire_lem (merge_wire s now incoming) later incoming j d
    ∙ settle (j == s.node_id) (Dict.get s.table j) (Dict.get (merge_wire s now incoming).table j)
        (Dict.get incoming j) now later (merge_wire_lem s now incoming j d)

-- The counter that a table has for a node, if any, is ahead of the entry.
abbrev pub IsNews : Option Entry → Option ℤ → Type 0
IsNews o none = ⊥
IsNews none (some c) = Unit
IsNews (some e) (some c) = e.counter <ℤ c

fresher-news :
    (o : Option Entry) (c : Option ℤ) (now t timeout : ℕ)
    → IsNews o c
    → t ≤ now + timeout
    → silent (fresher o c now) t timeout ≡ false
fresher-news o none now t timeout n le = absurd n
fresher-news none (some c) now t timeout n le = ground arith
fresher-news (some e) (some c) now t timeout n le = ground arith

silent-if :
    (b : Bool) (o p : Option Entry) (t timeout : ℕ)
    → silent p t timeout ≡ false
    → (if b then false else silent (if b then o else p) t timeout) ≡ false
silent-if true o p t timeout h = refl
silent-if false o p t timeout h = h

-- A heartbeat that is news keeps its node alive: after the merge of a table that names each node
-- once and has a higher counter for the node than its entry, or where it has no entry, it is not
-- believed down until the timeout has passed since the merge.
pub heartbeat-alive :
    (s : GossipState) (now t timeout : ℕ) (incoming : Dict String ℤ) (j : String)
    → Distinct incoming
    → IsNews (Dict.get s.table j) (Dict.get incoming j)
    → t ≤ now + timeout
    → believed_down (merge_wire s now incoming) j t timeout ≡ false
unfolding believed_down merge_wire
heartbeat-alive s now t timeout incoming j d n le = rw (merge_wire_lem s now incoming j d) (
    silent-if (j == s.node_id) (Dict.get s.table j)
      (fresher (Dict.get s.table j) (Dict.get incoming j) now) t timeout
      (fresher-news (Dict.get s.table j) (Dict.get incoming j) now t timeout n le))

-- A table with nothing new about a node: it does not name it, or with a counter that is no higher.
abbrev pub IsStale : Entry → Option ℤ → Type 0
IsStale e none = Unit
IsStale e (some c) = c ≤ℤ e.counter

-- Merges, one after the other, each at its time.
pub merge_all : GossipState → List (ℕ × Dict String ℤ) → GossipState
merge_all s [] = s
merge_all s ((now, incoming) ∷ rest) = merge_all (merge_wire s now incoming) rest

abbrev pub AllStale : Entry → String → List (ℕ × Dict String ℤ) → Type 0
AllStale e j [] = Unit
AllStale e j ((now, incoming) ∷ rest) =
    Distinct incoming × IsStale e (Dict.get incoming j) × AllStale e j rest

fresher-stale : (e : Entry) (c : Option ℤ) (now : ℕ) → IsStale e c → fresher (some e) c now ≡ some e
fresher-stale e none now h = refl
fresher-stale e (some c) now h = ground arith

merge_wire-stale :
    (s : GossipState) (now : ℕ) (incoming : Dict String ℤ) (j : String) (e : Entry)
    → Distinct incoming
    → IsStale e (Dict.get incoming j)
    → Dict.get s.table j ≡ some e
    → Dict.get (merge_wire s now incoming).table j ≡ some e
merge_wire-stale s now incoming j e d st g = elim (Bool-cases (j == s.node_id)) [
  | inl q ↦ merge_wire_lem s now incoming j d ∙ rw q g
  | inr q ↦
      merge_wire_lem s now incoming j d ∙ rw (q, g) (fresher-stale e (Dict.get incoming j) now st)
]

merge_all-stale :
    (s : GossipState) (ms : List (ℕ × Dict String ℤ)) (j : String) (e : Entry)
    → AllStale e j ms
    → Dict.get s.table j ≡ some e
    → (Dict.get (merge_all s ms).table j ≡ some e) × ((merge_all s ms).node_id ≡ s.node_id)
unfolding merge_all merge_wire
merge_all-stale s [] j e h g = (g, refl)
merge_all-stale s ((now, incoming) ∷ ms) j e (d, st, h) g =
    merge_all-stale (merge_wire s now incoming) ms j e h
      (merge_wire-stale s now incoming j e d st g)

-- A peer whose counter stops is found out: after any merges of tables that name each node once
-- and bring nothing new about it, a peer in the table, other than the node itself, is believed
-- down exactly from the moment at which the timeout has passed since it was last seen.
pub silence-down :
    (s : GossipState) (ms : List (ℕ × Dict String ℤ)) (j : String) (e : Entry) (t timeout : ℕ)
    → j ≢ s.node_id
    → Dict.get s.table j ≡ some e
    → AllStale e j ms
    → believed_down (merge_all s ms) j t timeout ≡ ltb (e.last_seen + timeout) t
unfolding believed_down
silence-down s ms j e t timeout ne g h =
    let (g', same) = merge_all-stale s ms j e h g in rw (same, ==_ne j s.node_id ne, g')

believed_down-known :
    (s : GossipState) (j : String) (now timeout : ℕ)
    → believed_down s j now timeout ≡ true
    → In j (Dict.keys s.table)
unfolding believed_down
believed_down-known s j now timeout h = elim (Option-cases (Dict.get s.table j)) [
  | inl p ↦ absurd (ground arith)
  | inr (e, p) ↦ Dict.In-keys_of_get s.table j p
]

-- `down_nodes` lists a node exactly if it is believed down.
pub down_nodes_iff :
    (s : GossipState) (now timeout : ℕ) (j : String)
    → In j (down_nodes s now timeout) ↔ (believed_down s j now timeout ≡ true)
unfolding down_nodes
down_nodes_iff s now timeout j = (
  λ m. (filter-In (λ n. believed_down s n now timeout) (Dict.keys s.table) m).1,
  λ h.
      In-filter (λ n. believed_down s n now timeout) (Dict.keys s.table)
        (believed_down-known s j now timeout h) h,
)

store-Distinct :
    (t : Dict String Entry) (k : String) (o : Option Entry) → Distinct t → Distinct (store t k o)
store-Distinct t k none d = d
store-Distinct t k (some e) d = Dict.put-Distinct t k e d

merge_items-Distinct :
    (self : String) (now : ℕ) (t : Dict String Entry) (incoming : Dict String ℤ)
    → Distinct t
    → Distinct (merge_items self now t incoming)
unfolding merge_items
merge_items-Distinct self now t [] d = d
merge_items-Distinct self now t ((k, c) ∷ incoming) d = elim (Bool-cases (k == self)) [
  | inl s ↦ rw s (merge_items-Distinct self now t incoming d)
  | inr s ↦ rw s (
      merge_items-Distinct self now (store t k (newer (Dict.get t k) c now)) incoming
        (store-Distinct t k (newer (Dict.get t k) c now) d))
]

-- The table stays a dict.
pub merge_wire-Distinct :
    (s : GossipState) (now : ℕ) (incoming : Dict String ℤ)
    → Distinct s.table
    → Distinct (merge_wire s now incoming).table
unfolding merge_wire
merge_wire-Distinct s now incoming d = merge_items-Distinct s.node_id now s.table incoming d
