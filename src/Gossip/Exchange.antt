-- ===== src/Gossip/Exchange.antt =====
-- src/dynamokv/gossip.py: one push and pull between two nodes.
use secure_dynamo_kv_store.Prelude.{
  ℕ, ◌≡◌, ◌≢◌, refl, ◌∙◌, String, string_eq, Option, none, some, [], ◌∷◌, arith, map, ◌==◌,
  Bool-cases, inl, inr, ==_ne,
}
use secure_dynamo_kv_store.Prelude.Int.{ℤ, ≤ℤ_antisymm}
use secure_dynamo_kv_store.Dict
use secure_dynamo_kv_store.Dict.{Dict, Distinct}
use secure_dynamo_kv_store.Gossip.{Entry, GossipState, to_wire, merge_wire}
use secure_dynamo_kv_store.Gossip.Liveness.{fresher, merge_wire_lem, merge_wire-Distinct}

abbrev pub counter_of : Option Entry → Option ℤ
counter_of none = none
counter_of (some e) = some e.counter

abbrev wire : Dict String Entry → Dict String ℤ
wire = map (λ (node_id, e). (node_id, e.counter))

get-wire : (t : Dict String Entry) (j : String) → Dict.get (wire t) j ≡ counter_of (Dict.get t j)
unfolding Dict.get
get-wire [] j = refl
get-wire ((k, e) ∷ t) j = elim (Bool-cases (k == j)) [ inl s ↦ rw s | inr s ↦ rw s (get-wire t j) ]

Distinct-wire : (t : Dict String Entry) → Distinct t → Distinct (wire t)
Distinct-wire [] d = tt
Distinct-wire ((k, e) ∷ t) d = (rw (get-wire t k, d.0), Distinct-wire t d.1)

-- Two entries after an exchange: the receiver takes what is newer, and the sender what comes back.
exchanged :
    (a b : Option Entry) (now later : ℕ)
    → counter_of (fresher a (counter_of (fresher b (counter_of a) now)) later)
      ≡ counter_of (fresher b (counter_of a) now)
exchanged none none now later = refl
exchanged none (some f) now later = refl
exchanged (some e) none now later = ground arith
exchanged (some e) (some f) now later = ground (arith, ≤ℤ_antisymm e.counter f.counter)

-- After one push and pull between two nodes whose tables name each node once, the two have the
-- same counter, or none, for every third node.
pub exchange-agree :
    (a b : GossipState) (now later : ℕ) (j : String)
    → Distinct a.table
    → Distinct b.table
    → j ≢ a.node_id
    → j ≢ b.node_id
    → counter_of (Dict.get (merge_wire a later (to_wire (merge_wire b now (to_wire a)))).table j)
      ≡ counter_of (Dict.get (merge_wire b now (to_wire a)).table j)
unfolding to_wire
exchange-agree a b now later j da db na nb =
    let b' = merge_wire b now (wire a.table) in
    let pushed : Dict.get b'.table j
        ≡ fresher (Dict.get b.table j) (counter_of (Dict.get a.table j)) now =
      merge_wire_lem b now (wire a.table) j (Distinct-wire a.table da)
      ∙ rw (==_ne j b.node_id nb, get-wire a.table j) in
    let pulled =
      merge_wire_lem a later (wire b'.table) j
        (Distinct-wire b'.table (merge_wire-Distinct b now (wire a.table) db)) in
    rw (pulled, ==_ne j a.node_id na, get-wire b'.table j, pushed)
      (exchanged (Dict.get a.table j) (Dict.get b.table j) now later)
