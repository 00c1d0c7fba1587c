-- ===== src/Tests/Heartbeats.antt =====
-- Two nodes, `a` and `b`, and what they hear of each other and of a third.
use secure_dynamo_kv_store.Prelude.{
  ◌≡◌, refl, String, string_eq, ◌==◌, if◌then◌else◌, [], ◌∷◌, ltb, arith, ne_of_==,
}
use secure_dynamo_kv_store.Prelude.Int.{ℤ, pos}
use secure_dynamo_kv_store.Dict
use secure_dynamo_kv_store.Dict.{Dict, Distinct}
use secure_dynamo_kv_store.Gossip.{GossipState, to_wire, merge_wire, believed_down}
use secure_dynamo_kv_store.Gossip.Liveness.{
  fresher, merge_wire_lem, merge_all, AllStale, silence-down,
}
use secure_dynamo_kv_store.Gossip.Exchange.{counter_of, exchange-agree}

abbrev at_a : GossipState
at_a = record {
  node_id = "a";
  table =
      ("a", record { counter = pos 3; last_seen = 9 })
      ∷ ("c", record { counter = pos 1; last_seen = 2 })
      ∷ [];
}

abbrev at_b : GossipState
at_b = record {
  node_id = "b";
  table =
      ("b", record { counter = pos 5; last_seen = 9 })
      ∷ ("c", record { counter = pos 4; last_seen = 8 })
      ∷ [];
}

abbrev heard : Dict String ℤ
heard = ("b", pos 5) ∷ ("c", pos 4) ∷ []

abbrev old_news : Dict String ℤ
old_news = ("c", pos 1) ∷ []

abbrev third : String
third = "c"

heard-Distinct : Distinct heard
unfolding Dict.get
heard-Distinct = (refl, (refl, tt))

old_news-Distinct : Distinct old_news
unfolding Dict.get
old_news-Distinct = (refl, tt)

at_a-Distinct : Distinct at_a.table
unfolding Dict.get
at_a-Distinct = (refl, (refl, tt))

at_b-Distinct : Distinct at_b.table
unfolding Dict.get
at_b-Distinct = (refl, (refl, tt))

merge_wire_lem_example : Dict.get (merge_wire at_a 10 heard).table "c" ≡ (
    if third == at_a.node_id
    then Dict.get at_a.table "c"
    else fresher (Dict.get at_a.table "c") (Dict.get heard "c") 10)
merge_wire_lem_example = merge_wire_lem at_a 10 heard "c" heard-Distinct

stale-twice :
    AllStale (record { counter = pos 1; last_seen = 2 }) "c" ((10, old_news) ∷ (20, old_news) ∷ [])
unfolding Dict.get
stale-twice = (old_news-Distinct, omega arith, (old_news-Distinct, omega arith, tt))

silence-down_example :
    believed_down (merge_all at_a ((10, old_news) ∷ (20, old_news) ∷ [])) "c" 21 6 ≡ ltb 8 21
unfolding Dict.get
silence-down_example =
    silence-down at_a ((10, old_news) ∷ (20, old_news) ∷ []) "c"
      (record { counter = pos 1; last_seen = 2 }) 21 6 (ne_of_== "c" "a" refl) refl stale-twice

exchange-agree_example :
    counter_of
      (Dict.get (merge_wire at_a 11 (to_wire (merge_wire at_b 10 (to_wire at_a)))).table "c")
    ≡ counter_of (Dict.get (merge_wire at_b 10 (to_wire at_a)).table "c")
exchange-agree_example =
    exchange-agree at_a at_b 10 11 "c" at_a-Distinct at_b-Distinct (ne_of_== "c" "a" refl)
      (ne_of_== "c" "b" refl)
