-- ===== src/Gossip.antt =====
-- src/dynamokv/gossip.py: heartbeat counters and the local view of who is alive. Times are whole
-- clock ticks: the source's floats are readings of a monotonic clock, which are never negative.
pub mod Liveness
pub mod Exchange
use secure_dynamo_kv_store.Prelude.{
  ℕ, ◌+◌, String, string_eq, Bool, true, false, Option, none, some, List, [], ◌∷◌, map, filter, ltb,
  ◌==◌, if◌then◌else◌,
}
use secure_dynamo_kv_store.Prelude.Int.{ℤ, pos, ltb_ℤ, suc_ℤ}
use secure_dynamo_kv_store.Prelude.Result.{Result, ok, raise, key_error, ◌>>=◌}
use secure_dynamo_kv_store.Dict
use secure_dynamo_kv_store.Dict.{Dict}

-- A counter, and the local time at which it was seen to advance.
pub record Entry : Type 0 where
  pub counter : ℤ
  pub last_seen : ℕ

pub record GossipState : Type 0 where
  pub node_id : String
  pub table : Dict String Entry

-- `__init__`, at the time `now`.
abbrev pub new : String → ℕ → GossipState
new node_id now = record {
  node_id = node_id;
  table = (node_id, record { counter = pos 0; last_seen = now }) ∷ [];
}

-- The node's own entry one further.
abbrev bump : GossipState → ℕ → Option Entry → Result GossipState
bump s now none = raise key_error
bump s now (some e) = ok (record s {
  table = Dict.put s.table s.node_id (record { counter = suc_ℤ e.counter; last_seen = now });
})

unfoldable pub tick : GossipState → ℕ → Result GossipState
tick s now = bump s now (Dict.get s.table s.node_id)

-- The counters alone are what is sent.
unfoldable pub to_wire : GossipState → Dict String ℤ
to_wire s = map (λ (node_id, e). (node_id, e.counter)) s.table

-- What one item of the incoming table makes of the current entry; `none` leaves the table alone.
abbrev pub newer : Option Entry → ℤ → ℕ → Option Entry
newer none incoming_counter now = some (record { counter = incoming_counter; last_seen = now })
newer (some current) incoming_counter now =
    if ltb_ℤ current.counter incoming_counter
    then some (record { counter = incoming_counter; last_seen = now })
    else none

abbrev pub store : Dict String Entry → String → Option Entry → Dict String Entry
store table node_id none = table
store table node_id (some e) = Dict.put table node_id e

-- The loop of `merge_wire`, for the node `self`.
unfoldable pub merge_items : String → ℕ → Dict String Entry → Dict String ℤ → Dict String Entry
merge_items self now table [] = table
merge_items self now table ((node_id, incoming_counter) ∷ incoming) =
    let table' = store table node_id (newer (Dict.get table node_id) incoming_counter now) in
    merge_items self now (if node_id == self then table else table') incoming

unfoldable pub merge_wire : GossipState → ℕ → Dict String ℤ → GossipState
unfolding merge_items
merge_wire s now incoming = record s { table = merge_items s.node_id now s.table incoming }

-- (now - last_seen) > timeout
abbrev pub silent : Option Entry → ℕ → ℕ → Bool
silent none now timeout = false
silent (some e) now timeout = ltb (e.last_seen + timeout) now

unfoldable pub believed_down : GossipState → String → ℕ → ℕ → Bool
believed_down s node_id now timeout =
    if node_id == s.node_id then false else silent (Dict.get s.table node_id) now timeout

unfoldable pub down_nodes : GossipState → ℕ → ℕ → List String
unfolding believed_down
down_nodes s now timeout = filter (λ n. believed_down s n now timeout) (Dict.keys s.table)
