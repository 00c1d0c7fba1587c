-- ===== src/Metrics/Gauges.antt =====
-- src/dynamokv/metrics.py: the gauges of the peers after a scrape.
use secure_dynamo_kv_store.Prelude.{
  ℕ, ◌≡◌, ◌∙◌, String, string_eq, ◌==◌, ==_refl, Bool, Option, some, List, [], ◌∷◌, In, In-cons,
  inl, inr, if◌then◌else◌, filter, Bool-cases, eq_of_==,
}
use secure_dynamo_kv_store.Dict
use secure_dynamo_kv_store.Ring.{member}
use secure_dynamo_kv_store.Gossip.{GossipState, believed_down}
use secure_dynamo_kv_store.Node.Replica.{Node}
use secure_dynamo_kv_store.Node.Background.{down_peers, peer_ids}
use secure_dynamo_kv_store.Api.Dashboard.{member-filter}
use secure_dynamo_kv_store.Metrics.{Registry, RegistryLaws, set_peers, scrape}

module _ {M : Type 0} (registry : Registry M) (laws : RegistryLaws registry) where
  abbrev level : List String → String → Option ℕ
  level down id = some (if member down id then 0 else 1)

  -- What is set already stays, if it is the level of the peer.
  set_peers-kept :
      (down peers : List String) (id : String) (m : M)
      → registry.cluster_node_up m id ≡ level down id
      → registry.cluster_node_up (set_peers registry down peers m) id ≡ level down id
  unfolding set_peers
  set_peers-kept down [] id m h = h
  set_peers-kept down (p ∷ peers) id m h =
      set_peers-kept down peers id (registry.set p (if member down p then 0 else 1) m)
        (elim (Bool-cases (p == id)) [
          | inl s ↦ rw (laws.up-set, s, eq_of_== p id s)
          | inr s ↦ rw (laws.up-set, s) h
        ])

  set_peers-up :
      (down peers : List String) (id : String) (m : M)
      → In id peers
      → registry.cluster_node_up (set_peers registry down peers m) id ≡ level down id
  unfolding set_peers
  set_peers-up down [] id m i = elim i [ ]
  set_peers-up down (p ∷ peers) id m i = elim (In-cons i) [
    | inl e ↦ set_peers-kept down peers id _ (rw (laws.up-set, e, ==_refl p))
    | inr j ↦ set_peers-up down peers id _ j
  ]

  -- After a scrape the gauge of each peer is 0 if the node believes it down at that time, and 1
  -- otherwise, whatever was set before.
  pub scrape-up :
      (node : Node) (gossip_state : GossipState) (now : ℕ) (m : M) (peer_id : String)
      → In peer_id (peer_ids node)
      → registry.cluster_node_up (scrape registry node gossip_state now m).1 peer_id
        ≡ some (if believed_down gossip_state peer_id now node.gossip_failure_timeout then 0 else 1)
  unfolding scrape down_peers peer_ids
  scrape-up node gossip_state now m peer_id i =
      let down : String → Bool =
        λ id. believed_down gossip_state id now node.gossip_failure_timeout in
      set_peers-up (filter down (Dict.keys node.peers)) (Dict.keys node.peers) peer_id m i
      ∙ rw (member-filter down (Dict.keys node.peers) peer_id i)
