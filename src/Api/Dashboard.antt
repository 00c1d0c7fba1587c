-- ===== src/Api/Dashboard.antt =====
-- src/dynamokv/api/routes.py: the peers in `cluster_state`.
use secure_dynamo_kv_store.Prelude.{
  ℕ, ◌≡◌, String, string_eq, ◌==◌, Bool, some, List, [], ◌∷◌, In, In-cons, In-filter, filter-In,
  filter, inl, inr, if◌then◌else◌, Bool-cases, eq_of_==, ne_of_==, sym,
}
use secure_dynamo_kv_store.Prelude.Result.{ok, >>=-eq-ok}
use secure_dynamo_kv_store.Dict
use secure_dynamo_kv_store.Ring.{member}
use secure_dynamo_kv_store.Ring.Membership.{member→In, In→member}
use secure_dynamo_kv_store.Storage.{StorageBackend}
use secure_dynamo_kv_store.HintStore.{Blob}
use secure_dynamo_kv_store.Gossip.{believed_down}
use secure_dynamo_kv_store.Journal.{Operation}
use secure_dynamo_kv_store.Node.Replica.{Node, Stored, Replica}
use secure_dynamo_kv_store.Node.Background.{down_peers, peer_ids, pending_hints}
use secure_dynamo_kv_store.Api.{ClusterStateResponse, peer_states, cluster_state}

get-peer_states :
    (down peers : List String) (p : String)
    → In p peers
    → Dict.get (peer_states down peers) p ≡ some (if member down p then "down" else "up")
unfolding peer_states Dict.get
get-peer_states down [] p m = elim m [ ]
get-peer_states down (q ∷ peers) p m = elim (Bool-cases (q == p)) [
  | inl s ↦ rw (s, eq_of_== q p s)
  | inr s ↦ elim (In-cons m) [
    | inl e ↦ absurd (ne_of_== q p s (sym e))
    | inr n ↦ rw s (get-peer_states down peers p n)
  ]
]

pub member-filter :
    (f : String → Bool) (l : List String) (p : String) → In p l → member (filter f l) p ≡ f p
member-filter f l p m = elim (Bool-cases (f p)) [
  | inl s ↦ rw s (In→member (filter f l) p (In-filter f l m s))
  | inr s ↦ elim (Bool-cases (member (filter f l) p)) [
    | inl t ↦ let up = (filter-In f l (member→In (filter f l) p t)).1 in cc
    | inr t ↦ rw (s, t)
  ]
]

module _ {V Time : Type 0} (sb : StorageBackend (Stored V)) (hb : StorageBackend (Blob V))
    (hash : String → ℕ) where
  -- Where `cluster_state` answers, it shows each peer of the node as "down" if the node believes
  -- it down at that time, and as "up" otherwise.
  pub cluster_state-peers :
      (node : Node) (s : Replica sb hb) (now : ℕ) (urls : List String) (virtual_nodes : ℕ)
      (ops : List (Operation Time)) (state : ClusterStateResponse Time) (p : String)
      → cluster_state hash sb hb node s now urls virtual_nodes ops ≡ ok state
      → In p (peer_ids node)
      → Dict.get state.peers p
        ≡ some (
            if believed_down s.gossip_state p now node.gossip_failure_timeout then "down" else "up")
  unfolding cluster_state down_peers peer_ids
  cluster_state-peers node s now urls virtual_nodes ops state p e m =
      let (hints, f, g) = >>=-eq-ok (pending_hints sb hb s (peer_ids node)) _ e in
      let down : String → Bool =
        λ peer_id. believed_down s.gossip_state peer_id now node.gossip_failure_timeout in
      let same : state.peers
          ≡ peer_states (filter down (Dict.keys node.peers)) (Dict.keys node.peers) =
        cc in
      rw (
        same,
        get-peer_states (filter down (Dict.keys node.peers)) (Dict.keys node.peers) p m,
        member-filter down (Dict.keys node.peers) p m,
      )
