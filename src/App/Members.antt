-- ===== src/App/Members.antt =====
-- src/dynamokv/main.py and src/dynamokv/run.py: the members of the cluster that a node is built
-- with.
use secure_dynamo_kv_store.Prelude.{
  ℕ, ◌≡◌, refl, ◌∙◌, String, string_eq, nat_eq, false, none, some, List, [], ◌∷◌, ◌==◌,
  if◌then◌else◌, In, In-cons, inl, inr, Bool-cases, Option-cases, eq_of_==,
}
use secure_dynamo_kv_store.Dict
use secure_dynamo_kv_store.Dict.{Dict}
use secure_dynamo_kv_store.Auth.{TokenEntry}
use secure_dynamo_kv_store.App.{
  Config, Options, url, peers_from, cluster_nodes_from_config, create_app, build_node,
}

module _ (address : String → String) (node_id : String) where
  peers_from_self :
      (nodes : List String) (peers : Dict String String)
      → Dict.get (peers_from address node_id peers nodes) node_id ≡ Dict.get peers node_id
  unfolding peers_from
  peers_from_self [] peers = refl
  peers_from_self (nid ∷ nodes) peers = elim (Bool-cases (nid == node_id)) [
    | inl s ↦ rw s (peers_from_self nodes peers)
    | inr s ↦ rw s (peers_from_self nodes (Dict.put peers nid (address nid)) ∙ rw (Dict.get-put, s))
  ]

  peers_from-kept :
      (nodes : List String) (peers : Dict String String) (j : String)
      → Dict.get peers j ≡ some (address j)
      → Dict.get (peers_from address node_id peers nodes) j ≡ some (address j)
  unfolding peers_from
  peers_from-kept [] peers j h = h
  peers_from-kept (nid ∷ nodes) peers j h = elim (Bool-cases (nid == node_id)) [
    | inl s ↦ rw s (peers_from-kept nodes peers j h)
    | inr s ↦ rw s (
        peers_from-kept nodes (Dict.put peers nid (address nid)) j (elim (Bool-cases (nid == j)) [
          | inl t ↦ rw (Dict.get-put, t, eq_of_== nid j t)
          | inr t ↦ rw (Dict.get-put, t) h
        ]))
  ]

  peers_from-In :
      (nodes : List String) (peers : Dict String String) (j : String)
      → In j nodes
      → (j == node_id) ≡ false
      → Dict.get (peers_from address node_id peers nodes) j ≡ some (address j)
  unfolding peers_from
  peers_from-In [] peers j m h = elim m [ ]
  peers_from-In (nid ∷ nodes) peers j m h = elim (In-cons m) [
    | inl e ↦
        let same : (nid == node_id) ≡ false = rw e at h in
        rw same
          (peers_from-kept nodes (Dict.put peers nid (address nid)) j (rw (e, Dict.get-put_self)))
    | inr n ↦
        peers_from-In nodes (if nid == node_id then peers else Dict.put peers nid (address nid)) j n
          h
  ]

  -- A node's peers are the other members, each at its address.
  get-peers_from :
      (nodes : List String) (j : String)
      → In j nodes
      → Dict.get (peers_from address node_id [] nodes) j
        ≡ (if j == node_id then none else some (address j))
  unfolding Dict.get
  get-peers_from nodes j m = elim (Bool-cases (j == node_id)) [
    | inl s ↦ rw (s, eq_of_== j node_id s) (peers_from_self nodes [])
    | inr s ↦ rw s (peers_from-In nodes [] j m s)
  ]

-- For each member that CLUSTER_NODES names, the node that `_build_node` makes has its address on
-- the internal port among its peers, but for itself, which is not among them.
pub build_node-peers :
    (hash : String → ℕ) (config : Config) (j : String)
    → In j (cluster_nodes_from_config config)
    → Dict.get (build_node hash config).peers j
      ≡ (if j == config.node_id then none else some (url "https" config.internal_port j))
unfolding build_node
build_node-peers hash config j m =
    get-peers_from (url "https" config.internal_port) config.node_id
      (cluster_nodes_from_config config) j m

-- Without a storage of the caller's, `create_app` always leaves authentication on: its
-- application has a table of tokens.
pub create_app_closed :
    (hash : String → ℕ) (config : Config) (loaded : Dict String TokenEntry) (options : Options)
    → options.storage ≡ false
    → (tokens : Dict String TokenEntry) × ((create_app hash config loaded options).auth_tokens
        ≡ some tokens)
unfolding create_app
create_app_closed hash config loaded options h = elim (Option-cases options.auth_tokens) [
  | inl n ↦ (loaded, rw (n, h))
  | inr (tokens, e) ↦ (tokens, rw e)
]
