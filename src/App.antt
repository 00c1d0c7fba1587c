-- ===== src/App.antt =====
-- src/dynamokv/main.py, src/dynamokv/run.py and src/dynamokv/config.py: what nodes and
-- applications are built from. The failure timeout, a product of floats, reaches the node in
-- ticks of its clock.
pub mod Text
pub mod Entry
pub mod Doors
pub mod Members
pub mod Join
use secure_dynamo_kv_store.Prelude.{
  ℕ, suc, ◌+◌, ◌≤◌, String, string_eq, nat_eq, Bool, true, false, not, ◌&&◌, Option, none, some,
  List, [], ◌∷◌, ◌++◌, map, filter, is_empty, length, leb, ltb, ◌==◌, if◌then◌else◌,
}
use Prim.Native.String
use Prim.Native.Char.{Char, code}
use secure_dynamo_kv_store.Dict
use secure_dynamo_kv_store.Dict.{Dict}
use secure_dynamo_kv_store.Ring.{build, decimal}
use secure_dynamo_kv_store.Auth.{TokenEntry}
use secure_dynamo_kv_store.Node.Replica.{Node}
use secure_dynamo_kv_store.App.Text.{is_blank, strip, split_commas}

-- The settings of config.py that the modelled parts read.
pub record Config : Type 0 where
  pub node_id : String
  pub storage_backend : String
  pub cluster_nodes : String
  pub port : ℕ
  pub internal_port : ℕ
  pub virtual_nodes : ℕ
  pub n : ℕ
  pub r : ℕ
  pub w : ℕ
  pub failure_timeout : ℕ
  pub db_directory : String
  -- DB_PATH
  pub db_path : String
  pub public_cluster_urls : String
  pub dashboard_dev_cors_origins : String
  -- whether FRONTEND_DIST_DIR is a directory
  pub frontend_built : Bool

-- The test on which config.py warns that the quorums need not overlap.
unfoldable pub warns : Config → Bool
warns config = leb (config.w + config.r) config.n

-- [n.strip() for n in text.split(",") if n.strip()]
abbrev pub listed : String → List String
listed text = map strip (filter (λ n. not (is_blank (strip n))) (split_commas text))

unfoldable pub cluster_nodes_from_config : Config → List String
cluster_nodes_from_config config = listed config.cluster_nodes

-- PUBLIC_CLUSTER_URLS
unfoldable pub public_cluster_urls : Config → List String
public_cluster_urls config = listed config.public_cluster_urls

-- f"{scheme}://{nid}:{port}"
unfoldable pub url : String → ℕ → String → String
url scheme port nid =
    String.◌++◌ scheme
      (String.◌++◌ "://" (String.◌++◌ nid (String.◌++◌ ":" (decimal (suc port) port))))

-- {nid: ... for nid in cluster_nodes if nid != node_id}
unfoldable pub peers_from :
    (String → String) → String → Dict String String → List String → Dict String String
peers_from address node_id peers [] = peers
peers_from address node_id peers (nid ∷ nodes) =
    peers_from address node_id (if nid == node_id then peers else Dict.put peers nid (address nid))
      nodes

unfoldable pub default_audit_log_path : Config → String
default_audit_log_path config =
    String.◌++◌ config.db_directory (String.◌++◌ "/" (String.◌++◌ config.node_id ".audit.log"))

-- The one key that the two databases of a node are encrypted with.
unfoldable pub node_encryption_key_path : Config → String
node_encryption_key_path config =
    String.◌++◌ config.db_directory (String.◌++◌ "/" (String.◌++◌ config.node_id ".key"))

-- Where a node keeps something: in memory, or encrypted in the database at a path, with the key at
-- another.
pub data Place : Type 0 where
  in_memory : Place
  encrypted_at : (database key : String) → Place

unfoldable pub storage_place : Config → Place
storage_place config =
    if config.storage_backend == "memory"
    then in_memory
    else encrypted_at config.db_path (node_encryption_key_path config)

-- `build_hint_storage_from_config`
unfoldable pub hint_storage_place : Config → Place
hint_storage_place config =
    if config.storage_backend == "memory"
    then in_memory
    else encrypted_at (String.◌++◌ config.db_path ".hints") (node_encryption_key_path config)

-- What is wrapped around an application, in the order in which it is added.
pub data Middleware : Type 0 where
  audit : String → Middleware
  request_log metrics : Middleware
  cors : (origins : List String) → Middleware

-- What `_add_dashboard` adds: CORS for the origins that are set, and the page if it is built.
unfoldable pub dashboard_middlewares : Config → List Middleware
dashboard_middlewares config =
    let origins = listed config.dashboard_dev_cors_origins in
    if is_empty origins then [] else cors origins ∷ []

abbrev pub audit_if : Option String → List Middleware
audit_if none = []
audit_if (some path) = audit path ∷ []

-- The arguments of `create_app`; `storage` tells whether one was given.
pub record Options : Type 0 where
  pub storage : Bool
  pub node_id : Option String
  pub cluster_nodes : Option (List String)
  pub n : Option ℕ
  pub r : Option ℕ
  pub w : Option ℕ
  pub auth_tokens : Option (Dict String TokenEntry)
  pub audit_log_path : Option String

pub data Router : Type 0 where
  public_router ops_router internal_router : Router

-- What the application keeps in its state, and whether it starts a gossip worker.
pub record Application : Type 0 where
  pub node : Node
  pub auth_tokens : Option (Dict String TokenEntry)
  pub audit_log_path : Option String
  pub gossip_worker : Bool
  -- `none` stands for the storage that the caller gave, and for hints in memory
  pub storage : Option Place
  pub hint_storage : Option Place
  pub routers : List Router
  pub middlewares : List Middleware
  pub dashboard : Bool

module _ (hash : String → ℕ) where
  -- `create_app`, with the tokens that `load_auth_tokens` reads.
  unfoldable pub create_app : Config → Dict String TokenEntry → Options → Application
  create_app config loaded options =
      let production = not options.storage in
      let node_id = Dict.or_else options.node_id config.node_id in
      let nodes =
        Dict.or_else options.cluster_nodes
          (if production then cluster_nodes_from_config config else node_id ∷ []) in
      let peers = peers_from (url "http" config.port) node_id [] nodes in
      let audit_log_path : Option String = elim options.audit_log_path [
        | some path ↦ some path
        | none ↦ if production then some (default_audit_log_path config) else none
      ] in
      record {
        node = record {
          node_id = node_id;
          ring = build hash nodes config.virtual_nodes;
          peers = peers;
          n = Dict.or_else options.n (if production then config.n else 1);
          r = Dict.or_else options.r (if production then config.r else 1);
          w = Dict.or_else options.w (if production then config.w else 1);
          gossip_failure_timeout = if production then config.failure_timeout else 6;
        };
        auth_tokens = elim options.auth_tokens [
          | some tokens ↦ some tokens
          | none ↦ if production then some loaded else none
        ];
        audit_log_path = audit_log_path;
        gossip_worker = production && not (is_empty peers);
        storage = if production then some (storage_place config) else none;
        hint_storage = if production then some (hint_storage_place config) else none;
        routers = public_router ∷ ops_router ∷ internal_router ∷ [];
        middlewares =
            audit_if audit_log_path ++ (request_log ∷ metrics ∷ dashboard_middlewares config);
        dashboard = config.frontend_built;
      }

  -- `_build_node` of run.py.
  unfoldable pub build_node : Config → Node
  build_node config =
      let nodes = cluster_nodes_from_config config in
      record {
        node_id = config.node_id;
        ring = build hash nodes config.virtual_nodes;
        peers = peers_from (url "https" config.internal_port) config.node_id [] nodes;
        n = config.n;
        r = config.r;
        w = config.w;
        gossip_failure_timeout = config.failure_timeout;
      }
