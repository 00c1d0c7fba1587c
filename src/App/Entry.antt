-- ===== src/App/Entry.antt =====
-- src/dynamokv/main.py and src/dynamokv/run.py: the applications of a node in production, and the
-- ports that they are served on.
use secure_dynamo_kv_store.Prelude.{
  ℕ, String, Bool, false, Option, none, some, List, [], ◌∷◌, ◌++◌, length, ltb,
}
use Prim.Native.String
use secure_dynamo_kv_store.Dict.{Dict}
use secure_dynamo_kv_store.Auth.{TokenEntry}
use secure_dynamo_kv_store.Node.Replica.{Node}
use secure_dynamo_kv_store.Node.Worker
use secure_dynamo_kv_store.Node.Worker.{Worker}
use secure_dynamo_kv_store.App.{
  Config, cluster_nodes_from_config, build_node, default_audit_log_path, Router, public_router,
  ops_router, internal_router, Middleware, audit, request_log, metrics, audit_if,
  dashboard_middlewares,
}

-- What `lifespan` does to the worker of an application when it starts and when it ends.
unfoldable pub on_startup : Option Worker → Option Worker
on_startup none = none
on_startup (some worker) = some (Worker.start worker)

unfoldable pub on_shutdown : Option Worker → Option Worker
on_shutdown none = none
on_shutdown (some worker) = some (Worker.stop worker)

-- An application that is served on a port of its own.
pub record Served : Type 0 where
  pub node : Node
  pub auth_tokens : Option (Dict String TokenEntry)
  pub routers : List Router
  pub audit_log_path : Option String
  pub gossip_worker : Bool
  pub middlewares : List Middleware
  pub dashboard : Bool

unfoldable pub create_public_app : Config → Node → Dict String TokenEntry → String → Served
create_public_app config node auth_tokens audit_log_path = record {
  node = node;
  auth_tokens = some auth_tokens;
  routers = public_router ∷ ops_router ∷ [];
  audit_log_path = some audit_log_path;
  gossip_worker = false;
  middlewares = audit audit_log_path ∷ request_log ∷ metrics ∷ dashboard_middlewares config;
  dashboard = config.frontend_built;
}

-- No token authentication: the transport has asked for a client certificate.
unfoldable pub create_internal_app : Node → Bool → Option String → Served
create_internal_app node gossip_worker audit_log_path = record {
  node = node;
  auth_tokens = none;
  routers = internal_router ∷ [];
  audit_log_path = audit_log_path;
  gossip_worker = gossip_worker;
  middlewares = audit_if audit_log_path ++ (request_log ∷ metrics ∷ []);
  dashboard = false;
}

unfoldable pub default_internal_audit_log_path : Config → String
default_internal_audit_log_path config =
    String.◌++◌ config.db_directory
      (String.◌++◌ "/" (String.◌++◌ config.node_id ".internal-audit.log"))

-- What a port asks of those who connect: no TLS, TLS with the server's certificate only, or a
-- certificate of the client as well.
pub data Transport : Type 0 where
  plain server_only client_certificate : Transport

-- Behind a port is an application, or the one that only answers /metrics.
pub data Behind : Type 0 where
  application : Served → Behind
  metrics_page : Node → Behind

pub record Listener : Type 0 where
  pub behind : Behind
  pub port : ℕ
  pub transport : Transport

-- `main` of run.py: for clients, for the other nodes, and for what reads the metrics.
unfoldable pub listeners : (String → ℕ) → Config → Dict String TokenEntry → ℕ → List Listener
listeners hash config loaded metrics_port =
    let node = build_node hash config in
    record {
      behind = application (create_public_app config node loaded (default_audit_log_path config));
      port = config.port;
      transport = server_only;
    }
    ∷ record {
      behind = application (
          create_internal_app node (ltb 1 (length (cluster_nodes_from_config config)))
            (some (default_internal_audit_log_path config)));
      port = config.internal_port;
      transport = client_certificate;
    }
    ∷ record { behind = metrics_page node; port = metrics_port; transport = plain }
    ∷ []
