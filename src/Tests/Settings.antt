-- ===== src/Tests/Settings.antt =====
-- A configuration of two nodes, and a benchmark.
use secure_dynamo_kv_store.Prelude.{ℕ, String, string_eq, nat_eq, [], All, true}
use secure_dynamo_kv_store.Dict.{Dict}
use secure_dynamo_kv_store.Auth.{TokenEntry}
use secure_dynamo_kv_store.App
use secure_dynamo_kv_store.App.{Config, Options, url, create_app, build_node}
use secure_dynamo_kv_store.App.Entry.{listeners}
use secure_dynamo_kv_store.App.Doors.{IsGuarded, listeners-Guarded}

abbrev test_hash : String → ℕ
test_hash text = 5

abbrev config : Config
config = record {
  node_id = "node-1";
  storage_backend = "sqlite";
  cluster_nodes = "node-1, node-2,";
  port = 8000;
  internal_port = 8443;
  virtual_nodes = 2;
  n = 3;
  r = 2;
  w = 2;
  failure_timeout = 6;
  db_directory = "data";
  db_path = "data/node-1.db";
  public_cluster_urls = "";
  dashboard_dev_cors_origins = "";
  frontend_built = true;
}

abbrev two_nodes : Config
two_nodes = record config { cluster_nodes = "node-1,node-2" }

abbrev loaded : Dict String TokenEntry
loaded = []

listeners-Guarded_example : All (IsGuarded loaded) (listeners test_hash config loaded 9100)
listeners-Guarded_example = listeners-Guarded test_hash config loaded 9100
