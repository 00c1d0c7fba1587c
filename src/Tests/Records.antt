-- ===== src/Tests/Records.antt =====
-- What is logged and counted of two requests, of which one is a client's operation on a key.
use secure_dynamo_kv_store.Prelude.{
  ℕ, suc, String, string_eq, Option, none, some, List, [], ◌∷◌, ◌++◌, ◌==◌, if◌then◌else◌,
}
use secure_dynamo_kv_store.Prelude.Result.{ok, raise, type_error}
use secure_dynamo_kv_store.Journal.{Exchange}
use secure_dynamo_kv_store.Metrics.{Labels, same_labels, same_route, Registry, Handled}

abbrev exchange : String → Option String → ℕ → Exchange
exchange path key status_code = record {
  method = "GET";
  path = path;
  key = key;
  client_id = some "app";
  source_ip = none;
  status_code = status_code;
}

abbrev exchanges : List (ℕ × ℕ × Exchange)
exchanges =
    (10, 3, exchange "/v1/keys/cart:7" (some "cart:7") 409)
    ∷ (20, 1, exchange "/healthz" none 200)
    ∷ []

-- A registry of functions.
record Metrics : Type 0 where
  counts : Labels → ℕ
  times : Labels → List ℕ
  levels : String → Option ℕ

abbrev registry : Registry Metrics
registry = record {
  inc = λ l m. record m {
    counts = λ l'. if same_labels l l' then suc (m.counts l') else m.counts l';
  };
  observe = λ l t m. record m {
    times = λ l'. if same_route l l' then m.times l' ++ t ∷ [] else m.times l';
  };
  set = λ id value m. record m { levels = λ id'. if id == id' then some value else m.levels id' };
  request_count = λ m. m.counts;
  request_latency = λ m. m.times;
  cluster_node_up = λ m. m.levels;
  generate_latest = λ m. "";
}

abbrev unused : Metrics
unused = record { counts = λ l. 0; times = λ l. []; levels = λ id. none }

abbrev got : Labels
got = record { method = "GET"; path = "/healthz"; status = "200" }

abbrev requests : List Handled
requests =
    record { method = "GET"; path = "/healthz"; answer = ok 200; start = 5; finish = 9 }
    ∷ record {
      method = "GET";
      path = "/healthz";
      answer = raise type_error;
      start = 10;
      finish = 11;
    }
    ∷ []
