-- ===== src/Metrics.antt =====
-- src/dynamokv/metrics.py: what is counted of each request, and the gauges of the peers. Times are
-- whole ticks of time.perf_counter, which never goes back.
pub mod Counts
pub mod Gauges
use secure_dynamo_kv_store.Prelude.{
  ℕ, suc, ◌-◌, ◌≡◌, String, string_eq, Bool, ◌&&◌, Option, some, List, [], ◌∷◌, ◌++◌, ◌==◌,
  if◌then◌else◌,
}
use secure_dynamo_kv_store.Prelude.Result.{Result, ok, raise}
use secure_dynamo_kv_store.Ring.{decimal, member}
use secure_dynamo_kv_store.Gossip.{GossipState}
use secure_dynamo_kv_store.Node.Replica.{Node}
use secure_dynamo_kv_store.Node.Background.{down_peers, peer_ids}

-- The labels of REQUEST_COUNT and of REQUEST_LATENCY.
pub record Labels : Type 0 where
  pub method : String
  pub path : String
  pub status : String

abbrev pub same_route : Labels → Labels → Bool
same_route l l' = l.method == l'.method && l.path == l'.path

abbrev pub same_labels : Labels → Labels → Bool
same_labels l l' = same_route l l' && l.status == l'.status

-- The registry of the Prometheus client, with the three metrics that the module declares: a
-- counter, a histogram, of which the observed values are kept in order, and a gauge.
pub record Registry (M : Type 0) : Type 0 where
  pub inc : Labels → M → M
  pub observe : Labels → ℕ → M → M
  pub set : String → ℕ → M → M
  pub request_count : M → Labels → ℕ
  pub request_latency : M → Labels → List ℕ
  pub cluster_node_up : M → String → Option ℕ
  pub generate_latest : M → String

pub record RegistryLaws {M : Type 0} (registry : Registry M) : Type 0 where
  pub count-inc :
      (l l' : Labels) (m : M)
      → registry.request_count (registry.inc l m) l' ≡ (
          if same_labels l l'
          then suc (registry.request_count m l')
          else registry.request_count m l')
  pub count-observe :
      (l l' : Labels) (t : ℕ) (m : M)
      → registry.request_count (registry.observe l t m) l' ≡ registry.request_count m l'
  pub latency-inc :
      (l l' : Labels) (m : M)
      → registry.request_latency (registry.inc l m) l' ≡ registry.request_latency m l'
  pub latency-observe :
      (l l' : Labels) (t : ℕ) (m : M)
      → registry.request_latency (registry.observe l t m) l' ≡ (
          if same_route l l'
          then registry.request_latency m l' ++ t ∷ []
          else registry.request_latency m l')
  pub up-set :
      (id id' : String) (value : ℕ) (m : M)
      → registry.cluster_node_up (registry.set id value m) id'
        ≡ (if id == id' then some value else registry.cluster_node_up m id')

-- A request, what the rest of the application makes of it, and the timer before and after.
pub record Handled : Type 0 where
  pub method : String
  pub path : String
  pub answer : Result ℕ
  pub start : ℕ
  pub finish : ℕ

abbrev pub labels_of : Handled → ℕ → Labels
labels_of request status_code = record {
  method = request.method;
  path = request.path;
  status = decimal (suc status_code) status_code;
}

module _ {M : Type 0} (registry : Registry M) where
  abbrev pub counted : Handled → Result ℕ → M → M
  counted request (raise e) m = m
  counted request (ok status_code) m =
      let labels = labels_of request status_code in
      registry.observe labels (request.finish - request.start) (registry.inc labels m)

  -- `MetricsMiddleware.dispatch`: an exception of the application passes by uncounted.
  unfoldable pub dispatch : Handled → M → Result ℕ × M
  dispatch request m = (request.answer, counted request request.answer m)

  unfoldable pub dispatch_all : List Handled → M → M
  dispatch_all [] m = m
  dispatch_all (request ∷ requests) m = dispatch_all requests (dispatch request m).1

  unfoldable pub set_peers : List String → List String → M → M
  set_peers down [] m = m
  set_peers down (peer_id ∷ peers) m =
      set_peers down peers (registry.set peer_id (if member down peer_id then 0 else 1) m)

  -- GET /metrics
  unfoldable pub scrape : Node → GossipState → ℕ → M → String × M
  scrape node gossip_state now m =
      let m' = set_peers (down_peers node gossip_state now) (peer_ids node) m in
      (registry.generate_latest m', m')
