-- ===== src/Bench/Run.antt =====
-- scripts/bench_stats.py: `run_condition`, and scripts/dynamodb_bench_conditions.py: the pools of
-- keys and the conditions that it is run for.
use secure_dynamo_kv_store.Prelude.{
  ℕ, zero, suc, ◌-◌, ◌%◌, String, Bool, Option, none, some, List, [], ◌∷◌, ◌++◌, length, get_elem?,
  leb, ◌&&◌, if◌then◌else◌,
}
use Prim.Native.String
use secure_dynamo_kv_store.Dict
use secure_dynamo_kv_store.Ring.{decimal}
use secure_dynamo_kv_store.Attack.Shell.{Act, ◌>>=◌, pure, look}
use secure_dynamo_kv_store.Bench.{Report, report}
use secure_dynamo_kv_store.Bench.Tools.{BenchConfig, op_count_target, warmup_ops, Tools}

-- The report on the latencies, if the loop has ended.
abbrev pub report_of : ℕ → ℕ → ℕ → Option (List ℕ) → Option Report
report_of target_n time_budget elapsed none = none
report_of target_n time_budget elapsed (some latencies) =
    some (report target_n time_budget elapsed latencies)

module _ {W : Type 0} (tools : Tools W) where
  -- for _ in range(warmup_n): the n-th call of the operation.
  unfoldable pub warm_up : (ℕ → Act W (Unit {0})) → ℕ → ℕ → Act W (Unit {0})
  warm_up op zero n = pure tt
  warm_up op (suc warmup_n) n = do done ← op n; warm_up op warmup_n (suc n)

  -- One measured operation, with its latency and the time that has passed since `start`.
  unfoldable pub timed : Act W (Unit {0}) → ℕ → Act W (ℕ × ℕ)
  timed op start w =
      (do
        done ← op
        look (λ w'. (tools.monotonic w' - tools.monotonic w, tools.monotonic w' - start)))
        w

  abbrev pub keep_on : ℕ → ℕ → ℕ → ℕ → List ℕ → Act W (Option (List ℕ)) → Act W (Option (List ℕ))
  keep_on target_n floor_n time_budget elapsed latencies more =
      if leb target_n (length latencies)
      then pure (some latencies)
      else if leb time_budget elapsed && leb floor_n (length latencies)
      then pure (some latencies)
      else more

  -- The `while True`; `none` says that the fuel ran out.
  unfoldable pub measure_ops :
      (ℕ → Act W (Unit {0})) → ℕ → ℕ → ℕ → ℕ → ℕ → ℕ → List ℕ → Act W (Option (List ℕ))
  measure_ops op start target_n floor_n time_budget zero n latencies = pure none
  measure_ops op start target_n floor_n time_budget (suc fuel) n latencies = do
    reading ← timed (op n) start
    let latencies' = latencies ++ reading.0 ∷ []
    keep_on target_n floor_n time_budget reading.1 latencies'
        (measure_ops op start target_n floor_n time_budget fuel (suc n) latencies')

  -- `op n` is the n-th call of the operation, the warm-up calls first.
  unfoldable pub run_condition : (ℕ → Act W (Unit {0})) → ℕ → ℕ → ℕ → ℕ → Act W (Option Report)
  run_condition op target_n floor_n time_budget warmup_n = do
    warm ← warm_up op warmup_n 0
    start ← look tools.monotonic
    latencies ← measure_ops op start target_n floor_n time_budget (suc target_n) warmup_n []
    look (λ w. report_of target_n time_budget (tools.monotonic w - start) latencies)

-- POOL_SIZE
abbrev pub pool_size : ℕ
pool_size = 50

-- [f"{prefix}{i}" for i in range(n)]
unfoldable pub pool : String → ℕ → List String
pool prefix zero = []
pool prefix (suc n) = pool prefix n ++ String.◌++◌ prefix (decimal (suc n) n) ∷ []

-- The n-th `next` of itertools.cycle(keys).
unfoldable pub cycled : List String → ℕ → String
cycled keys n = Dict.or_else (get_elem? keys (n % length keys)) ""

module _ {W : Type 0} (tools : Tools W) (cfg : BenchConfig) where
  -- Writes a random value under a key.
  abbrev pub store : (String → String → Act W (Unit {0})) → ℕ → String → Act W (Unit {0})
  store put size_bytes key = do value ← tools.random_value size_bytes; put key value

  -- The loop that writes each key of the pool once.
  unfoldable pub seed_all :
      (String → String → Act W (Unit {0})) → ℕ → List String → Act W (Unit {0})
  seed_all put size_bytes [] = pure tt
  seed_all put size_bytes (key ∷ keys) = do
    stored ← store put size_bytes key
    seed_all put size_bytes keys

  unfoldable pub drain : List String → ℕ → ℕ → ℕ → Act W (Unit {0})
  drain keys size_bytes zero n = pure tt
  drain keys size_bytes (suc ops) n = do
    stored ← store (tools.put_item cfg.table_name) size_bytes (cycled keys n)
    drain keys size_bytes ops (suc n)

  unfoldable pub drain_burst_credit : List String → ℕ → Act W (Unit {0})
  drain_burst_credit keys size_bytes = drain keys size_bytes cfg.burst_credit_drain_ops 0

  abbrev pub drain_if_large : List String → ℕ → Act W (Unit {0})
  drain_if_large keys size_bytes =
      if leb 10240 size_bytes then drain_burst_credit keys size_bytes else pure tt

  abbrev pub run_sized : (ℕ → Act W (Unit {0})) → ℕ → Act W (Option Report)
  run_sized op size_bytes =
      run_condition tools op (op_count_target cfg size_bytes) cfg.ops_floor cfg.time_budget
        (warmup_ops cfg size_bytes)

  abbrev pub our_keys : String → List String
  our_keys prefix = pool (String.◌++◌ cfg.namespace (String.◌++◌ ":" prefix)) pool_size

  unfoldable pub our_put_condition : ℕ → Act W (Option Report)
  our_put_condition size_bytes =
      let keys = our_keys "bench-put-" in
      run_sized (λ n. store tools.http_put size_bytes (cycled keys n)) size_bytes

  unfoldable pub our_get_condition : ℕ → Act W (Option Report)
  our_get_condition size_bytes = do
    seeded ← seed_all tools.http_put size_bytes (our_keys "bench-get-")
    run_sized (λ n. tools.http_get (cycled (our_keys "bench-get-") n)) size_bytes

  unfoldable pub dynamodb_put_condition : ℕ → Act W (Option Report)
  dynamodb_put_condition size_bytes = do
    drained ← drain_if_large (pool "bench-put-" pool_size) size_bytes
    run_sized
        (λ n.
          store (tools.put_item cfg.table_name) size_bytes (cycled (pool "bench-put-" pool_size) n))
        size_bytes

  abbrev pub read_item : Bool → String → Act W (Unit {0})
  read_item consistent_read key = do
    item ← tools.get_item cfg.table_name key consistent_read
    pure tt

  unfoldable pub dynamodb_get_condition : ℕ → Bool → Act W (Option Report)
  dynamodb_get_condition size_bytes consistent_read = do
    seeded ← seed_all (tools.put_item cfg.table_name) size_bytes (pool "bench-get-" pool_size)
    drained ← drain_if_large (pool "bench-get-" pool_size) size_bytes
    run_sized (λ n. read_item consistent_read (cycled (pool "bench-get-" pool_size) n)) size_bytes
