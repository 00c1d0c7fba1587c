-- ===== src/Bench/Tools.antt =====
-- scripts/bench_config.py, and what the benchmark scripts call: boto3, httpx, `docker compose`,
-- the override file and the clock, whose unit is the millisecond.
use secure_dynamo_kv_store.Prelude.{ℕ, String, Bool, Option, leb, if◌then◌else◌, List}
use secure_dynamo_kv_store.Attack.Shell.{Act}

-- The settings, which the environment may change.
pub record BenchConfig : Type 0 where
  pub aws_region : String
  pub table_name : String
  pub table_rcu : ℕ
  pub table_wcu : ℕ
  pub value_sizes : List ℕ
  pub ops_target_unconstrained : ℕ
  pub ops_target_10kb : ℕ
  pub ops_floor : ℕ
  pub time_budget : ℕ
  pub warmup_ops_unconstrained : ℕ
  pub warmup_ops_10kb : ℕ
  pub burst_credit_drain_ops : ℕ
  pub namespace : String

unfoldable pub op_count_target : BenchConfig → ℕ → ℕ
op_count_target cfg size_bytes =
    if leb 10240 size_bytes then cfg.ops_target_10kb else cfg.ops_target_unconstrained

unfoldable pub warmup_ops : BenchConfig → ℕ → ℕ
warmup_ops cfg size_bytes =
    if leb 10240 size_bytes then cfg.warmup_ops_10kb else cfg.warmup_ops_unconstrained

-- What is asked for when a table is created: a string key `pk`, and provisioned capacity.
pub record TableSpec : Type 0 where
  pub table_name : String
  pub hash_key : String
  pub key_type : String
  pub billing_mode : String
  pub read_capacity_units : ℕ
  pub write_capacity_units : ℕ

-- `describe_table` answers with the status of the table, or `none` where it raises
-- ResourceNotFoundException. The requests to the store include raise_for_status.
pub record Tools (W : Type 0) : Type 0 where
  pub describe_table : String → Act W (Option String)
  pub create_table : TableSpec → Act W (Unit {0})
  pub delete_table : String → Act W (Unit {0})
  pub put_item : String → String → String → Act W (Unit {0})
  pub get_item : String → String → Bool → Act W (Option String)
  pub delete_item : String → String → Act W (Unit {0})
  pub http_put : String → String → Act W (Unit {0})
  pub http_get : String → Act W (Unit {0})
  pub healthz : ℕ → Act W ℕ
  pub random_value : ℕ → Act W String
  pub compose_up : Act W (Unit {0})
  pub override : W → Option String
  pub write_override : String → W → W
  pub unlink_override : W → W
  pub sleep : ℕ → W → W
  pub monotonic : W → ℕ
