-- ===== src/Tests/Benchmarks.antt =====
-- Runs of the benchmark scripts in a world of a clock, an override file and the status of a table.
use secure_dynamo_kv_store.Prelude.{
  ℕ, ◌+◌, ◌≡◌, refl, arith, String, string_eq, false, Option, none, some, [], ◌∷◌, leb,
  if◌then◌else◌,
}
use secure_dynamo_kv_store.Prelude.Result.{ok}
use secure_dynamo_kv_store.Attack.Shell.{Act, pure, effect}
use secure_dynamo_kv_store.Bench.Tools.{BenchConfig, Tools}
use secure_dynamo_kv_store.Bench.Aws.{wait_until, wait_until_active}
use secure_dynamo_kv_store.Bench.Driver.{Flags, main}
use secure_dynamo_kv_store.Bench.Steady.{Steady}
use secure_dynamo_kv_store.Bench.Waiting.{wait_until_active-ends}
use secure_dynamo_kv_store.Bench.Provision.{main-unprovisioned}

record World : Type 0 where
  clock : ℕ
  override : Option String
  table : Option String

abbrev passing : ℕ → World → World
passing time w = record w { clock = w.clock + time }

abbrev done : Act World (Unit {0})
done = effect (passing 3)

-- A table is active from four seconds on.
abbrev status_at : World → Option String
status_at w = if leb 4000 w.clock then w.table else some "CREATING"

abbrev tools : Tools World
tools = record {
  describe_table = λ name w. (ok (status_at w), w);
  create_table = λ spec. effect (λ w. record w { table = some "ACTIVE" });
  delete_table = λ name. effect (λ w. record w { table = none });
  put_item = λ table key value. done;
  get_item = λ table key consistent w. (ok none, passing 3 w);
  delete_item = λ table key. done;
  http_put = λ key value. done;
  http_get = λ key. done;
  healthz = λ port. pure 200;
  random_value = λ size. pure "x";
  compose_up = done;
  override = λ w. w.override;
  write_override = λ text w. record w { override = some text };
  unlink_override = λ w. record w { override = none };
  sleep = passing;
  monotonic = λ w. w.clock;
}

abbrev cfg : BenchConfig
cfg = record {
  aws_region = "us-east-1";
  table_name = "bench";
  table_rcu = 25;
  table_wcu = 25;
  value_sizes = 100 ∷ 10240 ∷ [];
  ops_target_unconstrained = 5;
  ops_target_10kb = 3;
  ops_floor = 2;
  time_budget = 120000;
  warmup_ops_unconstrained = 1;
  warmup_ops_10kb = 1;
  burst_credit_drain_ops = 2;
  namespace = "bench";
}

abbrev start : World
start = record { clock = 0; override = some "services:"; table = some "ACTIVE" }

wait_until_active-ends_example :
    wait_until tools 37 60000 "bench" start ≡ wait_until_active tools "bench" start
wait_until_active-ends_example =
    wait_until_active-ends tools "bench" (λ w. omega arith) (λ time w. omega arith) 7 start

-- For what does not change with time.
tools-Steady :
    (S : Type 0) (seen : World → S)
    → ((time : ℕ) (w : World) → seen (passing time w) ≡ seen w)
    → Steady tools seen
tools-Steady S seen kept = record {
  describe_table = λ name. record { kept = λ w. refl };
  put_item = λ table key value. record { kept = λ w. kept 3 w };
  get_item = λ table key consistent. record { kept = λ w. kept 3 w };
  http_put = λ key value. record { kept = λ w. kept 3 w };
  http_get = λ key. record { kept = λ w. kept 3 w };
  healthz = λ port. record { kept = λ w. refl };
  random_value = λ size. record { kept = λ w. refl };
  compose_up = record { kept = λ w. kept 3 w };
  sleep = λ time. record { kept = λ w. kept time w };
}

abbrev no_flags : Flags
no_flags = record { create_table = false; teardown = false; network_rtt_only = false }

main-unprovisioned_example : (main tools cfg done done no_flags start).1.table ≡ some "ACTIVE"
main-unprovisioned_example =
    main-unprovisioned tools cfg (λ w. w.table)
      (tools-Steady (Option String) (λ w. w.table) (λ time w. refl))
      (λ text. record { kept = λ w. refl }) (record { kept = λ w. refl }) done done
      (record { kept = λ w. refl }) (record { kept = λ w. refl }) no_flags start refl refl
