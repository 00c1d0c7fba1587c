-- ===== src/Bench/Driver.antt =====
-- scripts/dynamodb_bench.py: the checks before the benchmark, the override file with R=1, the order
-- of the conditions, the rows of the report, and the flags.
use secure_dynamo_kv_store.Prelude.{
  ℕ, String, string_eq, nat_eq, Bool, true, false, Option, List, [], ◌∷◌, ◌++◌, ◌==◌, if◌then◌else◌,
}
use secure_dynamo_kv_store.Prelude.Result.{Result, ok, raise, http_error}
use secure_dynamo_kv_store.Dict
use secure_dynamo_kv_store.Dict.{Dict}
use secure_dynamo_kv_store.Attack.Shell.{Act, ◌>>=◌, pure, effect, finally}
use secure_dynamo_kv_store.Testbed.{public_ports, Outcome, exit, go_on}
use secure_dynamo_kv_store.Bench.{Report}
use secure_dynamo_kv_store.Bench.Tools.{BenchConfig, Tools}
use secure_dynamo_kv_store.Bench.Aws.{
  Sample, table_exists, create_table_if_missing, teardown_table, run_network_rtt_probe,
}
use secure_dynamo_kv_store.Bench.Run.{
  our_put_condition, our_get_condition, dynamodb_put_condition, dynamodb_get_condition,
}

-- _R1_OVERRIDE
abbrev pub r1_override : String
r1_override = "services:\n  node-1:\n    environment:\n      R: \"1\"\n"

-- One entry of the results. A report is `none` where a loop would not have ended.
pub record Measured : Type 0 where
  pub system : String
  pub operation : String
  pub size_bytes : ℕ
  pub consistency : String
  pub report : Option Report

-- The command line.
pub record Flags : Type 0 where
  pub create_table : Bool
  pub teardown : Bool
  pub network_rtt_only : Bool

module _ {W : Type 0} (tools : Tools W) where
  -- Only an httpx.HTTPError is caught.
  abbrev pub healthy :
      Result ℕ × W → (W → Result (Outcome (Unit {0})) × W) → Result (Outcome (Unit {0})) × W
  healthy (raise http_error, w) rest = (ok (exit 1), w)
  healthy (raise e, w) rest = (raise e, w)
  healthy (ok status, w) rest = if status == 200 then rest w else (ok (exit 1), w)

  unfoldable pub preflight_ports : Dict String ℕ → Act W (Outcome (Unit {0}))
  preflight_ports [] w = (ok (go_on tt), w)
  preflight_ports ((node_id, port) ∷ ports) w =
      healthy (tools.healthz port w) (preflight_ports ports)

  unfoldable pub preflight_cluster : Act W (Outcome (Unit {0}))
  preflight_cluster = preflight_ports public_ports

  abbrev pub provision : BenchConfig → Bool → Bool → Act W (Outcome (Unit {0}))
  provision cfg create_table true = pure (go_on tt)
  provision cfg false false = pure (exit 1)
  provision cfg true false = do
    created ← create_table_if_missing tools cfg.table_name cfg.table_rcu cfg.table_wcu
    pure (go_on tt)

  unfoldable pub preflight_aws : BenchConfig → Bool → Act W (Outcome (Unit {0}))
  preflight_aws cfg create_table = do
    exists ← table_exists tools cfg.table_name
    provision cfg create_table exists

  -- `docker compose up` and three seconds for it.
  abbrev pub restart : Act W (Unit {0})
  restart = do up ← tools.compose_up; effect (tools.sleep 3000)

  abbrev pub apply_unless : Bool → Act W Bool
  apply_unless true = pure false
  apply_unless false = do
    written ← effect (tools.write_override r1_override)
    up ← restart
    pure true

  -- An override file that is there is left alone.
  unfoldable pub apply_r1_override : Act W Bool
  apply_r1_override w = apply_unless (Dict.is_some (tools.override w)) w

  abbrev pub without_override : Bool → W → W
  without_override had w = if had then tools.unlink_override w else w

  unfoldable pub revert_r1_override : Act W (Unit {0})
  revert_r1_override = do
    removed ← effect (λ w. without_override (Dict.is_some (tools.override w)) w)
    restart

module _ {W : Type 0} (tools : Tools W) (cfg : BenchConfig) where
  -- The loop over VALUE_SIZES, with the results that one size adds.
  unfoldable pub for_sizes :
      (ℕ → Act W (List Measured)) → List ℕ → List Measured → Act W (List Measured)
  for_sizes body [] results = pure results
  for_sizes body (size ∷ sizes) results = do
    more ← body size
    for_sizes body sizes (results ++ more)

  abbrev pub entry : String → String → ℕ → String → Option Report → Measured
  entry system operation size_bytes consistency report = record {
    system = system;
    operation = operation;
    size_bytes = size_bytes;
    consistency = consistency;
    report = report;
  }

  abbrev pub put_both : ℕ → Act W (List Measured)
  put_both size = do
    ours ← our_put_condition tools cfg size
    ddb ← dynamodb_put_condition tools cfg size
    pure (
        entry "ours" "PUT" size "W=2, R=2 pre-read reconcile" ours
        ∷ entry "dynamodb" "PutItem" size "default (undocumented durability mechanism)" ddb
        ∷ [])

  abbrev pub get_both : ℕ → Act W (List Measured)
  get_both size = do
    ours ← our_get_condition tools cfg size
    ddb ← dynamodb_get_condition tools cfg size true
    pure (
        entry "ours" "GET" size "R=2 (quorum majority, our default)" ours
        ∷ entry "dynamodb" "GetItem" size "ConsistentRead=True" ddb
        ∷ [])

  abbrev pub get_ours : ℕ → Act W (List Measured)
  get_ours size = do
    ours ← our_get_condition tools cfg size
    pure (entry "ours" "GET" size "R=1 (single replica, temporary override)" ours ∷ [])

  abbrev pub get_dynamodb : ℕ → Act W (List Measured)
  get_dynamodb size = do
    ddb ← dynamodb_get_condition tools cfg size false
    pure (entry "dynamodb" "GetItem" size "ConsistentRead=False (eventual, default)" ddb ∷ [])

  -- Our reads with R=1, only if the override could be applied.
  unfoldable pub get_eventual : List Measured → Bool → Act W (List Measured)
  get_eventual results false = pure results
  get_eventual results true =
      finally (for_sizes get_ours cfg.value_sizes results) (revert_r1_override tools)

  abbrev pub eventual_reads : List Measured → Act W (List Measured)
  eventual_reads results = do applied ← apply_r1_override tools; get_eventual results applied

  unfoldable pub run_all : Act W (List Measured)
  run_all = do
    puts ← for_sizes put_both cfg.value_sizes []
    gets ← for_sizes get_both cfg.value_sizes puts
    eventual ← eventual_reads gets
    for_sizes get_dynamodb cfg.value_sizes eventual

  module _ (connect handshake : Act W (Unit {0})) where
    unfoldable pub run_network_rtt : Act W (List Sample)
    run_network_rtt = run_network_rtt_probe tools connect handshake 30 []

    abbrev pub teardown_if : Bool → Act W (Unit {0})
    teardown_if teardown = if teardown then teardown_table tools cfg.table_name else pure tt

    abbrev pub measure_if :
        Flags → Outcome (Unit {0}) → Act W (Outcome (List Measured × List Sample))
    measure_if flags (exit status) = pure (exit status)
    measure_if flags (go_on ready) = do
      results ← run_all
      rtt ← run_network_rtt
      done ← teardown_if flags.teardown
      pure (go_on (results, rtt))

    abbrev pub provision_if : Flags → Outcome (Unit {0}) → Act W (Outcome (Unit {0}))
    provision_if flags (exit status) = pure (exit status)
    provision_if flags (go_on ready) = preflight_aws tools cfg flags.create_table

    abbrev pub benchmark : Flags → Act W (Outcome (List Measured × List Sample))
    benchmark flags = do
      cluster ← preflight_cluster tools
      table ← provision_if flags cluster
      measure_if flags table

    abbrev pub probe_only : Act W (Outcome (List Measured × List Sample))
    probe_only = do rtt ← run_network_rtt; pure (go_on ([], rtt))

    -- `main`, with what its two reports are written from.
    unfoldable pub main : Flags → Act W (Outcome (List Measured × List Sample))
    main flags = if flags.network_rtt_only then probe_only else benchmark flags
