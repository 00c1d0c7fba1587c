-- ===== src/Bench/Aws.antt =====
-- scripts/dynamodb_bench_aws.py: the life of the benchmark table and the calls on its items.
use secure_dynamo_kv_store.Prelude.{
  ℕ, zero, suc, ◌+◌, ◌-◌, String, string_eq, Bool, true, false, Option, none, some, List, [], ◌∷◌,
  ◌++◌, ltb, ◌==◌, if◌then◌else◌,
}
use secure_dynamo_kv_store.Prelude.Result.{Result, ok, raise, client_error, timeout_error}
use secure_dynamo_kv_store.Dict
use secure_dynamo_kv_store.Attack.Shell.{Act, ◌>>=◌, and_then, pure, look, effect, lift}
use secure_dynamo_kv_store.Bench.Tools.{TableSpec, Tools}

-- The milliseconds of one connection: until TCP, and with TLS, is up.
pub record Sample : Type 0 where
  pub tcp_connect : ℕ
  pub tls_handshake : ℕ
  pub total : ℕ

-- From the times before, between and after the two steps.
abbrev pub sample_of : ℕ → ℕ → ℕ → Sample
sample_of t0 t1 t2 = record { tcp_connect = t1 - t0; tls_handshake = t2 - t1; total = t2 - t0 }

module _ {W : Type 0} (tools : Tools W) where
  unfoldable pub table_exists : String → Act W Bool
  table_exists table_name = do status ← tools.describe_table table_name; pure (Dict.is_some status)

  -- resp["Table"]["TableStatus"] == "ACTIVE"; a table that is gone raises.
  abbrev pub is_active : Option String → Result Bool
  is_active none = raise client_error
  is_active (some status) = ok (status == "ACTIVE")

  -- The rest of a round after `describe_table`, before the next one.
  abbrev pub unless_active : Act W (Unit {0}) → Option String → Act W (Unit {0})
  unless_active next status = do
    active ← lift (is_active status)
    if active then pure tt else (effect (tools.sleep 2000) >>= λ slept. next)

  -- The `while`, for a number of rounds at most; past the deadline it raises.
  unfoldable pub wait_until : ℕ → ℕ → String → Act W (Unit {0})
  wait_until zero deadline table_name w = (raise timeout_error, w)
  wait_until (suc fuel) deadline table_name w =
      let round =
        and_then (tools.describe_table table_name w)
          (unless_active (wait_until fuel deadline table_name)) in
      if ltb (tools.monotonic w) deadline then round else (raise timeout_error, w)

  -- The rounds of two seconds that fit into a minute.
  abbrev pub wait_rounds : ℕ
  wait_rounds = 30

  unfoldable pub wait_until_active : String → Act W (Unit {0})
  wait_until_active table_name w = wait_until wait_rounds (tools.monotonic w + 60000) table_name w

  abbrev table_spec : String → ℕ → ℕ → TableSpec
  table_spec table_name rcu wcu = record {
    table_name = table_name;
    hash_key = "pk";
    key_type = "S";
    billing_mode = "PROVISIONED";
    read_capacity_units = rcu;
    write_capacity_units = wcu;
  }

  abbrev pub create_unless : String → ℕ → ℕ → Bool → Act W Bool
  create_unless table_name rcu wcu true = pure false
  create_unless table_name rcu wcu false = do
    created ← tools.create_table (table_spec table_name rcu wcu)
    active ← wait_until_active table_name
    pure true

  -- Whether a table was created.
  unfoldable pub create_table_if_missing : String → ℕ → ℕ → Act W Bool
  create_table_if_missing table_name rcu wcu = do
    there ← table_exists table_name
    create_unless table_name rcu wcu there

  unfoldable pub teardown_table : String → Act W (Unit {0})
  teardown_table table_name = do
    there ← table_exists table_name
    if there then tools.delete_table table_name else pure tt

  unfoldable pub measure_network_rtt : Act W (Unit {0}) → Act W (Unit {0}) → Act W Sample
  measure_network_rtt connect handshake = do
    t0 ← look tools.monotonic
    connected ← connect
    t1 ← look tools.monotonic
    shaken ← handshake
    t2 ← look tools.monotonic
    pure (sample_of t0 t1 t2)

  -- The samples of one probe, in order; the script keeps a list for each of their fields.
  unfoldable pub run_network_rtt_probe :
      Act W (Unit {0}) → Act W (Unit {0}) → ℕ → List Sample → Act W (List Sample)
  run_network_rtt_probe connect handshake zero samples = pure samples
  run_network_rtt_probe connect handshake (suc n_samples) samples = do
    sample ← measure_network_rtt connect handshake
    run_network_rtt_probe connect handshake n_samples (samples ++ sample ∷ [])
