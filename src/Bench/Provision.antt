-- ===== src/Bench/Provision.antt =====
-- scripts/dynamodb_bench.py and scripts/dynamodb_bench_aws.py: the table without the flags that
-- create and delete it.
use secure_dynamo_kv_store.Prelude.{
  ◌≡◌, refl, ◌∙◌, arith, ℕ, zero, suc, String, Bool, true, false, List, [], ◌∷◌, ◌++◌,
}
use secure_dynamo_kv_store.Prelude.Result.{Result, ok, raise, http_error}
use secure_dynamo_kv_store.Dict
use secure_dynamo_kv_store.Dict.{Dict}
use secure_dynamo_kv_store.Attack.Shell.{Act, effect}
use secure_dynamo_kv_store.Attack.Keeps.{
  Keeps, >>=-Keeps, pure-Keeps, look-Keeps, if-Keeps, finally-Keeps,
}
use secure_dynamo_kv_store.Testbed.{public_ports, Outcome, exit, go_on}
use secure_dynamo_kv_store.Bench.Tools.{BenchConfig, Tools}
use secure_dynamo_kv_store.Bench.Aws.{
  table_exists, measure_network_rtt, run_network_rtt_probe, Sample, sample_of,
}
use secure_dynamo_kv_store.Bench.Driver.{
  Measured, Flags, preflight_ports, preflight_cluster, provision, preflight_aws, apply_r1_override,
  apply_unless, restart, without_override, revert_r1_override, get_eventual, eventual_reads,
  run_all, run_network_rtt, provision_if, measure_if, main, r1_override, healthy,
}
use secure_dynamo_kv_store.Bench.Steady.{Steady, puts-Keeps, gets-Keeps, ours-Keeps, theirs-Keeps}

module _ {W S : Type 0} (tools : Tools W) (cfg : BenchConfig) (seen : W → S)
    (steady : Steady tools seen)
    (write : (text : String) → Keeps seen (effect (tools.write_override text)))
    (unlink : Keeps seen (effect tools.unlink_override)) where
  restart-Keeps : Keeps seen (restart tools)
  restart-Keeps = >>=-Keeps seen tools.compose_up _ steady.compose_up (λ up. steady.sleep 3000)

  apply-Keeps : (had : Bool) → Keeps seen (apply_unless tools had)
  apply-Keeps true = pure-Keeps seen false
  apply-Keeps false =
      >>=-Keeps seen _ _ (write r1_override)
        (λ written. >>=-Keeps seen _ _ restart-Keeps (λ up. pure-Keeps seen true))

  without-seen : (had : Bool) (w : W) → seen (without_override tools had w) ≡ seen w
  without-seen true w = unlink.kept w
  without-seen false w = refl

  revert-Keeps : Keeps seen (revert_r1_override tools)
  unfolding revert_r1_override
  revert-Keeps =
      >>=-Keeps seen (effect (λ w. without_override tools (Dict.is_some (tools.override w)) w)) _
        (record { kept = λ w. without-seen (Dict.is_some (tools.override w)) w })
        (λ removed. restart-Keeps)

  get_eventual-Keeps :
      (results : List Measured) (applied : Bool)
      → Keeps seen (get_eventual tools cfg results applied)
  unfolding get_eventual
  get_eventual-Keeps results false = pure-Keeps seen results
  get_eventual-Keeps results true =
      finally-Keeps seen _ (revert_r1_override tools) (ours-Keeps tools seen steady cfg results)
        revert-Keeps

  eventual-Keeps : (results : List Measured) → Keeps seen (eventual_reads tools cfg results)
  unfolding apply_r1_override
  eventual-Keeps results =
      >>=-Keeps seen _ _
        (record { kept = λ w. (apply-Keeps (Dict.is_some (tools.override w))).kept w })
        (get_eventual-Keeps results)

  run_all-Keeps : Keeps seen (run_all tools cfg)
  unfolding run_all
  run_all-Keeps = >>=-Keeps seen _ _ (puts-Keeps tools seen steady cfg []) (λ puts.
      >>=-Keeps seen _ _ (gets-Keeps tools seen steady cfg puts) (λ gets.
        >>=-Keeps seen _ _ (eventual-Keeps gets)
          (λ eventual. theirs-Keeps tools seen steady cfg eventual)))

  healthy-seen :
      (r : Result ℕ × W) (rest : W → Result (Outcome (Unit {0})) × W)
      → ((w : W) → seen (rest w).1 ≡ seen w)
      → seen (healthy tools r rest).1 ≡ seen r.1
  healthy-seen (raise http_error, w) rest h = refl
  healthy-seen (raise e, w) rest h = refl
  healthy-seen (ok status, w) rest h = ground (arith, h w)

  ports-seen : (ports : Dict String ℕ) (w : W) → seen (preflight_ports tools ports w).1 ≡ seen w
  unfolding preflight_ports
  ports-seen [] w = refl
  ports-seen ((node_id, port) ∷ ports) w =
      healthy-seen (tools.healthz port w) (preflight_ports tools ports) (ports-seen ports)
      ∙ (steady.healthz port).kept w

  module _ (connect handshake : Act W (Unit {0})) (connects : Keeps seen connect)
      (shakes : Keeps seen handshake) where
    sample-Keeps : Keeps seen (measure_network_rtt tools connect handshake)
    unfolding measure_network_rtt
    sample-Keeps = >>=-Keeps seen _ _ (look-Keeps seen tools.monotonic) (λ t0.
        >>=-Keeps seen _ _ connects (λ connected.
          >>=-Keeps seen _ _ (look-Keeps seen tools.monotonic) (λ t1.
            >>=-Keeps seen _ _ shakes (λ shaken.
              >>=-Keeps seen _ _ (look-Keeps seen tools.monotonic)
                (λ t2. pure-Keeps seen (sample_of t0 t1 t2))))))

    rtt-Keeps :
        (n : ℕ) (samples : List Sample)
        → Keeps seen (run_network_rtt_probe tools connect handshake n samples)
    unfolding run_network_rtt_probe
    rtt-Keeps zero samples = pure-Keeps seen samples
    rtt-Keeps (suc n) samples =
        >>=-Keeps seen _ _ sample-Keeps (λ sample. rtt-Keeps n (samples ++ sample ∷ []))

    provision-Keeps : (exists : Bool) → Keeps seen (provision tools cfg false exists)
    provision-Keeps true = pure-Keeps seen _
    provision-Keeps false = pure-Keeps seen _

    provision_if-Keeps :
        (flags : Flags) (o : Outcome (Unit {0}))
        → flags.create_table ≡ false
        → Keeps seen (provision_if tools cfg connect handshake flags o)
    unfolding preflight_aws table_exists
    provision_if-Keeps flags (exit status) c = pure-Keeps seen _
    provision_if-Keeps flags (go_on ready) c =
        >>=-Keeps seen _ _
          (>>=-Keeps seen _ _ (steady.describe_table cfg.table_name) (λ status. pure-Keeps seen _))
          (λ exists. rw c (provision-Keeps exists))

    measure_if-Keeps :
        (flags : Flags) (o : Outcome (Unit {0}))
        → flags.teardown ≡ false
        → Keeps seen (measure_if tools cfg connect handshake flags o)
    unfolding run_network_rtt
    measure_if-Keeps flags (exit status) t = pure-Keeps seen _
    measure_if-Keeps flags (go_on ready) t = >>=-Keeps seen _ _ run_all-Keeps (λ results.
        >>=-Keeps seen _ _ (rtt-Keeps 30 []) (λ rtt. rw t (
          >>=-Keeps seen _ _ (pure-Keeps seen tt)
            (λ done. pure-Keeps seen (go_on (results, rtt))))))

    -- What nothing but the calls of create_table and delete_table changes is unchanged by `main`
    -- without the flags that create the table and tear it down, whether it runs to the end, exits
    -- or raises.
    pub main-unprovisioned :
        (flags : Flags) (w : W)
        → flags.create_table ≡ false
        → flags.teardown ≡ false
        → seen (main tools cfg connect handshake flags w).1 ≡ seen w
    unfolding main run_network_rtt preflight_cluster
    main-unprovisioned flags w c t =
        (if-Keeps seen flags.network_rtt_only _ _
            (>>=-Keeps seen _ _ (rtt-Keeps 30 []) (λ rtt. pure-Keeps seen _))
            (>>=-Keeps seen _ _ (record { kept = ports-seen public_ports })
              (λ cluster.
                >>=-Keeps seen _ _ (provision_if-Keeps flags cluster c)
                  (λ table. measure_if-Keeps flags table t)))).kept
          w
