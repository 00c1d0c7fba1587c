-- ===== src/Bench/Steady.antt =====
-- scripts/dynamodb_bench_conditions.py and scripts/dynamodb_bench.py: what the conditions leave as it
-- was.
use secure_dynamo_kv_store.Prelude.{
  ℕ, zero, suc, ◌-◌, String, Bool, true, false, List, [], ◌∷◌, ◌++◌, leb, length,
}
use secure_dynamo_kv_store.Attack.Shell.{Act, effect}
use secure_dynamo_kv_store.Attack.Keeps.{Keeps, >>=-Keeps, pure-Keeps, look-Keeps, if-Keeps}
use secure_dynamo_kv_store.Bench.Tools.{BenchConfig, Tools}
use secure_dynamo_kv_store.Bench.Run.{
  report_of, warm_up, timed, measure_ops, run_condition, cycled, seed_all, drain,
  drain_burst_credit, our_put_condition, our_get_condition, dynamodb_put_condition,
  dynamodb_get_condition, store, drain_if_large, run_sized, read_item,
}
use secure_dynamo_kv_store.Bench.Driver.{
  Measured, for_sizes, put_both, get_both, get_ours, get_dynamodb,
}

-- An aspect of the world that no request for an item, no restart and no passing of time changes.
pub record Steady {W S : Type 0} (tools : Tools W) (seen : W → S) : Type 0 where
  pub describe_table : (name : String) → Keeps seen (tools.describe_table name)
  pub put_item : (table key value : String) → Keeps seen (tools.put_item table key value)
  pub get_item : (table key : String) (b : Bool) → Keeps seen (tools.get_item table key b)
  pub http_put : (key value : String) → Keeps seen (tools.http_put key value)
  pub http_get : (key : String) → Keeps seen (tools.http_get key)
  pub healthz : (port : ℕ) → Keeps seen (tools.healthz port)
  pub random_value : (size : ℕ) → Keeps seen (tools.random_value size)
  pub compose_up : Keeps seen tools.compose_up
  pub sleep : (time : ℕ) → Keeps seen (effect (tools.sleep time))

module _ {W S : Type 0} (tools : Tools W) (seen : W → S) (steady : Steady tools seen) where
  warm_up-Keeps :
      (op : ℕ → Act W (Unit {0})) (warmup_n n : ℕ)
      → ((i : ℕ) → Keeps seen (op i))
      → Keeps seen (warm_up tools op warmup_n n)
  unfolding warm_up
  warm_up-Keeps op zero n h = pure-Keeps seen tt
  warm_up-Keeps op (suc warmup_n) n h =
      >>=-Keeps seen (op n) _ (h n) (λ done. warm_up-Keeps op warmup_n (suc n) h)

  timed-Keeps : (m : Act W (Unit {0})) (start : ℕ) → Keeps seen m → Keeps seen (timed tools m start)
  unfolding timed
  timed-Keeps m start h = record {
    kept = λ w. (>>=-Keeps seen m _ h (λ done. look-Keeps seen _)).kept w;
  }

  measure_ops-Keeps :
      (op : ℕ → Act W (Unit {0})) (start target_n floor_n time_budget fuel n : ℕ)
      (latencies : List ℕ)
      → ((i : ℕ) → Keeps seen (op i))
      → Keeps seen (measure_ops tools op start target_n floor_n time_budget fuel n latencies)
  unfolding measure_ops
  measure_ops-Keeps op start target_n floor_n time_budget zero n latencies h = pure-Keeps seen _
  measure_ops-Keeps op start target_n floor_n time_budget (suc fuel) n latencies h =
      >>=-Keeps seen (timed tools (op n) start) _ (timed-Keeps (op n) start (h n)) (λ reading.
        let latencies' = latencies ++ reading.0 ∷ [] in
        if-Keeps seen (leb target_n (length latencies')) _ _ (pure-Keeps seen _) (
          if-Keeps seen _ _ _ (pure-Keeps seen _)
            (measure_ops-Keeps op start target_n floor_n time_budget fuel (suc n) latencies' h)))

  run_condition-Keeps :
      (op : ℕ → Act W (Unit {0})) (target_n floor_n time_budget warmup_n : ℕ)
      → ((i : ℕ) → Keeps seen (op i))
      → Keeps seen (run_condition tools op target_n floor_n time_budget warmup_n)
  unfolding run_condition
  run_condition-Keeps op target_n floor_n time_budget warmup_n h =
      >>=-Keeps seen _ _ (warm_up-Keeps op warmup_n 0 h) (λ warm.
        >>=-Keeps seen _ _ (look-Keeps seen tools.monotonic) (λ start.
          >>=-Keeps seen _ _
            (measure_ops-Keeps op start target_n floor_n time_budget (suc target_n) warmup_n [] h)
            (λ latencies.
              look-Keeps seen
                (λ w. report_of target_n time_budget (tools.monotonic w - start) latencies))))

  module _ (cfg : BenchConfig) where
    store-Keeps :
        (put : String → String → Act W (Unit {0})) (size : ℕ) (key : String)
        → ((k v : String) → Keeps seen (put k v))
        → Keeps seen (store tools cfg put size key)
    store-Keeps put size key h =
        >>=-Keeps seen (tools.random_value size) _ (steady.random_value size) (λ value. h key value)

    seed_all-Keeps :
        (put : String → String → Act W (Unit {0})) (size : ℕ) (keys : List String)
        → ((k v : String) → Keeps seen (put k v))
        → Keeps seen (seed_all tools cfg put size keys)
    unfolding seed_all
    seed_all-Keeps put size [] h = pure-Keeps seen tt
    seed_all-Keeps put size (key ∷ keys) h =
        >>=-Keeps seen _ _ (store-Keeps put size key h) (λ stored. seed_all-Keeps put size keys h)

    drain-Keeps :
        (keys : List String) (size ops n : ℕ) → Keeps seen (drain tools cfg keys size ops n)
    unfolding drain
    drain-Keeps keys size zero n = pure-Keeps seen tt
    drain-Keeps keys size (suc ops) n =
        >>=-Keeps seen _ _ (store-Keeps _ size (cycled keys n) (steady.put_item cfg.table_name))
          (λ stored. drain-Keeps keys size ops (suc n))

    drain_if_large-Keeps :
        (keys : List String) (size : ℕ) → Keeps seen (drain_if_large tools cfg keys size)
    unfolding drain_burst_credit
    drain_if_large-Keeps keys size =
        if-Keeps seen (leb 10240 size) _ _ (drain-Keeps keys size cfg.burst_credit_drain_ops 0)
          (pure-Keeps seen tt)

    run_sized-Keeps :
        (op : ℕ → Act W (Unit {0})) (size : ℕ)
        → ((i : ℕ) → Keeps seen (op i))
        → Keeps seen (run_sized tools cfg op size)
    run_sized-Keeps op size h = run_condition-Keeps op _ cfg.ops_floor cfg.time_budget _ h

    our_put-Keeps : (size : ℕ) → Keeps seen (our_put_condition tools cfg size)
    unfolding our_put_condition
    our_put-Keeps size =
        run_sized-Keeps _ size (λ n. store-Keeps tools.http_put size _ steady.http_put)

    our_get-Keeps : (size : ℕ) → Keeps seen (our_get_condition tools cfg size)
    unfolding our_get_condition
    our_get-Keeps size =
        >>=-Keeps seen _ _ (seed_all-Keeps tools.http_put size _ steady.http_put)
          (λ seeded. run_sized-Keeps _ size (λ n. steady.http_get _))

    dynamodb_put-Keeps : (size : ℕ) → Keeps seen (dynamodb_put_condition tools cfg size)
    unfolding dynamodb_put_condition
    dynamodb_put-Keeps size = >>=-Keeps seen _ _ (drain_if_large-Keeps _ size) (λ drained.
        run_sized-Keeps _ size (λ n. store-Keeps _ size _ (steady.put_item cfg.table_name)))

    read_item-Keeps : (b : Bool) (key : String) → Keeps seen (read_item tools cfg b key)
    read_item-Keeps b key =
        >>=-Keeps seen _ _ (steady.get_item cfg.table_name key b) (λ item. pure-Keeps seen tt)

    dynamodb_get-Keeps :
        (size : ℕ) (b : Bool) → Keeps seen (dynamodb_get_condition tools cfg size b)
    unfolding dynamodb_get_condition
    dynamodb_get-Keeps size b =
        >>=-Keeps seen _ _ (seed_all-Keeps _ size _ (steady.put_item cfg.table_name)) (λ seeded.
          >>=-Keeps seen _ _ (drain_if_large-Keeps _ size)
            (λ drained. run_sized-Keeps _ size (λ n. read_item-Keeps b _)))

    for_sizes-Keeps :
        (body : ℕ → Act W (List Measured)) (sizes : List ℕ) (results : List Measured)
        → ((size : ℕ) → Keeps seen (body size))
        → Keeps seen (for_sizes tools cfg body sizes results)
    unfolding for_sizes
    for_sizes-Keeps body [] results h = pure-Keeps seen results
    for_sizes-Keeps body (size ∷ sizes) results h =
        >>=-Keeps seen _ _ (h size) (λ more. for_sizes-Keeps body sizes (results ++ more) h)

    pub puts-Keeps :
        (results : List Measured)
        → Keeps seen (for_sizes tools cfg (put_both tools cfg) cfg.value_sizes results)
    puts-Keeps results = for_sizes-Keeps _ cfg.value_sizes results (λ size.
        >>=-Keeps seen _ _ (our_put-Keeps size)
          (λ ours. >>=-Keeps seen _ _ (dynamodb_put-Keeps size) (λ ddb. pure-Keeps seen _)))

    pub gets-Keeps :
        (results : List Measured)
        → Keeps seen (for_sizes tools cfg (get_both tools cfg) cfg.value_sizes results)
    gets-Keeps results = for_sizes-Keeps _ cfg.value_sizes results (λ size.
        >>=-Keeps seen _ _ (our_get-Keeps size)
          (λ ours. >>=-Keeps seen _ _ (dynamodb_get-Keeps size true) (λ ddb. pure-Keeps seen _)))

    pub ours-Keeps :
        (results : List Measured)
        → Keeps seen (for_sizes tools cfg (get_ours tools cfg) cfg.value_sizes results)
    ours-Keeps results =
        for_sizes-Keeps _ cfg.value_sizes results
          (λ size. >>=-Keeps seen _ _ (our_get-Keeps size) (λ ours. pure-Keeps seen _))

    pub theirs-Keeps :
        (results : List Measured)
        → Keeps seen (for_sizes tools cfg (get_dynamodb tools cfg) cfg.value_sizes results)
    theirs-Keeps results =
        for_sizes-Keeps _ cfg.value_sizes results
          (λ size. >>=-Keeps seen _ _ (dynamodb_get-Keeps size false) (λ ddb. pure-Keeps seen _))
