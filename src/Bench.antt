-- ===== src/Bench.antt =====
-- scripts/bench_stats.py: percentiles and the benchmark loop. Times are whole ticks; a
-- percentile, whose pct is a whole number, is given in hundredths of a tick.
pub mod Tools
pub mod Aws
pub mod Run
pub mod Driver
pub mod Steady
pub mod Override
pub mod Provision
pub mod Waiting
pub mod Percentile
pub mod Condition
use secure_dynamo_kv_store.Prelude.{
  ℕ, zero, suc, ◌+◌, ◌-◌, ◌*◌, ◌/◌, ◌%◌, ◌≤◌, nat_eq, Bool, true, false, ◌&&◌, Option, none, some,
  List, [], ◌∷◌, ◌++◌, length, get_elem?, leb, ltb, ◌==◌, if◌then◌else◌,
}
use secure_dynamo_kv_store.Dict.{or_else}

-- sorted_values[i], where the index is in range.
abbrev pub at : List ℕ → ℕ → ℕ
at values i = or_else (get_elem? values i) 0

-- Between the values at `f` and at `f + 1`, at `rest` hundredths of the way.
abbrev pub interpolate : List ℕ → ℕ → ℕ → ℕ
interpolate values f rest =
    if rest == 0
    then 100 * at values f
    else 100 * at values f + (at values (suc f) - at values f) * rest

-- k = (len - 1) * pct / 100 has the floor `f` and the fraction `rest` / 100; `none` is nan.
unfoldable pub percentile : List ℕ → ℕ → Option ℕ
percentile [] pct = none
percentile (v ∷ []) pct = some (100 * v)
percentile (v ∷ w ∷ values) pct =
    let k = (length (v ∷ w ∷ values) - 1) * pct in
    some (interpolate (v ∷ w ∷ values) (k / 100) (k % 100))

-- `sorted` on numbers.
unfoldable pub insert : ℕ → List ℕ → List ℕ
insert v [] = v ∷ []
insert v (w ∷ values) = let rest = insert v values in if leb v w then v ∷ w ∷ values else w ∷ rest

unfoldable pub sorted : List ℕ → List ℕ
sorted [] = []
sorted (v ∷ values) = insert v (sorted values)

unfoldable pub sum : List ℕ → ℕ
sum [] = 0
sum (v ∷ values) = v + sum values

-- The mean and the throughput are fractions, numerator first.
pub record Stats : Type 0 where
  pub n : ℕ
  pub p50 : Option ℕ
  pub p95 : Option ℕ
  pub p99 : Option ℕ
  pub mean : Option (ℕ × ℕ)
  pub throughput : Option (ℕ × ℕ)

unfoldable pub compute_stats : List ℕ → ℕ → Stats
compute_stats latencies elapsed =
    let n = length latencies in
    let s = sorted latencies in
    record {
      n = n;
      p50 = percentile s 50;
      p95 = percentile s 95;
      p99 = percentile s 99;
      mean = if n == 0 then none else some (sum latencies, n);
      throughput = if ltb 0 elapsed then some (n, elapsed) else none;
    }

-- What `run_condition` returns, for the elapsed time at its end.
pub record Report : Type 0 where
  pub stats : Stats
  pub time_budget_hit : Bool
  pub target_n : ℕ

unfoldable pub report : ℕ → ℕ → ℕ → List ℕ → Report
report target_n time_budget elapsed latencies =
    let stats = compute_stats latencies elapsed in
    record {
      stats = stats;
      time_budget_hit = leb time_budget elapsed && ltb stats.n target_n;
      target_n = target_n;
    }
