-- ===== src/Bench/Condition.antt =====
-- scripts/bench_stats.py: the measuring loop of `run_condition`.
use secure_dynamo_kv_store.Prelude.{ℕ, ◌≤◌, ◌<◌, ◌≡◌, min, ◌⊎◌, Option, some, List, length}
use secure_dynamo_kv_store.Prelude.Result.{ok}
use secure_dynamo_kv_store.Attack.Shell.{Act}
use secure_dynamo_kv_store.Bench.Tools.{Tools}

module _ {W : Type 0} (tools : Tools W) (op : ℕ → Act W (Unit {0}))
    (works : (i : ℕ) (w : W) → (op i w).0 ≡ ok tt) (start target_n floor_n time_budget : ℕ) where
  abbrev Enough : Act W (Option (List ℕ)) → W → Type 0
  Enough m w =
      (ls : List ℕ) × (w' : W) × (m w ≡ (ok (some ls), w'))
      × (0 < length ls)
      × (min target_n floor_n ≤ length ls)
      × ((length ls ≤ target_n) ⊎ (length ls ≡ 1))
