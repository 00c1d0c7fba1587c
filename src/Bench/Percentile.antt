-- ===== src/Bench/Percentile.antt =====
-- scripts/bench_stats.py: `percentile`.
use secure_dynamo_kv_store.Prelude.{ℕ, ◌≤◌, nat_eq, List, In}

module _ (lo hi : ℕ) where
  abbrev pub Within : List ℕ → Type 0
  Within values = (v : ℕ) → In v values → (lo ≤ v) × (v ≤ hi)
