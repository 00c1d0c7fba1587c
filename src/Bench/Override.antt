-- ===== src/Bench/Override.antt =====
-- scripts/dynamodb_bench.py: the override file after `run_all`.
use secure_dynamo_kv_store.Prelude.{◌≡◌, refl, none}
use secure_dynamo_kv_store.Prelude.Result.{Result, ok, raise}
use secure_dynamo_kv_store.Dict
use secure_dynamo_kv_store.Attack.Shell.{Act, and_then}
use secure_dynamo_kv_store.Attack.Keeps.{Keeps}
use secure_dynamo_kv_store.Bench.Tools.{BenchConfig, Tools}
use secure_dynamo_kv_store.Bench.Steady.{Steady}

module _ {W : Type 0} (tools : Tools W) (cfg : BenchConfig) (steady : Steady tools tools.override)
    (unlinked : (w : W) → tools.override (tools.unlink_override w) ≡ none)
    (comes_up : (w : W) → (tools.compose_up w).0 ≡ ok tt) where
  and_then-override :
      {A B : Type 0} (r : Result A × W) (k : A → Act W B)
      → ((a : A) → Keeps tools.override (k a))
      → tools.override (and_then r k).1 ≡ tools.override r.1
  and_then-override (raise e, w) k h = refl
  and_then-override (ok a, w) k h = (h a).kept w
