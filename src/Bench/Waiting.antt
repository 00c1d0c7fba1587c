-- ===== src/Bench/Waiting.antt =====
-- scripts/dynamodb_bench_aws.py: how the loop of `wait_until_active` ends.
use secure_dynamo_kv_store.Prelude.{
  ℕ, zero, suc, ◌+◌, ◌*◌, ◌≤◌, ◌≡◌, refl, inl, inr, String, string_eq, ◌==◌, Option, none, some,
  arith, ltb, Bool-cases,
}
use secure_dynamo_kv_store.Prelude.Result.{Result, ok, raise}
use secure_dynamo_kv_store.Attack.Shell.{Act, and_then}
use secure_dynamo_kv_store.Bench.Tools.{Tools}
use secure_dynamo_kv_store.Bench.Aws.{unless_active, wait_until, wait_until_active}

module _ {W : Type 0} (tools : Tools W) (table_name : String)
    (forward : (w : W) → tools.monotonic w ≤ tools.monotonic (tools.describe_table table_name w).1)
    (slept : (time : ℕ) (w : W)
      → tools.monotonic w + time ≤ tools.monotonic (tools.sleep time w)) where
  -- Two ways to go on that agree whenever two seconds have passed.
  after_describe :
      (next next' : Act W (Unit {0})) (low : ℕ) (r : Result (Option String) × W)
      → low ≤ tools.monotonic r.1
      → ((w : W) → low + 2000 ≤ tools.monotonic w → next w ≡ next' w)
      → and_then r (unless_active tools next) ≡ and_then r (unless_active tools next')
  after_describe next next' low (raise e, w) h same = refl
  after_describe next next' low (ok none, w) h same = refl
  after_describe next next' low (ok (some status), w) h same =
      elim (Bool-cases (status == "ACTIVE")) [
        | inl s ↦ rw s
        | inr s ↦ rw s (same (tools.sleep 2000 w) (omega (arith, slept 2000 w)))
      ]

  -- More rounds than fit before the deadline change nothing.
  wait-more :
      (fuel fuel' deadline : ℕ) (w : W)
      → deadline ≤ tools.monotonic w + 2000 * fuel
      → fuel ≤ fuel'
      → wait_until tools fuel' deadline table_name w ≡ wait_until tools fuel deadline table_name w
  unfolding wait_until
  wait-more zero zero deadline w h le = refl
  wait-more zero (suc fuel') deadline w h le =
      elim (Bool-cases (ltb (tools.monotonic w) deadline)) [
        | inl s ↦ absurd (ground arith)
        | inr s ↦ rw s
      ]
  wait-more (suc fuel) zero deadline w h le = absurd (omega arith)
  wait-more (suc fuel) (suc fuel') deadline w h le =
      elim (Bool-cases (ltb (tools.monotonic w) deadline)) [
        | inl s ↦ rw s (
            after_describe _ _ (tools.monotonic w) (tools.describe_table table_name w) (forward w)
              (λ w' later. wait-more fuel fuel' deadline w' (omega arith) (omega arith)))
        | inr s ↦ rw s
      ]

  -- Where the clock never goes back, and a sleep takes at least the time that was asked for,
  -- thirty rounds of the loop in `wait_until_active` are enough: with any more it does the same.
  pub wait_until_active-ends :
      (extra : ℕ) (w : W)
      → wait_until tools (30 + extra) (tools.monotonic w + 60000) table_name w
        ≡ wait_until_active tools table_name w
  unfolding wait_until_active
  wait_until_active-ends extra w =
      wait-more 30 (30 + extra) (tools.monotonic w + 60000) w (omega arith) (omega arith)
