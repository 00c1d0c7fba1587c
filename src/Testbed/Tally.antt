-- ===== src/Testbed/Tally.antt =====
-- scripts/adversarial_testbed.py: the rates of a run in which scenarios raise.
use secure_dynamo_kv_store.Prelude.{
  ℕ, suc, ◌+◌, ◌≤◌, ◌≡◌, refl, Bool, false, List, [], ◌∷◌, ◌++◌, filter, length, length-append,
  arith,
}
use secure_dynamo_kv_store.Prelude.Result.{Exn, Result as Fallible, ok, raise}
use secure_dynamo_kv_store.Attack.{Context, Result}
use secure_dynamo_kv_store.Attack.Suite.{Scenario}
use secure_dynamo_kv_store.Testbed.{Surroundings, harness_error, recorded, run_all, compute_rates}

module _ {W : Type 0} where
  -- What each scenario of a run returned or raised, in order.
  unfoldable pub outcomes : Context → List (Scenario W) → W → List (Fallible (List Result))
  outcomes ctx [] w = []
  outcomes ctx (scenario ∷ scenarios) w =
      (scenario.attack ctx w).0 ∷ outcomes ctx scenarios (scenario.attack ctx w).1

-- The results that scenarios returned.
unfoldable pub returned : List (Fallible (List Result)) → List Result
returned [] = []
returned (ok results ∷ rest) = results ++ returned rest
returned (raise e ∷ rest) = returned rest

-- How many scenarios raised.
unfoldable pub raised : List (Fallible (List Result)) → ℕ
raised [] = 0
raised (ok results ∷ rest) = raised rest
raised (raise e ∷ rest) = suc (raised rest)

count : (Result → Bool) → List Result → ℕ
count p results = length (filter p results)

count-append :
    (p : Result → Bool) (xs ys : List Result) → count p (xs ++ ys) ≡ count p xs + count p ys
unfolding count filter
count-append p [] ys = omega arith
count-append p (x ∷ xs) ys = ground (arith, count-append p xs ys)

count-le : (p : Result → Bool) (xs : List Result) → count p xs ≤ length xs
unfolding count filter
count-le p [] = omega arith
count-le p (x ∷ xs) = ground (arith, count-le p xs)

module _ {W : Type 0} (around : Surroundings W) where
  recorded-count :
      (p : Result → Bool)
      → ((scenario : Scenario W) (e : Exn) → p (harness_error around scenario e) ≡ false)
      → (scenario : Scenario W) (o : Fallible (List Result)) (rest : List (Fallible (List Result)))
      → count p (recorded around scenario o) + count p (returned rest)
        ≡ count p (returned (o ∷ rest))
  unfolding returned count filter
  recorded-count p never scenario (ok results) rest =
      omega (arith, count-append p results (returned rest))
  recorded-count p never scenario (raise e) rest = ground (arith, never scenario e)

  recorded-length :
      (scenario : Scenario W) (o : Fallible (List Result)) (rest : List (Fallible (List Result)))
      → length (recorded around scenario o) + length (returned rest) + raised rest
        ≡ length (returned (o ∷ rest)) + raised (o ∷ rest)
  unfolding returned raised
  recorded-length scenario (ok results) rest = omega (arith, length-append results (returned rest))
  recorded-length scenario (raise e) rest = omega arith

  -- How many results of a run pass a test that no harness error passes.
  run_all-count :
      (p : Result → Bool)
      → ((scenario : Scenario W) (e : Exn) → p (harness_error around scenario e) ≡ false)
      → (ctx : Context) (scenarios : List (Scenario W)) (before : List Result) (w : W)
      → count p (run_all around ctx scenarios before w).0
        ≡ count p before + count p (returned (outcomes ctx scenarios w))
  unfolding run_all outcomes
  run_all-count p never ctx [] before w = unfold returned count filter in omega arith
  run_all-count p never ctx (scenario ∷ scenarios) before w =
      let o = scenario.attack ctx w in
      let added = recorded around scenario o.0 in
      omega (
        arith,
        run_all-count p never ctx scenarios (before ++ added) o.1,
        count-append p before added,
        recorded-count p never scenario o.0 (outcomes ctx scenarios o.1),
      )

  run_all-length :
      (ctx : Context) (scenarios : List (Scenario W)) (before : List Result) (w : W)
      → length (run_all around ctx scenarios before w).0
        ≡ length before
          + length (returned (outcomes ctx scenarios w))
          + raised (outcomes ctx scenarios w)
  unfolding run_all outcomes
  run_all-length ctx [] before w = unfold returned raised in omega arith
  run_all-length ctx (scenario ∷ scenarios) before w =
      let o = scenario.attack ctx w in
      let added = recorded around scenario o.0 in
      omega (
        arith,
        run_all-length ctx scenarios (before ++ added) o.1,
        length-append before added,
        recorded-length scenario o.0 (outcomes ctx scenarios o.1),
      )

  -- The rates of a run count each scenario that raised as one more result, which is neither
  -- prevented nor detected: the total is that of the results which the others returned and the
  -- number that raised, and the counts of prevented and detected results are those of the results
  -- returned.
  pub compute_rates-run_all :
      (ctx : Context) (scenarios : List (Scenario W)) (w : W)
      → let rates = compute_rates (run_all around ctx scenarios [] w).0 in
        let all = outcomes ctx scenarios w in
        let own = compute_rates (returned all) in
        (rates.total_scenarios ≡ own.total_scenarios + raised all)
        × (rates.prevented ≡ own.prevented)
        × (rates.detected ≡ own.detected)
        × (rates.prevented + raised all ≤ rates.total_scenarios)
  unfolding compute_rates harness_error count filter
  compute_rates-run_all ctx scenarios w =
      let all = outcomes ctx scenarios w in
      let total = run_all-length ctx scenarios [] w in
      let prevented = run_all-count (λ r. r.prevented) (λ scenario e. refl) ctx scenarios [] w in
      let detected = run_all-count (λ r. r.detected) (λ scenario e. refl) ctx scenarios [] w in
      (
        omega (arith, total),
        omega (arith, prevented),
        omega (arith, detected),
        omega (arith, total, prevented, count-le (λ r. r.prevented) (returned all)),
      )
