-- ===== src/Attack/Liveness/Rounds.antt =====
-- scripts/adversarial_scenarios.py: the number of rounds of the relaying loop of category 3.
use secure_dynamo_kv_store.Prelude.{
  ℕ, zero, suc, ◌+◌, ◌*◌, ◌≤◌, ◌≡◌, refl, inl, inr, String, arith, ltb, Bool-cases,
}
use secure_dynamo_kv_store.Prelude.Result.{Result as Fallible, ok, raise}
use secure_dynamo_kv_store.Attack.{Snippet, relay, parse_output}
use secure_dynamo_kv_store.Attack.Shell.{Act, and_then, Outside, exec_snippet}
use secure_dynamo_kv_store.Attack.Liveness.{rounds, relay_until, relay_on}

module _ {W : Type 0} (out : Outside W)
    (forward : (node_id : String) (code : Snippet) (timeout : ℕ) (w : W)
      → out.monotonic w ≤ out.monotonic (out.run node_id code timeout w).1)
    (slept : (time : ℕ) (w : W) → out.monotonic w + time ≤ out.monotonic (out.sleep time w)) where
  lifted-monotonic :
      {A B : Type 0} (k : A → Fallible B) (r : Fallible A × W)
      → out.monotonic (and_then r (λ a w'. (k a, w'))).1 ≡ out.monotonic r.1
  lifted-monotonic k (raise e, w) = refl
  lifted-monotonic k (ok a, w) = refl

  exec-forward :
      (node_id : String) (code : Snippet) (timeout : ℕ) (w : W)
      → out.monotonic w ≤ out.monotonic (exec_snippet out node_id code timeout w).1
  unfolding exec_snippet
  exec-forward node_id code timeout w =
      let r = out.run node_id code timeout w in
      omega (arith, forward node_id code timeout w, lifted-monotonic (parse_output out.loads) r)

  after_exec :
      {A B : Type 0} (next next' : Act W B) (low : ℕ) (r : Fallible A × W)
      → low ≤ out.monotonic r.1
      → ((w : W) → low + 500 ≤ out.monotonic w → next w ≡ next' w)
      → and_then r (λ answer w'. next (out.sleep 500 w'))
        ≡ and_then r (λ answer w'. next' (out.sleep 500 w'))
  after_exec next next' low (raise e, w) h same = refl
  after_exec next next' low (ok a, w) h same = same (out.sleep 500 w) (omega (arith, slept 500 w))

  -- More rounds than fit before the deadline change nothing.
  relay-more :
      (fuel fuel' deadline : ℕ) (w : W)
      → deadline ≤ out.monotonic w + 500 * fuel
      → fuel ≤ fuel'
      → relay_until out fuel' deadline w ≡ relay_until out fuel deadline w
  unfolding relay_until
  relay-more zero zero deadline w h le = refl
  relay-more zero (suc fuel') deadline w h le = elim (Bool-cases (ltb (out.monotonic w) deadline)) [
    | inl s ↦ absurd (ground arith)
    | inr s ↦ rw s
  ]
  relay-more (suc fuel) zero deadline w h le = absurd (omega arith)
  relay-more (suc fuel) (suc fuel') deadline w h le =
      elim (Bool-cases (ltb (out.monotonic w) deadline)) [
        | inl s ↦ rw s (
            after_exec _ _ (out.monotonic w) (exec_snippet out "node-2" relay 8 w)
              (exec-forward "node-2" relay 8 w)
              (λ w' later. relay-more fuel fuel' deadline w' (omega arith) (omega arith)))
        | inr s ↦ rw s
      ]

  -- With a clock that does not run backwards, and stands still in no `sleep`, twelve seconds are
  -- over within the rounds of `relay_on`.
  pub relay_on-ends :
      (extra : ℕ) (w : W)
      → relay_until out (rounds + extra) (out.monotonic w + 12000) w ≡ relay_on out w
  unfolding relay_on
  relay_on-ends extra w =
      relay-more rounds (rounds + extra) (out.monotonic w + 12000) w (omega arith) (omega arith)
