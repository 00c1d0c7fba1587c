-- ===== src/Attack/Liveness/Override.antt =====
-- scripts/adversarial_scenarios.py: the override file after category 3.
use secure_dynamo_kv_store.Prelude.{
  ℕ, zero, suc, ◌+◌, ◌≡◌, refl, ◌∙◌, String, Bool, true, false, none, some, ltb, if◌then◌else◌,
  Bool-cases, inl, inr,
}
use secure_dynamo_kv_store.Dict
use secure_dynamo_kv_store.Attack.{Context, Snippet, relay, timed_put}
use secure_dynamo_kv_store.Attack.Shell.{
  Act, ◌>>=◌, effect, Outside, OutsideLaws, first_token, exec_snippet,
}
use secure_dynamo_kv_store.Attack.Keeps.{Keeps, >>=-Keeps, pure-Keeps, finally-seen}
use secure_dynamo_kv_store.Attack.Liveness.{
  Measured, gossip_partition_override, write_time_public_put, rounds, relay_until, relay_on,
  measure_liveness, attack_liveness, restore_topology, scenario_3_gossip_forgery,
}

module _ {W : Type 0} (out : Outside W) (laws : OutsideLaws out) where
  abbrev KeepsOverride : {A : Type 0} → Act W A → Type 0
  KeepsOverride m = Keeps out.override m

  run-Keeps :
      (node_id : String) (code : Snippet) (timeout : ℕ)
      → KeepsOverride (out.run node_id code timeout)
  run-Keeps node_id code timeout = record { kept = laws.override-run node_id code timeout }

  compose_up-Keeps : KeepsOverride out.compose_up
  compose_up-Keeps = record { kept = laws.override-compose_up }

  sleep-Keeps : (time : ℕ) → KeepsOverride (effect (out.sleep time))
  sleep-Keeps time = record { kept = laws.override-sleep time }

  exec_snippet-Keeps :
      (node_id : String) (code : Snippet) (timeout : ℕ)
      → KeepsOverride (exec_snippet out node_id code timeout)
  unfolding exec_snippet
  exec_snippet-Keeps node_id code timeout =
      >>=-Keeps out.override (out.run node_id code timeout) _ (run-Keeps node_id code timeout)
        (λ proc. record { kept = λ w. refl })

  write_time_public_put-Keeps :
      (node_id key token : String) → KeepsOverride (write_time_public_put out node_id key token)
  unfolding write_time_public_put
  write_time_public_put-Keeps node_id key token = record {
    kept = λ w.
        (>>=-Keeps out.override (out.run node_id (timed_put key token) 20) _
            (run-Keeps node_id _ 20) (λ proc. record { kept = λ w'. refl })).kept
          w;
  }

  ruleset keeping = (
    >>=-Keeps, pure-Keeps, compose_up-Keeps, sleep-Keeps, exec_snippet-Keeps,
    write_time_public_put-Keeps,
  )

  relay_until-kept :
      (fuel deadline : ℕ) (w : W)
      → out.override (relay_until out fuel deadline w).1 ≡ out.override w
  unfolding relay_until
  relay_until-kept zero deadline w = refl
  relay_until-kept (suc fuel) deadline w =
      let again : KeepsOverride (relay_until out fuel deadline) = record {
        kept = relay_until-kept fuel deadline;
      } in
      elim (Bool-cases (ltb (out.monotonic w) deadline)) [
        | inl s ↦ rw s (
            (>>=-Keeps out.override (exec_snippet out "node-2" relay 8) _
                (exec_snippet-Keeps "node-2" relay 8)
                (λ answer.
                  >>=-Keeps out.override (effect (out.sleep 500)) _ (sleep-Keeps 500)
                    (λ slept. again))).kept
              w)
        | inr s ↦ rw s
      ]

  relay_on-Keeps : KeepsOverride (relay_on out)
  unfolding relay_on
  relay_on-Keeps = record { kept = λ w. relay_until-kept rounds (out.monotonic w + 12000) w }

  measure_liveness-Keeps :
      (evidence_of : Measured → String) (token : String)
      → KeepsOverride (measure_liveness out evidence_of token)
  unfolding measure_liveness
  measure_liveness-Keeps evidence_of token = search (keeping, relay_on-Keeps) depth 20

  -- The rest of the `finally`.
  up_again-kept :
      (w : W)
      → out.override ((out.compose_up >>= λ up. effect (out.sleep 6000)) w).1 ≡ out.override w
  up_again-kept =
      (>>=-Keeps out.override out.compose_up _ compose_up-Keeps (λ up. sleep-Keeps 6000)).kept

  restore_topology-override :
      (had : Bool) (w : W)
      → out.override (restore_topology out had w).1 ≡ (if had then out.override w else none)
  unfolding restore_topology
  restore_topology-override true w = up_again-kept w
  restore_topology-override false w =
      up_again-kept _ ∙ elim (Bool-cases (Dict.is_some (out.override w))) [
        | inl s ↦ rw s (laws.override-unlink w)
        | inr s ↦ rw s (Dict.is_some-false (out.override w) s)
      ]

  -- Where only the scripts write the override file, category 3 leaves none if there was none
  -- before, and the text of its own partition if there was one, whatever it contained; so too if
  -- something raises on the way.
  pub scenario_3-override :
      (evidence_of : Measured → String) (ctx : Context) (w : W)
      → out.override (scenario_3_gossip_forgery out evidence_of ctx w).1
        ≡ (if Dict.is_some (out.override w) then some gossip_partition_override else none)
  unfolding scenario_3_gossip_forgery attack_liveness
  scenario_3-override evidence_of ctx w =
      let token = first_token ctx in
      let had = Dict.is_some (out.override w) in
      finally-seen out.override (attack_liveness out evidence_of token) (restore_topology out had) w
      ∙ rw (
        restore_topology-override had,
        (measure_liveness-Keeps evidence_of token).kept,
        laws.override-write,
      )
