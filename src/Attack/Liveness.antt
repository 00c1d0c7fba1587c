-- ===== src/Attack/Liveness.antt =====
-- scripts/adversarial_scenarios.py: category 3, making a healthy node look down by relaying old
-- gossip. Times are in milliseconds.
pub mod Override
pub mod Rounds
use secure_dynamo_kv_store.Prelude.{
  ℕ, zero, suc, ◌+◌, ◌-◌, ◌*◌, String, string_eq, Bool, false, not, ◌&&◌, List, [], ◌∷◌, ltb,
  if◌then◌else◌,
}
use Prim.Native.String
use secure_dynamo_kv_store.Prelude.Result.{ok}
use secure_dynamo_kv_store.Dict
use secure_dynamo_kv_store.Dict.{Dict}
use secure_dynamo_kv_store.Attack.{Context, Result, Json, health, relay, timed_put, is_number}
use secure_dynamo_kv_store.Attack.Shell.{
  Act, ◌>>=◌, pure, effect, finally, Outside, first_token, exec_snippet,
}

-- _GOSSIP_PARTITION_OVERRIDE: node-1 reaches node-3 only by way of node-2.
abbrev pub gossip_partition_override : String
gossip_partition_override =
    "networks:\n  net-a:\n  net-b:\n\nservices:\n  node-1:\n    networks:\n      - net-a\n  node-2:\n    networks:\n      - net-a\n      - net-b\n  node-3:\n    networks:\n      - net-b\n"

-- What has been measured.
pub record Measured : Type 0 where
  pub health_before : Dict String Json
  pub health_after : Dict String Json
  pub baseline_latency : ℕ
  pub attack_latency : ℕ

unfoldable pub stayed_healthy : Measured → Bool
stayed_healthy m =
    is_number (Dict.get m.health_before "status") 200
    && is_number (Dict.get m.health_after "status") 200

-- The measurement can show something only where the baseline was slow.
unfoldable pub observable_is_meaningful : Measured → Bool
observable_is_meaningful m = ltb 2000 m.baseline_latency

-- attack_latency < baseline_latency * 0.5
unfoldable pub belief_manipulated : Measured → Bool
unfolding observable_is_meaningful
belief_manipulated m = observable_is_meaningful m && ltb (m.attack_latency * 2) m.baseline_latency

unfoldable pub liveness_prevented : Measured → Bool
unfolding belief_manipulated stayed_healthy
liveness_prevented m =
    if observable_is_meaningful m then not (stayed_healthy m && belief_manipulated m) else false

-- The rounds that fit into twelve seconds, at half a second each.
abbrev pub rounds : ℕ
rounds = 24

module _ {W : Type 0} (out : Outside W) where
  -- `_write_time_public_put`: how long the program took, whatever it did.
  unfoldable pub write_time_public_put : String → String → String → Act W ℕ
  write_time_public_put node_id key token w =
      (do
        proc ← out.run node_id (timed_put key token) 20
        λ w'. (ok (out.monotonic w' - out.monotonic w), w'))
        w

  -- `while time.monotonic() < deadline`, for a number of rounds at most.
  unfoldable pub relay_until : ℕ → ℕ → Act W (Unit {0})
  relay_until zero deadline w = (ok tt, w)
  relay_until (suc fuel) deadline w =
      let round : Act W (Unit {0}) = do
        answer ← exec_snippet out "node-2" relay 8
        slept ← effect (out.sleep 500)
        relay_until fuel deadline
      in if ltb (out.monotonic w) deadline then round w else (ok tt, w)

  -- For twelve seconds.
  unfoldable pub relay_on : Act W (Unit {0})
  relay_on w = relay_until rounds (out.monotonic w + 12000) w

  -- The `finally`: an override file that was there before is left where it is.
  unfoldable pub restore_topology : Bool → Act W (Unit {0})
  restore_topology already_had_override = do
    removed ← effect (λ w.
        if not already_had_override && Dict.is_some (out.override w)
        then out.unlink_override w
        else w)
    up ← out.compose_up
    effect (out.sleep 6000)

-- `evidence_of` is the JSON text of what was measured.
module _ {W : Type 0} (out : Outside W) (evidence_of : Measured → String) where
  unfoldable pub liveness_observed : Measured → String
  liveness_observed m =
      if observable_is_meaningful m
      then (if liveness_prevented m
          then "DEFENDED (no latency drop observed despite a slow, meaningful baseline)"
          else String.◌++◌
              "UNDEFENDED (node-3 stayed healthy throughout, but node-1's write latency dropped from "
              (String.◌++◌ (out.two_decimals m.baseline_latency) (
                String.◌++◌ "s to " (
                  String.◌++◌ (out.two_decimals m.attack_latency)
                    "s, consistent with node-1 proactively treating node-3 as down)"))))
      else String.◌++◌ "inconclusive -- baseline write latency was already fast (" (
          String.◌++◌ (out.two_decimals m.baseline_latency)
            "s), so the latency-based observable can't distinguish this run's outcome. Docker's network-level segmentation (separate bridge networks) causes near-instant connection/DNS failures rather than a hung TCP timeout, so a REACTIVE failed attempt to unreachable node-3 is already about as fast as a PROACTIVE gossip-driven skip would be -- the two paths are latency-indistinguishable under this specific segmentation technique, independent of whether the forged relay actually took effect.")

  unfoldable pub liveness_result : Measured → Result
  liveness_result m = record {
    category = "3";
    scenario =
        "compromised relay suppresses a healthy node's perceived liveness (topology: node-1 reachable to node-3 only via node-2)";
    expected = "UNDEFENDED";
    observed = liveness_observed m;
    prevented = liveness_prevented m;
    detected = false;
    evidence = evidence_of m;
    note =
        "The chosen live observable (write-latency delta) doesn't cleanly distinguish proactive-skip from reactive-fail-fast when Docker network segmentation causes near-instant failures rather than slow timeouts. This does NOT mean the attack is defended -- it means this specific live-reproduction technique is inconclusive by construction. The underlying mechanism is proven deterministically, independent of Docker/network timing, in tests/test_gossip.py::test_adversarial_stale_relay_makes_a_healthy_node_appear_down.";
  }

  -- The body of the `try`, once the override file is written.
  unfoldable pub measure_liveness : String → Act W (List Result)
  measure_liveness token = do
    up ← out.compose_up
    settled ← effect (out.sleep 3000)
    health_before ← exec_snippet out "node-2" health 20
    baseline_latency ← write_time_public_put out "node-1" "gossip-probe-before" token
    relayed ← relay_on out
    health_after ← exec_snippet out "node-2" health 20
    attack_latency ← write_time_public_put out "node-1" "gossip-probe-after" token
    pure (
        liveness_result (record {
          health_before = health_before;
          health_after = health_after;
          baseline_latency = baseline_latency;
          attack_latency = attack_latency;
        })
        ∷ [])

  unfoldable pub attack_liveness : String → Act W (List Result)
  attack_liveness token = do
    written ← effect (out.write_override gossip_partition_override)
    measure_liveness token

  unfoldable pub scenario_3_gossip_forgery : Context → Act W (List Result)
  scenario_3_gossip_forgery ctx w =
      finally (attack_liveness (first_token ctx))
        (restore_topology out (Dict.is_some (out.override w))) w
