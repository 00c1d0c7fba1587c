-- ===== src/Attack/Writes.antt =====
-- scripts/adversarial_scenarios.py: categories 4 to 6, replayed and forged writes and deletes.
pub mod Programs
pub mod Replay
pub mod Forgery
pub mod Deletion
use secure_dynamo_kv_store.Prelude.{
  ℕ, String, string_eq, nat_eq, Bool, true, false, not, ◌&&◌, List, [], ◌∷◌, ◌++◌, ◌==◌, suc,
  Option, none, some, all, any, map, if◌then◌else◌,
}
use Prim.Native.String
use secure_dynamo_kv_store.Dict
use secure_dynamo_kv_store.Dict.{Dict}
use secure_dynamo_kv_store.Attack.{
  Context, Result, Json, replay, forgery, forged_delete, is_number, is_text,
}
use secure_dynamo_kv_store.Attack.Shell.{Act, ◌>>=◌, pure, Outside, first_token, exec_snippet}

module _ {W : Type 0} (out : Outside W) where
  unfoldable pub replay_results : Dict String Json → List Result
  replay_results answer =
      let prevented = is_text (Dict.get answer "final_value") "v2" in
      record {
        category = "4";
        scenario = "replay a captured old write after a newer one has landed";
        expected = "PREVENTED";
        observed =
            if prevented
            then "PREVENTED (replay dropped, v2 retained)"
            else "SUCCEEDED (replay overwrote v2!)";
        prevented = prevented;
        detected = false;
        evidence = out.dumps answer;
        note = "";
      }
      ∷ []

  unfoldable pub scenario_4_replay_defense : Context → Act W (List Result)
  scenario_4_replay_defense ctx = do
    answer ← exec_snippet out "node-1" (replay "replay-probe-key" (first_token ctx)) 20
    pure (replay_results answer)

  unfoldable pub forgery_results : Dict String Json → List Result
  forgery_results answer =
      let hijack_succeeded = is_text (Dict.get answer "hijacked_value") "poisoned" in
      let self_healed = is_text (Dict.get answer "recovered_value") "recovered" in
      record {
        category = "5";
        scenario =
            "fabricated clock claimed for a node the caller doesn't represent hijacks the key cluster-wide";
        expected = "UNDEFENDED (immediate hijack)";
        observed = if hijack_succeeded then "UNDEFENDED (hijack succeeded)" else "DEFENDED";
        prevented = not hijack_succeeded;
        detected = false;
        evidence = out.dumps answer;
        note = "";
      }
      ∷ record {
        category = "5";
        scenario =
            "self-heal boundary -- impersonated node's next real coordinated write supersedes the poison";
        expected = "the poison is NOT eternal";
        observed =
            if self_healed then "self-healed as expected" else "did NOT self-heal (unexpected)";
        prevented = self_healed;
        detected = false;
        evidence = out.dumps answer;
        note = "";
      }
      ∷ []

  -- From the container of node-2, whose certificate it uses.
  unfoldable pub scenario_5_clock_forgery : Context → Act W (List Result)
  scenario_5_clock_forgery ctx = do
    answer ← exec_snippet out "node-2" (forgery "forgery-probe-key" (first_token ctx)) 20
    pure (forgery_results answer)

  unfoldable pub delete_results : Dict String Json → List Result
  delete_results answer =
      let deleted = is_number (Dict.get answer "status_after_forged_delete") 404 in
      record {
        category = "6";
        scenario =
            "delete all replicas directly via the internal API, with no legitimate client-facing delete ever issued";
        expected = "UNDEFENDED";
        observed =
            if deleted then "UNDEFENDED (key was deleted with no authorization)" else "DEFENDED";
        prevented = not deleted;
        detected = false;
        evidence = out.dumps answer;
        note = "";
      }
      ∷ []

  unfoldable pub scenario_6_unauthorized_delete : Context → Act W (List Result)
  scenario_6_unauthorized_delete ctx = do
    answer ← exec_snippet out "node-2" (forged_delete "delete-probe-key" (first_token ctx)) 20
    pure (delete_results answer)
