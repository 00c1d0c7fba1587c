-- ===== src/Attack/Transport.antt =====
-- scripts/adversarial_scenarios.py: categories 1 and 2, joining without a certificate of the
-- cluster and acting under another node's name.
use secure_dynamo_kv_store.Prelude.{
  string_eq, String, false, not, ◌&&◌, ◌||◌, List, [], ◌∷◌, ◌++◌, if◌then◌else◌,
}
use Prim.Native.String
use secure_dynamo_kv_store.Dict
use secure_dynamo_kv_store.Dict.{Dict}
use secure_dynamo_kv_store.Attack.{
  Context, Result, Json, Snippet, no_cert, rogue_cert, spoofed_gossip, spoofed_hint, check_hint,
  truthy, is_number,
}
use secure_dynamo_kv_store.Attack.Shell.{Act, ◌>>=◌, pure, Outside, exec_snippet}

module _ {W : Type 0} (out : Outside W) where
  -- What one attempt to connect reports.
  unfoldable pub join_result : String → Dict String Json → Result
  join_result label answer =
      let prevented =
        not (truthy (Dict.get answer "connected"))
        || not (truthy (Dict.get answer "got_response")) in
      record {
        category = "1";
        scenario = String.◌++◌ "unauthorized internal join -- " label;
        expected = "PREVENTED";
        observed = if prevented then "PREVENTED" else "SUCCEEDED";
        prevented = prevented;
        detected = false;
        evidence = out.dumps answer;
        note = "";
      }

  unfoldable pub join_all : List (String × Snippet) → List Result → Act W (List Result)
  join_all [] results = pure results
  join_all ((label, snippet) ∷ rest) results = do
    answer ← exec_snippet out "node-1" snippet 20
    join_all rest (results ++ join_result label answer ∷ [])

  unfoldable pub scenario_1_unauthorized_join : Context → Act W (List Result)
  scenario_1_unauthorized_join ctx =
      join_all (("no client cert", no_cert) ∷ ("rogue self-signed CA cert", rogue_cert) ∷ []) []

  -- Whether the two gossip messages, with the sender's own name and with another, are answered.
  unfoldable pub spoofed_sender : Dict String Json → Result
  spoofed_sender answer =
      let accepted =
        is_number (Dict.get answer "spoofed_status") 200
        && is_number (Dict.get answer "honest_status") 200 in
      record {
        category = "2";
        scenario =
            "gossip 'sender' field accepted with a fabricated identity (node-2's real cert used)";
        expected = "UNDEFENDED";
        observed = if accepted then "UNDEFENDED (accepted identically)" else "DEFENDED (rejected)";
        prevented = not accepted;
        detected = false;
        evidence = out.dumps answer;
        note = "";
      }

  unfoldable pub spoofed_target : Dict String Json → Result
  spoofed_target check =
      let accepted_hint = truthy (Dict.get check "hint_stored_under_fake_target") in
      record {
        category = "2";
        scenario =
            "hint 'target' field accepted for an arbitrary/fake node id (node-2's real cert used)";
        expected = "UNDEFENDED";
        observed = if accepted_hint then "UNDEFENDED (accepted)" else "DEFENDED (rejected)";
        prevented = not accepted_hint;
        detected = false;
        evidence = out.dumps check;
        note = "";
      }

  abbrev pub fake_target : String
  fake_target = "not-a-real-cluster-member"

  unfoldable pub scenario_2_identity_spoofing : Context → Act W (List Result)
  scenario_2_identity_spoofing ctx = do
    answer ← exec_snippet out "node-2" spoofed_gossip 20
    stored ← exec_snippet out "node-2" (spoofed_hint fake_target) 20
    check ← exec_snippet out "node-1" (check_hint fake_target) 20
    pure (spoofed_sender answer ∷ spoofed_target check ∷ [])
