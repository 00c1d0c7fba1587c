-- ===== src/Attack/Suite.antt =====
-- scripts/adversarial_scenarios.py: ALL_SCENARIOS.
use secure_dynamo_kv_store.Prelude.{String, List, [], ◌∷◌}
use secure_dynamo_kv_store.Dict.{Dict}
use secure_dynamo_kv_store.Attack.{Context, Result, Json}
use secure_dynamo_kv_store.Attack.Shell.{Act, Outside}
use secure_dynamo_kv_store.Attack.Transport.{
  scenario_1_unauthorized_join, scenario_2_identity_spoofing,
}
use secure_dynamo_kv_store.Attack.Liveness.{Measured, scenario_3_gossip_forgery}
use secure_dynamo_kv_store.Attack.Writes.{
  scenario_4_replay_defense, scenario_5_clock_forgery, scenario_6_unauthorized_delete,
}
use secure_dynamo_kv_store.Attack.AtRest.{
  scenario_7_read_without_key, scenario_8_ciphertext_tampering,
}
use secure_dynamo_kv_store.Attack.Bypass.{scenario_9_auth_bypass}
use secure_dynamo_kv_store.Attack.Audit.{scenario_10_audit_blind_spot}

-- A category, the name of a function and what it does.
pub record Scenario (W : Type 0) : Type 0 where
  pub category : String
  pub name : String
  pub attack : Context → Act W (List Result)

-- `measured_text`, `show` and `logs_text` are the JSON texts of what the results of categories 3
-- and 10 keep as evidence.
unfoldable pub all_scenarios :
    {W : Type 0}
    → Outside W
    → (Measured → String)
    → (Json → String)
    → (Dict String Json → Dict String Json → String)
    → List (Scenario W)
all_scenarios out measured_text show logs_text =
    record {
      category = "1";
      name = "scenario_1_unauthorized_join";
      attack = scenario_1_unauthorized_join out;
    }
    ∷ record {
      category = "2";
      name = "scenario_2_identity_spoofing";
      attack = scenario_2_identity_spoofing out;
    }
    ∷ record {
      category = "3";
      name = "scenario_3_gossip_forgery";
      attack = scenario_3_gossip_forgery out measured_text;
    }
    ∷ record {
      category = "4";
      name = "scenario_4_replay_defense";
      attack = scenario_4_replay_defense out;
    }
    ∷ record {
      category = "5";
      name = "scenario_5_clock_forgery";
      attack = scenario_5_clock_forgery out;
    }
    ∷ record {
      category = "6";
      name = "scenario_6_unauthorized_delete";
      attack = scenario_6_unauthorized_delete out;
    }
    ∷ record {
      category = "7";
      name = "scenario_7_read_without_key";
      attack = scenario_7_read_without_key out;
    }
    ∷ record {
      category = "8";
      name = "scenario_8_ciphertext_tampering";
      attack = scenario_8_ciphertext_tampering out;
    }
    ∷ record {
      category = "9";
      name = "scenario_9_auth_bypass";
      attack = scenario_9_auth_bypass out;
    }
    ∷ record {
      category = "10";
      name = "scenario_10_audit_blind_spot";
      attack = scenario_10_audit_blind_spot out show logs_text;
    }
    ∷ []
