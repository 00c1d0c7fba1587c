-- ===== src/Attack/AtRest.antt =====
-- scripts/adversarial_scenarios.py: categories 7 and 8, reading stored data without the key and
-- changing it.
use secure_dynamo_kv_store.Prelude.{
  String, string_eq, nat_eq, false, not, List, [], ◌∷◌, if◌then◌else◌,
}
use secure_dynamo_kv_store.Dict
use secure_dynamo_kv_store.Dict.{Dict}
use secure_dynamo_kv_store.Attack.{
  Context, Result, Json, seed, wrong_key, tamper, read_direct, is_number, is_false,
}
use secure_dynamo_kv_store.Attack.Shell.{Act, ◌>>=◌, pure, Outside, first_token, exec_snippet}

module _ {W : Type 0} (out : Outside W) where
  unfoldable pub wrong_key_results : Dict String Json → List Result
  wrong_key_results answer =
      let prevented = is_false (Dict.get answer "wrong_key_decrypted") in
      record {
        category = "7";
        scenario = "decrypt raw on-disk ciphertext with the wrong key";
        expected = "PREVENTED";
        observed =
            if prevented then "PREVENTED (wrong key raises)" else "SUCCEEDED (leaked plaintext!)";
        prevented = prevented;
        detected = false;
        evidence = out.dumps answer;
        note = "";
      }
      ∷ []

  unfoldable pub scenario_7_read_without_key : Context → Act W (List Result)
  scenario_7_read_without_key ctx = do
    seeded ←
        exec_snippet out "node-1" (seed "crypto-probe-key" (first_token ctx) "top-secret-value") 20
    answer ← exec_snippet out "node-1" (wrong_key "crypto-probe-key") 20
    pure (wrong_key_results answer)

  -- Whatever is not a 200 counts as caught.
  unfoldable pub tamper_results : Dict String Json → List Result
  tamper_results answer =
      let prevented = not (is_number (Dict.get answer "status") 200) in
      record {
        category = "8";
        scenario =
            "flip a byte in stored ciphertext, then read that specific replica directly (its own internal endpoint)";
        expected = "PREVENTED";
        observed =
            if prevented
            then "PREVENTED (tampered read rejected/failed)"
            else "SUCCEEDED (corrupted data accepted!)";
        prevented = prevented;
        detected = false;
        evidence = out.dumps answer;
        note = "";
      }
      ∷ []

  unfoldable pub scenario_8_ciphertext_tampering : Context → Act W (List Result)
  scenario_8_ciphertext_tampering ctx = do
    seeded ← exec_snippet out "node-1" (seed "tamper-probe-key" (first_token ctx) "tamper-me") 20
    tampered ← exec_snippet out "node-1" (tamper "tamper-probe-key") 20
    answer ← exec_snippet out "node-1" (read_direct "tamper-probe-key") 20
    pure (tamper_results answer)
