-- ===== src/Attack/Audit.antt =====
-- scripts/adversarial_scenarios.py: category 10, the audit logs after the other attacks.
use secure_dynamo_kv_store.Prelude.{
  String, string_eq, nat_eq, Bool, false, List, [], ◌∷◌, Option, none, some, if◌then◌else◌,
}
use Prim.Native.String
use secure_dynamo_kv_store.Dict
use secure_dynamo_kv_store.Dict.{Dict}
use secure_dynamo_kv_store.Prelude.{ltb}
use secure_dynamo_kv_store.Prelude.Int.{pos, negsuc}
use secure_dynamo_kv_store.Prelude.Result.{Result as Fallible, ok, raise, type_error}
use secure_dynamo_kv_store.Attack.{
  Context, Result, Json, boolean, number, public_audit, internal_audit, truncate_audit, truthy,
}
use secure_dynamo_kv_store.Attack.Shell.{Act, ◌>>=◌, pure, lift, Outside, exec_snippet}

-- check.get("internal_entries", 0) > 0
unfoldable pub has_entries : Option Json → Fallible Bool
has_entries none = ok false
has_entries (some (number (pos n))) = ok (ltb 0 n)
has_entries (some (number (negsuc n))) = ok false
has_entries (some (boolean b)) = ok b
has_entries (some _) = raise type_error

module _ {W : Type 0} (out : Outside W) (show : Json → String)
    (evidence_of : Dict String Json → Dict String Json → String) where
  unfoldable pub trail_result : Dict String Json → Dict String Json → Bool → Result
  trail_result public internal has_internal_trail = record {
    category = "10a";
    scenario = "internal-port attacks (categories 2/3/5/6) are captured in an audit trail";
    expected = "FIXED this phase (audit middleware attached to the internal app)";
    observed =
        if has_internal_trail
        then String.◌++◌ "internal audit log has " (
            String.◌++◌ (show (Dict.get_or internal "internal_entries" (number (pos 0))))
              " entries")
        else "internal audit log is empty or missing";
    prevented = false;
    detected = has_internal_trail;
    evidence = evidence_of public internal;
    note = "";
  }

  unfoldable pub truncation_result : Dict String Json → Result
  truncation_result answer = record {
    category = "10b";
    scenario = "a compromised node truncates/edits its own local audit log with no integrity check";
    expected = "UNDEFENDED";
    observed =
        if truthy (Dict.get answer "truncated")
        then "UNDEFENDED (truncation succeeded, no error/alarm)"
        else "no log file present to tamper with";
    prevented = false;
    detected = false;
    evidence = out.dumps answer;
    note =
        "Tamper-evident logging (hash chaining or signing) is Phase 9-adjacent structured-logging territory, not attempted here.";
  }

  unfoldable pub scenario_10_audit_blind_spot : Context → Act W (List Result)
  scenario_10_audit_blind_spot ctx = do
    check_public ← exec_snippet out "node-1" public_audit 20
    check_internal ← exec_snippet out "node-1" internal_audit 20
    has_internal_trail ← lift (has_entries (Dict.get check_internal "internal_entries"))
    answer ← exec_snippet out "node-1" truncate_audit 20
    pure (
        trail_result check_public check_internal has_internal_trail ∷ truncation_result answer ∷ [])
