-- ===== src/Attack/Bypass.antt =====
-- scripts/adversarial_scenarios.py: category 9, requests without the permission they need.
pub mod Readonly
pub mod Statuses
use secure_dynamo_kv_store.Prelude.{
  ℕ, String, string_eq, nat_eq, Bool, true, false, not, ◌&&◌, List, [], ◌∷◌, ◌++◌, ◌==◌, suc,
  Option, none, some, all, any, map, if◌then◌else◌,
}
use Prim.Native.String
use secure_dynamo_kv_store.Dict
use secure_dynamo_kv_store.Dict.{Dict}
use secure_dynamo_kv_store.Prelude.Int.{pos}
use secure_dynamo_kv_store.Ring.{decimal}
use secure_dynamo_kv_store.Auth.{TokenEntry, AuthRequest}
use secure_dynamo_kv_store.App.Text.{is_blank}
use secure_dynamo_kv_store.Attack.{Context, Result, Json, number, public_url}
use secure_dynamo_kv_store.Attack.Shell.{Act, ◌>>=◌, pure, lift, Outside, first_token}

-- The name of a request, the status of its answer, and the status that is expected.
pub record Attempt : Type 0 where
  pub name : String
  pub actual : ℕ
  pub expected : ℕ

abbrev pub with_header : String → String → AuthRequest
with_header method header = record { method = method; authorization = some header }

abbrev pub bearer : String → String
bearer token = String.◌++◌ "Bearer " token

-- all("write" not in verbs for verbs in entry.get("namespaces", {}).values())
unfoldable pub is_readonly : TokenEntry → Bool
is_readonly entry = all (λ e. not (any (λ v. v == "write") e.1)) (Dict.or_else entry.namespaces [])

-- The first token that may write nowhere.
unfoldable pub readonly_token : Dict String TokenEntry → Option String
readonly_token [] = none
readonly_token ((tok, entry) ∷ rest) = if is_readonly entry then some tok else readonly_token rest

-- An attempt counts as prevented where its status is the expected one.
unfoldable pub attempt_result : (Dict String Json → String) → Attempt → Result
attempt_result dumps attempt =
    let matches = attempt.actual == attempt.expected in
    record {
      category = "9";
      scenario = String.◌++◌ "auth bypass attempt -- " attempt.name;
      expected = decimal (suc attempt.expected) attempt.expected;
      observed = decimal (suc attempt.actual) attempt.actual;
      prevented = matches;
      detected = matches;
      evidence = dumps (("status", number (pos attempt.actual)) ∷ []);
      note = "";
    }

module _ {W : Type 0} (out : Outside W) where
  abbrev try_request : String → ℕ → AuthRequest → String → Act W Attempt
  try_request name expected request url = do
    status ← out.http request url
    pure (record { name = name; actual = status; expected = expected })

  -- if readonly_token: the empty token is as good as none.
  abbrev pub try_readonly : String → Option String → Act W (List Attempt)
  try_readonly url none = pure []
  try_readonly url (some token) = if is_blank token then pure [] else (do
    attempt ←
        try_request "read-only token attempting write" 403 (with_header "PUT" (bearer token)) url
    pure (attempt ∷ []))

  abbrev pub try_tokens : String → Context → Dict String TokenEntry → Act W (List Attempt)
  try_tokens url ctx [] = pure []
  try_tokens url ctx (e ∷ rest) = do
    readonly ← try_readonly url (readonly_token ctx.auth_tokens)
    valid ← try_request "fully valid token" 200 (with_header "PUT" (bearer (first_token ctx))) url
    pure (readonly ++ valid ∷ [])

  unfoldable pub attempts_at : Context → String → Act W (List Attempt)
  attempts_at ctx url = do
    missing ←
        try_request "no Authorization header" 401 (record { method = "GET"; authorization = none })
          url
    malformed ←
        try_request "malformed Authorization header" 401 (with_header "GET" "not-bearer-format") url
    unknown ← try_request "unknown token" 401 (with_header "GET" "Bearer not-a-real-token") url
    more ← try_tokens url ctx ctx.auth_tokens
    pure (missing ∷ malformed ∷ unknown ∷ more)

  unfoldable pub auth_attempts : Context → Act W (List Attempt)
  auth_attempts ctx = do
    base ← lift (public_url ctx "node-1")
    attempts_at ctx (String.◌++◌ base "/v1/keys/auth-probe-key")

  unfoldable pub scenario_9_auth_bypass : Context → Act W (List Result)
  scenario_9_auth_bypass ctx = do
    attempts ← auth_attempts ctx
    pure (map (attempt_result out.dumps) attempts)
