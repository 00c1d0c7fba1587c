-- ===== src/Auth.antt =====
-- src/dynamokv/auth.py: bearer tokens with permissions for namespaces of keys.
pub mod Grants
pub mod Namespaces
use secure_dynamo_kv_store.Prelude.{
  ℕ, String, string_eq, nat_eq, Bool, true, false, Option, none, some, List, [], ◌∷◌, any, ◌==◌,
  if◌then◌else◌,
}
use Prim.Native.String
use Prim.Native.Char.{Char, code}
use secure_dynamo_kv_store.Prelude.Result.{Result, ok, raise, ◌>>=◌, key_error, http_exception}
use secure_dynamo_kv_store.Dict
use secure_dynamo_kv_store.Dict.{Dict}

-- What the token file says of a token. A field that it leaves out is `none`.
pub record TokenEntry : Type 0 where
  pub id : Option String
  pub namespaces : Option (Dict String (List String))

pub record AuthContext : Type 0 where
  pub client_id : String
  pub namespaces : Dict String (List String)

-- The parts of a request that are read: the method and the authorization header, if there is one.
pub record AuthRequest : Type 0 where
  pub method : String
  pub authorization : Option String

-- What is left: the client id on the request's state, if one was put there, and the outcome.
pub record AuthRun : Type 0 where
  pub client_id : Option String
  pub answer : Result AuthContext

-- `read_text` reads the file at a path, `loads` is json.loads.
unfoldable pub load_auth_tokens :
    (String → Result String)
    → (String → Result (Dict String TokenEntry))
    → String
    → Result (Dict String TokenEntry)
load_auth_tokens read_text loads path = if path == "" then ok [] else read_text path >>= loads

-- _METHOD_TO_VERB
abbrev pub method_to_verb : Dict String String
method_to_verb = ("PUT", "write") ∷ ("GET", "read") ∷ ("DELETE", "delete") ∷ []

abbrev pub is_colon : Char → Bool
is_colon c = code c == 58

-- The text before the first colon, if there is one.
unfoldable pub before_colon : String → Option String
before_colon String.[] = none
before_colon (String.◌∷◌ c s) =
    let rest = before_colon s in
    if is_colon c
    then some String.[]
    else elim rest [ none ↦ none | some t ↦ some (String.◌∷◌ c t) ]

unfoldable pub namespace_for_key : String → String
unfolding before_colon
namespace_for_key key = Dict.or_else (before_colon key) "default"

-- text[len(prefix):] if text.startswith(prefix)
unfoldable pub strip_prefix : String → String → Option String
strip_prefix String.[] s = some s
strip_prefix (String.◌∷◌ c p) String.[] = none
strip_prefix (String.◌∷◌ c p) (String.◌∷◌ d s) =
    let rest = strip_prefix p s in if code c == code d then rest else none

abbrev pub anonymous : AuthContext
anonymous = record { client_id = "anonymous"; namespaces = [] }

abbrev pub denied : String → ℕ → AuthRun
denied client_id status = record {
  client_id = some client_id;
  answer = raise (http_exception status);
}

abbrev pub required : {A : Type 0} → Option A → Result A
required none = raise key_error
required (some a) = ok a

-- entry.get("namespaces", {}).get(namespace, [])
unfoldable pub allowed_verbs : TokenEntry → String → List String
allowed_verbs entry namespace = Dict.get_or (Dict.or_else entry.namespaces []) namespace []

abbrev pub admitted : TokenEntry → String → Bool → Result AuthContext
admitted entry client_id false = raise (http_exception 403)
admitted entry client_id true = do
  namespaces ← required entry.namespaces
  ok (record { client_id = client_id; namespaces = namespaces })

-- From the namespace on.
unfoldable pub authorize : TokenEntry → String → String → String → Result AuthContext
authorize entry client_id method key = do
  verb ← required (Dict.get method_to_verb method)
  admitted entry client_id (any (λ v. v == verb) (allowed_verbs entry (namespace_for_key key)))

-- entry["id"] raises before anything is put on the state.
abbrev pub identified : TokenEntry → String → String → Option String → AuthRun
identified entry method key none = record { client_id = none; answer = raise key_error }
identified entry method key (some client_id) = record {
  client_id = some client_id;
  answer = authorize entry client_id method key;
}

abbrev pub recognized : String → String → Option TokenEntry → AuthRun
recognized method key none = denied "invalid" 401
recognized method key (some entry) = identified entry method key entry.id

abbrev pub with_token : Dict String TokenEntry → String → String → Option String → AuthRun
with_token tokens method key none = denied "anonymous" 401
with_token tokens method key (some token) = recognized method key (Dict.get tokens token)

unfoldable pub get_auth_context : Option (Dict String TokenEntry) → AuthRequest → String → AuthRun
get_auth_context none request key = record { client_id = some "anonymous"; answer = ok anonymous }
get_auth_context (some tokens) request key =
    with_token tokens request.method key
      (strip_prefix "Bearer " (Dict.or_else request.authorization ""))
