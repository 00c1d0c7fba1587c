-- ===== src/Attack/Bypass/Readonly.antt =====
-- scripts/adversarial_scenarios.py: the token that category 9 takes for a readonly one, against
-- src/dynamokv/auth.py.
use secure_dynamo_kv_store.Prelude.{
  ◌≡◌, refl, inl, inr, String, string_eq, nat_eq, ◌==◌, true, false, not, Option, none, some, List,
  [], ◌∷◌, all, any, Bool-cases, arith, eq_of_==, ==_refl, sym, ◌∙◌,
}
use secure_dynamo_kv_store.Prelude.Result.{raise, http_exception}
use secure_dynamo_kv_store.Dict
use secure_dynamo_kv_store.Dict.{Dict}
use secure_dynamo_kv_store.Auth.{
  TokenEntry, get_auth_context, identified, allowed_verbs, authorize, namespace_for_key,
}
use secure_dynamo_kv_store.Auth.Grants.{strip_prefix-append}
use secure_dynamo_kv_store.Attack.Bypass.{with_header, bearer, is_readonly, readonly_token}

abbrev pub probe_key : String
probe_key = "auth-probe-key"

-- A readonly token of a dict has an entry that may write nowhere.
pub readonly_token-get :
    (tokens : Dict String TokenEntry) (token : String)
    → Dict.Distinct tokens
    → readonly_token tokens ≡ some token
    → (entry : TokenEntry) × (Dict.get tokens token ≡ some entry) × (is_readonly entry ≡ true)
unfolding readonly_token Dict.get
readonly_token-get [] token u e = cc
readonly_token-get ((tok, entry) ∷ rest) token u e = elim (Bool-cases (is_readonly entry)) [
  | inl s ↦
      let same : some tok ≡ some token = rw s at e in
      let eq : tok ≡ token = cc in (entry, rw (eq, ==_refl token), s)
  | inr s ↦
      let later : readonly_token rest ≡ some token = rw s at e in
      let (found, g, h) = readonly_token-get rest token u.1 later in
      elim (Bool-cases (tok == token)) [
        | inl q ↦
            let gone : Dict.get rest token ≡ none = rw (eq_of_== tok token q) at u.0 in
            let clash : some found ≡ none = sym g ∙ gone in cc
        | inr q ↦ (found, rw q g, h)
      ]
]

no_write :
    (namespaces : Dict String (List String)) (namespace : String)
    → all (λ e. not (any (λ v. v == "write") e.1)) namespaces ≡ true
    → any (λ v. v == "write") (Dict.get_or namespaces namespace []) ≡ false
unfolding all any Dict.get
no_write [] namespace h = refl
no_write ((name, verbs) ∷ rest) namespace h = elim (Bool-cases (name == namespace)) [
  | inl q ↦ rw q (ground arith)
  | inr q ↦ rw q (no_write rest namespace (ground arith))
]

-- The entry does not list "write" for any namespace.
readonly-verbs :
    (entry : TokenEntry) (namespace : String)
    → is_readonly entry ≡ true
    → any (λ v. v == "write") (allowed_verbs entry namespace) ≡ false
unfolding is_readonly allowed_verbs
readonly-verbs entry namespace h = no_write (Dict.or_else entry.namespaces []) namespace h

identified-denied :
    (entry : TokenEntry) (o : Option String)
    → is_readonly entry ≡ true
    → Dict.is_some o ≡ true
    → (identified entry "PUT" probe_key o).answer ≡ raise (http_exception 403)
unfolding authorize Dict.get
identified-denied entry none readonly id = cc
identified-denied entry (some client_id) readonly id =
    rw (readonly-verbs entry (namespace_for_key probe_key) readonly)

pub denied_write :
    (tokens : Dict String TokenEntry) (token : String) (entry : TokenEntry)
    → Dict.get tokens token ≡ some entry
    → is_readonly entry ≡ true
    → Dict.is_some entry.id ≡ true
    → (get_auth_context (some tokens) (with_header "PUT" (bearer token)) probe_key).answer
      ≡ raise (http_exception 403)
unfolding get_auth_context
denied_write tokens token entry known readonly id =
    rw (strip_prefix-append "Bearer " token, known) (identified-denied entry entry.id readonly id)
