-- ===== src/Auth/Grants.antt =====
-- src/dynamokv/auth.py: `get_auth_context` and what a token grants.
use secure_dynamo_kv_store.Prelude.{
  ◌≡◌, refl, ap, ◌∙◌, ◌↔◌, inl, inr, String, string_eq, nat_eq, ◌==◌, Bool, true, false, Option,
  none, some, [], any-true, any_of_In, In, Bool-cases, eq_of_==, ==_refl, subst,
}
use Prim.Native.String
use Prim.Native.Char.{code}
use text.Mathlib.TextEquality.{Char-path}
use text.Mathlib.TextLemmas.{nil-append, cons-append}
use secure_dynamo_kv_store.Prelude.Result.{ok, >>=-eq-ok}
use secure_dynamo_kv_store.Dict
use secure_dynamo_kv_store.Dict.{Dict}
use secure_dynamo_kv_store.Auth.{
  TokenEntry, AuthContext, AuthRequest, method_to_verb, namespace_for_key, strip_prefix, required,
  allowed_verbs, admitted, authorize, identified, recognized, with_token, get_auth_context,
}

pub strip_prefix-append : (p s : String) → strip_prefix p (String.◌++◌ p s) ≡ some s
unfolding strip_prefix
strip_prefix-append String.[] s = rw (nil-append, strip_prefix)
strip_prefix-append (String.◌∷◌ c p) s =
    rw (cons-append, strip_prefix, ==_refl (code c), strip_prefix-append p s)

strip_prefix-some : (p s t : String) → strip_prefix p s ≡ some t → s ≡ String.◌++◌ p t
unfolding strip_prefix
strip_prefix-some String.[] s t e = rw nil-append (let same : s ≡ t = cc in same)
strip_prefix-some (String.◌∷◌ c p) String.[] t e = cc
strip_prefix-some (String.◌∷◌ c p) (String.◌∷◌ d s) t e = elim (Bool-cases (code c == code d)) [
  | inl q ↦
      let f : strip_prefix p s ≡ some t = rw q at e in
      let same : c ≡ d = Char-path c d (eq_of_== (code c) (code d) q) in
      let rest : s ≡ String.◌++◌ p t = strip_prefix-some p s t f in
      rw cons-append (let joined : String.◌∷◌ d s ≡ String.◌∷◌ c (String.◌++◌ p t) = cc in joined)
  | inr q ↦ let no : none ≡ some t = rw q at e in cc
]

-- The token that the header bears, its entry, and the verb that the entry grants.
pub record Grants (tokens : Dict String TokenEntry) (request : AuthRequest) (key : String)
    (context : AuthContext) : Type 0 where
  pub token : String
  pub bears : Dict.or_else request.authorization "" ≡ String.◌++◌ "Bearer " token
  pub entry : TokenEntry
  pub known : Dict.get tokens token ≡ some entry
  pub identity : entry.id ≡ some context.client_id
  pub namespaces : entry.namespaces ≡ some context.namespaces
  pub verb : String
  pub method : Dict.get method_to_verb request.method ≡ some verb
  pub allowed : In verb (Dict.get_or context.namespaces (namespace_for_key key) [])

required-ok : {A : Type 0} (o : Option A) (a : A) → required o ≡ ok a → o ≡ some a
required-ok none a e = cc
required-ok (some b) a e = let f : b ≡ a = cc in ap some f

admitted-ok :
    (entry : TokenEntry) (client_id : String) (b : Bool) (context : AuthContext)
    → admitted entry client_id b ≡ ok context
    → (b ≡ true) × (entry.namespaces ≡ some context.namespaces) × (client_id ≡ context.client_id)
admitted-ok entry client_id false context e = cc
admitted-ok entry client_id true context e =
    let (ns, f, g) = >>=-eq-ok (required entry.namespaces) _ e in
    let h : record { client_id = client_id; namespaces = ns } ≡ context = cc in
    (
      refl,
      required-ok entry.namespaces ns f ∙ ap (λ (c : AuthContext). some c.namespaces) h,
      ap (λ (c : AuthContext). c.client_id) h,
    )

authorize-Grants :
    (tokens : Dict String TokenEntry) (request : AuthRequest) (key token : String)
    (entry : TokenEntry) (client_id : String) (context : AuthContext)
    → Dict.or_else request.authorization "" ≡ String.◌++◌ "Bearer " token
    → Dict.get tokens token ≡ some entry
    → entry.id ≡ some client_id
    → authorize entry client_id request.method key ≡ ok context
    → Grants tokens request key context
unfolding authorize allowed_verbs
authorize-Grants tokens request key token entry client_id context bears known i e =
    let (verb, f, g) = >>=-eq-ok (required (Dict.get method_to_verb request.method)) _ e in
    let (granted, ns, same) = admitted-ok entry client_id _ context g in
    let (v, m, q) =
      any-true (λ v. v == verb) (allowed_verbs entry (namespace_for_key key)) granted in
    record {
      token = token;
      bears = bears;
      entry = entry;
      known = known;
      identity = i ∙ ap some same;
      namespaces = ns;
      verb = verb;
      method = required-ok (Dict.get method_to_verb request.method) verb f;
      allowed =
          rw ns at
            (subst (λ x. In x (allowed_verbs entry (namespace_for_key key))) (eq_of_== v verb q) m);
    }

identified-Grants :
    (tokens : Dict String TokenEntry) (request : AuthRequest) (key token : String)
    (entry : TokenEntry) (o : Option String) (context : AuthContext)
    → Dict.or_else request.authorization "" ≡ String.◌++◌ "Bearer " token
    → Dict.get tokens token ≡ some entry
    → entry.id ≡ o
    → (identified entry request.method key o).answer ≡ ok context
    → Grants tokens request key context
identified-Grants tokens request key token entry none context bears known i e = cc
identified-Grants tokens request key token entry (some client_id) context bears known i e =
    authorize-Grants tokens request key token entry client_id context bears known i e

recognized-Grants :
    (tokens : Dict String TokenEntry) (request : AuthRequest) (key token : String)
    (o : Option TokenEntry) (context : AuthContext)
    → Dict.or_else request.authorization "" ≡ String.◌++◌ "Bearer " token
    → Dict.get tokens token ≡ o
    → (recognized request.method key o).answer ≡ ok context
    → Grants tokens request key context
recognized-Grants tokens request key token none context bears known e = cc
recognized-Grants tokens request key token (some entry) context bears known e =
    identified-Grants tokens request key token entry entry.id context bears known refl e

with_token-Grants :
    (tokens : Dict String TokenEntry) (request : AuthRequest) (key : String) (o : Option String)
    (context : AuthContext)
    → strip_prefix "Bearer " (Dict.or_else request.authorization "") ≡ o
    → (with_token tokens request.method key o).answer ≡ ok context
    → Grants tokens request key context
with_token-Grants tokens request key none context s e = cc
with_token-Grants tokens request key (some token) context s e =
    recognized-Grants tokens request key token (Dict.get tokens token) context
      (strip_prefix-some "Bearer " (Dict.or_else request.authorization "") token s) refl e

granted-ok :
    (tokens : Dict String TokenEntry) (request : AuthRequest) (key : String) (context : AuthContext)
    → Grants tokens request key context
    → (get_auth_context (some tokens) request key).answer ≡ ok context
unfolding get_auth_context authorize allowed_verbs
granted-ok tokens request key context g = rw (
  g.bears,
  strip_prefix-append,
  g.known,
  g.identity,
  g.method,
  g.namespaces,
  any_of_In (λ v. v == g.verb) (Dict.get_or context.namespaces (namespace_for_key key) []) g.allowed
      (==_refl g.verb),
)

-- Where tokens are configured, `get_auth_context` returns a context exactly if the header is
-- "Bearer " and a known token whose entry has the context's client id and namespaces, and the
-- namespaces allow the verb of the method on the namespace of the key.
pub get_auth_context_iff :
    (tokens : Dict String TokenEntry) (request : AuthRequest) (key : String) (context : AuthContext)
    → ((get_auth_context (some tokens) request key).answer ≡ ok context)
      ↔ Grants tokens request key context
unfolding get_auth_context
get_auth_context_iff tokens request key context = (
  λ e.
      with_token-Grants tokens request key
        (strip_prefix "Bearer " (Dict.or_else request.authorization "")) context refl e,
  granted-ok tokens request key context,
)
