-- ===== src/Attack/Bypass/Statuses.antt =====
-- scripts/adversarial_scenarios.py: category 9 against the public routes of src/dynamokv/api/routes.py.
use secure_dynamo_kv_store.Prelude.{
  ℕ, ◌≡◌, refl, ◌⊎◌, inl, inr, suc, ◌≤◌, length, String, string_eq, nat_eq, ◌==◌, true, Option,
  none, some, List, [], ◌∷◌, ◌++◌, map, All, All-append, if◌then◌else◌, Bool-cases, arith, ==_refl,
}
use Prim.Native.String
use secure_dynamo_kv_store.Prelude.Result.{Result as Fallible, ok, raise, http_exception}
use secure_dynamo_kv_store.Dict
use secure_dynamo_kv_store.Dict.{Dict}
use secure_dynamo_kv_store.Storage.{StorageBackend}
use secure_dynamo_kv_store.HintStore.{Blob}
use secure_dynamo_kv_store.Ring.{decimal}
use secure_dynamo_kv_store.Auth.{TokenEntry, AuthRequest, get_auth_context, strip_prefix}
use secure_dynamo_kv_store.Node.Replica.{Node, Stored}
use secure_dynamo_kv_store.Node.Network.{Fate, Cluster}
use secure_dynamo_kv_store.Node.Client.{Schedule}
use secure_dynamo_kv_store.Api.{put_key, get_key}
use secure_dynamo_kv_store.Attack.{Context, Result, Json, public_url}
use secure_dynamo_kv_store.App.Text.{is_blank}
use secure_dynamo_kv_store.Attack.Shell.{Act, Outside, first_token}
use secure_dynamo_kv_store.Attack.Bypass.{
  Attempt, with_header, bearer, readonly_token, attempt_result, try_readonly, try_tokens,
  attempts_at, auth_attempts, scenario_9_auth_bypass,
}
use secure_dynamo_kv_store.Attack.Bypass.Readonly.{probe_key, readonly_token-get, denied_write}

-- The status of the response that an answer becomes.
abbrev pub status_of : {A : Type 0} → Fallible A → ℕ
status_of (ok a) = 200
status_of (raise (http_exception status)) = status
status_of (raise _) = 500

module _ {V : Type 0} (hash : String → ℕ) (sb : StorageBackend (Stored V))
    (hb : StorageBackend (Blob V)) (tokens : Dict String TokenEntry) (node : Node) (value : V)
    (now : ℕ) (reads : Schedule) (hint_net : String → Fate) (writes : Schedule) where
  abbrev with_status : {A : Type 0} → Fallible A × Cluster sb hb → Fallible ℕ × Cluster sb hb
  with_status (r, cl) = (ok (status_of r), cl)

  -- How the node's public port answers requests for the probe's key.
  unfoldable pub serve : AuthRequest → String → Act (Cluster sb hb) ℕ
  serve request url cl =
      if request.method == "PUT"
      then with_status (
          put_key hash sb hb (some tokens) request node probe_key value now reads hint_net writes
            cl)
      else with_status (get_key hash sb hb (some tokens) request node probe_key reads cl)

  serve-denied :
      (request : AuthRequest) (url : String) (status : ℕ) (cl : Cluster sb hb)
      → (get_auth_context (some tokens) request probe_key).answer ≡ raise (http_exception status)
      → serve request url cl ≡ (ok status, cl)
  unfolding serve put_key get_key
  serve-denied request url status cl e = rw e (ground arith)

  -- Unless a status of 200 is expected of it, the attempt has the expected status.
  abbrev AsExpected : Attempt → Type 0
  AsExpected attempt = (attempt.expected ≡ 200) ⊎ (attempt.actual ≡ attempt.expected)

  module _ (out : Outside (Cluster sb hb)) where
    abbrev pub served : Outside (Cluster sb hb)
    served = record out { http = serve }

    serve-answers :
        (request : AuthRequest) (url : String) (cl : Cluster sb hb)
        → (status : ℕ) × (cl' : Cluster sb hb) × (serve request url cl ≡ (ok status, cl'))
    unfolding serve
    serve-answers request url cl =
        let written =
          put_key hash sb hb (some tokens) request node probe_key value now reads hint_net writes
            cl in
        let read = get_key hash sb hb (some tokens) request node probe_key reads cl in
        elim (Bool-cases (request.method == "PUT")) [
          | inl s ↦ (status_of written.0, written.1, rw s)
          | inr s ↦ (status_of read.0, read.1, rw s)
        ]

    readonly-AsExpected :
        (url : String) (o : Option String) (cl : Cluster sb hb)
        → Dict.Distinct tokens
        → ((token : String) (entry : TokenEntry)
            → Dict.get tokens token ≡ some entry
            → Dict.is_some entry.id ≡ true)
        → readonly_token tokens ≡ o
        → (attempts : List Attempt) × (try_readonly served url o cl ≡ (ok attempts, cl))
          × All AsExpected attempts
    readonly-AsExpected url none cl u ids e = ([], refl, tt)
    readonly-AsExpected url (some token) cl u ids e = elim (Bool-cases (is_blank token)) [
      | inl s ↦ ([], rw s, tt)
      | inr s ↦
          let (entry, known, readonly) = readonly_token-get tokens token u e in
          let denied =
            serve-denied (with_header "PUT" (bearer token)) url 403 cl
              (denied_write tokens token entry known readonly (ids token entry known)) in
          (
            record { name = "read-only token attempting write"; actual = 403; expected = 403 } ∷ [],
            rw (s, denied),
            (inr refl, tt),
          )
    ]

    tokens-AsExpected :
        (url : String) (ctx : Context) (entries : Dict String TokenEntry) (cl : Cluster sb hb)
        → Dict.Distinct tokens
        → ((token : String) (entry : TokenEntry)
            → Dict.get tokens token ≡ some entry
            → Dict.is_some entry.id ≡ true)
        → ctx.auth_tokens ≡ tokens
        → (attempts : List Attempt) × (cl' : Cluster sb hb) × (try_tokens served url ctx entries cl
            ≡ (ok attempts, cl'))
          × All AsExpected attempts
    tokens-AsExpected url ctx [] cl u ids same = ([], cl, refl, tt)
    tokens-AsExpected url ctx (e ∷ rest) cl u ids same =
        let (readonly, q, fine) =
          readonly-AsExpected url (readonly_token ctx.auth_tokens) cl u ids (rw same) in
        let valid = with_header "PUT" (bearer (first_token ctx)) in
        let (status, cl', r) = serve-answers valid url cl in
        (
          readonly ++ record { name = "fully valid token"; actual = status; expected = 200 } ∷ [],
          cl',
          rw (q, r),
          All-append AsExpected readonly _ fine (inl refl, tt),
        )

    attempts-AsExpected :
        (url : String) (ctx : Context) (cl : Cluster sb hb)
        → Dict.Distinct tokens
        → ((token : String) (entry : TokenEntry)
            → Dict.get tokens token ≡ some entry
            → Dict.is_some entry.id ≡ true)
        → ctx.auth_tokens ≡ tokens
        → Dict.get tokens "not-a-real-token" ≡ none
        → (attempts : List Attempt) × (cl' : Cluster sb hb) × (attempts_at served ctx url cl
            ≡ (ok attempts, cl'))
          × (3 ≤ length (map (attempt_result out.dumps) attempts))
          × All AsExpected attempts
    unfolding attempts_at get_auth_context strip_prefix
    attempts-AsExpected url ctx cl u ids same unknown =
        let (more, cl', q, fine) = tokens-AsExpected url ctx ctx.auth_tokens cl u ids same in
        let attempt = λ (name : String).
          let a : Attempt = record { name = name; actual = 401; expected = 401 } in a in
        let none_given : AuthRequest = record { method = "GET"; authorization = none } in
        (
          attempt "no Authorization header"
              ∷ attempt "malformed Authorization header"
              ∷ attempt "unknown token"
              ∷ more,
          cl',
          rw (
            serve-denied none_given url 401 cl refl,
            serve-denied (with_header "GET" "not-bearer-format") url 401 cl refl,
            serve-denied (with_header "GET" "Bearer not-a-real-token") url 401 cl (rw unknown),
            q,
          ),
          omega arith,
          (inr refl, (inr refl, (inr refl, fine))),
        )

    results-prevented :
        (dumps : Dict String Json → String) (attempts : List Attempt)
        → All AsExpected attempts
        → All
            (λ r. (r.prevented ≡ true) ⊎ (r.expected ≡ "200"))
            (map (attempt_result dumps) attempts)
    unfolding attempt_result decimal
    results-prevented dumps [] h = tt
    results-prevented dumps (a ∷ attempts) (h, hs) = (
      elim h [ inl e ↦ inr (rw e) | inr e ↦ inl (rw (e, ==_refl a.expected)) ],
      results-prevented dumps attempts hs,
    )

    -- Where a node's public routes answer its requests, category 9 ends without an exception and
    -- reports at least three attempts. Each is prevented, which says that its status is the
    -- expected one, but for the attempt of which 200 is expected. The scenario knows the node's
    -- tokens, which are listed once each and all have an id, "not-a-real-token" is none of them,
    -- and the port of node-1 is known.
    pub scenario_9-prevented :
        (ctx : Context) (port : ℕ) (cl : Cluster sb hb)
        → Dict.Distinct tokens
        → ((token : String) (entry : TokenEntry)
            → Dict.get tokens token ≡ some entry
            → Dict.is_some entry.id ≡ true)
        → ctx.auth_tokens ≡ tokens
        → Dict.get tokens "not-a-real-token" ≡ none
        → Dict.get ctx.public_ports "node-1" ≡ some port
        → (results : List Result) × (cl' : Cluster sb hb) × (scenario_9_auth_bypass served ctx cl
            ≡ (ok results, cl'))
          × (3 ≤ length results)
          × All (λ r. (r.prevented ≡ true) ⊎ (r.expected ≡ "200")) results
    unfolding scenario_9_auth_bypass auth_attempts public_url
    scenario_9-prevented ctx port cl u ids same unknown p =
        let url =
          String.◌++◌ (String.◌++◌ "https://localhost:" (decimal (suc port) port))
            "/v1/keys/auth-probe-key" in
        let (attempts, cl', q, enough, fine) = attempts-AsExpected url ctx cl u ids same unknown in
        (
          map (attempt_result out.dumps) attempts,
          cl',
          rw (p, q),
          enough,
          results-prevented out.dumps attempts fine,
        )
