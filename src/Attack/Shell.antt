-- ===== src/Attack/Shell.antt =====
-- scripts/adversarial_scenarios.py: the actions of a scenario on the world outside, and
-- `exec_snippet`.
use secure_dynamo_kv_store.Prelude.{ℕ, ◌≡◌, String, Option, none, some, [], ◌∷◌}
use secure_dynamo_kv_store.Prelude.Result.{Result as Fallible, ok, raise}
use secure_dynamo_kv_store.Dict.{Dict}
use secure_dynamo_kv_store.Auth.{AuthRequest}
use secure_dynamo_kv_store.Attack.{Context, Json, Snippet, Completed, Parsed, parse_output}

-- What may change the world and may raise.
abbrev pub Act : Type 0 → Type 0 → Type 0
Act W A = W → Fallible A × W

module _ {W : Type 0} where
  infixl 5 ◌>>=◌
  abbrev pub and_then : {A B : Type 0} → Fallible A × W → (A → Act W B) → Fallible B × W
  and_then (raise e, w) k = (raise e, w)
  and_then (ok a, w) k = k a w

  abbrev pub ◌>>=◌ : {A B : Type 0} → Act W A → (A → Act W B) → Act W B
  ◌>>=◌ m k w = and_then (m w) k

  abbrev pub pure : {A : Type 0} → A → Act W A
  pure a w = (ok a, w)

  -- What only looks at the world.
  abbrev pub look : {A : Type 0} → (W → A) → Act W A
  look f w = (ok (f w), w)

  -- What cannot raise.
  abbrev pub effect : (W → W) → Act W (Unit {0})
  effect f w = (ok tt, f w)

  abbrev pub lift : {A : Type 0} → Fallible A → Act W A
  lift r w = (r, w)

  -- try: m finally: cleanup, where the exception of `cleanup` takes the place of any other.
  abbrev pub finally : {A : Type 0} → Act W A → Act W (Unit {0}) → Act W A
  finally m cleanup w =
      let (r, w') = m w in
      let (c, w'') = cleanup w' in elim c [ ok done ↦ (r, w'') | raise e ↦ (raise e, w'') ]

-- What the scripts call: `docker compose exec` and `up`, an HTTP client, the text of the
-- override file beside docker-compose.yml, if it is there, the clock in milliseconds, json, and the formatting of seconds.
pub record Outside (W : Type 0) : Type 0 where
  pub run : String → Snippet → ℕ → Act W Completed
  pub compose_up : Act W (Unit {0})
  pub http : AuthRequest → String → Act W ℕ
  pub override : W → Option String
  pub write_override : String → W → W
  pub unlink_override : W → W
  pub sleep : ℕ → W → W
  pub monotonic : W → ℕ
  pub loads : String → Parsed
  pub dumps : Dict String Json → String
  pub two_decimals : ℕ → String

-- Only the scripts touch the override file.
pub record OutsideLaws {W : Type 0} (out : Outside W) : Type 0 where
  pub override-run :
      (node_id : String) (code : Snippet) (timeout : ℕ) (w : W)
      → out.override (out.run node_id code timeout w).1 ≡ out.override w
  pub override-compose_up : (w : W) → out.override (out.compose_up w).1 ≡ out.override w
  pub override-sleep : (time : ℕ) (w : W) → out.override (out.sleep time w) ≡ out.override w
  pub override-write :
      (text : String) (w : W) → out.override (out.write_override text w) ≡ some text
  pub override-unlink : (w : W) → out.override (out.unlink_override w) ≡ none

-- next(iter(ctx.auth_tokens)) if ctx.auth_tokens else ""
unfoldable pub first_token : Context → String
first_token ctx = elim ctx.auth_tokens [ [] ↦ "" | e ∷ rest ↦ e.0 ]

module _ {W : Type 0} (out : Outside W) where
  -- A program that runs out of time raises.
  unfoldable pub exec_snippet : String → Snippet → ℕ → Act W (Dict String Json)
  exec_snippet node_id code timeout = do
    proc ← out.run node_id code timeout
    lift (parse_output out.loads proc)
