-- ===== src/Attack.antt =====
-- scripts/adversarial_scenarios.py: what the scenarios are given, what they report, and the
-- programs that they run in the containers of a cluster.
pub mod Shell
pub mod Keeps
pub mod Transport
pub mod Liveness
pub mod Writes
pub mod AtRest
pub mod Bypass
pub mod Audit
pub mod Suite
use secure_dynamo_kv_store.Prelude.{
  ℕ, zero, suc, ◌-◌, String, string_eq, Bool, true, false, not, Option, none, some, List, [], ◌∷◌,
  if◌then◌else◌,
}
use secure_dynamo_kv_store.Prelude.Int.{ℤ, pos, negsuc}
use Prim.Native.String
use Prim.Native.Char.{Char, code}
use secure_dynamo_kv_store.Prelude.Result.{Result as Fallible, ok, raise, key_error, type_error}
use secure_dynamo_kv_store.Dict
use secure_dynamo_kv_store.Dict.{Dict}
use secure_dynamo_kv_store.Ring.{decimal}
use secure_dynamo_kv_store.Auth.{TokenEntry, AuthRequest}
use secure_dynamo_kv_store.App.Text.{is_space, between, is_blank, strip}
use secure_dynamo_kv_store.Prelude.{◌==◌, nat_eq}

pub record Context : Type 0 where
  pub node_ids : List String
  pub public_ports : Dict String ℕ
  pub auth_tokens : Dict String TokenEntry

abbrev pub local_url : Option ℕ → Fallible String
local_url none = raise key_error
local_url (some port) = ok (String.◌++◌ "https://localhost:" (decimal (suc port) port))

unfoldable pub public_url : Context → String → Fallible String
public_url ctx node_id = local_url (Dict.get ctx.public_ports node_id)

-- The outcome of one attack.
pub record Result : Type 0 where
  pub category : String
  pub scenario : String
  pub expected : String
  pub observed : String
  pub prevented : Bool
  pub detected : Bool
  pub evidence : String
  pub note : String

-- A value of a JSON object. Of a list or an object only whether it has items matters.
pub data Json : Type 0 where
  null : Json
  boolean : Bool → Json
  number : ℤ → Json
  text : String → Json
  nested : Bool → String → Json

-- bool(out.get(...))
unfoldable pub truthy : Option Json → Bool
truthy none = false
truthy (some null) = false
truthy (some (boolean b)) = b
truthy (some (number (pos n))) = not (n == 0)
truthy (some (number (negsuc n))) = true
truthy (some (text s)) = not (is_blank s)
truthy (some (nested items s)) = items

-- out.get(...) == n, where True is 1 and False is 0.
unfoldable pub is_number : Option Json → ℕ → Bool
is_number (some (number (pos m))) n = m == n
is_number (some (boolean true)) n = n == 1
is_number (some (boolean false)) n = n == 0
is_number _ n = false

-- out.get(...) == s
unfoldable pub is_text : Option Json → String → Bool
is_text (some (text t)) s = t == s
is_text _ s = false

-- out.get(...) is False
unfoldable pub is_false : Option Json → Bool
is_false (some (boolean b)) = not b
is_false _ = false

-- The programs that `docker compose exec ... python -c` runs, with what is formatted into them.
pub data Snippet : Type 0 where
  no_cert rogue_cert spoofed_gossip health relay public_audit internal_audit truncate_audit :
      Snippet
  spoofed_hint check_hint : (target : String) → Snippet
  timed_put replay forgery forged_delete : (key token : String) → Snippet
  seed : (key token value : String) → Snippet
  wrong_key tamper read_direct : (key : String) → Snippet

-- subprocess.CompletedProcess
pub record Completed : Type 0 where
  pub stdout : String
  pub stderr : String
  pub returncode : ℤ

-- What json.loads makes of a text: an object, another value, or an exception.
pub data Parsed : Type 0 where
  object : Dict String Json → Parsed
  other_value : Parsed
  invalid : Parsed

-- The characters at which `str.splitlines` breaks.
abbrev is_line_break : Char → Bool
is_line_break c =
    if between 10 13 (code c)
    then true
    else if between 28 30 (code c)
    then true
    else if code c == 133
    then true
    else between 8232 8233 (code c)

-- The text after the last line break, if there is one.
unfoldable pub after_break : String → Option String
after_break String.[] = none
after_break (String.◌∷◌ c s) = elim (after_break s) [
  | some rest ↦ some rest
  | none ↦ if is_line_break c then some s else none
]

-- stdout.splitlines()[-1] if stdout else "", of a text that does not end in a line break.
unfoldable pub last_line : String → String
unfolding after_break
last_line s = Dict.or_else (after_break s) s

abbrev size : String → ℕ
size String.[] = 0
size (String.◌∷◌ c s) = suc (size s)

abbrev drop : ℕ → String → String
drop zero s = s
drop (suc n) String.[] = String.[]
drop (suc n) (String.◌∷◌ c s) = drop n s

-- text[-2000:]
unfoldable pub tail_2000 : String → String
tail_2000 s = drop (size s - 2000) s

-- From `stdout` on. An item cannot be assigned in a value that is no object.
unfoldable pub parse_output : (String → Parsed) → Completed → Fallible (Dict String Json)
unfolding last_line tail_2000
parse_output loads proc =
    let stdout = strip proc.stdout in
    elim (loads (last_line stdout)) [
      | object parsed ↦ ok (Dict.put parsed "_returncode" (number proc.returncode))
      | other_value ↦ raise type_error
      | invalid ↦ ok (
          ("parse_error", boolean true)
          ∷ ("stdout", text stdout)
          ∷ ("stderr", text (tail_2000 proc.stderr))
          ∷ ("_returncode", number proc.returncode)
          ∷ [])
    ]
