-- ===== src/Auth/Namespaces.antt =====
-- src/dynamokv/auth.py: `namespace_for_key`.
use secure_dynamo_kv_store.Prelude.{◌≡◌, refl, String, nat_eq, false, none, some}
use Prim.Native.String
use text.Mathlib.TextLemmas.{nil-append, cons-append}
use secure_dynamo_kv_store.Auth.{is_colon, before_colon, namespace_for_key}

-- No character of the text is a colon.
abbrev pub HasNoColon : String → Type 0
HasNoColon String.[] = Unit
HasNoColon (String.◌∷◌ c s) = (is_colon c ≡ false) × HasNoColon s

before_colon-append :
    (namespace rest : String)
    → HasNoColon namespace
    → before_colon (String.◌++◌ namespace (String.◌++◌ ":" rest)) ≡ some namespace
unfolding before_colon
before_colon-append String.[] rest h = rw (nil-append, cons-append, before_colon)
before_colon-append (String.◌∷◌ c s) rest h =
    rw (cons-append, before_colon, h.0, before_colon-append s rest h.1)

before_colon-none : (key : String) → HasNoColon key → before_colon key ≡ none
unfolding before_colon
before_colon-none String.[] h = refl
before_colon-none (String.◌∷◌ c s) h = rw (h.0, before_colon-none s h.1)

-- For a text without a colon, the namespace of a key that has it before a colon is that text, and
-- as a key of its own it has the namespace "default".
pub namespace_for_key_lem :
    (namespace rest : String)
    → HasNoColon namespace
    → (namespace_for_key (String.◌++◌ namespace (String.◌++◌ ":" rest)) ≡ namespace)
      × (namespace_for_key namespace ≡ "default")
unfolding namespace_for_key
namespace_for_key_lem namespace rest h =
    (rw (before_colon-append namespace rest h), rw (before_colon-none namespace h))
