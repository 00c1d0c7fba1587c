-- ===== src/Prelude/Result.antt =====
-- A Python expression that may raise.
use Prim.Native.Nat.{ℕ}
use mathlib.Core.Path.{◌≡◌, refl}

-- The exceptions that the modelled code raises or lets through.
pub data Exn : Type 0 where
  key_error index_error runtime_error type_error invalid_tag decode_error : Exn
  http_error os_error timeout_error client_error : Exn
  -- fastapi.HTTPException with its status code
  http_exception : ℕ → Exn

pub data Result {ℓ} (A : Type ℓ) : Type ℓ where
  ok : A → Result A
  raise : Exn → Result A

infixl 5 ◌>>=◌
abbrev pub ◌>>=◌ {ℓ κ} : {C : Type κ} {A : Type ℓ} → Result A → (A → Result C) → Result C
raise e >>= next = raise e
ok a >>= next = next a

pub >>=-eq-ok {ℓ κ} :
    {C : Type κ} {A : Type ℓ} (run : Result A) (next : A → Result C) {c : C}
    → run >>= next ≡ ok c
    → (a : A) × (run ≡ ok a) × (next a ≡ ok c)
>>=-eq-ok (raise e) next h = cc
>>=-eq-ok (ok a) next h = (a, refl, h)
