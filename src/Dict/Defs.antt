-- ===== src/Dict/Defs.antt =====
-- The operations of a Python `dict` that the store uses. Assigning to a key that is there keeps its
-- place, a new key goes last, `del` and `pop` take the key out: so iteration is in insertion order.
use secure_dynamo_kv_store.Prelude.{
  Bool, true, false, Option, none, some, List, [], ◌∷◌, map, Eq, ◌==◌, if◌then◌else◌,
}

abbrev pub Dict {ℓ κ} : Type ℓ → Type κ → Type (ℓ ⊔ κ)
Dict K V = List (K × V)

abbrev pub empty {ℓ κ} : {K : Type ℓ} {V : Type κ} → Dict K V
empty = []

abbrev pub is_some {ℓ} : {A : Type ℓ} → Option A → Bool
is_some none = false
is_some (some a) = true

abbrev pub or_else {ℓ} : {A : Type ℓ} → Option A → A → A
or_else none d = d
or_else (some a) d = a

module _ {ℓ κ} {K : Type ℓ} {V : Type κ} where
  -- list(d)
  abbrev pub keys : Dict K V → List K
  keys = map (λ e. e.0)

module _ {ℓ κ} {K : Type ℓ} {V : Type κ} ⦃e : Eq K⦄ where
  -- d.get(k)
  unfoldable pub get : Dict K V → K → Option V
  get [] k = none
  get ((j, v) ∷ d) k = if j == k then some v else get d k

  -- d.get(k, default)
  abbrev pub get_or : Dict K V → K → V → V
  get_or d k default = or_else (get d k) default

  -- k in d
  abbrev pub contains : Dict K V → K → Bool
  contains d k = is_some (get d k)

  -- d[k] = v
  unfoldable pub put : Dict K V → K → V → Dict K V
  put [] k v = (k, v) ∷ []
  put ((j, w) ∷ d) k v = let rest = put d k v in if j == k then (j, v) ∷ d else (j, w) ∷ rest

  -- d.pop(k, None), and del d[k] where the key is there
  unfoldable pub remove : Dict K V → K → Dict K V
  remove [] k = []
  remove ((j, w) ∷ d) k = let rest = remove d k in if j == k then rest else (j, w) ∷ rest
