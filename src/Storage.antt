-- ===== src/Storage.antt =====
-- src/dynamokv/storage/base.py: the interface of a storage backend, and the laws that its clients
-- rely on. The values are of one type `A`, which has no `None`: the store only puts lists and dicts.
pub mod Memory
pub mod Trace
pub mod Sqlite
pub mod Encrypted
pub mod Production
pub mod KeyFile
use secure_dynamo_kv_store.Prelude.{
  ◌≡◌, String, Bool, true, false, Option, none, some, ◌==◌, string_eq, if◌then◌else◌,
}
use secure_dynamo_kv_store.Prelude.Result.{Result, ok}
use secure_dynamo_kv_store.Dict.{is_some}

-- `get` may raise, where the stored text cannot be read back.
pub record StorageBackend (A : Type 0) : Type 1 where
  pub State : Type 0
  pub init : State
  pub get : State → String → Result (Option A)
  pub put : State → String → A → State
  pub delete : State → String → State × Bool
  pub exists : State → String → Bool

-- A backend behaves as a map from keys to values, on the states that its own operations reach.
pub record StorageLaws {A : Type 0} (b : StorageBackend A) : Type 1 where
  pub IsValid : b.State → Type 0
  pub view : b.State → String → Option A
  pub init-IsValid : IsValid b.init
  pub init-view : (k : String) → view b.init k ≡ none
  pub get-view : (s : b.State) (k : String) → IsValid s → b.get s k ≡ ok (view s k)
  pub exists-view : (s : b.State) (k : String) → IsValid s → b.exists s k ≡ is_some (view s k)
  pub put-IsValid : (s : b.State) (k : String) (v : A) → IsValid s → IsValid (b.put s k v)
  pub put-view :
      (s : b.State) (k j : String) (v : A)
      → IsValid s
      → view (b.put s k v) j ≡ (if k == j then some v else view s j)
  pub delete-IsValid : (s : b.State) (k : String) → IsValid s → IsValid (b.delete s k).0
  pub delete-view :
      (s : b.State) (k j : String)
      → IsValid s
      → view (b.delete s k).0 j ≡ (if k == j then none else view s j)
  pub delete-existed :
      (s : b.State) (k : String) → IsValid s → (b.delete s k).1 ≡ is_some (view s k)
