-- ===== src/Storage/Memory.antt =====
-- src/dynamokv/storage/memory.py: the in-process dict.
use secure_dynamo_kv_store.Prelude.{◌≡◌, refl, String, Bool, Option, none, string_eq, []}
use secure_dynamo_kv_store.Prelude.Result.{Result, ok}
use secure_dynamo_kv_store.Dict
use secure_dynamo_kv_store.Dict.{Dict}
use secure_dynamo_kv_store.Storage.{StorageBackend, StorageLaws}

module _ {A : Type 0} where
  -- The state is `_data`.
  abbrev pub memory_get : Dict String A → String → Result (Option A)
  memory_get s key = ok (Dict.get s key)

  abbrev pub memory_put : Dict String A → String → A → Dict String A
  memory_put s key value = Dict.put s key value

  abbrev pub memory_delete : Dict String A → String → Dict String A × Bool
  memory_delete s key = let existed = Dict.contains s key in (Dict.remove s key, existed)

  abbrev pub memory_exists : Dict String A → String → Bool
  memory_exists s key = Dict.contains s key

  abbrev pub memory_storage : StorageBackend A
  memory_storage = record {
    State = Dict String A;
    init = [];
    get = memory_get;
    put = memory_put;
    delete = memory_delete;
    exists = memory_exists;
  }

  memory_init-view : (k : String) → Dict.get {V = A} [] k ≡ none
  unfolding Dict.get
  memory_init-view k = refl

  -- The in-process dict is a map, in every state.
  pub memory_storage-laws : StorageLaws memory_storage
  memory_storage-laws = record {
    IsValid = λ s. Unit;
    view = Dict.get;
    init-IsValid = tt;
    init-view = memory_init-view;
    get-view = λ s k v. refl;
    exists-view = λ s k v. refl;
    put-IsValid = λ s k v w. tt;
    put-view = λ s k j v w. Dict.get-put s k j v;
    delete-IsValid = λ s k v. tt;
    delete-view = λ s k j v. Dict.get-remove s k j;
    delete-existed = λ s k v. refl;
  }

  pub memory_storage-IsValid : (s : Dict String A) → memory_storage-laws.IsValid s
  unfolding memory_storage-laws
  memory_storage-IsValid s = tt
