-- ===== src/Storage/Production.antt =====
-- src/dynamokv/main.py: the backends that a node is built with.
use secure_dynamo_kv_store.Prelude.{
  ◌≡◌, String, string_eq, List, [], ◌==◌, if◌then◌else◌, Bool-cases, inl, inr,
}
use secure_dynamo_kv_store.Storage.{StorageBackend, StorageLaws}
use secure_dynamo_kv_store.Storage.Memory.{memory_storage, memory_storage-laws}
use secure_dynamo_kv_store.Storage.Sqlite.{Json, sqlite_storage, sqlite_storage-laws}
use secure_dynamo_kv_store.Storage.Encrypted.{
  Envelope, Crypto, encrypted_storage, encrypted_storage-laws,
}
use secure_dynamo_kv_store.Storage.Trace.{Call, answers, answers-memory}

module _ {A Text Row Bytes : Type 0} (value_json : Json A Bytes)
    (envelope_json : Json (Envelope Text) Row) (crypto : Crypto Text Bytes) where
  -- The argument is STORAGE_BACKEND.
  unfoldable pub build_storage_from_config : String → StorageBackend A
  build_storage_from_config storage_backend =
      if storage_backend == "memory"
      then memory_storage
      else encrypted_storage value_json crypto (sqlite_storage envelope_json)

  -- Whichever backend the configuration names, it behaves as a map.
  pub build_storage-laws :
      (storage_backend : String) → StorageLaws (build_storage_from_config storage_backend)
  unfolding build_storage_from_config
  build_storage-laws storage_backend = elim (Bool-cases (storage_backend == "memory")) [
    | inl s ↦ rw s memory_storage-laws
    | inr s ↦ rw s (
        encrypted_storage-laws value_json crypto (sqlite_storage envelope_json)
          (sqlite_storage-laws envelope_json))
  ]

  -- For every value of STORAGE_BACKEND, the backend that a node is built with gives every
  -- sequence of calls on a new store the answers that the in-memory dict gives, so encryption and
  -- the database change no answer and none of them raises, provided that what json, base64 and
  -- the cipher have written reads back.
  pub build_storage-answers :
      (storage_backend : String) (calls : List (Call A))
      → answers
          (build_storage_from_config storage_backend)
          (build_storage_from_config storage_backend).init
          calls
        ≡ answers memory_storage [] calls
  build_storage-answers storage_backend calls =
      answers-memory (build_storage_from_config storage_backend)
        (build_storage-laws storage_backend) calls
