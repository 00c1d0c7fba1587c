-- ===== src/Tests/Backends.antt =====
-- Stores with identity functions for JSON and base64, and a cipher that adds the nonce.
use secure_dynamo_kv_store.Prelude.{
  ℕ, ◌+◌, ◌-◌, ◌≡◌, refl, String, string_eq, ◌==◌, if◌then◌else◌, ◌&&◌, List, [], ◌∷◌, arith,
}
use secure_dynamo_kv_store.Prelude.Int.{pos}
use secure_dynamo_kv_store.Prelude.Result.{ok}
use secure_dynamo_kv_store.VectorClock.{Version, reconcile}
use secure_dynamo_kv_store.HintStore
use secure_dynamo_kv_store.HintStore.{Blob, Pending, pending_for, clear_key, has_pending}
use secure_dynamo_kv_store.HintStore.Laws.{hints, hints-add, hints-clear_key}
use secure_dynamo_kv_store.Storage.{StorageBackend}
use secure_dynamo_kv_store.Storage.Memory.{
  memory_storage, memory_storage-laws, memory_storage-IsValid,
}
use secure_dynamo_kv_store.Storage.Sqlite.{Json}
use secure_dynamo_kv_store.Storage.Encrypted.{Crypto}
use secure_dynamo_kv_store.Storage.Trace.{Call, get, put, delete, exists, answers}
use secure_dynamo_kv_store.Storage.Production.{build_storage_from_config, build_storage-answers}

abbrev plain_json : {A : Type 0} → Json A A
plain_json = record { dumps = λ v. v; loads = ok; loads-dumps = λ v. refl }

decrypted_again : (nonce plaintext : ℕ) → (plaintext + nonce) - nonce ≡ plaintext
decrypted_again nonce plaintext = omega arith

abbrev shift_cipher : Crypto ℕ ℕ
shift_cipher = record {
  encrypt = λ nonce plaintext. plaintext + nonce;
  decrypt = λ nonce ciphertext. ok (ciphertext - nonce);
  decrypt-encrypt = λ nonce plaintext. rw decrypted_again;
  b64encode = λ data_bytes. data_bytes;
  b64decode = ok;
  b64decode-b64encode = λ data_bytes. refl;
  urandom = λ i. i;
}

abbrev calls : List (Call ℕ)
calls = put "k" 7 ∷ get "k" ∷ exists "j" ∷ delete "k" ∷ get "k" ∷ []

build_storage-answers_example :
    answers
      (build_storage_from_config plain_json plain_json shift_cipher "sqlite")
      (build_storage_from_config plain_json plain_json shift_cipher "sqlite").init
      calls
    ≡ answers memory_storage [] calls
build_storage-answers_example =
    build_storage-answers plain_json plain_json shift_cipher "sqlite" calls

abbrev backend : StorageBackend (Blob ℕ)
backend = memory_storage

abbrev version : Version ℕ
version = record { value = 7; clock = record { counters = ("a", pos 1) ∷ [] } }

abbrev held_one : backend.State
held_one = ("b", ("k", record { value = 7; clock = ("a", pos 1) ∷ [] } ∷ []) ∷ []) ∷ []

hints-add_example :
    (s' : backend.State) × (HintStore.add backend held_one "b" "j" version ≡ ok s')
    × memory_storage-laws.IsValid s'
    × ((t' k' : String)
        → hints backend memory_storage-laws s' t' k' ≡ (
            if ("b" == t') && ("j" == k')
            then reconcile (hints backend memory_storage-laws held_one "b" "j") version
            else hints backend memory_storage-laws held_one t' k'))
hints-add_example =
    hints-add backend memory_storage-laws held_one "b" "j" version (memory_storage-IsValid held_one)

hints-clear_key_example :
    (s' : backend.State) × (clear_key backend held_one "b" "k" ≡ ok s')
    × memory_storage-laws.IsValid s'
    × ((t' k' : String)
        → hints backend memory_storage-laws s' t' k' ≡ (
            if ("b" == t') && ("k" == k')
            then []
            else hints backend memory_storage-laws held_one t' k'))
hints-clear_key_example =
    hints-clear_key backend memory_storage-laws held_one "b" "k" (memory_storage-IsValid held_one)
