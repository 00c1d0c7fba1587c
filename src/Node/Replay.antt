-- ===== src/Node/Replay.antt =====
-- src/dynamokv/node.py: `_flush_hints_for` and the hints that a node holds.
use secure_dynamo_kv_store.Prelude.{ℕ, ◌≡◌, String, string_eq, nat_eq, some}
use secure_dynamo_kv_store.Prelude.Result.{Result}
use secure_dynamo_kv_store.Dict
use secure_dynamo_kv_store.Dict.{Dict}
use secure_dynamo_kv_store.HintStore.{Blob}
use secure_dynamo_kv_store.Storage.{StorageBackend, StorageLaws}
use secure_dynamo_kv_store.Node.Replica.{Node, Stored, Replica}
use secure_dynamo_kv_store.Node.Network.{Cluster}

module _ {V : Type 0} (hash : String → ℕ) (sb : StorageBackend (Stored V))
    (hb : StorageBackend (Blob V)) (laws : StorageLaws sb) where
  -- No replica's hints change.
  abbrev pub SameHints : Cluster sb hb → Cluster sb hb → Type 0
  SameHints cl cl' =
      (id : String) (s s' : Replica sb hb)
      → Dict.get cl id ≡ some s
      → Dict.get cl' id ≡ some s'
      → s'.hint_store ≡ s.hint_store
