-- ===== src/Attack/Writes/Deletion.antt =====
-- scripts/adversarial_scenarios.py: category 6, deletions by way of the internal ports.
use secure_dynamo_kv_store.Prelude.{ℕ, ◌≡◌, String, string_eq, some, List, [], In}
use secure_dynamo_kv_store.Dict
use secure_dynamo_kv_store.Dict.{Dict}
use secure_dynamo_kv_store.Storage.{StorageBackend, StorageLaws}
use secure_dynamo_kv_store.HintStore.{Blob}
use secure_dynamo_kv_store.Node.Replica.{Node, Replica, Stored}
use secure_dynamo_kv_store.Node.Network.{Cluster, Response}
use secure_dynamo_kv_store.Node.Coordinator.{get}
use secure_dynamo_kv_store.Node.Local.{stored}
use secure_dynamo_kv_store.Node.Growth.{AllSound}

module _ {V : Type 0} (hash : String → ℕ) (sb : StorageBackend (Stored V))
    (hb : StorageBackend (Blob V)) (laws : StorageLaws sb) where
  abbrev Handler : Type 0
  Handler = Replica sb hb → Response V × Replica sb hb

  -- The replica of a host, if there is one, stores nothing under the key.
  record Gone (key : String) (cl : Cluster sb hb) (host : String) : Type 0 where
    empty : (s : Replica sb hb) → Dict.get cl host ≡ some s → stored sb hb laws s key ≡ []

  record Cleared (key : String) (hosts : List String) (cl cl' : Cluster sb hb) : Type 0 where
    sound : AllSound hash sb hb laws cl'
    gone : (host : String) → In host hosts → Gone key cl' host
    stays : (host : String) → Gone key cl host → Gone key cl' host
