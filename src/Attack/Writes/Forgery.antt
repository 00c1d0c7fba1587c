-- ===== src/Attack/Writes/Forgery.antt =====
-- scripts/adversarial_scenarios.py: category 5, a forged clock and the write after it.
use secure_dynamo_kv_store.Prelude.{ℕ, String, string_eq, Option, List, [], ◌∷◌, In}
use secure_dynamo_kv_store.Prelude.Int.{pos}
use secure_dynamo_kv_store.Dict.{Dict}
use secure_dynamo_kv_store.VectorClock.{VectorClock, VersionDict, from_dict}
use secure_dynamo_kv_store.Storage.{StorageBackend, StorageLaws}
use secure_dynamo_kv_store.HintStore.{Blob}
use secure_dynamo_kv_store.Auth.{TokenEntry, AuthRequest}
use secure_dynamo_kv_store.Node.Replica.{Node, Stored}
use secure_dynamo_kv_store.Node.Network.{Cluster}
use secure_dynamo_kv_store.Node.Growth.{Grows, Holds}

-- The clock that the intruder claims.
abbrev pub forged : VectorClock
forged = record { counters = ("node-1", pos 999999) ∷ [] }

module _ {V : Type 0} (hash : String → ℕ) (sb : StorageBackend (Stored V))
    (hb : StorageBackend (Blob V)) (laws : StorageLaws sb)
    (tokens : Option (Dict String TokenEntry)) (put_request get_request : AuthRequest) where
  -- What the loop over the nodes leaves where no request of it raises.
  record Poisoned (hosts : List String) (key : String) (body : VersionDict V)
      (cl cl' : Cluster sb hb) : Type 0 where
    grows : Grows hash sb hb laws cl cl'
    everywhere :
        (host : String) → In host hosts → Holds hash sb hb laws key (from_dict body) host cl'
