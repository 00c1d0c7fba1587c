-- ===== src/Tests/Trio.antt =====
-- A cluster of three nodes with N = 2, R = 2 and W = 1, in which every request is answered.
use secure_dynamo_kv_store.Prelude.{
  ℕ, ◌≡◌, refl, String, string_eq, ◌==◌, if◌then◌else◌, List, [], ◌∷◌, Unique, Below, Option, none,
  here, there, In-cons, inl, inr, ne_of_==, any,
}
use secure_dynamo_kv_store.Prelude.Int.{pos}
use secure_dynamo_kv_store.Prelude.Result.{Result, ok}
use secure_dynamo_kv_store.Dict
use secure_dynamo_kv_store.Dict.{Dict}
use secure_dynamo_kv_store.Ring
use secure_dynamo_kv_store.Ring.{HashRing}
use secure_dynamo_kv_store.Gossip
use secure_dynamo_kv_store.HintStore.{Blob}
use secure_dynamo_kv_store.Storage.{StorageBackend}
use secure_dynamo_kv_store.Storage.Memory.{
  memory_storage, memory_storage-laws, memory_storage-IsValid,
}
use secure_dynamo_kv_store.Auth.{TokenEntry, AuthRequest}
use secure_dynamo_kv_store.Node.Replica.{Node, Replica, Stored}
use secure_dynamo_kv_store.Node.Network.{Fate, answered, Cluster}
use secure_dynamo_kv_store.Node.Client.{Schedule, preference_list}
use secure_dynamo_kv_store.Node.Growth.{AllSound}
use secure_dynamo_kv_store.Node.Reads.{Lawful}
use secure_dynamo_kv_store.Api.{KeyValueResponse}
use secure_dynamo_kv_store.Attack.Writes.Programs.{Writing, public_put, public_get}

abbrev pub test_hash : String → ℕ
test_hash label = if label == "k" then 5 else 40

abbrev pub node : String → Node
node node_id = record {
  node_id = node_id;
  ring = record {
    virtual_nodes = 1;
    ring = (10, "node-1") ∷ (20, "node-2") ∷ (30, "node-3") ∷ [];
    sorted_hashes = 10 ∷ 20 ∷ 30 ∷ [];
    nodes = "node-1" ∷ "node-2" ∷ "node-3" ∷ [];
  };
  peers =
      ("node-1", "https://node-1:8443")
      ∷ ("node-2", "https://node-2:8443")
      ∷ ("node-3", "https://node-3:8443")
      ∷ [];
  n = 2;
  r = 2;
  w = 1;
  gossip_failure_timeout = 6;
}

abbrev pub sb : StorageBackend (Stored ℕ)
sb = memory_storage

abbrev pub hb : StorageBackend (Blob ℕ)
hb = memory_storage

abbrev pub fresh : String → Replica sb hb
fresh node_id = record { storage = []; hint_store = []; gossip_state = Gossip.new node_id 0 }

abbrev pub three : Cluster sb hb
three = ("node-1", fresh "node-1") ∷ ("node-2", fresh "node-2") ∷ ("node-3", fresh "node-3") ∷ []

abbrev pub reach : String → Fate
reach _ = answered

abbrev pub in_order : Schedule
in_order = record { order = λ l. l; net = reach }

abbrev pub writing : Writing
writing = record { now = 0; reads = in_order; hint_net = reach; writes = in_order }

pub in_order-Lawful : Lawful in_order
in_order-Lawful = record { once = λ l u. u; asked = λ l a m. m }

pub three-AllSound : AllSound test_hash sb hb memory_storage-laws three
three-AllSound id s e = memory_storage-IsValid s.storage

abbrev pub hosts : List String
hosts = "node-1" ∷ "node-2" ∷ "node-3" ∷ []

abbrev pub prefs : List String
prefs = "node-1" ∷ "node-2" ∷ []

pub prefs-Unique : Unique prefs
prefs-Unique = (
  λ m. elim (In-cons m) [ inl e ↦ ne_of_== "node-1" "node-2" refl e | inr n ↦ elim n [ ] ],
  (λ m. elim m [ ], tt),
)

pub prefs-known : (node_id : String) → preference_list test_hash sb hb (node node_id) "k" ≡ ok prefs
unfolding preference_list Ring.get_preference_list Ring.walk Ring.owner_at Dict.get any
prefs-known node_id = refl

abbrev pub request : AuthRequest
request = record { method = "PUT"; authorization = none }

abbrev pub no_tokens : Option (Dict String TokenEntry)
no_tokens = none

abbrev pub answer : ℕ → ℕ → KeyValueResponse ℕ
answer value count = record { key = "k"; value = value; clock = ("node-1", pos count) ∷ [] }

abbrev pub put_at : ℕ → Cluster sb hb → Result (KeyValueResponse ℕ) × Cluster sb hb
put_at value cl =
    public_put test_hash sb hb no_tokens request request (node "node-1") "k" value writing cl

abbrev pub get_at : Cluster sb hb → Result (KeyValueResponse ℕ) × Cluster sb hb
get_at cl = public_get test_hash sb hb no_tokens request request (node "node-1") "k" in_order cl

pub prefs-hosts : Below prefs hosts
prefs-hosts j m = elim (In-cons m) [
  | inl e ↦ rw e (here refl)
  | inr n ↦ elim (In-cons n) [ inl e ↦ rw e (there (here refl)) | inr k ↦ elim k [ ] ]
]
