-- ===== src/Api/Answers.antt =====
-- src/dynamokv/api/routes.py: what the coordinator did where a route answers with success.
use secure_dynamo_kv_store.Prelude.{ℕ, ◌≡◌, refl, ap, ◌∙◌, String, Option}
use secure_dynamo_kv_store.Prelude.Result.{Result, ok, raise, >>=-eq-ok}
use secure_dynamo_kv_store.Dict.{Dict}
use secure_dynamo_kv_store.VectorClock.{Version}
use secure_dynamo_kv_store.Storage.{StorageBackend}
use secure_dynamo_kv_store.HintStore.{Blob}
use secure_dynamo_kv_store.Auth.{TokenEntry, AuthContext, AuthRequest, get_auth_context}
use secure_dynamo_kv_store.Node.Replica.{Node, Stored}
use secure_dynamo_kv_store.Node.Network.{Fate, Cluster}
use secure_dynamo_kv_store.Node.Coordinator
use secure_dynamo_kv_store.Node.Client.{Schedule, Reading, one, conflict}
use secure_dynamo_kv_store.Api.{KeyValueResponse, key_value, read_out, authorized, put_key, get_key}

module _ {V : Type 0} (hash : String → ℕ) (sb : StorageBackend (Stored V))
    (hb : StorageBackend (Blob V)) where
  authorized-ok :
      {A : Type 0} (auth : Result AuthContext) (cl cl' : Cluster sb hb)
      (handled : Result A × Cluster sb hb) (a : A)
      → authorized hash sb hb auth cl handled ≡ (ok a, cl')
      → handled ≡ (ok a, cl')
  authorized-ok (raise e) cl cl' handled a h = cc
  authorized-ok (ok context) cl cl' handled a h = h

  pub put_key-ok :
      (tokens : Option (Dict String TokenEntry)) (request : AuthRequest) (node : Node)
      (key : String) (value : V) (now : ℕ) (reads : Schedule) (hint_net : String → Fate)
      (writes : Schedule) (cl cl' : Cluster sb hb) (r : KeyValueResponse V)
      → put_key hash sb hb tokens request node key value now reads hint_net writes cl ≡ (ok r, cl')
      → let run = Coordinator.put hash sb hb node key value now reads hint_net writes cl in
        (v : Version V) × (run.answer ≡ ok v) × (run.cluster ≡ cl') × (key_value key v ≡ r)
  unfolding put_key
  put_key-ok tokens request node key value now reads hint_net writes cl cl' r e =
      let run = Coordinator.put hash sb hb node key value now reads hint_net writes cl in
      let h = authorized-ok (get_auth_context tokens request key).answer cl cl' _ r e in
      let (v, q, f) =
        >>=-eq-ok run.answer _ (ap (λ (p : Result (KeyValueResponse V) × Cluster sb hb). p.0) h) in
      let g : key_value key v ≡ r = cc in
      (v, q, ap (λ (p : Result (KeyValueResponse V) × Cluster sb hb). p.1) h, g)

  read_out-ok :
      (key : String) (reading : Reading V) (r : KeyValueResponse V)
      → read_out key reading ≡ ok r
      → (v : Version V) × (reading ≡ one v) × (key_value key v ≡ r)
  read_out-ok key (one v) r e = (v, refl, cc)
  read_out-ok key (conflict vs) r e = cc

  pub get_key-ok :
      (tokens : Option (Dict String TokenEntry)) (request : AuthRequest) (node : Node)
      (key : String) (reads : Schedule) (cl cl' : Cluster sb hb) (r : KeyValueResponse V)
      → get_key hash sb hb tokens request node key reads cl ≡ (ok r, cl')
      → (v : Version V) × ((Coordinator.get hash sb hb node key reads cl).0 ≡ ok (one v))
        × ((Coordinator.get hash sb hb node key reads cl).1 ≡ cl')
        × (key_value key v ≡ r)
  unfolding get_key
  get_key-ok tokens request node key reads cl cl' r e =
      let run = Coordinator.get hash sb hb node key reads cl in
      let h = authorized-ok (get_auth_context tokens request key).answer cl cl' _ r e in
      let (reading, q, f) =
        >>=-eq-ok run.0 (read_out key)
          (ap (λ (p : Result (KeyValueResponse V) × Cluster sb hb). p.0) h) in
      let (v, s, g) = read_out-ok key reading r f in
      (v, q ∙ ap ok s, ap (λ (p : Result (KeyValueResponse V) × Cluster sb hb). p.1) h, g)
