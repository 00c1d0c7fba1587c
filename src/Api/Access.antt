-- ===== src/Api/Access.antt =====
-- src/dynamokv/api/routes.py: requests without a grant.
use secure_dynamo_kv_store.Prelude.{ℕ, ◌≡◌, String, some, inl, inr}
use secure_dynamo_kv_store.Prelude.Result.{Exn, raise}
use secure_dynamo_kv_store.Dict.{Dict}
use secure_dynamo_kv_store.Storage.{StorageBackend}
use secure_dynamo_kv_store.HintStore.{Blob}
use secure_dynamo_kv_store.Auth.{TokenEntry, AuthContext, AuthRequest, get_auth_context}
use secure_dynamo_kv_store.Auth.Grants.{Grants, get_auth_context_iff}
use secure_dynamo_kv_store.Node.Replica.{Node, Stored}
use secure_dynamo_kv_store.Node.Network.{Fate, Cluster}
use secure_dynamo_kv_store.Node.Client.{Schedule}
use secure_dynamo_kv_store.Node.Gather.{Result-cases}
use secure_dynamo_kv_store.Api.{put_key, get_key, delete_key}

module _ {V : Type 0} (hash : String → ℕ) (sb : StorageBackend (Stored V))
    (hb : StorageBackend (Blob V)) where
  -- Where tokens are configured and a request has no grant for the key, `put_key`, `get_key` and
  -- `delete_key` all raise the same exception and leave the cluster as it was.
  pub denied-unchanged :
      (tokens : Dict String TokenEntry) (request : AuthRequest) (node : Node) (key : String)
      (value : V) (now : ℕ) (reads : Schedule) (hint_net : String → Fate) (writes : Schedule)
      (cl : Cluster sb hb)
      → ((context : AuthContext) → ¬ Grants tokens request key context)
      → (e : Exn) × (put_key hash sb hb
            (some tokens)
            request
            node
            key
            value
            now
            reads
            hint_net
            writes
            cl
          ≡ (raise e, cl))
        × (get_key hash sb hb (some tokens) request node key reads cl ≡ (raise e, cl))
        × (delete_key hash sb hb (some tokens) request node key writes cl ≡ (raise e, cl))
  unfolding put_key get_key delete_key
  denied-unchanged tokens request node key value now reads hint_net writes cl ungranted =
      elim (Result-cases (get_auth_context (some tokens) request key).answer) [
        | inl (context, q) ↦
            absurd (ungranted context ((get_auth_context_iff tokens request key context).0 q))
        | inr (e, q) ↦ (e, rw q, rw q, rw q)
      ]
