-- ===== src/App/Doors.antt =====
-- src/dynamokv/run.py: who gets in by the ports of a node.
use secure_dynamo_kv_store.Prelude.{
  ℕ, ◌≡◌, refl, inl, inr, Bool, String, some, length, ltb, All, In, In-cons, here, there,
}
use secure_dynamo_kv_store.Dict.{Dict}
use secure_dynamo_kv_store.Auth.{TokenEntry}
use secure_dynamo_kv_store.Node.Replica.{Node}
use secure_dynamo_kv_store.App.{
  Config, public_router, internal_router, audit, request_log, metrics, audit_if, build_node,
  cluster_nodes_from_config, default_audit_log_path,
}
use secure_dynamo_kv_store.App.Entry.{
  Served, Transport, client_certificate, server_only, application, Listener, listeners,
  create_public_app, create_internal_app, default_internal_audit_log_path,
}

-- Nothing between nodes without a client's certificate, nothing for clients without the table of
-- tokens, and a line in the audit log and the access log for each request.
pub record Guarded (tokens : Dict String TokenEntry) (transport : Transport) (app : Served)
    : Type 0 where
  pub between_nodes : In internal_router app.routers → transport ≡ client_certificate
  pub for_clients : In public_router app.routers → app.auth_tokens ≡ some tokens
  pub audited : (path : String) × (app.audit_log_path ≡ some path) × In (audit path) app.middlewares
  pub logged : In request_log app.middlewares
  pub counted : In metrics app.middlewares

abbrev pub IsGuarded : Dict String TokenEntry → Listener → Type 0
IsGuarded tokens listener =
    (app : Served) → listener.behind ≡ application app → Guarded tokens listener.transport app

public_app-Guarded :
    (config : Config) (node : Node) (tokens : Dict String TokenEntry) (path : String)
    → Guarded tokens server_only (create_public_app config node tokens path)
unfolding create_public_app
public_app-Guarded config node tokens path = record {
  between_nodes = λ m. elim (In-cons m) [
    | inl e ↦ cc
    | inr n ↦ elim (In-cons n) [ inl e ↦ cc | inr k ↦ elim k [ ] ]
  ];
  for_clients = λ m. refl;
  audited = (path, refl, here refl);
  logged = there (here refl);
  counted = there (there (here refl));
}

internal_app-Guarded :
    (node : Node) (gossip_worker : Bool) (tokens : Dict String TokenEntry) (path : String)
    → Guarded tokens client_certificate (create_internal_app node gossip_worker (some path))
unfolding create_internal_app audit_if
internal_app-Guarded node gossip_worker tokens path = record {
  between_nodes = λ m. refl;
  for_clients = λ m. elim (In-cons m) [ inl e ↦ cc | inr k ↦ elim k [ ] ];
  audited = (path, refl, here refl);
  logged = there (here refl);
  counted = there (there (here refl));
}

of_application :
    {tokens : Dict String TokenEntry} {transport : Transport} {app other : Served}
    → application app ≡ application other
    → Guarded tokens transport app
    → Guarded tokens transport other
of_application {app = app} {other = other} e guarded =
    let same : app ≡ other = cc in rw same at guarded

pub listeners-Guarded :
    (hash : String → ℕ) (config : Config) (loaded : Dict String TokenEntry) (metrics_port : ℕ)
    → All (IsGuarded loaded) (listeners hash config loaded metrics_port)
unfolding listeners
listeners-Guarded hash config loaded metrics_port = (
  λ app e.
      of_application e
        (public_app-Guarded config (build_node hash config) loaded (default_audit_log_path config)),
  (
    λ app e. of_application e (
        internal_app-Guarded (build_node hash config)
          (ltb 1 (length (cluster_nodes_from_config config))) loaded
          (default_internal_audit_log_path config)),
    (λ app e. cc, tt),
  ),
)
