-- ===== src/Journal.antt =====
-- src/dynamokv/recent_ops.py, src/dynamokv/logging_middleware.py, src/dynamokv/audit.py: what is
-- written down about each request. The readings of the wall clock and of the timer have the type
-- `Time`, of which nothing is assumed.
pub mod Recent
use secure_dynamo_kv_store.Prelude.{
  ℕ, zero, suc, ◌+◌, String, string_eq, nat_eq, Bool, true, false, Option, none, some, List, [],
  ◌∷◌, ◌++◌, length, ltb, ◌==◌, if◌then◌else◌,
}
use secure_dynamo_kv_store.Dict.{is_some}
use secure_dynamo_kv_store.Auth.{namespace_for_key, strip_prefix}

-- What the middlewares read of a request and its response.
pub record Exchange : Type 0 where
  pub method : String
  pub path : String
  pub key : Option String
  pub client_id : Option String
  pub source_ip : Option String
  pub status_code : ℕ

module _ {A : Type 0} where
  -- deque.append with a `maxlen`: a full one loses its first entry.
  abbrev pub without_first : List A → List A
  without_first [] = []
  without_first (x ∷ xs) = xs

  unfoldable pub append_bounded : ℕ → List A → A → List A
  append_bounded maxlen entries entry =
      (if length entries == maxlen then without_first entries else entries) ++ entry ∷ []

-- _MAX_ENTRIES
abbrev pub max_entries : ℕ
max_entries = 200

-- An entry of the access log, and of the history of operations.
pub record LogEntry (Time : Type 0) : Type 0 where
  pub timestamp : Time
  pub node_id : Option String
  pub method : String
  pub path : String
  pub latency_ms : Time
  pub status_code : ℕ
  pub outcome : String

pub record Operation (Time : Type 0) : Type 0 where
  pub entry : LogEntry Time
  pub key : Option String
  pub conflict : Bool

pub record AuditEntry (Time : Type 0) : Type 0 where
  pub timestamp : Time
  pub client_id : String
  pub source_ip : Option String
  pub method : String
  pub path : String
  pub key : Option String
  pub namespace : Option String
  pub status_code : ℕ
  pub outcome : String

abbrev pub client_or : Option String → String
client_or none = "anonymous"
client_or (some client_id) = client_id

abbrev pub namespace_of : Option String → Option String
namespace_of none = none
namespace_of (some key) = some (namespace_for_key key)

module _ {Time : Type 0} where
  unfoldable pub record_operation : List (Operation Time) → Operation Time → List (Operation Time)
  record_operation entries entry = append_bounded max_entries entries entry

  -- A snapshot, most recent last.
  abbrev pub recent_operations : List (Operation Time) → List (Operation Time)
  recent_operations entries = entries

  -- For tests.
  unfoldable pub clear : List (Operation Time) → List (Operation Time)
  clear entries = []

  abbrev pub log_entry : Time → Time → Option String → Exchange → LogEntry Time
  log_entry timestamp latency_ms node_id x = record {
    timestamp = timestamp;
    node_id = node_id;
    method = x.method;
    path = x.path;
    latency_ms = latency_ms;
    status_code = x.status_code;
    outcome = if ltb x.status_code 400 then "ok" else "error";
  }

  -- RequestLogMiddleware.dispatch behind `call_next`: the line that is logged, and the history.
  unfoldable pub log_request :
      Time
      → Time
      → Option String
      → Exchange
      → List (Operation Time)
      → LogEntry Time × List (Operation Time)
  log_request timestamp latency_ms node_id x entries =
      let entry = log_entry timestamp latency_ms node_id x in
      (
        entry,
        if is_some (strip_prefix "/v1/keys/" x.path)
            then record_operation entries
                (record { entry = entry; key = x.key; conflict = x.status_code == 409 })
            else entries,
      )

  -- AuditLogMiddleware: every request adds one line to the log.
  unfoldable pub write_entry : Time → Exchange → List (AuditEntry Time) → List (AuditEntry Time)
  write_entry timestamp x lines =
      lines
      ++ record {
        timestamp = timestamp;
        client_id = client_or x.client_id;
        source_ip = x.source_ip;
        method = x.method;
        path = x.path;
        key = x.key;
        namespace = namespace_of x.key;
        status_code = x.status_code;
        outcome = if ltb x.status_code 400 then "allowed" else "denied";
      }
        ∷ []
