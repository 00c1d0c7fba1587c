-- ===== src/Journal/Recent.antt =====
-- src/dynamokv/recent_ops.py and src/dynamokv/logging_middleware.py: the log and the history after
-- a number of requests.
use secure_dynamo_kv_store.Prelude.{
  ℕ, zero, suc, ◌-◌, ◌≤◌, ◌<◌, ◌≡◌, refl, ap, ◌∙◌, inl, inr, nat_eq, List, [], ◌∷◌, ◌++◌, arith,
  length, length-append, Bool, String, string_eq, Option, append_assoc, append-nil, ◌==◌,
  Bool-cases, eq_of_==, ne_of_==,
}
use secure_dynamo_kv_store.Journal.{
  append_bounded, without_first, max_entries, Operation, record_operation, Exchange, LogEntry,
  log_entry, log_request,
}
use secure_dynamo_kv_store.Dict.{is_some}
use secure_dynamo_kv_store.Auth.{strip_prefix}

module _ {A : Type 0} where
  pub drop : ℕ → List A → List A
  drop zero l = l
  drop (suc n) [] = []
  drop (suc n) (x ∷ l) = drop n l

  -- The last `n` entries, or all if there are fewer.
  pub last : ℕ → List A → List A
  last n l = drop (length l - n) l

  length-drop : (n : ℕ) (l : List A) → length (drop n l) ≡ length l - n
  unfolding drop
  length-drop zero l = omega arith
  length-drop (suc n) [] = omega arith
  length-drop (suc n) (x ∷ l) = omega (arith, length-drop n l)

  drop-append : (n : ℕ) (l m : List A) → n ≤ length l → drop n (l ++ m) ≡ drop n l ++ m
  unfolding drop
  drop-append zero l m h = refl
  drop-append (suc n) [] m h = absurd (omega arith)
  drop-append (suc n) (x ∷ l) m h = drop-append n l m (omega arith)

  without_first-drop : (n : ℕ) (l : List A) → without_first (drop n l) ≡ drop (suc n) l
  unfolding drop
  without_first-drop zero [] = refl
  without_first-drop zero (x ∷ l) = refl
  without_first-drop (suc n) [] = refl
  without_first-drop (suc n) (x ∷ l) = without_first-drop n l

  append_bounded-last :
      (maxlen : ℕ) (seen : List A) (a : A)
      → 0 < maxlen
      → append_bounded maxlen (last maxlen seen) a ≡ last maxlen (seen ++ a ∷ [])
  unfolding append_bounded last drop
  append_bounded-last maxlen seen a pos =
      let k = length seen - maxlen in
      let size : length (seen ++ a ∷ []) ≡ suc (length seen) =
        omega (arith, length-append seen (a ∷ [])) in
      elim (Bool-cases (length (drop k seen) == maxlen)) [
        | inl s ↦
            let full : length (drop k seen) ≡ maxlen = eq_of_== (length (drop k seen)) maxlen s in
            let step : suc (length seen) - maxlen ≡ suc k = omega (arith, length-drop k seen) in
            let fits : suc k ≤ length seen = omega (arith, length-drop k seen) in
            rw (s, size, step, without_first-drop k seen, drop-append (suc k) seen (a ∷ []) fits)
        | inr s ↦
            let short = ne_of_== (length (drop k seen)) maxlen s in
            let small : length seen < maxlen = omega (arith, length-drop k seen) in
            let none_lost : k ≡ 0 = omega arith in
            let none_now : suc (length seen) - maxlen ≡ 0 = omega arith in
            rw (s, size, none_lost, none_now, drop)
      ]

  -- Entries recorded one after the other.
  unfoldable pub append_all : ℕ → List A → List A → List A
  append_all maxlen entries [] = entries
  append_all maxlen entries (a ∷ more) = append_all maxlen (append_bounded maxlen entries a) more

  append_all-last :
      (maxlen : ℕ) (seen more : List A)
      → 0 < maxlen
      → append_all maxlen (last maxlen seen) more ≡ last maxlen (seen ++ more)
  unfolding append_all
  append_all-last maxlen seen [] pos = rw (append-nil seen)
  append_all-last maxlen seen (a ∷ more) pos = rw (append_bounded-last maxlen seen a pos) (
      append_all-last maxlen (seen ++ a ∷ []) more pos
      ∙ ap (last maxlen) (append_assoc seen (a ∷ []) more))

module _ {Time : Type 0} where
  -- The history after these operations, from an empty one.
  unfoldable pub history : List (Operation Time) → List (Operation Time) → List (Operation Time)
  history entries [] = entries
  history entries (op ∷ ops) = history (record_operation entries op) ops

  history-append_all :
      (entries ops : List (Operation Time))
      → history entries ops ≡ append_all max_entries entries ops
  unfolding history append_all record_operation
  history-append_all entries [] = refl
  history-append_all entries (op ∷ ops) =
      history-append_all (append_bounded max_entries entries op) ops

  -- After any operations are recorded in an empty history, the history is the last 200 of them,
  -- or all if there are fewer.
  pub history-last : (ops : List (Operation Time)) → history [] ops ≡ last max_entries ops
  unfolding last drop
  history-last ops = history-append_all [] ops ∙ append_all-last max_entries [] ops (omega arith)

  -- The middleware on one exchange after another, each with its timestamp and its latency: the
  -- lines of the log, and the history.
  unfoldable pub log_all :
      Option String
      → List (Time × Time × Exchange)
      → List (Operation Time)
      → List (LogEntry Time) × List (Operation Time)
  log_all node_id [] entries = ([], entries)
  log_all node_id ((timestamp, latency_ms, x) ∷ rest) entries =
      let (line, entries') = log_request timestamp latency_ms node_id x entries in
      let (lines, entries'') = log_all node_id rest entries' in (line ∷ lines, entries'')

  abbrev pub line_of : Option String → Time × Time × Exchange → LogEntry Time
  line_of node_id (timestamp, latency_ms, x) = log_entry timestamp latency_ms node_id x

  abbrev pub operation_of : Option String → Time × Time × Exchange → Operation Time
  operation_of node_id (timestamp, latency_ms, x) = record {
    entry = log_entry timestamp latency_ms node_id x;
    key = x.key;
    conflict = x.status_code == 409;
  }

  abbrev pub is_client : Time × Time × Exchange → Bool
  is_client (timestamp, latency_ms, x) = is_some (strip_prefix "/v1/keys/" x.path)
