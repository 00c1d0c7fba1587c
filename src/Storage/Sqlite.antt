-- ===== src/Storage/Sqlite.antt =====
-- src/dynamokv/storage/sqlite.py: a table with a text key and a text value, the JSON of the value.
use secure_dynamo_kv_store.Prelude.{
  ◌≡◌, refl, String, Bool, Option, none, some, string_eq, [], ◌==◌, if◌then◌else◌, Bool-cases, inl,
  inr,
}
use secure_dynamo_kv_store.Prelude.Result.{Result, ok, raise, ◌>>=◌}
use secure_dynamo_kv_store.Dict
use secure_dynamo_kv_store.Dict.{Dict, is_some}
use secure_dynamo_kv_store.Storage.{StorageBackend, StorageLaws}

-- `json.dumps` and `json.loads` on the values that are stored: what was written reads back.
pub record Json (A Text : Type 0) : Type 0 where
  pub dumps : A → Text
  pub loads : Text → Result A
  pub loads-dumps : (v : A) → loads (dumps v) ≡ ok v

module _ {A Text : Type 0} (json : Json A Text) where
  -- The state is the table `kv`: one row for each key.
  abbrev read_row : Option Text → Result (Option A)
  read_row none = ok none
  read_row (some text) = do v ← json.loads text; ok (some v)

  unfoldable pub sqlite_get : Dict String Text → String → Result (Option A)
  sqlite_get s key = read_row (Dict.get s key)

  -- INSERT ... ON CONFLICT(key) DO UPDATE
  unfoldable pub sqlite_put : Dict String Text → String → A → Dict String Text
  sqlite_put s key value = Dict.put s key (json.dumps value)

  -- The row count of the DELETE is at most one, since the key is the primary key.
  unfoldable pub sqlite_delete : Dict String Text → String → Dict String Text × Bool
  sqlite_delete s key = (Dict.remove s key, is_some (Dict.get s key))

  unfoldable pub sqlite_exists : Dict String Text → String → Bool
  sqlite_exists s key = is_some (Dict.get s key)

  abbrev pub sqlite_storage : StorageBackend A
  sqlite_storage = record {
    State = Dict String Text;
    init = [];
    get = sqlite_get;
    put = sqlite_put;
    delete = sqlite_delete;
    exists = sqlite_exists;
  }

  -- Every row was written by `put`.
  abbrev Readable : Dict String Text → Type 0
  Readable s =
      (k : String) (text : Text) → Dict.get s k ≡ some text → (v : A) × (text ≡ json.dumps v)

  abbrev value_of : Result A → Option A
  value_of (ok v) = some v
  value_of (raise e) = none

  abbrev row_view : Option Text → Option A
  row_view none = none
  row_view (some text) = value_of (json.loads text)

  row_view-put : (v : A) → row_view (some (json.dumps v)) ≡ some v
  row_view-put v = rw (json.loads-dumps v)

  readable :
      (row : Option Text)
      → ((text : Text) → row ≡ some text → (v : A) × (text ≡ json.dumps v))
      → (read_row row ≡ ok (row_view row)) × (is_some row ≡ is_some (row_view row))
  readable none h = (refl, refl)
  readable (some text) h =
      let (v, e) = h text refl in (rw (e, json.loads-dumps v), rw (e, json.loads-dumps v))

  put-Readable :
      (s : Dict String Text) (k : String) (v : A) → Readable s → Readable (sqlite_put s k v)
  unfolding sqlite_put
  put-Readable s k v h j text e = elim (Bool-cases (k == j)) [
    | inl t ↦ let f : some (json.dumps v) ≡ some text = rw (Dict.get-put, t) at e in (v, cc)
    | inr t ↦ h j text (rw (Dict.get-put, t) at e)
  ]

  delete-Readable :
      (s : Dict String Text) (k : String) → Readable s → Readable (sqlite_delete s k).0
  unfolding sqlite_delete
  delete-Readable s k h j text e = elim (Bool-cases (k == j)) [
    | inl t ↦ let f : none ≡ some text = rw (Dict.get-remove, t) at e in cc
    | inr t ↦ h j text (rw (Dict.get-remove, t) at e)
  ]

  put-row_view :
      (s : Dict String Text) (k j : String) (v : A)
      → row_view (Dict.get (sqlite_put s k v) j)
        ≡ (if k == j then some v else row_view (Dict.get s j))
  unfolding sqlite_put
  put-row_view s k j v = elim (Bool-cases (k == j)) [
    | inl t ↦ rw (Dict.get-put, t) (row_view-put v)
    | inr t ↦ rw (Dict.get-put, t)
  ]

  delete-row_view :
      (s : Dict String Text) (k j : String)
      → row_view (Dict.get (sqlite_delete s k).0 j)
        ≡ (if k == j then none else row_view (Dict.get s j))
  unfolding sqlite_delete
  delete-row_view s k j = elim (Bool-cases (k == j)) [
    | inl t ↦ rw (Dict.get-remove, t)
    | inr t ↦ rw (Dict.get-remove, t)
  ]

  -- A table that only these operations wrote to is a map, and reading it never raises.
  pub sqlite_storage-laws : StorageLaws sqlite_storage
  unfolding sqlite_get sqlite_exists sqlite_delete Dict.get
  sqlite_storage-laws = record {
    IsValid = Readable;
    view = λ s k. row_view (Dict.get s k);
    init-IsValid = λ k text e. cc;
    init-view = λ k. refl;
    get-view = λ s k h. (readable (Dict.get s k) (h k)).0;
    exists-view = λ s k h. (readable (Dict.get s k) (h k)).1;
    put-IsValid = put-Readable;
    put-view = λ s k j v h. put-row_view s k j v;
    delete-IsValid = delete-Readable;
    delete-view = λ s k j h. delete-row_view s k j;
    delete-existed = λ s k h. (readable (Dict.get s k) (h k)).1;
  }
