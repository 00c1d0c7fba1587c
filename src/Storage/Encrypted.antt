-- ===== src/Storage/Encrypted.antt =====
-- src/dynamokv/crypto.py: `EncryptedStorage`, which wraps a backend and encrypts each value.
use secure_dynamo_kv_store.Prelude.{
  ℕ, suc, ◌≡◌, refl, String, Bool, true, false, Option, none, some, string_eq, ◌==◌, if◌then◌else◌,
}
use secure_dynamo_kv_store.Prelude.Result.{Result, ok, raise, ◌>>=◌}
use secure_dynamo_kv_store.Dict.{is_some}
use secure_dynamo_kv_store.Storage.{StorageBackend, StorageLaws}
use secure_dynamo_kv_store.Storage.Sqlite.{Json}

-- The dict that the inner backend stores: both parts are base64 text.
pub record Envelope (Text : Type 0) : Type 0 where
  pub nonce : Text
  pub ciphertext : Text

-- The AES-GCM object of the node's key, and base64: decoding undoes encoding. `urandom i` is the
-- i-th nonce that the operating system hands out.
pub record Crypto (Text Bytes : Type 0) : Type 0 where
  pub encrypt : Bytes → Bytes → Bytes
  pub decrypt : Bytes → Bytes → Result Bytes
  pub decrypt-encrypt :
      (nonce plaintext : Bytes) → decrypt nonce (encrypt nonce plaintext) ≡ ok plaintext
  pub b64encode : Bytes → Text
  pub b64decode : Text → Result Bytes
  pub b64decode-b64encode : (data_bytes : Bytes) → b64decode (b64encode data_bytes) ≡ ok data_bytes
  pub urandom : ℕ → Bytes

module _ {A Text Bytes : Type 0} (json : Json A Bytes) (crypto : Crypto Text Bytes)
    (inner : StorageBackend (Envelope Text)) where
  -- The inner backend's state, and how many nonces have been drawn.
  pub record EncryptedState : Type 0 where
    pub stored : inner.State
    pub drawn : ℕ

  -- The steps of `get` behind the test for `None`.
  unfoldable pub open_envelope : Envelope Text → Result A
  open_envelope envelope = do
    nonce ← crypto.b64decode envelope.nonce
    ciphertext ← crypto.b64decode envelope.ciphertext
    plaintext ← crypto.decrypt nonce ciphertext
    json.loads plaintext

  unfoldable pub seal : ℕ → A → Envelope Text
  seal i value =
      let nonce = crypto.urandom i in
      record {
        nonce = crypto.b64encode nonce;
        ciphertext = crypto.b64encode (crypto.encrypt nonce (json.dumps value));
      }

  abbrev decrypted : Option (Envelope Text) → Result (Option A)
  decrypted none = ok none
  decrypted (some envelope) = do v ← open_envelope envelope; ok (some v)

  unfoldable pub encrypted_get : EncryptedState → String → Result (Option A)
  unfolding open_envelope
  encrypted_get s key = do envelope ← inner.get s.stored key; decrypted envelope

  unfoldable pub encrypted_put : EncryptedState → String → A → EncryptedState
  unfolding seal
  encrypted_put s key value = record {
    stored = inner.put s.stored key (seal s.drawn value);
    drawn = suc s.drawn;
  }

  unfoldable pub encrypted_delete : EncryptedState → String → EncryptedState × Bool
  encrypted_delete s key =
      let (stored, existed) = inner.delete s.stored key in (record s { stored = stored }, existed)

  unfoldable pub encrypted_exists : EncryptedState → String → Bool
  encrypted_exists s key = inner.exists s.stored key

  abbrev pub encrypted_storage : StorageBackend A
  encrypted_storage = record {
    State = EncryptedState;
    init = record { stored = inner.init; drawn = 0 };
    get = encrypted_get;
    put = encrypted_put;
    delete = encrypted_delete;
    exists = encrypted_exists;
  }

  -- What is sealed opens to the same value.
  pub open_envelope-seal : (i : ℕ) (value : A) → open_envelope (seal i value) ≡ ok value
  unfolding open_envelope seal
  open_envelope-seal i value = rw (
    crypto.b64decode-b64encode, crypto.b64decode-b64encode, crypto.decrypt-encrypt,
    json.loads-dumps,
  )

  abbrev value_of : Result A → Option A
  value_of (ok v) = some v
  value_of (raise e) = none

  abbrev plain : Option (Envelope Text) → Option A
  plain none = none
  plain (some envelope) = value_of (open_envelope envelope)

  abbrev Opens : Option (Envelope Text) → Type 0
  Opens none = Unit
  Opens (some envelope) = (v : A) × (open_envelope envelope ≡ ok v)

  Opens-decrypted :
      (o : Option (Envelope Text))
      → Opens o
      → (decrypted o ≡ ok (plain o)) × (is_some o ≡ is_some (plain o))
  Opens-decrypted none h = (refl, refl)
  Opens-decrypted (some envelope) (v, e) = (rw e, rw e)

  Opens-put :
      (b : Bool) (i : ℕ) (v : A) (o : Option (Envelope Text))
      → Opens o
      → Opens (if b then some (seal i v) else o)
  Opens-put true i v o h = (v, open_envelope-seal i v)
  Opens-put false i v o h = h

  plain-put :
      (b : Bool) (i : ℕ) (v : A) (o : Option (Envelope Text))
      → plain (if b then some (seal i v) else o) ≡ (if b then some v else plain o)
  plain-put true i v o = rw (open_envelope-seal i v)
  plain-put false i v o = refl

  Opens-delete : (b : Bool) (o : Option (Envelope Text)) → Opens o → Opens (if b then none else o)
  Opens-delete true o h = tt
  Opens-delete false o h = h

  plain-delete :
      (b : Bool) (o : Option (Envelope Text))
      → plain (if b then none else o) ≡ (if b then none else plain o)
  plain-delete true o = refl
  plain-delete false o = refl

  module _ (laws : StorageLaws inner) where
    -- Every envelope that the inner backend holds can be opened.
    record IsSealed (s : EncryptedState) : Type 0 where
      valid : laws.IsValid s.stored
      opens : (k : String) → Opens (laws.view s.stored k)

    -- Over a lawful backend the encrypted one is lawful too: encryption is invisible.
    pub encrypted_storage-laws : StorageLaws encrypted_storage
    unfolding encrypted_get encrypted_put encrypted_delete encrypted_exists
    encrypted_storage-laws = record {
      IsValid = IsSealed;
      view = λ s k. plain (laws.view s.stored k);
      init-IsValid = record { valid = laws.init-IsValid; opens = λ k. rw (laws.init-view k) tt };
      init-view = λ k. rw (laws.init-view k);
      get-view = λ s k h.
          rw (laws.get-view s.stored k h.valid)
            (Opens-decrypted (laws.view s.stored k) (h.opens k)).0;
      exists-view = λ s k h.
          rw (laws.exists-view s.stored k h.valid)
            (Opens-decrypted (laws.view s.stored k) (h.opens k)).1;
      put-IsValid = λ s k v h. record {
        valid = laws.put-IsValid s.stored k (seal s.drawn v) h.valid;
        opens = λ j.
            rw (laws.put-view s.stored k j (seal s.drawn v) h.valid)
              (Opens-put (k == j) s.drawn v (laws.view s.stored j) (h.opens j));
      };
      put-view = λ s k j v h.
          rw (laws.put-view s.stored k j (seal s.drawn v) h.valid)
            (plain-put (k == j) s.drawn v (laws.view s.stored j));
      delete-IsValid = λ s k h. record {
        valid = laws.delete-IsValid s.stored k h.valid;
        opens = λ j.
            rw (laws.delete-view s.stored k j h.valid)
              (Opens-delete (k == j) (laws.view s.stored j) (h.opens j));
      };
      delete-view = λ s k j h.
          rw (laws.delete-view s.stored k j h.valid) (plain-delete (k == j) (laws.view s.stored j));
      delete-existed = λ s k h.
          rw (laws.delete-existed s.stored k h.valid)
            (Opens-decrypted (laws.view s.stored k) (h.opens k)).1;
    }
