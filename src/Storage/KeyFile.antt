-- ===== src/Storage/KeyFile.antt =====
-- src/dynamokv/crypto.py: the key file of a node.
use secure_dynamo_kv_store.Prelude.{Option, none, some}

-- The key and what the file holds afterwards; `generated` is the key that AESGCM.generate_key makes.
unfoldable pub load_or_create_encryption_key :
    {Bytes : Type 0} → Bytes → Option Bytes → Bytes × Option Bytes
load_or_create_encryption_key generated (some key) = (key, some key)
load_or_create_encryption_key generated none = (generated, some generated)
