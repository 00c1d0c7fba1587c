-- ===== src/Certs.antt =====
-- scripts/gen_certs.py: the certificate authority of the cluster and its nodes' certificates. The
-- cryptography package is a parameter. A file under certs/ is what it is the PEM encoding of.
pub mod Layout
use secure_dynamo_kv_store.Prelude.{
  ℕ, ◌+◌, ◌*◌, ◌≡◌, String, string_eq, Bool, true, false, Option, none, some, List, [], ◌∷◌, ◌++◌,
  any, ◌==◌, if◌then◌else◌,
}
use Prim.Native.String
use secure_dynamo_kv_store.Prelude.Result.{Result, ok, raise, ◌>>=◌, os_error}
use secure_dynamo_kv_store.Dict
use secure_dynamo_kv_store.Dict.{Dict}

-- NODE_IDS
abbrev pub node_ids : List String
node_ids = "node-1" ∷ "node-2" ∷ "node-3" ∷ []

abbrev pub certs_dir : String
certs_dir = "certs"

-- VALIDITY, in seconds.
abbrev pub validity : ℕ
validity = 3650 * 86400

-- What a certificate's key may be used for.
pub record KeyUsage : Type 0 where
  pub digital_signature : Bool
  pub key_cert_sign : Bool
  pub crl_sign : Bool
  pub content_commitment : Bool
  pub key_encipherment : Bool
  pub data_encipherment : Bool
  pub key_agreement : Bool
  pub encipher_only : Bool
  pub decipher_only : Bool

-- What is signed: the fields that the builder is given. Names are common names.
pub record Contents (PublicKey : Type 0) : Type 0 where
  pub subject_name : String
  pub issuer_name : String
  pub public_key : PublicKey
  pub serial_number : ℕ
  pub not_valid_before : ℕ
  pub not_valid_after : ℕ
  pub alternative_names : Option (List String)
  pub ca : Bool
  pub key_usage : Option KeyUsage

-- What the script calls of the package. Keys and serial numbers are random: the ones of the n-th
-- certificate that is made.
pub record Cryptography : Type 1 where
  pub Key : Type 0
  pub PublicKey : Type 0
  pub Signature : Type 0
  pub generate_private_key : ℕ → Key
  pub random_serial_number : ℕ → ℕ
  pub public_key : Key → PublicKey
  pub sign : Key → Contents PublicKey → Signature
  pub verify : PublicKey → Contents PublicKey → Signature → Bool
  -- A signature passes under the public half of the key that made it.
  pub verify-sign :
      (key : Key) (contents : Contents PublicKey)
      → verify (public_key key) contents (sign key contents) ≡ true

unfoldable pub path : String → String → String
path dir name = String.◌++◌ dir (String.◌++◌ "/" name)

module _ (lib : Cryptography) where
  open lib use {
    Key, PublicKey, Signature, generate_private_key, random_serial_number, public_key, sign,
  }

  pub record Certificate : Type 0 where
    pub contents : Contents PublicKey
    pub signature : Signature

  pub data File : Type 0 where
    key_file : Key → File
    cert_file : Certificate → File

  -- The directories and files of the repository, and how many certificates have been made.
  pub record Host : Type 0 where
    pub dirs : List String
    pub files : Dict String File
    pub made : ℕ

  unfoldable pub mkdir : Host → String → Host
  mkdir host dir =
      if any (λ d. d == dir) host.dirs then host else record host { dirs = host.dirs ++ dir ∷ [] }

  -- Writing into a directory that is not there raises.
  unfoldable pub write_bytes : Host → String → String → File → Result Host
  write_bytes host dir name file =
      if any (λ d. d == dir) host.dirs
      then ok (record host { files = Dict.put host.files (path dir name) file })
      else raise os_error

  abbrev pub write_key : Host → String → String → Key → Result Host
  write_key host dir name key = write_bytes host dir name (key_file key)

  abbrev pub write_cert : Host → String → String → Certificate → Result Host
  write_cert host dir name cert = write_bytes host dir name (cert_file cert)

  abbrev pub signed : Key → Contents PublicKey → Certificate
  signed key contents = record { contents = contents; signature = sign key contents }

  unfoldable pub make_ca : ℕ → ℕ → Key × Certificate
  make_ca made now =
      let key = generate_private_key made in
      (
        key,
        signed key (record {
          subject_name = "dynamokv-cluster-ca";
          issuer_name = "dynamokv-cluster-ca";
          public_key = public_key key;
          serial_number = random_serial_number made;
          not_valid_before = now;
          not_valid_after = now + validity;
          alternative_names = none;
          ca = true;
          key_usage = some (record {
            digital_signature = true;
            key_cert_sign = true;
            crl_sign = true;
            content_commitment = false;
            key_encipherment = false;
            data_encipherment = false;
            key_agreement = false;
            encipher_only = false;
            decipher_only = false;
          });
        }),
      )

  unfoldable pub make_node_cert : ℕ → ℕ → String → Key → Certificate → Key × Certificate
  make_node_cert made now node_id ca_key ca_cert =
      let key = generate_private_key made in
      (
        key,
        signed ca_key (record {
          subject_name = node_id;
          issuer_name = ca_cert.contents.subject_name;
          public_key = public_key key;
          serial_number = random_serial_number made;
          not_valid_before = now;
          not_valid_after = now + validity;
          alternative_names = some (node_id ∷ "localhost" ∷ []);
          ca = false;
          key_usage = none;
        }),
      )

  abbrev pub made_one : Host → Host
  made_one host = record host { made = host.made + 1 }

  -- The body of the loop over NODE_IDS.
  unfoldable pub certify : (ℕ → ℕ) → Key → Certificate → Host → String → Result Host
  certify now ca_key ca_cert host node_id = do
    let node_dir = path certs_dir node_id
    let there = mkdir host node_dir
    let (node_key, node_cert) = make_node_cert there.made (now there.made) node_id ca_key ca_cert
    with_key ← write_key (made_one there) node_dir (String.◌++◌ node_id ".key") node_key
    write_cert with_key node_dir (String.◌++◌ node_id ".crt") node_cert

  unfoldable pub certify_all : (ℕ → ℕ) → Key → Certificate → Host → List String → Result Host
  certify_all now ca_key ca_cert host [] = ok host
  certify_all now ca_key ca_cert host (node_id ∷ rest) = do
    host' ← certify now ca_key ca_cert host node_id
    certify_all now ca_key ca_cert host' rest

  -- `main`, where the n-th certificate is made at the time `now n`.
  unfoldable pub generate : (ℕ → ℕ) → Host → Result Host
  generate now host =
      let there = mkdir host certs_dir in
      let (ca_key, ca_cert) = make_ca there.made (now there.made) in
      if Dict.contains host.files (path certs_dir "ca.crt") then ok host else (do
        with_key ← write_key (made_one there) certs_dir "ca.key" ca_key
        with_cert ← write_cert with_key certs_dir "ca.crt" ca_cert
        certify_all now ca_key ca_cert with_cert node_ids)
