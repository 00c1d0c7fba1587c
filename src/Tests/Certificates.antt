-- ===== src/Tests/Certificates.antt =====
-- A first run of the script that makes certificates, with a cryptography of numbers.
use secure_dynamo_kv_store.Prelude.{
  ℕ, string_eq, ◌≡◌, refl, nat_eq, ◌==◌, ==_refl, true, [], some, All,
}
use secure_dynamo_kv_store.Prelude.Result.{ok}
use secure_dynamo_kv_store.Dict
use secure_dynamo_kv_store.Certs.{
  Cryptography, node_ids, certs_dir, path, Certificate, Host, cert_file, generate,
}
use secure_dynamo_kv_store.Certs.Layout.{Certified, generate-Certified}

-- A signature is the number of the key that made it.
abbrev numbers : Cryptography
numbers = record {
  Key = ℕ;
  PublicKey = ℕ;
  Signature = ℕ;
  generate_private_key = λ made. made;
  random_serial_number = λ made. made;
  public_key = λ key. key;
  sign = λ key contents. key;
  verify = λ key contents signature. key == signature;
  verify-sign = λ key contents. ==_refl key;
}

abbrev empty : Host numbers
empty = record { dirs = []; files = []; made = 0 }

abbrev clock : ℕ → ℕ
clock made = made

generate-Certified_example :
    (host' : Host numbers) × (ca : Certificate numbers) × (generate numbers clock empty ≡ ok host')
    × (Dict.get host'.files (path certs_dir "ca.crt") ≡ some (cert_file ca))
    × (ca.contents.ca ≡ true)
    × All (Certified numbers host'.files ca) node_ids
    × (generate numbers clock host' ≡ ok host')
unfolding Dict.get
generate-Certified_example = generate-Certified numbers clock clock empty refl
