-- ===== src/Certs/Layout.antt =====
-- scripts/gen_certs.py: what a run leaves under certs/, and running it again.
use secure_dynamo_kv_store.Prelude.{
  ℕ, ◌+◌, ◌≡◌, refl, String, string_eq, true, false, some, List, [], ◌∷◌, ◌++◌, any, All, In, ◌==◌,
  ==_refl, Bool-cases, inl, inr, arith, any_of_In, In-append_right, here,
}
use Prim.Native.String
use secure_dynamo_kv_store.Prelude.Result.{ok}
use secure_dynamo_kv_store.Dict
use secure_dynamo_kv_store.Dict.{Dict, or_else}
use secure_dynamo_kv_store.Certs.{
  Cryptography, node_ids, certs_dir, path, Certificate, File, key_file, cert_file, Host, mkdir,
  write_bytes, make_ca, make_node_cert, certify, certify_all, generate,
}

any-append-last : (xs : List String) (x : String) → any (λ d. d == x) (xs ++ x ∷ []) ≡ true
any-append-last xs x =
    any_of_In (λ d. d == x) (xs ++ x ∷ []) (In-append_right xs (here refl)) (==_refl x)

module _ (lib : Cryptography) where
  open lib use {Key, public_key, verify, verify-sign}

  mkdir-made :
      (host : Host lib) (dir : String) → any (λ d. d == dir) (mkdir lib host dir).dirs ≡ true
  unfolding mkdir
  mkdir-made host dir = elim (Bool-cases (any (λ d. d == dir) host.dirs)) [
    | inl s ↦ rw s s
    | inr s ↦ rw s (any-append-last host.dirs dir)
  ]

  mkdir-files : (host : Host lib) (dir : String) → (mkdir lib host dir).files ≡ host.files
  unfolding mkdir
  mkdir-files host dir = ground arith

  mkdir-num : (host : Host lib) (dir : String) → (mkdir lib host dir).made ≡ host.made
  unfolding mkdir
  mkdir-num host dir = ground arith

  -- What the two writes of a member leave.
  abbrev with_member : (ℕ → ℕ) → Key → Certificate lib → Host lib → String → Host lib
  with_member now k ca host node_id = record {
    dirs = (mkdir lib host (path certs_dir node_id)).dirs;
    files =
        Dict.put
          (Dict.put host.files (path (path certs_dir node_id) (String.◌++◌ node_id ".key"))
            (key_file (make_node_cert lib host.made (now host.made) node_id k ca).0))
          (path (path certs_dir node_id) (String.◌++◌ node_id ".crt"))
          (cert_file (make_node_cert lib host.made (now host.made) node_id k ca).1);
    made = host.made + 1;
  }

  certify_lem :
      (now : ℕ → ℕ) (k : Key) (ca : Certificate lib) (host : Host lib) (node_id : String)
      → certify lib now k ca host node_id ≡ ok (with_member now k ca host node_id)
  unfolding certify write_bytes
  certify_lem now k ca host node_id =
      rw (mkdir-files host (path certs_dir node_id), mkdir-num host (path certs_dir node_id))
        (rw (mkdir-made host (path certs_dir node_id))
          (rw (mkdir-made host (path certs_dir node_id))))

  -- What a run leaves where there was no authority.
  abbrev with_authority : (ℕ → ℕ) → Host lib → Host lib
  with_authority now host = record {
    dirs = (mkdir lib host certs_dir).dirs;
    files =
        Dict.put
          (Dict.put host.files (path certs_dir "ca.key")
            (key_file (make_ca lib host.made (now host.made)).0))
          (path certs_dir "ca.crt") (cert_file (make_ca lib host.made (now host.made)).1);
    made = host.made + 1;
  }

  abbrev with_all : (ℕ → ℕ) → Key → Certificate lib → Host lib → List String → Host lib
  with_all now k ca host [] = host
  with_all now k ca host (node_id ∷ rest) =
      with_all now k ca (with_member now k ca host node_id) rest

  certify_all_lem :
      (now : ℕ → ℕ) (k : Key) (ca : Certificate lib) (host : Host lib) (ids : List String)
      → certify_all lib now k ca host ids ≡ ok (with_all now k ca host ids)
  unfolding certify_all
  certify_all_lem now k ca host [] = refl
  certify_all_lem now k ca host (node_id ∷ rest) =
      rw (certify_lem now k ca host node_id)
        (certify_all_lem now k ca (with_member now k ca host node_id) rest)

  abbrev generated : (ℕ → ℕ) → Host lib → Host lib
  generated now host =
      let (key, ca) = make_ca lib host.made (now host.made) in
      with_all now key ca (with_authority now host) node_ids

  generate_lem :
      (now : ℕ → ℕ) (host : Host lib)
      → Dict.contains host.files (path certs_dir "ca.crt") ≡ false
      → generate lib now host ≡ ok (generated now host)
  unfolding generate write_bytes
  generate_lem now host h =
      rw (h, mkdir-files host certs_dir, mkdir-num host certs_dir)
        (rw (mkdir-made host certs_dir) (
          rw (mkdir-made host certs_dir)
            (certify_all_lem now _ _ (with_authority now host) node_ids)))

  -- The files of a member whose certificate the authority `ca` has signed.
  pub record Certified (files : Dict String (File lib)) (ca : Certificate lib) (node_id : String)
      : Type 0 where
    pub key : Key
    pub cert : Certificate lib
    pub key_at :
        Dict.get files (path (path certs_dir node_id) (String.◌++◌ node_id ".key"))
        ≡ some (key_file key)
    pub cert_at :
        Dict.get files (path (path certs_dir node_id) (String.◌++◌ node_id ".crt"))
        ≡ some (cert_file cert)
    pub subject : cert.contents.subject_name ≡ node_id
    pub issuer : cert.contents.issuer_name ≡ ca.contents.subject_name
    pub own_key : cert.contents.public_key ≡ public_key key
    pub no_ca : cert.contents.ca ≡ false
    pub dns : In node_id (or_else cert.contents.alternative_names [])
    pub trusted : verify ca.contents.public_key cert.contents cert.signature ≡ true

  ca_at :
      (now : ℕ → ℕ) (host : Host lib)
      → Dict.get (generated now host).files (path certs_dir "ca.crt")
        ≡ some (cert_file (make_ca lib host.made (now host.made)).1)
  unfolding path
  ca_at now host = simp (Dict.get-put)

  -- A member whose two files hold what `_make_node_cert` has made with the authority's key.
  member-Certified :
      (files : Dict String (File lib)) (made time made' time' : ℕ) (node_id : String)
      → let (ca_key, ca) = make_ca lib made time in
        let (key, cert) = make_node_cert lib made' time' node_id ca_key ca in
        (Dict.get files (path (path certs_dir node_id) (String.◌++◌ node_id ".key"))
            ≡ some (key_file key))
          × (Dict.get files (path (path certs_dir node_id) (String.◌++◌ node_id ".crt"))
              ≡ some (cert_file cert))
        → Certified files ca node_id
  unfolding make_ca make_node_cert
  member-Certified files made time made' time' node_id (key_at, cert_at) = record {
    key = _;
    cert = _;
    key_at = key_at;
    cert_at = cert_at;
    subject = refl;
    issuer = refl;
    own_key = refl;
    no_ca = refl;
    dns = here refl;
    trusted = verify-sign _ _;
  }

  generated-Certified :
      (now : ℕ → ℕ) (host : Host lib)
      → All
          (Certified (generated now host).files (make_ca lib host.made (now host.made)).1)
          node_ids
  unfolding path
  generated-Certified now host =
      let each = λ (made : ℕ) (node_id : String).
        member-Certified (generated now host).files host.made (now host.made) made (now made)
          node_id in
      (
        each (host.made + 1) "node-1" (simp (Dict.get-put), simp (Dict.get-put)),
        (
          each (host.made + 1 + 1) "node-2" (simp (Dict.get-put), simp (Dict.get-put)),
          (each (host.made + 1 + 1 + 1) "node-3" (simp (Dict.get-put), simp (Dict.get-put)), tt),
        ),
      )

  -- Where there is no ca.crt, a run of `generate` succeeds. It leaves there the certificate of an
  -- authority, and for each node a key and a certificate in its directory: the certificate is for
  -- the node's name, also as a DNS name, and for that key, names the authority as its issuer, may
  -- not sign others, and has a signature that passes under the authority's key. A second run
  -- changes nothing.
  pub generate-Certified :
      (now later : ℕ → ℕ) (host : Host lib)
      → Dict.contains host.files (path certs_dir "ca.crt") ≡ false
      → (host' : Host lib) × (ca : Certificate lib) × (generate lib now host ≡ ok host')
        × (Dict.get host'.files (path certs_dir "ca.crt") ≡ some (cert_file ca))
        × (ca.contents.ca ≡ true)
        × All (Certified host'.files ca) node_ids
        × (generate lib later host' ≡ ok host')
  unfolding make_ca
  generate-Certified now later host fresh = (
    generated now host,
    (make_ca lib host.made (now host.made)).1,
    generate_lem now host fresh,
    ca_at now host,
    refl,
    generated-Certified now host,
    unfold generate in rw (ca_at now host),
  )
