-- ===== src/Proxy/CaStore/Persistence.antt =====
-- internal/proxy/mitm_ca_store.go: what later starts find of a CA that was created.
use goper.Base.{Bool-cases, inl, inr, true, ap, sym, ◌∙◌, [], ◌∷◌, none, some, ◌≡◌, refl}
use goper.Base.Text.{Text, codes}
use goper.Base.Chain.{or_else, >>=-eq-some}
use goper.Proxy.X509.{Key, X509, Draws, Crypto}
use goper.Proxy.Authority.{Ca, generate_ca}
use goper.Proxy.Authority.Valid.{IsX509, IsAuthority, generate_ca-IsAuthority}
use goper.Proxy.CaStore.{
  CaDir, whole, broken, write_file, Course, write_key, write_ca_files, encode_ca_key_pem,
  encode_ca_files, write_encoded, persist_ca, create_and_persist_ca, parse_first, parse_ca_pair,
  read_ca_pair_files, load_ca, load_or_create_at, load_or_create_ca,
}

-- A directory without a CA.
abbrev pub no_ca : CaDir
no_ca = record { cert_file = none; key_file = none }

abbrev pub smooth : Course
smooth = record {
  stat_fine = true;
  read_cert_fine = true;
  read_key_fine = true;
  mkdir_fine = true;
  cert_course = whole;
  key_course = whole;
}

-- The files that are there can be found and read.
abbrev pub IsReadable : Course → Type 0
IsReadable course =
    (course.stat_fine ≡ true) × (course.read_cert_fine ≡ true) × (course.read_key_fine ≡ true)

-- A key pair that was encoded as PEM is read back, if the certificate is that of the key.
pub record IsKeyPair (crypto : Crypto) : Type 0 where
  pub read_back :
      (der key_bytes cert_pem key_pem : Text) (key : Key) (cert : X509)
      → crypto.pem_encode der (codes "CERTIFICATE") ≡ some cert_pem
      → crypto.marshal_ec_private_key key ≡ some key_bytes
      → crypto.pem_encode key_bytes (codes "EC PRIVATE KEY") ≡ some key_pem
      → crypto.parse_certificate der ≡ some cert
      → crypto.public_of key ≡ cert.public_key
      → crypto.x509_key_pair cert_pem key_pem
        ≡ some (record { certificate = der ∷ []; private_key = key })

module _ (crypto : Crypto) where
  -- The two files of a CA are read back as its TLS pair.
  pub encoded_pair :
      (ca : Ca) (files : Text × Text)
      → IsKeyPair crypto
      → IsAuthority crypto ca
      → encode_ca_files crypto ca ≡ some files
      → crypto.x509_key_pair files.0 files.1 ≡ some ca.tls
  unfolding encode_ca_files encode_ca_key_pem
  encoded_pair ca files pair authority h =
      let (cert_pem, c, h1) =
        >>=-eq-some (crypto.pem_encode ca.cert.raw (codes "CERTIFICATE")) _ h in
      let (key_pem, k, h2) = >>=-eq-some (encode_ca_key_pem crypto ca) _ h1 in
      let (key_bytes, m, p) = >>=-eq-some (crypto.marshal_ec_private_key ca.key) _ k in
      let same = ap (or_else files) h2 in
      ap (λ (f : Text × Text). crypto.x509_key_pair f.0 f.1) (sym same)
      ∙ pair.read_back ca.cert.raw key_bytes cert_pem key_pem ca.key ca.cert c m p authority.parses
          authority.signer.paired
      ∙ ap (λ c. some (record { certificate = c; private_key = ca.key })) (sym authority.chain)
      ∙ ap (λ k. some (record { certificate = ca.tls.certificate; private_key = k }))
          (sym authority.same_key)

  parse_ca_pair-tls : (ca : Ca) → IsAuthority crypto ca → parse_ca_pair crypto ca.tls ≡ some ca
  unfolding parse_ca_pair parse_first
  parse_ca_pair-tls ca authority =
      ap (parse_first crypto ca.tls) authority.chain
      ∙ rw authority.parses (
          ap (λ k. some (record ca { key = k; cert_pool = ca.cert ∷ [] })) authority.same_key
          ∙ ap (λ p. some (record ca { cert_pool = p })) (sym authority.pool))

  load_ca-stored :
      (ca : Ca) (files : Text × Text) (course : Course)
      → IsKeyPair crypto
      → IsAuthority crypto ca
      → encode_ca_files crypto ca ≡ some files
      → IsReadable course
      → load_ca crypto (record { cert_file = some files.0; key_file = some files.1 }) course
        ≡ some ca
  unfolding load_ca read_ca_pair_files
  load_ca-stored ca files course pair authority e readable =
      rw (readable.1, readable.2, encoded_pair ca files pair authority e)
        (parse_ca_pair-tls ca authority)

  -- A CA that was generated, encoded and stored is the one that every later start loads that can
  -- find and read the two files, whatever it would generate itself; the directory then stays as it is.
  pub load-create :
      (made draws : Draws) (ca : Ca) (files : Text × Text) (course : Course)
      → IsX509 crypto
      → IsKeyPair crypto
      → generate_ca crypto made ≡ some ca
      → encode_ca_files crypto ca ≡ some files
      → IsReadable course
      → let first = load_or_create_ca crypto no_ca smooth made in
        let later = load_or_create_ca crypto first.1 course draws in
        (first.0 ≡ some ca) × (later.0 ≡ some ca) × (later.1 ≡ first.1)
  unfolding load_or_create_ca load_or_create_at create_and_persist_ca persist_ca write_encoded
      write_ca_files write_key write_file load_ca read_ca_pair_files
  load-create made draws ca files course x pair g e readable =
      rw (g, e, readable.0)
        (
          refl,
          load_ca-stored ca files course pair (generate_ca-IsAuthority crypto made ca x g) e
              readable,
          refl,
        )

  unread :
      (course : Course) (cert_pem : Text)
      → load_ca crypto (record { cert_file = some cert_pem; key_file = none }) course ≡ none
  unfolding load_ca read_ca_pair_files
  unread course cert_pem = elim (Bool-cases course.read_cert_fine) [
    | inl c ↦
        rw c (elim (Bool-cases course.read_key_fine) [ inl k ↦ rw k refl | inr k ↦ rw k refl ])
    | inr c ↦ rw c refl
  ]

  -- When the certificate is written and the key is not, this start fails, and so does every later
  -- one that finds the certificate's file, whether it can read it or not: the file keeps it from
  -- creating a CA, and the key is missing.
  pub lost_key :
      (made draws : Draws) (ca : Ca) (files : Text × Text) (course : Course)
      → generate_ca crypto made ≡ some ca
      → encode_ca_files crypto ca ≡ some files
      → course.stat_fine ≡ true
      → let first =
          load_or_create_ca crypto no_ca (record smooth { key_course = broken none }) made in
        let later = load_or_create_ca crypto first.1 course draws in
        (first.0 ≡ none) × (later.0 ≡ none) × (later.1 ≡ first.1)
  unfolding load_or_create_ca load_or_create_at create_and_persist_ca persist_ca write_encoded
      write_ca_files write_key write_file load_ca read_ca_pair_files
  lost_key made draws ca files course g e found =
      rw (g, e, found) (refl, unread course files.0, refl)
