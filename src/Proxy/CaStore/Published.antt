-- ===== src/Proxy/CaStore/Published.antt =====
-- internal/proxy/mitm_ca_store.go: the two files below the CA's directory, and the CA in use.
use goper.Base.{
  Bool, List, true, false, ◌∷◌, [], Option, none, some, ◌≡◌, refl, sym, ap, subst, ◌∙◌, if_true,
  Bool-cases, inl, inr, arith,
}
use goper.Base.Chain.{◌>>=◌, or_else, >>=-eq-some}
use goper.Base.Text.{Text}
use goper.Proxy.X509.{TlsCertificate, Draws, Crypto}
use goper.Proxy.Authority.{Ca, generate_ca}
use goper.Proxy.Authority.Valid.{IsX509, IsAuthority, generate_ca-IsAuthority}
use goper.Proxy.CaStore.{
  CaDir, where_fine, WriteCourse, whole, broken, write_file, Course, write_key, write_ca_files,
  encode_ca_files, write_encoded, persist_ca, create_and_persist_ca, parse_first, parse_ca_pair,
  read_ca_pair_files, load_ca, load_or_create_at, load_or_create_ca,
}
use goper.Proxy.CaStore.Persistence.{IsKeyPair, encoded_pair}

write_ca_files-whole :
    (disk : CaDir) (course : Course) (cert_pem key_pem : Text)
    → (write_ca_files disk course cert_pem key_pem).0 ≡ true
    → (write_ca_files disk course cert_pem key_pem).1
      ≡ record { cert_file = some cert_pem; key_file = some key_pem }
unfolding write_ca_files write_key write_file
write_ca_files-whole disk course cert_pem key_pem h = go course.cert_course course.key_course h
  where
    go :
        (c k : WriteCourse)
        → let x =
            write_ca_files disk
              (record course { cert_course = c; key_course = k })
              cert_pem
              key_pem in
          x.0 ≡ true → x.1 ≡ record { cert_file = some cert_pem; key_file = some key_pem }
    go whole whole h' = refl
    go whole (broken left) h' = ground (arith, h')
    go (broken left) k h' = ground (arith, h')

-- A chain of two readings that returns a pair has read both.
both_read :
    (c k : Option Text) (files : Text × Text)
    → (c >>= λ cert_pem. k >>= λ key_pem. some (cert_pem, key_pem)) ≡ some files
    → (c ≡ some files.0) × (k ≡ some files.1)
both_read none k files h = ground (arith, h)
both_read (some c) none files h = ground (arith, h)
both_read (some c) (some k) files h =
    let e = ap (or_else (c, k)) h in
    (ap (λ (f : Text × Text). some f.0) e, ap (λ (f : Text × Text). some f.1) e)

-- A file that an operation has seen is there.
was_there :
    (fine : Bool) (file : Option Text) (seen : Text)
    → where_fine fine file ≡ some seen
    → file ≡ some seen
was_there true file seen h = h
was_there false file seen h = ground (arith, h)

module _ (crypto : Crypto) where
  -- The certificate and the key of a CA are those of its TLS pair.
  abbrev pub IsOwnPair : Ca → Type 0
  IsOwnPair ca =
      (der : Text) × (others : List Text) × (ca.tls.certificate ≡ der ∷ others)
      × (crypto.parse_certificate der ≡ some ca.cert)
      × (ca.tls.private_key ≡ ca.key)

  -- Both files are there, and their key pair is the CA's.
  abbrev pub IsPublished : Ca → CaDir → Type 0
  IsPublished ca disk =
      (cert_pem : Text) × (key_pem : Text) × (disk.cert_file ≡ some cert_pem)
      × (disk.key_file ≡ some key_pem)
      × (crypto.x509_key_pair cert_pem key_pem ≡ some ca.tls)
      × IsOwnPair ca

  parse_first-IsOwnPair :
      (tls : TlsCertificate) (chain : List Text) (ca : Ca)
      → tls.certificate ≡ chain
      → parse_first crypto tls chain ≡ some ca
      → (ca.tls ≡ tls) × IsOwnPair ca
  unfolding parse_first
  parse_first-IsOwnPair tls [] ca c h = absurd (ground (arith, h))
  parse_first-IsOwnPair tls (der ∷ others) ca c h =
      let (cert, p, e) = >>=-eq-some (crypto.parse_certificate der) _ h in
      let same = ap (or_else ca) e in
      subst (λ (made : Ca). (made.tls ≡ tls) × IsOwnPair made) same
        (refl, (der, others, c, p, refl))

  parse_ca_pair-IsOwnPair :
      (tls : TlsCertificate) (ca : Ca)
      → parse_ca_pair crypto tls ≡ some ca
      → (ca.tls ≡ tls) × IsOwnPair ca
  unfolding parse_ca_pair
  parse_ca_pair-IsOwnPair tls ca h = parse_first-IsOwnPair tls tls.certificate ca refl h

  load_ca-IsPublished :
      (disk : CaDir) (course : Course) (ca : Ca)
      → load_ca crypto disk course ≡ some ca
      → IsPublished ca disk
  unfolding load_ca read_ca_pair_files
  load_ca-IsPublished disk course ca h =
      let (files, r, h1) = >>=-eq-some (read_ca_pair_files crypto disk course) _ h in
      let (tls, x, h2) = >>=-eq-some (crypto.x509_key_pair files.0 files.1) _ h1 in
      let (c, k) =
        both_read (where_fine course.read_cert_fine disk.cert_file)
          (where_fine course.read_key_fine disk.key_file) files r in
      let (same, own) = parse_ca_pair-IsOwnPair tls ca h2 in
      (
        files.0,
        files.1,
        was_there course.read_cert_fine disk.cert_file files.0 c,
        was_there course.read_key_fine disk.key_file files.1 k,
        x ∙ ap some (sym same),
        own,
      )

  write_encoded-IsPublished :
      (disk : CaDir) (course : Course) (ca : Ca) (o : Option (Text × Text))
      → IsKeyPair crypto
      → IsAuthority crypto ca
      → encode_ca_files crypto ca ≡ o
      → (write_encoded crypto disk course o).0 ≡ true
      → IsPublished ca (write_encoded crypto disk course o).1
  unfolding write_encoded
  write_encoded-IsPublished disk course ca none pair authority e h = ground (arith, h)
  write_encoded-IsPublished disk course ca (some files) pair authority e h =
      subst (IsPublished ca) (sym (write_ca_files-whole disk course files.0 files.1 h)) (
        files.0,
        files.1,
        refl,
        refl,
        encoded_pair crypto ca files pair authority e,
        (ca.cert.raw, [], authority.chain, authority.parses, authority.same_key),
      )

  persist_ca-IsPublished :
      (disk : CaDir) (course : Course) (ca : Ca)
      → IsKeyPair crypto
      → IsAuthority crypto ca
      → (persist_ca crypto disk course ca).0 ≡ true
      → IsPublished ca (persist_ca crypto disk course ca).1
  unfolding persist_ca
  persist_ca-IsPublished disk course ca pair authority h = elim (Bool-cases course.mkdir_fine) [
    | inr refused ↦ absurd (ground (arith, h, refused))
    | inl made ↦
        let e =
          if_true course.mkdir_fine (write_encoded crypto disk course (encode_ca_files crypto ca))
            (false, disk) made in
        subst (λ x. IsPublished ca x.1) (sym e)
          (write_encoded-IsPublished disk course ca _ pair authority refl
            (ap (λ x. x.0) (sym e) ∙ h))
  ]

  create-IsPublished :
      (disk : CaDir) (course : Course) (draws : Draws) (o : Option Ca) (ca : Ca)
      → IsX509 crypto
      → IsKeyPair crypto
      → generate_ca crypto draws ≡ o
      → (create_and_persist_ca crypto disk course o).0 ≡ some ca
      → IsPublished ca (create_and_persist_ca crypto disk course o).1
  unfolding create_and_persist_ca
  create-IsPublished disk course draws none ca x pair g h = ground (arith, h)
  create-IsPublished disk course draws (some made) ca x pair g h =
      elim (Bool-cases (persist_ca crypto disk course made).0) [
        | inr failed ↦ absurd (ground (arith, h, failed))
        | inl fine ↦
            let same : made ≡ ca = ap (or_else ca) (sym (if_true _ (some made) none fine) ∙ h) in
            subst (λ c. IsPublished c (persist_ca crypto disk course made).1) same
              (persist_ca-IsPublished disk course made pair
                (generate_ca-IsAuthority crypto draws made x g) fine)
      ]

  -- Whatever stood in the directory, and however writing to it goes: when a CA is loaded or created,
  -- its two files are there, and its certificate and key are those of the pair in them.
  pub load_or_create_ca-IsPublished :
      (disk : CaDir) (course : Course) (draws : Draws) (ca : Ca)
      → IsX509 crypto
      → IsKeyPair crypto
      → (load_or_create_ca crypto disk course draws).0 ≡ some ca
      → IsPublished ca (load_or_create_ca crypto disk course draws).1
  unfolding load_or_create_ca load_or_create_at
  load_or_create_ca-IsPublished disk course draws ca x pair h =
      go (where_fine course.stat_fine disk.cert_file) h
    where
      go :
          (o : Option Text)
          → (load_or_create_at crypto disk course draws o).0 ≡ some ca
          → IsPublished ca (load_or_create_at crypto disk course draws o).1
      go none h' = create-IsPublished disk course draws _ ca x pair refl h'
      go (some cert_pem) h' = load_ca-IsPublished disk course ca h'
