-- ===== src/Proxy/CaStore.antt =====
-- internal/proxy/mitm_ca_store.go: the CA's key pair on disk. An error is `none`, or false beside
-- the disk that it leaves.
pub mod Persistence
pub mod Published
use goper.Base.{Bool, true, false, List, [], ◌∷◌, Option, none, some, if◌then◌else◌}
use goper.Base.Chain.{◌>>=◌}
use goper.Base.Text.{Text, codes}
use goper.Proxy.X509.{TlsCertificate, Draws, Crypto}
use goper.Proxy.Authority.{Ca, generate_ca}

-- The two files below the CA directory, `none` where there is none.
pub record CaDir : Type 0 where
  pub cert_file : Option Text
  pub key_file : Option Text

-- How `os.WriteFile` goes: the whole file, or an error that leaves this behind.
pub data WriteCourse : Type 0 where
  whole : WriteCourse
  broken : Option Text → WriteCourse

unfoldable pub write_file : WriteCourse → Text → Bool × Option Text
write_file whole data' = (true, some data')
write_file (broken left) data' = (false, left)

-- How the operations on the file system go while a CA is loaded or stored: whether `os.Stat` and
-- `os.ReadFile` work on a file that is there, and how the directory and the files are written.
pub record Course : Type 0 where
  pub stat_fine : Bool
  pub read_cert_fine : Bool
  pub read_key_fine : Bool
  pub mkdir_fine : Bool
  pub cert_course : WriteCourse
  pub key_course : WriteCourse

unfoldable pub write_key : CaDir → Course → Text → Bool × CaDir
write_key disk course key_pem =
    let (fine, file) = write_file course.key_course key_pem in
    (fine, record disk { key_file = file })

unfoldable pub write_ca_files : CaDir → Course → Text → Text → Bool × CaDir
write_ca_files disk course cert_pem key_pem =
    let (fine, file) = write_file course.cert_course cert_pem in
    let with_cert = record disk { cert_file = file } in
    let rest = write_key with_cert course key_pem in if fine then rest else (false, with_cert)

-- A file, as an operation sees it that works or fails.
abbrev pub where_fine : Bool → Option Text → Option Text
where_fine fine file = if fine then file else none

module _ (crypto : Crypto) where
  unfoldable pub encode_ca_key_pem : Ca → Option Text
  encode_ca_key_pem ca = do
    key_bytes ← crypto.marshal_ec_private_key ca.key
    crypto.pem_encode key_bytes (codes "EC PRIVATE KEY")

  -- The files of the certificate and of the key.
  unfoldable pub encode_ca_files : Ca → Option (Text × Text)
  encode_ca_files ca = do
    cert_pem ← crypto.pem_encode ca.cert.raw (codes "CERTIFICATE")
    key_pem ← encode_ca_key_pem ca
    some (cert_pem, key_pem)

  unfoldable pub write_encoded : CaDir → Course → Option (Text × Text) → Bool × CaDir
  write_encoded disk course none = (false, disk)
  write_encoded disk course (some (cert_pem, key_pem)) = write_ca_files disk course cert_pem key_pem

  unfoldable pub persist_ca : CaDir → Course → Ca → Bool × CaDir
  persist_ca disk course ca =
      if course.mkdir_fine then write_encoded disk course (encode_ca_files ca) else (false, disk)

  -- The CA and the disk.
  unfoldable pub create_and_persist_ca : CaDir → Course → Option Ca → Option Ca × CaDir
  create_and_persist_ca disk course none = (none, disk)
  create_and_persist_ca disk course (some ca) =
      let (fine, disk') = persist_ca disk course ca in (if fine then some ca else none, disk')

  -- `tlsCert.Certificate[0]` is there: a pair that X509KeyPair returns has a certificate.
  unfoldable pub parse_first : TlsCertificate → List Text → Option Ca
  parse_first tls_cert [] = none
  parse_first tls_cert (der ∷ others) = do
    cert ← crypto.parse_certificate der
    some (record { cert = cert; key = tls_cert.private_key; tls = tls_cert; cert_pool = cert ∷ [] })

  unfoldable pub parse_ca_pair : TlsCertificate → Option Ca
  unfolding parse_first
  parse_ca_pair tls_cert = parse_first tls_cert tls_cert.certificate

  unfoldable pub read_ca_pair_files : CaDir → Course → Option (Text × Text)
  read_ca_pair_files disk course = do
    cert_pem ← where_fine course.read_cert_fine disk.cert_file
    key_pem ← where_fine course.read_key_fine disk.key_file
    some (cert_pem, key_pem)

  unfoldable pub load_ca : CaDir → Course → Option Ca
  load_ca disk course = do
    files ← read_ca_pair_files disk course
    tls_cert ← crypto.x509_key_pair files.0 files.1
    parse_ca_pair tls_cert

  -- Where the certificate's file is found, the key pair is loaded; an error of `os.Stat` is taken for
  -- a file that is not there.
  unfoldable pub load_or_create_at : CaDir → Course → Draws → Option Text → Option Ca × CaDir
  load_or_create_at disk course draws none =
      create_and_persist_ca disk course (generate_ca crypto draws)
  load_or_create_at disk course draws (some cert_pem) = (load_ca disk course, disk)

  unfoldable pub load_or_create_ca : CaDir → Course → Draws → Option Ca × CaDir
  unfolding load_or_create_at
  load_or_create_ca disk course draws =
      load_or_create_at disk course draws (where_fine course.stat_fine disk.cert_file)
