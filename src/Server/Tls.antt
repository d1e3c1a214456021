-- ===== src/Server/Tls.antt =====
-- pkg/server/tls.go: certificates that are read again when their files change. Reading a file, the
-- hash, and the parsing of certificates are parameters.
pub mod Laws
pub mod Expiry
pub mod Gauges
pub mod Closing
pub mod Watcher
use kiam.Base.{ℕ, ◌≡◌, ◌++◌, Bool, true, false, Option, none, some, List, [], ◌∷◌, if◌then◌else◌}
use kiam.Base.Text.{Text, codes}
use kiam.Base.Outcome.{other, error_text, Outcome, ok, err, panic, Error, ◌>>=◌}

-- What the packages crypto, fnv and the file system do for `read`.
pub record Tools : Type 1 where
  pub Cert : Type 0
  pub Pool : Type 0
  -- tls.X509KeyPair and x509.ParseCertificate of its leaf
  pub x509_key_pair : Text → Text → Outcome Cert
  pub parse_leaf : Cert → Outcome Cert
  -- AppendCertsFromPEM on a new pool; `none` where it reports false
  pub append_certs : Text → Option Pool
  pub Hash : Type 0
  pub sum : Text → Hash
  pub same_hash : Hash → Hash → Bool
  pub zero_hash : Hash

-- The contents of the three files, or what reading them fails with.
pub record Files : Type 0 where
  pub cert_file : Outcome Text
  pub key_file : Outcome Text
  pub ca_file : Outcome Text

-- fmt.Errorf("…: %v", err)
unfoldable explained : {A : Type 0} → Text → Outcome A → Outcome A
unfolding error_text
explained text (ok a) = ok a
explained text (err e) = err (other (text ++ error_text e))
explained text panic = panic

unfoldable pub read_all : Files → Outcome (Text × Text × Text)
unfolding explained
read_all files = do
  cert ← explained (codes "error reading TLS cert: ") files.cert_file
  key ← explained (codes "error reading TLS key: ") files.key_file
  ca ← explained (codes "error reading TLS CAs: ") files.ca_file
  ok (cert, key, ca)

module _ (t : Tools) where
  pub record TlsCerts : Type 0 where
    pub cert : t.Cert
    pub pool : t.Pool

  -- The argument of a call of notifyFn.
  pub data Notice : Type 0 where
    updated : TlsCerts → Notice
    failed : Error → Notice

  -- dynamicTLSConfig; `notices` are the calls of notifyFn, the latest first.
  pub record DynamicTlsConfig : Type 0 where
    pub latest : Option TlsCerts
    pub hash : t.Hash
    pub notices : List Notice

  pub parse : Text → Text → Text → Outcome TlsCerts
  unfolding explained
  parse cert key ca = do
    pair ← explained (codes "error parsing TLS keypair: ") (t.x509_key_pair cert key)
    leaf ← explained (codes "error parsing TLS leaf cert: ") (t.parse_leaf pair)
    pool ← elim (t.append_certs ca) [
      | none ↦ err (other (codes "error parsing TLS CAs"))
      | some p ↦ ok p
    ]
    ok (record { cert = leaf; pool = pool })

  -- The end of `read`: a new configuration, or an error that leaves the certificates alone.
  pub store : Outcome TlsCerts → DynamicTlsConfig → Outcome (Unit {0}) × DynamicTlsConfig
  store (ok certs) cfg =
      (ok tt, record cfg { latest = some certs; notices = updated certs ∷ cfg.notices })
  store (err e) cfg = (err e, cfg)
  store panic cfg = (panic, cfg)

  -- `read` from the hash on. The hash is set before anything is parsed.
  load : Text → Text → Text → DynamicTlsConfig → Outcome (Unit {0}) × DynamicTlsConfig
  unfolding parse store
  load cert key ca cfg =
      let sum = t.sum (cert ++ (key ++ ca)) in
      if t.same_hash cfg.hash sum
      then (ok tt, cfg)
      else store (parse cert key ca) (record cfg { hash = sum })

  load_all : Outcome (Text × Text × Text) → DynamicTlsConfig → Outcome (Unit {0}) × DynamicTlsConfig
  unfolding load
  load_all (ok (cert, key, ca)) cfg = load cert key ca cfg
  load_all (err e) cfg = (err e, cfg)
  load_all panic cfg = (panic, cfg)

  -- dynamicTLSConfig.read
  pub read : Files → DynamicTlsConfig → Outcome (Unit {0}) × DynamicTlsConfig
  unfolding read_all load_all
  read files cfg = load_all (read_all files) cfg

  -- newDynamicTLSConfig, once the watcher is there: a first read that fails makes no configuration.
  pub constructed : Outcome (Unit {0}) × DynamicTlsConfig → Outcome DynamicTlsConfig
  constructed (ok _, cfg) = ok cfg
  constructed (err e, cfg) = err e
  constructed (panic, cfg) = panic

  unfoldable pub new_dynamic_tls_config : Files → Outcome DynamicTlsConfig
  unfolding read constructed
  new_dynamic_tls_config files =
      constructed (read files (record { latest = none; hash = t.zero_hash; notices = [] }))

  -- Load panics on a configuration that has not stored anything.
  load_certs : DynamicTlsConfig → Outcome TlsCerts
  load_certs cfg = elim cfg.latest [ none ↦ panic | some certs ↦ ok certs ]

  unfoldable load_cert : DynamicTlsConfig → Outcome t.Cert
  unfolding load_certs
  load_cert cfg = do certs ← load_certs cfg; ok certs.cert

  unfoldable load_ca_certs : DynamicTlsConfig → Outcome t.Pool
  unfolding load_certs
  load_ca_certs cfg = do certs ← load_certs cfg; ok certs.pool

  -- One event of the watch loop, at which the files hold `files`; a failed read is notified.
  noticed : Outcome (Unit {0}) × DynamicTlsConfig → DynamicTlsConfig
  noticed (ok _, cfg) = cfg
  noticed (err e, cfg) = record cfg { notices = failed e ∷ cfg.notices }
  noticed (panic, cfg) = cfg

  pub on_event : Files → DynamicTlsConfig → DynamicTlsConfig
  unfolding read noticed
  on_event files cfg = noticed (read files cfg)

  -- The watch loop over the contents of the files at each event.
  pub watch : List Files → DynamicTlsConfig → DynamicTlsConfig
  unfolding on_event
  watch [] cfg = cfg
  watch (files ∷ rest) cfg = watch rest (on_event files cfg)

  -- The gauge tls_certificate_update_error that notifyFunc sets: 1 on an error, 0 on an update.
  pub update_error : List Notice → ℕ
  update_error [] = 0
  update_error (updated certs ∷ rest) = 0
  update_error (failed e ∷ rest) = 1
