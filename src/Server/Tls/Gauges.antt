-- ===== src/Server/Tls/Gauges.antt =====
-- The gauges of pkg/server/tls.go: notifyFunc and earliestExpiry. The verification of certificates is
-- a parameter, and a time is a number, 0 the zero time.
use kiam.Base.{ℕ, ◌≤◌, ◌≡◌, ◌⊎◌, inl, inr, refl, Option, none, some, Option-cases, List, [], ◌∷◌}
use kiam.Base.Lists.{All}
use kiam.Base.Text.{Text}
use kiam.Base.Outcome.{ok, Error}
use kiam.Server.Tls.{
  Tools, Files, TlsCerts, Notice, updated, failed, DynamicTlsConfig, new_dynamic_tls_config, watch,
  read_all,
}
use kiam.Server.Tls.Laws.{always, Fresh}
use kiam.Server.Tls.Expiry.{over_chains, NonZero, OccursIn, earliest_expiry_least}

-- How parsing or verifying a certificate ends.
pub data Checked (A : Type 0) : Type 0 where
  passed : A → Checked A
  refused : Error → Checked A

-- What the package x509 does with a certificate: its leaf if it is there, ParseCertificate of its
-- first part, NotAfter, and Verify with the chains' NotAfters.
pub record X509 (t : Tools) : Type 1 where
  pub Leaf : Type 0
  pub leaf : t.Cert → Option Leaf
  pub parse_certificate : t.Cert → Checked Leaf
  pub not_after : Leaf → ℕ
  pub verify : Leaf → t.Pool → Checked (List (List ℕ))

-- tlsMetrics
pub record Gauges : Type 0 where
  pub update_error : ℕ
  pub verify_error : ℕ
  pub expiration : ℕ

abbrev pub unset : Gauges
unset = record { update_error = 0; verify_error = 0; expiration = 0 }

module _ (t : Tools) (x : X509 t) where
  verified : x.Leaf → t.Pool → ℕ × Option Error
  verified leaf pool = elim (x.verify leaf pool) [
    | refused e ↦ (x.not_after leaf, some e)
    | passed chains ↦ (over_chains 0 chains, none)
  ]

  -- earliestExpiry: a time, and an error if there is one.
  pub earliest_expiry : t.Cert → t.Pool → ℕ × Option Error
  unfolding verified
  earliest_expiry cert pool = elim (x.leaf cert) [
    | some leaf ↦ verified leaf pool
    | none ↦ elim (x.parse_certificate cert) [
      | refused e ↦ (0, some e)
      | passed leaf ↦ verified leaf pool
    ]
  ]

  pub verify_gauge : Option Error → ℕ
  verify_gauge none = 0
  verify_gauge (some e) = 1

  -- The function that notifyFunc returns.
  notify : Notice t → Gauges → Gauges
  unfolding earliest_expiry verify_gauge
  notify (failed e) g = record g { update_error = 1 }
  notify (updated certs) g =
      let (expiry, error) = earliest_expiry certs.cert certs.pool in
      record { update_error = 0; verify_error = verify_gauge error; expiration = expiry }

  -- The gauges after some calls, the latest first.
  pub gauges : List (Notice t) → Gauges
  unfolding notify
  gauges [] = unset
  gauges (n ∷ earlier) = notify n (gauges earlier)

  -- The leaf that is verified: the certificate's own, or its first part's.
  abbrev pub IsLeaf : t.Cert → x.Leaf → Type 0
  IsLeaf cert leaf =
      (x.leaf cert ≡ some leaf) ⊎ ((x.leaf cert ≡ none) × (x.parse_certificate cert ≡ passed leaf))

  -- What the gauges of expiry and of verification are for certificates: 1 if there is no leaf, with no
  -- time, or if the leaf does not verify, with its NotAfter; and 0 if it does, with the earliest
  -- NotAfter on the chains, if there is one and none is the zero time.
  pub data Pictures (certs : TlsCerts t) (expiration verify_error : ℕ) : Type 0 where
    no_leaf :
        (e : Error)
        → x.leaf certs.cert ≡ none
        → x.parse_certificate certs.cert ≡ refused e
        → expiration ≡ 0
        → verify_error ≡ 1
        → Pictures certs expiration verify_error
    unverified :
        (leaf : x.Leaf) (e : Error)
        → IsLeaf certs.cert leaf
        → x.verify leaf certs.pool ≡ refused e
        → expiration ≡ x.not_after leaf
        → verify_error ≡ 1
        → Pictures certs expiration verify_error
    verifies :
        (leaf : x.Leaf) (chains : List (List ℕ))
        → IsLeaf certs.cert leaf
        → x.verify leaf certs.pool ≡ passed chains
        → ((time : ℕ)
            → All (All NonZero) chains
            → OccursIn time chains
            → OccursIn expiration chains × All (All (λ other. expiration ≤ other)) chains)
        → verify_error ≡ 0
        → Pictures certs expiration verify_error

  checked-cases :
      {A : Type 0} (c : Checked A) → ((a : A) × (c ≡ passed a)) ⊎ ((e : Error) × (c ≡ refused e))
  checked-cases (passed a) = inl (a, refl)
  checked-cases (refused e) = inr (e, refl)

  -- The two gauges that an update sets.
  abbrev Set : TlsCerts t → ℕ × Option Error → Type 0
  Set certs r = Pictures certs r.0 (verify_gauge r.1)

  verified-Pictures :
      (certs : TlsCerts t) (leaf : x.Leaf)
      → IsLeaf certs.cert leaf
      → Set certs (verified leaf certs.pool)
  unfolding verified verify_gauge
  verified-Pictures certs leaf is_leaf = elim (checked-cases (x.verify leaf certs.pool)) [
    | inl (chains, e) ↦
        rw (e, verified) (verifies leaf chains is_leaf e (earliest_expiry_least chains) refl)
    | inr (d, e) ↦ rw (e, verified) (unverified leaf d is_leaf e refl refl)
  ]

  earliest_expiry-Pictures :
      (certs : TlsCerts t) → Set certs (earliest_expiry certs.cert certs.pool)
  unfolding earliest_expiry verify_gauge
  earliest_expiry-Pictures certs = elim (Option-cases (x.leaf certs.cert)) [
    | inr (leaf, e) ↦ rw (e, earliest_expiry) (verified-Pictures certs leaf (inl e))
    | inl e ↦ elim (checked-cases (x.parse_certificate certs.cert)) [
      | inl (leaf, p) ↦ rw (e, earliest_expiry) (rw p (verified-Pictures certs leaf (inr (e, p))))
      | inr (d, p) ↦ rw (e, earliest_expiry) (rw p (no_leaf d e p refl refl))
    ]
  ]

  -- The gauge of update errors is 1 where the latest notice was an error, and 0 where it was an update.
  abbrev pub Told : List (Notice t) → ℕ → Type 0
  Told notices gauge =
      ((e : Error) × (rest : List (Notice t)) × (notices ≡ failed e ∷ rest) × (gauge ≡ 1))
      ⊎ ((certs : TlsCerts t) × (rest : List (Notice t)) × (notices ≡ updated certs ∷ rest)
          × (gauge ≡ 0))

  -- The gauges are those of the certificates in use.
  pub record Shown (cfg : DynamicTlsConfig t) : Type 0 where
    pub certs : TlsCerts t
    pub in_use : cfg.latest ≡ some certs
    pub pictured : Pictures certs (gauges cfg.notices).expiration (gauges cfg.notices).verify_error
    pub update : Told cfg.notices (gauges cfg.notices).update_error

  -- At any time after a configuration has been constructed, through reads and parses that fail, the
  -- gauges of expiry and of verification are those of the certificates in use: the gauge of
  -- verification is 1 exactly if there is no leaf or it does not verify, with no time or the leaf's
  -- NotAfter as the expiry, and where it verifies the expiry is the earliest NotAfter on the chains,
  -- if there is one and none is the zero time. The gauge of update errors is 1 if the latest notice
  -- was an error, and else 0. The first contents may not have the hash zero, with which a
  -- configuration starts.
  pub gauges_show_certificates :
      (files : Files) (events : List Files) (cfg : DynamicTlsConfig t)
      → Fresh t files
      → new_dynamic_tls_config t files ≡ ok cfg
      → Shown (watch t events cfg)
  unfolding gauges
  gauges_show_certificates files events cfg fresh =
      always t (λ cert key ca. Unit {0}) Shown
        (λ h cfg s. record {
          certs = s.certs;
          in_use = s.in_use;
          pictured = s.pictured;
          update = s.update;
        })
        (λ cert key ca certs cfg from e. record {
          certs = certs;
          in_use = refl;
          pictured = earliest_expiry-Pictures certs;
          update = inr (certs, cfg.notices, refl, refl);
        })
        (λ e cfg s. record {
          certs = s.certs;
          in_use = s.in_use;
          pictured = s.pictured;
          update = inl (e, cfg.notices, refl, refl);
        })
        files events cfg fresh (everywhere (files ∷ events))
    where
      everywhere :
          (times : List Files)
          → All (λ f. (cert key ca : Text) → read_all f ≡ ok (cert, key, ca) → Unit {0}) times
      everywhere [] = tt
      everywhere (f ∷ rest) = (λ cert key ca e. tt, everywhere rest)
