-- ===== src/Server/Tls/Laws.antt =====
-- What the running configuration holds.
use kiam.Base.{
  ℕ, suc, ◌≡◌, refl, ap, ◌∙◌, ◌++◌, true, false, some, List, [], ◌∷◌, inl, inr, Bool-cases,
  Option-cases,
}
use mathlib.Core.Path.{subst}
use kiam.Base.Lists.{All, All-weaken, get_elem?}
use kiam.Base.Text.{Text, codes}
use kiam.Base.Outcome.{Outcome, ok, err, panic, Error, Outcome-cases, ok-injective, >>=-eq-ok}
use kiam.Server.Tls.{
  explained, Tools, Files, TlsCerts, DynamicTlsConfig, parse, store, load, read_all, load_all,
  constructed, new_dynamic_tls_config, noticed, on_event, watch, update_error, updated, failed,
}

explained-eq-ok :
    {A : Type 0} (text : Text) (o : Outcome A) {a : A} → explained text o ≡ ok a → o ≡ ok a
unfolding explained
explained-eq-ok text (ok a) h = h
explained-eq-ok text (err e) h = cc
explained-eq-ok text panic h = cc

-- What the three files hold.
pub record Holds (files : Files) (cert key ca : Text) : Type 0 where
  pub cert_file : files.cert_file ≡ ok cert
  pub key_file : files.key_file ≡ ok key
  pub ca_file : files.ca_file ≡ ok ca

read_all-Holds :
    (files : Files) (cert key ca : Text)
    → read_all files ≡ ok (cert, key, ca)
    → Holds files cert key ca
unfolding read_all
read_all-Holds files cert key ca h =
    let (c, ec, h1) =
      >>=-eq-ok (explained (codes "error reading TLS cert: ") files.cert_file) _ h in
    let (k, ek, h2) = >>=-eq-ok (explained (codes "error reading TLS key: ") files.key_file) _ h1 in
    let (a, ea, h3) = >>=-eq-ok (explained (codes "error reading TLS CAs: ") files.ca_file) _ h2 in
    let same = ok-injective h3 in
    record {
      cert_file =
          explained-eq-ok (codes "error reading TLS cert: ") files.cert_file ec
          ∙ ap (λ (r : Text × Text × Text). ok r.0) same;
      key_file =
          explained-eq-ok (codes "error reading TLS key: ") files.key_file ek
          ∙ ap (λ (r : Text × Text × Text). ok r.1) same;
      ca_file =
          explained-eq-ok (codes "error reading TLS CAs: ") files.ca_file ea
          ∙ ap (λ (r : Text × Text × Text). ok r.2) same;
    }

module _ (t : Tools) where
  -- What certificates and their authorities are made of.
  pub record Parsed (cert key ca : Text) (certs : TlsCerts t) : Type 0 where
    pub pair : t.Cert
    pub paired : t.x509_key_pair cert key ≡ ok pair
    pub leaf : t.parse_leaf pair ≡ ok certs.cert
    pub authorities : t.append_certs ca ≡ some certs.pool

  parse-Parsed :
      (cert key ca : Text) (certs : TlsCerts t)
      → parse t cert key ca ≡ ok certs
      → Parsed cert key ca certs
  unfolding parse
  parse-Parsed cert key ca certs h =
      let (pair, paired, h1) =
        >>=-eq-ok (explained (codes "error parsing TLS keypair: ") (t.x509_key_pair cert key)) _
          h in
      let (leaf, parsed, h2) =
        >>=-eq-ok (explained (codes "error parsing TLS leaf cert: ") (t.parse_leaf pair)) _ h1 in
      elim (Option-cases (t.append_certs ca)) [
        | inl e ↦ cc (rw e at h2)
        | inr (pool, e) ↦
            let same = ok-injective (rw e at h2) in
            record {
              pair = pair;
              paired =
                  explained-eq-ok (codes "error parsing TLS keypair: ") (t.x509_key_pair cert key)
                    paired;
              leaf =
                  explained-eq-ok (codes "error parsing TLS leaf cert: ") (t.parse_leaf pair) parsed
                  ∙ ap (λ (c : TlsCerts t). ok c.cert) same;
              authorities = e ∙ ap (λ (c : TlsCerts t). some c.pool) same;
            }
      ]

  -- The first contents do not have the hash zero, with which a configuration starts.
  abbrev pub Fresh : Files → Type 0
  Fresh files =
      (cert key ca : Text)
      → Holds files cert key ca
      → t.same_hash t.zero_hash (t.sum (cert ++ (key ++ ca))) ≡ false

  -- The certificates in use were parsed together from what the files held at one of the times.
  pub record Loaded (times : List Files) (cfg : DynamicTlsConfig t) : Type 0 where
    pub certs : TlsCerts t
    pub in_use : cfg.latest ≡ some certs
    pub at : ℕ
    pub files : Files
    pub among : get_elem? times at ≡ some files
    pub cert : Text
    pub key : Text
    pub ca : Text
    pub held : Holds files cert key ca
    pub parsed : Parsed cert key ca certs

  -- What holds of a configuration that has just stored certificates that were read, and is kept by
  -- another hash and by an error's notice, always holds of a configuration that was constructed.
  module _ (Source : Text → Text → Text → Type 0) (P : DynamicTlsConfig t → Type 0)
      (rehashed : (h : t.Hash) (cfg : DynamicTlsConfig t) → P cfg → P (record cfg { hash = h }))
      (stored : (cert key ca : Text) (certs : TlsCerts t) (cfg : DynamicTlsConfig t)
        → Source cert key ca
        → parse t cert key ca ≡ ok certs
        → P (record cfg { latest = some certs; notices = updated certs ∷ cfg.notices }))
      (told : (e : Error) (cfg : DynamicTlsConfig t)
        → P cfg
        → P (record cfg { notices = failed e ∷ cfg.notices })) where
    -- What is read is a source.
    abbrev From : Outcome (Text × Text × Text) → Type 0
    From o = (cert key ca : Text) → o ≡ ok (cert, key, ca) → Source cert key ca

    store_keeps :
        (cert key ca : Text) (cfg : DynamicTlsConfig t)
        → Source cert key ca
        → P cfg
        → P (store t (parse t cert key ca) cfg).1
    unfolding store
    store_keeps cert key ca cfg from l = elim (Outcome-cases (parse t cert key ca)) [
      | inl (certs, e) ↦ rw (e, store) (stored cert key ca certs cfg from e)
      | inr (inl (x, e)) ↦ rw (e, store) l
      | inr (inr e) ↦ rw (e, store) l
    ]

    load_all_keeps :
        (files : Outcome (Text × Text × Text)) (cfg : DynamicTlsConfig t)
        → From files
        → P cfg
        → P (load_all t files cfg).1
    unfolding load_all
    load_all_keeps (ok (cert, key, ca)) cfg from l =
        let sum = t.sum (cert ++ (key ++ ca)) in
        elim (Bool-cases (t.same_hash cfg.hash sum)) [
          | inl s ↦ rw (s, load) l
          | inr s ↦
              rw (s, load) (store_keeps cert key ca _ (from cert key ca refl) (rehashed sum cfg l))
        ]
    load_all_keeps (err e) cfg from l = l
    load_all_keeps panic cfg from l = l

    noticed_keeps :
        (r : Outcome (Unit {0})) (cfg : DynamicTlsConfig t) → P cfg → P (noticed t (r, cfg))
    unfolding noticed
    noticed_keeps (ok _) cfg l = l
    noticed_keeps (err e) cfg l = told e cfg l
    noticed_keeps panic cfg l = l

    watch_keeps :
        (events : List Files) (cfg : DynamicTlsConfig t)
        → All (λ files. From (read_all files)) events
        → P cfg
        → P (watch t events cfg)
    unfolding watch on_event
    watch_keeps [] cfg from l = l
    watch_keeps (files ∷ rest) cfg from l =
        let (r, after) = load_all t (read_all files) cfg in
        watch_keeps rest (on_event t files cfg) from.1
          (noticed_keeps r after (load_all_keeps (read_all files) cfg from.0 l))

    store_constructed :
        (cert key ca : Text) (blank cfg : DynamicTlsConfig t)
        → Source cert key ca
        → constructed t (store t (parse t cert key ca) blank) ≡ ok cfg
        → P cfg
    unfolding store constructed
    store_constructed cert key ca blank cfg from h = elim (Outcome-cases (parse t cert key ca)) [
      | inl (certs, e) ↦
          subst P (ok-injective (rw (e, store) at h)) (stored cert key ca certs blank from e)
      | inr (inl (x, e)) ↦ cc (rw (e, store) at h)
      | inr (inr e) ↦ cc (rw (e, store) at h)
    ]

    load_all_constructed :
        (files : Outcome (Text × Text × Text)) (blank cfg : DynamicTlsConfig t)
        → ((cert key ca : Text)
            → files ≡ ok (cert, key, ca)
            → t.same_hash blank.hash (t.sum (cert ++ (key ++ ca))) ≡ false)
        → From files
        → constructed t (load_all t files blank) ≡ ok cfg
        → P cfg
    unfolding load_all constructed
    load_all_constructed (ok (cert, key, ca)) blank cfg fresh from h =
        store_constructed cert key ca (record blank { hash = t.sum (cert ++ (key ++ ca)) }) cfg
          (from cert key ca refl) (rw (fresh cert key ca refl, load) at h)
    load_all_constructed (err e) blank cfg fresh from h = cc
    load_all_constructed panic blank cfg fresh from h = cc

    pub always :
        (files : Files) (events : List Files) (cfg : DynamicTlsConfig t)
        → Fresh files
        → All (λ f. From (read_all f)) (files ∷ events)
        → new_dynamic_tls_config t files ≡ ok cfg
        → P (watch t events cfg)
    unfolding new_dynamic_tls_config
    always files events cfg fresh from h = watch_keeps events cfg from.1 (
        load_all_constructed (read_all files) _ cfg
          (λ cert key ca e. fresh cert key ca (read_all-Holds files cert key ca e)) from.0 h)

  -- The files held the texts at one of the times.
  abbrev HeldIn : List Files → Text → Text → Text → Type 0
  HeldIn times cert key ca =
      (at : ℕ) × (files : Files) × (get_elem? times at ≡ some files) × Holds files cert key ca

  HeldIn-later :
      (first : Files) (times : List Files) (cert key ca : Text)
      → HeldIn times cert key ca
      → HeldIn (first ∷ times) cert key ca
  HeldIn-later first times cert key ca (at, files, among, held) = (suc at, files, among, held)

  all-HeldIn :
      (times : List Files)
      → All
          (λ f. (cert key ca : Text) → read_all f ≡ ok (cert, key, ca) → HeldIn times cert key ca)
          times
  all-HeldIn [] = tt
  all-HeldIn (files ∷ rest) = (
    λ cert key ca e. (0, files, refl, read_all-Holds files cert key ca e),
    All-weaken (λ f from cert key ca e. HeldIn-later files rest cert key ca (from cert key ca e))
        rest (all-HeldIn rest),
  )

  kept_certificates :
      (times : List Files) (cfg other : DynamicTlsConfig t)
      → other.latest ≡ cfg.latest
      → Loaded times cfg
      → Loaded times other
  kept_certificates times cfg other same l = record {
    certs = l.certs;
    in_use = same ∙ l.in_use;
    at = l.at;
    files = l.files;
    among = l.among;
    cert = l.cert;
    key = l.key;
    ca = l.ca;
    held = l.held;
    parsed = l.parsed;
  }

  -- A configuration that was constructed always has certificates that were parsed together from what
  -- the files held when it was constructed or at one of the later events: the leaf of the pair of the
  -- certificate's file and the key's file, and the authorities of the third. This holds whatever the
  -- files hold, errors of reading and parsing included. The first contents may not have the hash
  -- zero, with which a configuration starts.
  pub watch_keeps_certificates :
      (files : Files) (events : List Files) (cfg : DynamicTlsConfig t)
      → Fresh files
      → new_dynamic_tls_config t files ≡ ok cfg
      → Loaded (files ∷ events) (watch t events cfg)
  watch_keeps_certificates files events cfg fresh =
      let times = files ∷ events in
      always (HeldIn times) (Loaded times)
        (λ h cfg l. kept_certificates times cfg (record cfg { hash = h }) refl l)
        (λ cert key ca certs cfg (at, f, among, held) e. record {
          certs = certs;
          in_use = refl;
          at = at;
          files = f;
          among = among;
          cert = cert;
          key = key;
          ca = ca;
          held = held;
          parsed = parse-Parsed cert key ca certs e;
        })
        (λ e cfg l.
          kept_certificates times cfg (record cfg { notices = failed e ∷ cfg.notices }) refl l)
        files events cfg fresh (all-HeldIn times)

  -- The files can be read again, with the contents of the hash.
  pub record Restored (cfg : DynamicTlsConfig t) (files : Files) : Type 0 where
    pub cert : Text
    pub key : Text
    pub ca : Text
    pub readable : read_all files ≡ ok (cert, key, ca)
    pub unchanged : t.same_hash cfg.hash (t.sum (cert ++ (key ++ ca))) ≡ true

  Restored-on_event :
      (cfg : DynamicTlsConfig t) (files : Files) → Restored cfg files → on_event t files cfg ≡ cfg
  unfolding on_event load_all noticed
  Restored-on_event cfg files r = rw (r.readable, load_all) (rw (r.unchanged, load))

  Restored-watch :
      (cfg : DynamicTlsConfig t) (events : List Files)
      → All (Restored cfg) events
      → watch t events cfg ≡ cfg
  unfolding watch
  Restored-watch cfg [] r = refl
  Restored-watch cfg (files ∷ rest) r =
      rw (Restored-on_event cfg files r.0) (Restored-watch cfg rest r.1)

  failed-on_event :
      (cfg : DynamicTlsConfig t) (files : Files) (e : Error)
      → read_all files ≡ err e
      → on_event t files cfg ≡ record cfg { notices = failed e ∷ cfg.notices }
  unfolding on_event load_all noticed
  failed-on_event cfg files e h = rw (h, load_all)

  -- The gauge of update errors is set where a file cannot be read, and stays set when the files are
  -- back as they were, however often they are read again.
  pub update_error_stuck :
      (cfg : DynamicTlsConfig t) (bad : Files) (e : Error) (good : List Files)
      → read_all bad ≡ err e
      → All (Restored (record cfg { notices = failed e ∷ cfg.notices })) good
      → update_error t (watch t (bad ∷ good) cfg).notices ≡ 1
  unfolding watch update_error
  update_error_stuck cfg bad e good h r =
      ap (λ c. update_error t (watch t good c).notices) (failed-on_event cfg bad e h)
      ∙ ap (λ c. update_error t c.notices) (Restored-watch _ good r)
