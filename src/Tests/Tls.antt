-- ===== src/Tests/Tls.antt =====
-- The theorems on pkg/server/tls.go at concrete inputs.
use kiam.Base.{◌≡◌, refl, Bool, true, false, Option, none, some, [], ◌∷◌}
use kiam.Base.Lists.{get_elem?}
use kiam.Base.Text.{Text, codes, text_eq}
use kiam.Base.Outcome.{ok, err, other}
use kiam.Server.Tls.{
  Tools, Files, TlsCerts, DynamicTlsConfig, read_all, new_dynamic_tls_config, watch, update_error,
  updated, failed,
}
use kiam.Server.Tls.Laws.{Loaded, Restored, watch_keeps_certificates, update_error_stuck}
use kiam.Server.Tls.Gauges.{X509, passed, Shown, gauges_show_certificates}
use kiam.Server.Tls.Closing.{
  Once, ended, calling, returned, Watched, started, Leads, here, then, call_close, enter_once,
  close_watcher, watch_ends, skip_once, return_close,
}
use kiam.Server.Tls.Closing.Laws.{close_stops_watch}
use kiam.Server.Tls.Closing.Returns.{close_returns}
use kiam.Server.Tls.Watcher.{
  Paths, dirs_of, new_watched_tls_config, Settled, new_watched_tls_config-Settled,
}

abbrev same : Option Text → Option Text → Bool
same none none = true
same (some a) (some b) = text_eq a b
same _ _ = false

-- Every text is a certificate, and its own hash; only the empty text is no pool.
abbrev tools : Tools
tools = record {
  Cert = Text;
  Pool = Text;
  x509_key_pair = λ cert key. ok cert;
  parse_leaf = λ cert. ok cert;
  append_certs = λ ca. elim ca [ [] ↦ none | b ∷ s ↦ some (b ∷ s) ];
  Hash = Option Text;
  sum = λ text. some text;
  same_hash = same;
  zero_hash = none;
}

abbrev good : Files
good = record { cert_file = ok (codes "c"); key_file = ok (codes "k"); ca_file = ok (codes "p") }

-- The key cannot be read.
abbrev bad : Files
bad = record good { key_file = err (other (codes "io")) }

abbrev certs : TlsCerts tools
certs = record { cert = codes "c"; pool = codes "p" }

abbrev config : DynamicTlsConfig tools
config = record { latest = some certs; hash = some (codes "ckp"); notices = updated certs ∷ [] }

watch_keeps_certificates_example :
    Loaded tools (good ∷ bad ∷ good ∷ []) (watch tools (bad ∷ good ∷ []) config)
unfolding new_dynamic_tls_config
watch_keeps_certificates_example =
    watch_keeps_certificates tools good (bad ∷ good ∷ []) config (λ cert key ca held. refl) refl

restored :
    Restored tools
      (record config {
        notices = failed (other (codes "error reading TLS key: io")) ∷ config.notices;
      })
      good
unfolding read_all text_eq
restored = record {
  cert = codes "c";
  key = codes "k";
  ca = codes "p";
  readable = refl;
  unchanged = refl;
}

update_error_stuck_example : update_error tools (watch tools (bad ∷ good ∷ []) config).notices ≡ 1
unfolding read_all
update_error_stuck_example =
    update_error_stuck tools config bad (other (codes "error reading TLS key: io")) (good ∷ []) refl
      (restored, tt)

-- Every certificate has a leaf that expires at 7, and verifies.
abbrev x509 : X509 tools
x509 = record {
  Leaf = Text;
  leaf = λ cert. some cert;
  parse_certificate = λ cert. passed cert;
  not_after = λ leaf. 7;
  verify = λ leaf pool. passed ((7 ∷ []) ∷ []);
}

gauges_show_certificates_example : Shown tools x509 (watch tools (bad ∷ good ∷ []) config)
unfolding new_dynamic_tls_config
gauges_show_certificates_example =
    gauges_show_certificates tools x509 good (bad ∷ good ∷ []) config (λ cert key ca held. refl)
      refl

-- Two calls of Close, of which the first has closed the watcher and returned.
abbrev closed : Watched tools
closed = record {
  config = config;
  once = Once.done;
  watcher_open = false;
  closes = 1;
  loop = ended;
  closers = returned ∷ calling ∷ [];
}

to_closed : Leads tools (started tools config) closed
to_closed =
    then
      (then
        (then (then (then (then here call_close) call_close) (enter_once 0 refl refl))
          (close_watcher 0 refl))
        (watch_ends refl refl))
      (return_close 0 refl refl)

abbrev both_closed : Watched tools
both_closed = record closed { closers = returned ∷ returned ∷ [] }

to_both_closed : Leads tools closed both_closed
to_both_closed = then (then here (skip_once 1 refl refl)) (return_close 1 refl refl)

close_stops_watch_example :
    (both_closed.config ≡ closed.config)
    × (both_closed.watcher_open ≡ false)
    × (both_closed.closes ≡ 1)
close_stops_watch_example =
    close_stops_watch tools config closed both_closed 0 to_closed refl to_both_closed

close_returns_example :
    (u : Watched tools) × Leads tools closed u × (get_elem? u.closers 1 ≡ some returned)
close_returns_example = close_returns tools config closed 1 calling to_closed refl

abbrev paths : Paths
paths = record { clean = λ s. s; dir = λ s. s; keys = λ ds. ds; keys_all = λ d ds m. m }

new_watched_tls_config-Settled_example :
    Settled tools (dirs_of paths (codes "a") (codes "b") (codes "c")) good (
      new_watched_tls_config tools paths
        (ok tt)
        (λ d. ok tt)
        (codes "a")
        (codes "b")
        (codes "c")
        good)
new_watched_tls_config-Settled_example =
    new_watched_tls_config-Settled tools paths (ok tt) (λ d. ok tt) (codes "a") (codes "b")
      (codes "c") good
