-- ===== src/Cmd/Options/Laws.antt =====
-- The server's flags, from the command line to its cache of credentials.
use kiam.Base.{ℕ, ◌*◌, ◌≤◌, ◌-◌, ◌≡◌, sym, ap, ◌∙◌, none, some, Bool-cases, inl, inr, ltb, arith}
use mathlib.Core.Path.{subst}
use kiam.Base.Text.{codes}
use kiam.Base.Outcome.{ok}
use kiam.Sts.Cache.Ttl.{cache_ttl}
use kiam.Server.Builder.{NewCredentialsCache, Outside, BuiltServer}
use kiam.Cmd.Server.{run_server}
use kiam.Cmd.Server.Laws.{run_server-Ready}
use kiam.Cmd.Options.{Arguments, or_default, server_options, second}

-- The cache's entries expire.
abbrev pub Expires : NewCredentialsCache → ℕ → Type 0
Expires cache refresh =
    (ttl : ℕ) × (cache_ttl cache.session_duration cache.session_refresh ≡ some ttl)
    × (10 * 60 * second ≤ ttl)
    × (cache.session_refresh ≡ refresh)

cache_ttl-some :
    (duration refresh : ℕ)
    → refresh ≡ 5 * 60 * second
    → 15 * 60 * second ≤ duration
    → (cache_ttl duration refresh ≡ some (duration - refresh))
      × (10 * 60 * second ≤ duration - refresh)
unfolding cache_ttl
cache_ttl-some duration refresh r d = elim (Bool-cases (ltb refresh duration)) [
  | inl b ↦ (rw (b, cache_ttl), omega arith)
  | inr b ↦ absurd (ground arith)
]

-- A server that is built without the flag for the refresh interval, whatever the other flags are, has
-- a cache whose entries expire: they live for ten minutes at least, and for five minutes less than
-- the session.
pub default_refresh-Expires :
    (o : Outside) (a : Arguments) (srv : BuiltServer o)
    → a.duration (codes "session-refresh") ≡ none
    → run_server o (server_options a) ≡ ok srv
    → Expires srv.credentials_provider (5 * 60 * second)
unfolding server_options or_default
default_refresh-Expires o a srv absent built =
    let (long, ready) = run_server-Ready o (server_options a) srv built in
    let refresh =
      ap (λ (c : NewCredentialsCache). c.session_refresh) ready.cache
      ∙ ap (or_default (5 * 60 * second)) absent in
    let duration = ap (λ (c : NewCredentialsCache). c.session_duration) ready.cache in
    let (expires, at_least) =
      cache_ttl-some srv.credentials_provider.session_duration
        srv.credentials_provider.session_refresh refresh
        (subst (λ d. 15 * 60 * second ≤ d) (sym duration) long) in
    (_, expires, at_least, refresh)
