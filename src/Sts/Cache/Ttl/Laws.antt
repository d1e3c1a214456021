-- ===== src/Sts/Cache/Ttl/Laws.antt =====
-- An item that is found in the cache of pkg/aws/sts/cache.go is not older than its time to live.
use kiam.Base.{
  ℕ, ◌+◌, ◌≤◌, ◌≡◌, ◌≢◌, sym, ap, ◌∙◌, ◌⊎◌, inl, inr, Bool-cases, some, List, [], ◌∷◌, ltb, ltb→lt,
  arith,
}
use mathlib.Core.Path.{subst}
use mathlib.Core.Option.{some-injective}
use kiam.Base.Lists.{length, length-append}
use kiam.Base.Text.{Text, text_eq}
use kiam.Base.Text.Laws.{text_eq_iff}
use kiam.Sts.Identity.{to_string}
use kiam.Sts.Credentials.{Credentials}
use kiam.Sts.Cache.{
  ItemCache, issued, CachedCredentials, Future, CredentialsCache, result_of, new_future, Action,
  answer, step, run, default_cache,
}
use kiam.Sts.Cache.Laws.Futures.{new_future-result_of, complete_future-result_of}
use kiam.Sts.Cache.Safety.{get-empty}
use kiam.Sts.Cache.Ttl.{cache_ttl, Timed, Dates, LivesFrom, Lives}
use kiam.Sts.Cache.Ttl.Change.{
  Change, Change.same, Change.made, Change.deleted, Change.purged, Change.passed, Change.answered,
  step-Change,
}

text_cases : (j k : Text) → (j ≡ k) ⊎ (j ≢ k)
text_cases j k = elim (Bool-cases (text_eq j k)) [
  | inl e ↦ inl ((text_eq_iff j k).0 e)
  | inr e ↦ inr (λ same. cc (e, (text_eq_iff j k).1 same))
]

cache_ttl-eq :
    (session_duration session_refresh : ℕ) {ttl : ℕ}
    → cache_ttl session_duration session_refresh ≡ some ttl
    → ttl + session_refresh ≡ session_duration
unfolding cache_ttl
cache_ttl-eq session_duration session_refresh e =
    elim (Bool-cases (ltb session_refresh session_duration)) [
      | inl b ↦
          let early = ltb→lt session_refresh session_duration b in
          let whole = some-injective _ _ (rw (b, cache_ttl) at e) in omega arith
      | inr b ↦ cc (rw (b, cache_ttl) at e)
    ]

module _ (x : ItemCache ℕ) {ttl : ℕ} (timed : Timed x ttl) (requested : ℕ → ℕ) where
  abbrev ExpiresInTime : x.Store → Type 0
  ExpiresInTime c =
      (k : Text) (f t : ℕ) → x.get k c ≡ some f → timed.expires k c ≡ some t → t ≤ requested f + ttl

  set-ExpiresInTime :
      (k : Text) (f : ℕ) (c : x.Store)
      → requested f ≡ timed.clock c
      → ExpiresInTime c
      → ExpiresInTime (x.set k f c)
  set-ExpiresInTime k f c now h j g t found e = elim (text_cases j k) [
    | inl at_key ↦
        let is_f : f ≡ g =
          some-injective _ _
            (sym (x.get_set k f c) ∙ ap (λ i. x.get i (x.set k f c)) (sym at_key) ∙ found) in
        let is_t : timed.clock c + ttl ≡ t = some-injective _ _ (
          sym (timed.set_expires k f c)
          ∙ ap (λ i. timed.expires i (x.set k f c)) (sym at_key)
          ∙ e) in
        let is_now : requested g ≡ timed.clock c = ap requested (sym is_f) ∙ now in omega arith
    | inr other ↦
        h j g t (sym (x.get_set_other k j f c other) ∙ found)
          (sym (timed.set_expires_other k j f c other) ∙ e)
  ]

  delete-ExpiresInTime : (k : Text) (c : x.Store) → ExpiresInTime c → ExpiresInTime (x.delete k c).1
  delete-ExpiresInTime k c h j f t found e = elim (text_cases j k) [
    | inl at_key ↦ cc (x.get_delete k c, ap (λ i. x.get i (x.delete k c).1) (sym at_key) ∙ found)
    | inr other ↦
        h j f t (sym (x.get_delete_other k j c other) ∙ found) (timed.delete_expires k j t c e)
  ]

  step-ExpiresInTime :
      (a : Action x) (s : CredentialsCache x) {t : CredentialsCache x}
      → Change x a s t
      → Dates x timed requested s t
      → ExpiresInTime s.cache
      → ExpiresInTime t.cache
  unfolding new_future
  step-ExpiresInTime a s (same c f) now h = subst ExpiresInTime (sym c) h
  step-ExpiresInTime a s {t} (made i c f) now h =
      let grown : length t.futures ≡ length s.futures + 1 =
        ap length f ∙ length-append s.futures _ in
      subst ExpiresInTime (sym c)
        (set-ExpiresInTime (to_string i) (length s.futures) s.cache (now (λ e. omega arith)) h)
  step-ExpiresInTime a s (deleted k c f) now h =
      subst ExpiresInTime (sym c) (delete-ExpiresInTime k s.cache h)
  step-ExpiresInTime a s (purged c f) now h = subst ExpiresInTime (sym c) (λ k f t found e.
      h k f t (x.expired_get k f s.cache found) (timed.expired_expires k t s.cache e))
  step-ExpiresInTime a s (passed c f) now h =
      subst ExpiresInTime (sym c)
        (λ k f t found e. h k f t (x.time_get k f s.cache found) (timed.time_expires k t s.cache e))
  step-ExpiresInTime a s (answered f future r is_answer there c g) now h =
      subst ExpiresInTime (sym c) h

  module _ (duration : ℕ) (expiration : Credentials → ℕ) where
    abbrev LongLived : List Future → Type 0
    LongLived fs =
        (f : ℕ) (c : CachedCredentials)
        → result_of f fs ≡ some (issued c)
        → requested f + duration ≤ expiration c.credentials

    step-LongLived :
        (a : Action x) (s : CredentialsCache x) {t : CredentialsCache x}
        → Change x a s t
        → LivesFrom x timed requested duration expiration a
        → LongLived s.futures
        → LongLived t.futures
    step-LongLived a s (same c f) lives h = subst LongLived (sym f) h
    step-LongLived a s (made i c f) lives h =
        subst LongLived (sym f) (λ g c e. h g c (new_future-result_of g i s.futures (issued c) e))
    step-LongLived a s (deleted k c f) lives h = subst LongLived (sym f) h
    step-LongLived a s (purged c f) lives h = subst LongLived (sym f) h
    step-LongLived a s (passed c f) lives h = subst LongLived (sym f) h
    step-LongLived a s (answered f future r is_answer there c e) lives h =
        subst LongLived (sym e) (λ g c found.
          elim (complete_future-result_of g f future r s.futures c there found) [
            | inl old ↦ h g c old
            | inr (at, new) ↦
                subst (λ i. requested i + duration ≤ expiration c.credentials) at
                  (subst (LivesFrom x timed requested duration expiration)
                    (is_answer ∙ ap (answer f) new) lives)
          ])

    run-Timely :
        (actions : List (Action x)) (s : CredentialsCache x)
        → Lives x timed requested duration expiration actions s
        → ExpiresInTime s.cache
        → LongLived s.futures
        → ExpiresInTime (run x actions s).cache × LongLived (run x actions s).futures
    unfolding run
    run-Timely [] s lives e l = (e, l)
    run-Timely (a ∷ rest) s (now, lives, later) e l =
        let change = step-Change x a s in
        run-Timely rest (step x a s) later (step-ExpiresInTime a s change now e)
          (step-LongLived a s change lives l)

    -- If the refresh interval is shorter than the session's duration, and the gateway's credentials
    -- live for the session's duration from the time at which their request's future is made, then
    -- credentials that are found in the cache have at least the refresh interval left to live. This
    -- holds after any interleaving of calls, answers, evictions and time that passes.
    pub served_credentials_live :
        (session_refresh : ℕ) (actions : List (Action x)) (k : Text) (f : ℕ) (c : CachedCredentials)
        → cache_ttl duration session_refresh ≡ some ttl
        → Lives x timed requested duration expiration actions (default_cache x)
        → x.get k (run x actions (default_cache x)).cache ≡ some f
        → result_of f (run x actions (default_cache x)).futures ≡ some (issued c)
        → timed.clock (run x actions (default_cache x)).cache + session_refresh
          ≤ expiration c.credentials
    unfolding default_cache result_of
    served_credentials_live session_refresh actions k f c is_ttl lives found r =
        let (in_time, long) =
          run-Timely actions (default_cache x) lives (λ j g t there e. cc (get-empty x j, there))
            (λ g d e. cc e) in
        let (t, e, still) = timed.get_expires k f _ found in
        let before = in_time k f t found e in
        let alive = long f c r in
        let whole = cache_ttl-eq duration session_refresh is_ttl in omega arith
