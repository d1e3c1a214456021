-- ===== src/Sts/Cache/Ttl.antt =====
-- The time that an entry of the credentials cache lives: cacheTTL of pkg/aws/sts/cache.go.
pub mod Change
pub mod Laws
use kiam.Base.{ℕ, ◌+◌, ◌≤◌, ◌≡◌, ◌≢◌, Option, none, some, List, [], ◌∷◌, ltb, ◌-◌, if◌then◌else◌}
use kiam.Base.Lists.{length}
use kiam.Base.Text.{Text}
use kiam.Sts.Credentials.{Credentials}
use kiam.Sts.Cache.{ItemCache, CredentialsCache, Result, issued, Action, Action.answer, step}

-- sessionDuration - sessionRefresh in DefaultCache: `none` where that is not positive, which go-cache
-- takes for no expiration.
unfoldable pub cache_ttl : ℕ → ℕ → Option ℕ
cache_ttl session_duration session_refresh =
    if ltb session_refresh session_duration then some (session_duration - session_refresh) else none

-- What go-cache documents of time, for items that are set to live for `ttl`: an item is found up to
-- its expiration and not after it.
pub record Timed (x : ItemCache ℕ) (ttl : ℕ) : Type 0 where
  pub clock : x.Store → ℕ
  pub expires : Text → x.Store → Option ℕ
  pub get_expires :
      (k : Text) (f : ℕ) (s : x.Store)
      → x.get k s ≡ some f
      → (t : ℕ) × (expires k s ≡ some t) × (clock s ≤ t)
  pub set_expires :
      (k : Text) (f : ℕ) (s : x.Store) → expires k (x.set k f s) ≡ some (clock s + ttl)
  pub set_expires_other :
      (k j : Text) (f : ℕ) (s : x.Store) → j ≢ k → expires j (x.set k f s) ≡ expires j s
  pub delete_expires :
      (k j : Text) (t : ℕ) (s : x.Store)
      → expires j (x.delete k s).1 ≡ some t
      → expires j s ≡ some t
  pub expired_expires :
      (j : Text) (t : ℕ) (s : x.Store)
      → expires j (x.delete_expired s).1 ≡ some t
      → expires j s ≡ some t
  pub time_expires :
      (j : Text) (t : ℕ) (s : x.Store) → expires j (x.pass_time s) ≡ some t → expires j s ≡ some t

module _ (x : ItemCache ℕ) {ttl : ℕ} (timed : Timed x ttl) (requested : ℕ → ℕ) where
  -- `requested` has the time at which the future that a step makes is made. That step also sets the
  -- item, and takes no time.
  abbrev pub Dates : CredentialsCache x → CredentialsCache x → Type 0
  Dates s t =
      length s.futures ≢ length t.futures → requested (length s.futures) ≡ timed.clock s.cache

  module _ (duration : ℕ) (expiration : Credentials → ℕ) where
    -- The gateway answers the request of a future with credentials that live for the session's
    -- duration from then on, or longer.
    abbrev pub LivesFrom : Action x → Type 0
    LivesFrom (answer f (issued c)) = requested f + duration ≤ expiration c
    LivesFrom _ = Unit {0}

    -- So it is at every action of a list.
    abbrev pub Lives : List (Action x) → CredentialsCache x → Type 0
    Lives [] s = Unit {0}
    Lives (a ∷ rest) s = Dates s (step x a s) × LivesFrom a × Lives rest (step x a s)
