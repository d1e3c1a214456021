-- ===== src/Sts/Cache.antt =====
-- The credentials cache of pkg/aws/sts/cache.go, with the futures of pkg/future/future.go. Calls of
-- CredentialsForRole run at the same time, so a state has the progress of each call, and an action is
-- what one goroutine does in between: any list of actions is an interleaving. The package go-cache is
-- a parameter; the metrics are in Metrics. Between future.New and Set no other goroutine comes, and no
-- time passes: `create` is both.
pub mod Laws
pub mod Safety
pub mod Alone
pub mod Memo
pub mod Ttl
pub mod Metrics
use kiam.Base.{ℕ, ◌++◌, ◌≡◌, ◌≢◌, ◌⊎◌, Option, none, some, List, [], ◌∷◌, map}
use kiam.Base.Lists.{length, get_elem?, set_elem, All}
use kiam.Base.Text.{Text}
use kiam.Base.Outcome.{Error}
use kiam.Sts.Identity.{RoleIdentity, to_string}
use kiam.Sts.Session.{get_session_name}
use kiam.Sts.Credentials.{Credentials}

-- cache.Cache of go-cache, for items of a type: what is held under a key, expired or not, and the
-- items that Delete and DeleteExpired hand to OnEvicted.
pub record ItemCache (V : Type 0) : Type 1 where
  pub Store : Type 0
  pub empty : Store
  pub Holds : Store → Text → V → Type 0
  pub get : Text → Store → Option V
  pub set : Text → V → Store → Store
  pub delete : Text → Store → Option V × Store
  pub delete_expired : Store → List V × Store
  pub pass_time : Store → Store
  pub empty_holds : (k : Text) (v : V) → ¬ Holds empty k v
  pub get_holds : (k : Text) (v : V) (s : Store) → get k s ≡ some v → Holds s k v
  pub set_holds :
      (k j : Text) (v w : V) (s : Store) → Holds (set k v s) j w → ((j ≡ k) × (w ≡ v)) ⊎ Holds s j w
  pub delete_holds : (k j : Text) (w : V) (s : Store) → Holds (delete k s).1 j w → Holds s j w
  pub expired_holds : (j : Text) (w : V) (s : Store) → Holds (delete_expired s).1 j w → Holds s j w
  pub time_holds : (j : Text) (w : V) (s : Store) → Holds (pass_time s) j w → Holds s j w
  pub get_set : (k : Text) (v : V) (s : Store) → get k (set k v s) ≡ some v
  pub get_delete : (k : Text) (s : Store) → get k (delete k s).1 ≡ none
  pub get_set_other : (k j : Text) (v : V) (s : Store) → j ≢ k → get j (set k v s) ≡ get j s
  pub get_delete_other : (k j : Text) (s : Store) → j ≢ k → get j (delete k s).1 ≡ get j s
  pub delete_set : (k : Text) (v : V) (s : Store) → (delete k (set k v s)).0 ≡ some v
  pub expired_get :
      (j : Text) (w : V) (s : Store) → get j (delete_expired s).1 ≡ some w → get j s ≡ some w
  pub time_get : (j : Text) (w : V) (s : Store) → get j (pass_time s) ≡ some w → get j s ≡ some w

-- A value and no error, or an error.
pub data Result (A : Type 0) : Type 0 where
  issued : A → Result A
  not_issued : Error → Result A

pub record CachedCredentials : Type 0 where
  pub identity : RoleIdentity
  pub credentials : Credentials

pub record StsIssueRequest : Type 0 where
  pub role_arn : Text
  pub session_name : Text
  pub external_id : Text
  pub session_duration : ℕ

-- The request that `issue` makes; the first arguments are the cache's session name and duration.
unfoldable pub issue_request : Text → ℕ → RoleIdentity → StsIssueRequest
issue_request session_name session_duration identity = record {
  role_arn = identity.role.arn;
  session_name = get_session_name session_name identity;
  external_id = identity.external_id;
  session_duration = session_duration;
}

-- A future whose function issues credentials for an identity; `none` until it is done.
pub record Future : Type 0 where
  pub identity : RoleIdentity
  pub result : Option (Result CachedCredentials)

-- What `issue` returns on the gateway's answer.
unfoldable pub completed : RoleIdentity → Result Credentials → Result CachedCredentials
completed identity (issued c) = issued (record { identity = identity; credentials = c })
completed identity (not_issued e) = not_issued e

-- future.New: the function runs in a goroutine of its own, which `complete` ends.
unfoldable pub new_future : RoleIdentity → List Future → List Future
new_future identity futures = futures ++ record { identity = identity; result = none } ∷ []

unfoldable pub complete_future : ℕ → Future → Result Credentials → List Future → List Future
unfolding completed
complete_future f future answer futures = elim future.result [
  | none ↦ set_elem f (record future { result = some (completed future.identity answer) }) futures
  | some r ↦ futures
]

-- What Get returns of a future that is done.
unfoldable pub result_of : ℕ → List Future → Option (Result CachedCredentials)
result_of f futures = elim (get_elem? futures f) [ none ↦ none | some future ↦ future.result ]

-- Where a call of CredentialsForRole is: before the lookup, after a miss, waiting for a future from
-- the cache or for its own, in `evicted` for a future that its Delete has removed, or at its end.
pub data Progress : Type 0 where
  started missed : Progress
  waiting_cached waiting_new : ℕ → Progress
  evicting : ℕ → Error → Progress
  returned : Result Credentials → Progress

pub record Call : Type 0 where
  pub identity : RoleIdentity
  pub progress : Progress

module _ (x : ItemCache ℕ) where
  -- credentialsCache. `evictions` are the futures that the janitor has removed and has `evicted` to
  -- call with; `expiring` is the channel, which holds at most one item.
  pub record CredentialsCache : Type 0 where
    pub cache : x.Store
    pub futures : List Future
    pub calls : List Call
    pub evictions : List ℕ
    pub expiring : Option CachedCredentials

  -- DefaultCache
  unfoldable pub default_cache : CredentialsCache
  default_cache = record {
    cache = x.empty;
    futures = [];
    calls = [];
    evictions = [];
    expiring = none;
  }

  unfoldable pub progress_to : ℕ → Call → Progress → CredentialsCache → CredentialsCache
  progress_to n call p s = record s { calls = set_elem n (record call { progress = p }) s.calls }

  -- evicted, once the future is done: a send that does not wait.
  pub evicted : Result CachedCredentials → CredentialsCache → CredentialsCache
  evicted (not_issued e) s = s
  evicted (issued c) s = elim s.expiring [ none ↦ record s { expiring = some c } | some other ↦ s ]

  -- Get of the cache
  unfoldable pub lookup : ℕ → Call → CredentialsCache → CredentialsCache
  unfolding progress_to
  lookup n call s = elim (x.get (to_string call.identity) s.cache) [
    | none ↦ progress_to n call missed s
    | some f ↦ progress_to n call (waiting_cached f) s
  ]

  -- future.New and Set
  unfoldable pub create : ℕ → Call → CredentialsCache → CredentialsCache
  unfolding progress_to new_future
  create n call s =
      let f = length s.futures in
      record (progress_to n call (waiting_new f) s) {
        futures = new_future call.identity s.futures;
        cache = x.set (to_string call.identity) f s.cache;
      }

  -- Delete on an error; if it removes a future, OnEvicted runs before the call returns.
  pub discard : ℕ → Call → Error → CredentialsCache → CredentialsCache
  unfolding progress_to
  discard n call e s =
      let (item, cache) = x.delete (to_string call.identity) s.cache in
      elim item [
        | none ↦ record (progress_to n call (returned (not_issued e)) s) { cache = cache }
        | some f ↦ record (progress_to n call (evicting f e) s) { cache = cache }
      ]

  -- The end of a call whose future is done.
  pub answer_call :
      ℕ → Call → Option (Result CachedCredentials) → CredentialsCache → CredentialsCache
  unfolding progress_to discard
  answer_call n call none s = s
  answer_call n call (some (issued c)) s = progress_to n call (returned (issued c.credentials)) s
  answer_call n call (some (not_issued e)) s = discard n call e s

  pub evict_own :
      ℕ → Call → Error → Option (Result CachedCredentials) → CredentialsCache → CredentialsCache
  unfolding progress_to evicted
  evict_own n call e none s = s
  evict_own n call e (some r) s = evicted r (progress_to n call (returned (not_issued e)) s)

  -- What a call does next on its own.
  pub advance : ℕ → Call → Progress → CredentialsCache → CredentialsCache
  unfolding lookup create answer_call evict_own
  advance n call started s = lookup n call s
  advance n call missed s = create n call s
  advance n call (waiting_cached f) s = answer_call n call (result_of f s.futures) s
  advance n call (waiting_new f) s = answer_call n call (result_of f s.futures) s
  advance n call (evicting f e) s = evict_own n call e (result_of f s.futures) s
  advance n call (returned r) s = s

  -- The context of a call that waits is done: Get returns its error.
  pub cancel : ℕ → Call → Error → Progress → CredentialsCache → CredentialsCache
  unfolding discard
  cancel n call e (waiting_cached f) s = discard n call e s
  cancel n call e (waiting_new f) s = discard n call e s
  cancel n call e _ s = s

  evict_next : List ℕ → CredentialsCache → CredentialsCache
  unfolding evicted result_of
  evict_next [] s = s
  evict_next (f ∷ rest) s = elim (result_of f s.futures) [
    | none ↦ s
    | some r ↦ evicted r (record s { evictions = rest })
  ]

  pub data Action : Type 0 where
    call_for : RoleIdentity → Action
    next : ℕ → Action
    context_done : ℕ → Error → Action
    answer : ℕ → Result Credentials → Action
    janitor janitor_evicts receive_expiring wait : Action

  -- An action that is not possible changes nothing.
  unfoldable pub step : Action → CredentialsCache → CredentialsCache
  unfolding advance cancel evict_next complete_future
  step (call_for i) s = record s {
    calls = s.calls ++ record { identity = i; progress = started } ∷ [];
  }
  step (next n) s = elim (get_elem? s.calls n) [
    | none ↦ s
    | some call ↦ advance n call call.progress s
  ]
  step (context_done n e) s = elim (get_elem? s.calls n) [
    | none ↦ s
    | some call ↦ cancel n call e call.progress s
  ]
  step (answer f a) s = elim (get_elem? s.futures f) [
    | none ↦ s
    | some future ↦ record s { futures = complete_future f future a s.futures }
  ]
  step janitor s =
      let (items, cache) = x.delete_expired s.cache in
      record s { cache = cache; evictions = s.evictions ++ items }
  step janitor_evicts s = evict_next s.evictions s
  step receive_expiring s = record s { expiring = none }
  step wait s = record s { cache = x.pass_time s.cache }

  unfoldable pub run : List Action → CredentialsCache → CredentialsCache
  unfolding step
  run [] s = s
  run (a ∷ rest) s = run rest (step a s)
