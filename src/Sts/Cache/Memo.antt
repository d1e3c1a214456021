-- ===== src/Sts/Cache/Memo.antt =====
-- CredentialsForRole in calls that run one after another, and what it promises them: a memory of the
-- credentials that were issued under each key, which may forget between calls.
pub mod LoneCall
pub mod Served
pub mod Laws
pub mod Lasting
use mathlib.Core.Option.{some-injective}
use kiam.Base.{
  ℕ, ◌≡◌, ◌≢◌, inl, inr, ap, Option-cases, Option, none, some, List, [], ◌∷◌, if◌then◌else◌,
}
use kiam.Base.Lists.{length, get_elem?}
use kiam.Base.Text.{Text, text_eq}
use kiam.Sts.Identity.{RoleIdentity, to_string}
use kiam.Sts.Credentials.{Credentials}
use kiam.Sts.Cache.{
  ItemCache, Result, issued, not_issued, CachedCredentials, Call, Progress, Progress.started,
  Progress.missed, Progress.waiting_cached, Progress.waiting_new, Progress.evicting,
  Progress.returned, CredentialsCache, result_of, Action, call_for, next, answer, step, run,
}

-- What is done with the cache: a call, with what the gateway answers if it is asked, or what other
-- goroutines do between calls.
pub data Use : Type 0 where
  ask : RoleIdentity → Result Credentials → Use
  time_passes cleans evicts receives : Use

-- The credentials that are remembered under each key.
abbrev pub Memo : Type 0
Memo = Text → Option Credentials

unfoldable pub credentials_of : Result Credentials → Option Credentials
credentials_of (issued c) = some c
credentials_of (not_issued e) = none

-- What a call returns.
unfoldable pub memo_answer : Memo → RoleIdentity → Result Credentials → Result Credentials
memo_answer memo i a = elim (memo (to_string i)) [ some c ↦ issued c | none ↦ a ]

-- What is remembered after it.
pub memo_ask : Memo → RoleIdentity → Result Credentials → Memo
unfolding memo_answer credentials_of
memo_ask memo i a key =
    if text_eq key (to_string i) then credentials_of (memo_answer memo i a) else memo key

-- The uses of a memory that starts as the first and ends as the last, with the results of the calls.
pub data Serves : Memo → List Use → List (Result Credentials) → Memo → Type 0 where
  done : {memo : Memo} → Serves memo [] [] memo
  asked :
      {memo last : Memo} (i : RoleIdentity) (a : Result Credentials) {uses : List Use}
      {results : List (Result Credentials)}
      → Serves (memo_ask memo i a) uses results last
      → Serves memo (ask i a ∷ uses) (memo_answer memo i a ∷ results) last
  forgets :
      {memo less last : Memo} (u : Use) {uses : List Use} {results : List (Result Credentials)}
      → ((i : RoleIdentity) (a : Result Credentials) → u ≢ ask i a)
      → ((key : Text) (c : Credentials) → less key ≡ some c → memo key ≡ some c)
      → Serves less uses results last
      → Serves memo (u ∷ uses) results last

pub returned_result : Progress → Option (Result Credentials)
returned_result (returned r) = some r
returned_result _ = none

-- A result is that of a call that has returned.
pub returned_result-eq :
    (p : Progress) {r : Result Credentials} → returned_result p ≡ some r → p ≡ returned r
unfolding returned_result
returned_result-eq started h = cc
returned_result-eq missed h = cc
returned_result-eq (waiting_cached f) h = cc
returned_result-eq (waiting_new f) h = cc
returned_result-eq (evicting f e) h = cc
returned_result-eq (returned r) h = ap returned (some-injective _ _ h)

module _ (x : ItemCache ℕ) where
  -- A call alone, from its start to its end: it looks, it makes its request on a miss, the request is
  -- answered, and it takes what its future has, and evicts on an error. Where the key is found the
  -- answer is for no request and the last steps are of a call that has returned.
  unfoldable pub lone_call :
      RoleIdentity → Result Credentials → CredentialsCache x → List (Action x)
  lone_call i a s =
      let n = length s.calls in
      call_for i ∷ next n ∷ next n ∷ answer (length s.futures) a ∷ next n ∷ next n ∷ []

  -- What a call has returned, if it has.
  unfoldable pub result_at : ℕ → CredentialsCache x → Option (Result Credentials)
  unfolding returned_result
  result_at n s = elim (get_elem? s.calls n) [
    | none ↦ none
    | some call ↦ returned_result call.progress
  ]

  pub result_at-call :
      (n : ℕ) (s : CredentialsCache x) {r : Result Credentials}
      → result_at n s ≡ some r
      → (call : Call) × (get_elem? s.calls n ≡ some call) × (call.progress ≡ returned r)
  unfolding result_at
  result_at-call n s h = elim (Option-cases (get_elem? s.calls n)) [
    | inl e ↦ cc (rw (e, result_at) at h)
    | inr (call, e) ↦ (call, e, returned_result-eq call.progress (rw (e, result_at) at h))
  ]

  -- The cache after a use.
  unfoldable pub use_cache : Use → CredentialsCache x → CredentialsCache x
  unfolding lone_call
  use_cache (ask i a) s = run x (lone_call i a s) s
  use_cache time_passes s = step x Action.wait s
  use_cache cleans s = step x Action.janitor s
  use_cache evicts s = step x Action.janitor_evicts s
  use_cache receives s = step x Action.receive_expiring s

  -- What the calls return, in order.
  unfoldable pub use_all :
      List Use → CredentialsCache x → List (Option (Result Credentials)) × CredentialsCache x
  unfolding use_cache result_at
  use_all [] s = ([], s)
  use_all (u ∷ uses) s =
      let t = use_cache u s in
      let (results, last) = use_all uses t in
      elim u [ ask i a ↦ (result_at (length s.calls) t ∷ results, last) | _ ↦ (results, last) ]

  -- The memory that a state stands for.
  pub memo_of : CredentialsCache x → Memo
  memo_of s key = elim (x.get key s.cache) [
    | none ↦ none
    | some f ↦ elim (result_of f s.futures) [
      | none ↦ none
      | some r ↦ elim r [ issued cached ↦ some cached.credentials | not_issued e ↦ none ]
    ]
  ]
