-- ===== src/Sts/Cache/Safety.antt =====
-- What the calls of CredentialsForRole get, in any interleaving.
use kiam.Base.{ℕ, ◌≡◌, ap, ◌∙◌, none, some, List, [], ◌∷◌, Option-cases, inl, inr}
use mathlib.Core.Path.{subst}
use kiam.Base.Lists.{get_elem?, All, All-get_elem?}
use kiam.Base.Text.{Text}
use kiam.Base.Text.Laws.{Free}
use kiam.Base.Outcome.{Error}
use kiam.Sts.Identity.{RoleIdentity, to_string, to_string-injective}
use kiam.Sts.Session.{get_session_name}
use kiam.Sts.Credentials.{Credentials}
use kiam.Sts.Cache.{
  ItemCache, issued, not_issued, CachedCredentials, issue_request, Future, Call,
  Progress.waiting_new, Progress.returned, CredentialsCache, default_cache, progress_to, result_of,
  lookup, create, discard, answer_call, advance, Action, call_for, next, step, run, new_future,
}
use kiam.Sts.Cache.Laws.{GivenFor, CallOk, ProgressOk, default_cache-Inv}
use kiam.Sts.Cache.Laws.Steps.{run-Inv}
use kiam.Sts.Cache.Laws.Futures.{IssuedFor}

-- No `|` in the ARN and in the session name.
abbrev pub NoBar : RoleIdentity → Type 0
NoBar i = Free b'|' i.role.arn × Free b'|' i.session_name

pub issue_request-eq :
    (session_name : Text) (duration : ℕ) (i j : RoleIdentity)
    → NoBar i
    → NoBar j
    → to_string i ≡ to_string j
    → issue_request session_name duration i ≡ issue_request session_name duration j
unfolding issue_request get_session_name
issue_request-eq session_name duration i j ni nj e =
    let (arn, session, external) = to_string-injective i j ni.0 nj.0 ni.1 nj.1 e in
    rw (arn, session, external)

module _ (x : ItemCache ℕ) (actions : List (Action x)) where
  abbrev after : CredentialsCache x
  after = run x actions (default_cache x)

  -- However the calls, the answers of the gateway, the evictions and the contexts that end are
  -- interleaved, a call that returns credentials returns those that the gateway issued on a request
  -- for an identity with the call's key.
  returned_credentials :
      (n : ℕ) (call : Call) (c : Credentials)
      → get_elem? after.calls n ≡ some call
      → call.progress ≡ returned (issued c)
      → GivenFor after.futures (to_string call.identity) c
  returned_credentials n call c found e =
      let ok =
        All-get_elem? (CallOk after.futures) n after.calls found
          (run-Inv x actions (default_cache x) (default_cache-Inv x)).calls in
      subst (ProgressOk after.futures (to_string call.identity)) e ok

  -- If neither the identity of the call nor any that credentials were requested for has a `|` in its
  -- ARN or session name, the credentials that the call returns were issued on the very request that
  -- the call's identity makes: its role's ARN, session name and external ID. This holds in any
  -- interleaving of calls, answers, evictions and contexts that end.
  pub returned_credentials_request :
      (session_name : Text) (duration n : ℕ) (call : Call) (c : Credentials)
      → get_elem? after.calls n ≡ some call
      → call.progress ≡ returned (issued c)
      → NoBar call.identity
      → All (λ (future : Future). NoBar future.identity) after.futures
      → (cached : CachedCredentials) × (cached.credentials ≡ c)
        × IssuedFor after.futures (to_string call.identity) cached
        × (issue_request session_name duration cached.identity
            ≡ issue_request session_name duration call.identity)
  returned_credentials_request session_name duration n call c found e mine others =
      let (cached, same, i) = returned_credentials n call c found e in
      let bars =
        All-get_elem? (λ (future : Future). NoBar future.identity) i.at after.futures i.found
          others in
      (
        cached,
        same,
        i,
        ap (issue_request session_name duration) i.own
            ∙ issue_request-eq session_name duration i.future.identity call.identity bars mine
                i.same_key,
      )

module _ (x : ItemCache ℕ) where
  discard_forgets :
      (n : ℕ) (call : Call) (e : Error) (s : CredentialsCache x)
      → x.get (to_string call.identity) (discard x n call e s).cache ≡ none
  unfolding discard progress_to
  discard_forgets n call e s = elim (Option-cases (x.delete (to_string call.identity) s.cache).0) [
    | inl d ↦ rw (d, discard) (x.get_delete (to_string call.identity) s.cache)
    | inr (f, d) ↦ rw (d, discard) (x.get_delete (to_string call.identity) s.cache)
  ]

  -- A call that finds its request failed leaves nothing under its key, so that the next call asks the
  -- gateway again.
  failed_call_forgets :
      (s : CredentialsCache x) (n f : ℕ) (call : Call) (e : Error)
      → get_elem? s.calls n ≡ some call
      → call.progress ≡ waiting_new f
      → result_of f s.futures ≡ some (not_issued e)
      → x.get (to_string call.identity) (step x (next n) s).cache ≡ none
  unfolding step
  failed_call_forgets s n f call e found p r =
      rw (found, step) (rw (p, advance) (rw (r, answer_call) (discard_forgets n call e s)))

  pub get-empty : (k : Text) → x.get k x.empty ≡ none
  get-empty k = elim (Option-cases (x.get k x.empty)) [
    | inl e ↦ e
    | inr (v, e) ↦ absurd (x.empty_holds k v (x.get_holds k v x.empty e))
  ]

  -- Two calls for one identity that both look before either has put its future into the cache make
  -- two requests.
  both_missed :
      (i : RoleIdentity)
      → (run x
          (call_for i ∷ call_for i ∷ next 0 ∷ next 1 ∷ next 0 ∷ next 1 ∷ [])
          (default_cache x)).futures
        ≡ record { identity = i; result = none } ∷ record { identity = i; result = none } ∷ []
  unfolding run default_cache lookup create progress_to new_future
  both_missed i = rw (get-empty (to_string i), lookup) (rw (get-empty (to_string i), lookup))
