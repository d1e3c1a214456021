-- ===== src/Sts/Cache/Laws.antt =====
-- Whose credentials a call gets.
pub mod Calls
pub mod Futures
pub mod Steps
use kiam.Base.{
  ℕ, ◌≡◌, refl, sym, ap, ◌∙◌, ◌++◌, inl, inr, Option, none, some, List, [], ◌∷◌, Option-cases,
}
use mathlib.Core.Path.{subst}
use mathlib.Core.Option.{some-injective}
use kiam.Base.Lists.{
  length, get_elem?, set_elem, All, All-append, All-set_elem, All-get_elem?, All-weaken,
}
use kiam.Base.Text.{Text}
use kiam.Base.Outcome.{Error}
use kiam.Sts.Identity.{RoleIdentity, to_string}
use kiam.Sts.Credentials.{Credentials}
use kiam.Sts.Cache.{
  ItemCache, Result, issued, not_issued, CachedCredentials, Future, Call, Progress,
  Progress.started, Progress.missed, Progress.waiting_cached, Progress.waiting_new,
  Progress.evicting, Progress.returned, CredentialsCache, result_of, default_cache, progress_to,
  evicted, lookup, create, discard, answer_call, evict_own, advance, cancel, evict_next, Action,
  call_for, next, context_done, answer, janitor, janitor_evicts, receive_expiring, wait, step, run,
  complete_future, new_future,
}
use kiam.Sts.Cache.Laws.Futures.{
  Of, IssuedFor, ResultOk, Keeps, Of-Keeps, IssuedFor-Keeps, new_future-Keeps, new_future-Of,
  new_future-ResultOk, complete_future-Keeps, complete_future-ResultOk, result_of-IssuedFor,
  result_of-own,
}

-- The credentials of a future with the key.
abbrev pub GivenFor : List Future → Text → Credentials → Type 0
GivenFor futures key c =
    (cached : CachedCredentials) × (cached.credentials ≡ c) × IssuedFor futures key cached

abbrev pub ProgressOk : List Future → Text → Progress → Type 0
ProgressOk futures key started = Unit
ProgressOk futures key missed = Unit
ProgressOk futures key (waiting_cached f) = Of futures key f
ProgressOk futures key (waiting_new f) = Of futures key f
ProgressOk futures key (evicting f e) = Unit
ProgressOk futures key (returned (issued c)) = GivenFor futures key c
ProgressOk futures key (returned (not_issued e)) = Unit

abbrev pub CallOk : List Future → Call → Type 0
CallOk futures call = ProgressOk futures (to_string call.identity) call.progress

abbrev ExpiringOk : List Future → Option CachedCredentials → Type 0
ExpiringOk futures none = Unit
ExpiringOk futures (some cached) = IssuedFor futures (to_string cached.identity) cached

module _ (fs gs : List Future) (k : Keeps fs gs) where
  ProgressOk-Keeps : (key : Text) (p : Progress) → ProgressOk fs key p → ProgressOk gs key p
  ProgressOk-Keeps key started h = tt
  ProgressOk-Keeps key missed h = tt
  ProgressOk-Keeps key (waiting_cached f) h = Of-Keeps k key f h
  ProgressOk-Keeps key (waiting_new f) h = Of-Keeps k key f h
  ProgressOk-Keeps key (evicting f e) h = tt
  ProgressOk-Keeps key (returned (issued c)) (cached, e, i) =
      (cached, e, IssuedFor-Keeps k key cached i)
  ProgressOk-Keeps key (returned (not_issued e)) h = tt

  ExpiringOk-Keeps : (o : Option CachedCredentials) → ExpiringOk fs o → ExpiringOk gs o
  ExpiringOk-Keeps none h = tt
  ExpiringOk-Keeps (some cached) h = IssuedFor-Keeps k (to_string cached.identity) cached h

module _ (x : ItemCache ℕ) where
  -- A future that is held under a key, or that a call waits for, was made for an identity with that
  -- key, and what was returned or has expired came out of such a future.
  pub record Inv (s : CredentialsCache x) : Type 0 where
    pub held : (k : Text) (f : ℕ) → x.Holds s.cache k f → Of s.futures k f
    pub calls : All (CallOk s.futures) s.calls
    pub results : All ResultOk s.futures
    pub expiring : ExpiringOk s.futures s.expiring

  pub default_cache-Inv : Inv (default_cache x)
  unfolding default_cache
  default_cache-Inv = record {
    held = λ k f h. absurd (x.empty_holds k f h);
    calls = tt;
    results = tt;
    expiring = tt;
  }

  -- Other futures that keep the old ones, with all that they have.
  futures-Inv :
      (s : CredentialsCache x) (fs : List Future)
      → Keeps s.futures fs
      → All ResultOk fs
      → Inv s
      → Inv (record s { futures = fs })
  futures-Inv s fs k r v = record {
    held = λ key f h. Of-Keeps k key f (v.held key f h);
    calls =
        All-weaken (λ call. ProgressOk-Keeps s.futures fs k (to_string call.identity) call.progress)
          s.calls v.calls;
    results = r;
    expiring = ExpiringOk-Keeps s.futures fs k s.expiring v.expiring;
  }

  cache-Inv :
      (s : CredentialsCache x) (cache : x.Store)
      → ((k : Text) (f : ℕ) → x.Holds cache k f → Of s.futures k f)
      → Inv s
      → Inv (record s { cache = cache })
  cache-Inv s cache h v = record {
    held = h;
    calls = v.calls;
    results = v.results;
    expiring = v.expiring;
  }

  progress_to-Inv :
      (n : ℕ) (call : Call) (p : Progress) (s : CredentialsCache x)
      → ProgressOk s.futures (to_string call.identity) p
      → Inv s
      → Inv (progress_to x n call p s)
  unfolding progress_to
  progress_to-Inv n call p s h v = record {
    held = v.held;
    calls = All-set_elem (CallOk s.futures) n (record call { progress = p }) s.calls h v.calls;
    results = v.results;
    expiring = v.expiring;
  }

  expiring-Inv :
      (s : CredentialsCache x) (o : Option CachedCredentials)
      → ExpiringOk s.futures o
      → Inv s
      → Inv (record s { expiring = o })
  expiring-Inv s o h v = record {
    held = v.held;
    calls = v.calls;
    results = v.results;
    expiring = h;
  }

  evicted-Inv :
      (s : CredentialsCache x) (f : ℕ) (r : Result CachedCredentials)
      → result_of f s.futures ≡ some r
      → Inv s
      → Inv (evicted x r s)
  unfolding evicted
  evicted-Inv s f (not_issued e) h v = v
  evicted-Inv s f (issued c) h v = elim (Option-cases s.expiring) [
    | inl e ↦ rw (e, evicted) (expiring-Inv s (some c) (result_of-own s.futures f c v.results h) v)
    | inr (other, e) ↦ rw (e, evicted) v
  ]
