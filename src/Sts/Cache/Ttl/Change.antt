-- ===== src/Sts/Cache/Ttl/Change.antt =====
-- What an action does to the items and the futures.
use kiam.Base.{ℕ, ◌≡◌, refl, inl, inr, Option, none, some, List, [], ◌∷◌, Option-cases}
use kiam.Base.Lists.{length, get_elem?}
use kiam.Base.Text.{Text}
use kiam.Base.Outcome.{Error}
use kiam.Sts.Identity.{RoleIdentity, to_string}
use kiam.Sts.Credentials.{Credentials}
use kiam.Sts.Cache.{
  ItemCache, Result, issued, not_issued, CachedCredentials, Future, Call, Progress,
  Progress.started, Progress.missed, Progress.waiting_cached, Progress.waiting_new,
  Progress.evicting, Progress.returned, CredentialsCache, result_of, progress_to, lookup, create,
  discard, answer_call, evict_own, evicted, advance, cancel, evict_next, complete_future,
  new_future, Action, call_for, next, context_done, answer, janitor, janitor_evicts,
  receive_expiring, wait, step,
}

module _ (x : ItemCache ℕ) (a : Action x) where
  pub data Change : CredentialsCache x → CredentialsCache x → Type 0 where
    same : {s t : CredentialsCache x} → t.cache ≡ s.cache → t.futures ≡ s.futures → Change s t
    made :
        {s t : CredentialsCache x} (i : RoleIdentity)
        → t.cache ≡ x.set (to_string i) (length s.futures) s.cache
        → t.futures ≡ new_future i s.futures
        → Change s t
    deleted :
        {s t : CredentialsCache x} (k : Text)
        → t.cache ≡ (x.delete k s.cache).1
        → t.futures ≡ s.futures
        → Change s t
    purged :
        {s t : CredentialsCache x}
        → t.cache ≡ (x.delete_expired s.cache).1
        → t.futures ≡ s.futures
        → Change s t
    passed :
        {s t : CredentialsCache x}
        → t.cache ≡ x.pass_time s.cache
        → t.futures ≡ s.futures
        → Change s t
    answered :
        {s t : CredentialsCache x} (f : ℕ) (future : Future) (r : Result Credentials)
        → a ≡ answer f r
        → get_elem? s.futures f ≡ some future
        → t.cache ≡ s.cache
        → t.futures ≡ complete_future f future r s.futures
        → Change s t

  evicted-Change :
      (r : Result CachedCredentials) (s t : CredentialsCache x)
      → t.cache ≡ s.cache
      → t.futures ≡ s.futures
      → Change s (evicted x r t)
  unfolding evicted
  evicted-Change (not_issued e) s t c f = same c f
  evicted-Change (issued d) s t c f = elim (Option-cases t.expiring) [
    | inl e ↦ rw (e, evicted) (same c f)
    | inr (other, e) ↦ rw (e, evicted) (same c f)
  ]

  discard-Change :
      (n : ℕ) (call : Call) (e : Error) (s : CredentialsCache x) → Change s (discard x n call e s)
  unfolding discard progress_to
  discard-Change n call e s = elim (Option-cases (x.delete (to_string call.identity) s.cache).0) [
    | inl d ↦ rw (d, discard) (deleted (to_string call.identity) refl refl)
    | inr (f, d) ↦ rw (d, discard) (deleted (to_string call.identity) refl refl)
  ]

  answer_call-Change :
      (n : ℕ) (call : Call) (r : Option (Result CachedCredentials)) (s : CredentialsCache x)
      → Change s (answer_call x n call r s)
  unfolding answer_call progress_to
  answer_call-Change n call none s = same refl refl
  answer_call-Change n call (some (issued c)) s = same refl refl
  answer_call-Change n call (some (not_issued e)) s = discard-Change n call e s

  evict_own-Change :
      (n : ℕ) (call : Call) (e : Error) (r : Option (Result CachedCredentials))
      (s : CredentialsCache x)
      → Change s (evict_own x n call e r s)
  unfolding evict_own progress_to
  evict_own-Change n call e none s = same refl refl
  evict_own-Change n call e (some r) s =
      evicted-Change r s (progress_to x n call (returned (not_issued e)) s) refl refl

  advance-Change :
      (n : ℕ) (call : Call) (p : Progress) (s : CredentialsCache x)
      → Change s (advance x n call p s)
  unfolding advance lookup create progress_to
  advance-Change n call started s = elim (Option-cases (x.get (to_string call.identity) s.cache)) [
    | inl e ↦ rw (e, lookup) (same refl refl)
    | inr (f, e) ↦ rw (e, lookup) (same refl refl)
  ]
  advance-Change n call missed s = made call.identity refl refl
  advance-Change n call (waiting_cached f) s = answer_call-Change n call (result_of f s.futures) s
  advance-Change n call (waiting_new f) s = answer_call-Change n call (result_of f s.futures) s
  advance-Change n call (evicting f e) s = evict_own-Change n call e (result_of f s.futures) s
  advance-Change n call (returned r) s = same refl refl

  cancel-Change :
      (n : ℕ) (call : Call) (e : Error) (p : Progress) (s : CredentialsCache x)
      → Change s (cancel x n call e p s)
  unfolding cancel
  cancel-Change n call e (waiting_cached f) s = discard-Change n call e s
  cancel-Change n call e (waiting_new f) s = discard-Change n call e s
  cancel-Change n call e started s = same refl refl
  cancel-Change n call e missed s = same refl refl
  cancel-Change n call e (evicting f d) s = same refl refl
  cancel-Change n call e (returned r) s = same refl refl

  evict_next-Change : (fs : List ℕ) (s : CredentialsCache x) → Change s (evict_next x fs s)
  unfolding evict_next
  evict_next-Change [] s = same refl refl
  evict_next-Change (f ∷ rest) s = elim (Option-cases (result_of f s.futures)) [
    | inl e ↦ rw (e, evict_next) (same refl refl)
    | inr (r, e) ↦ rw (e, evict_next) (evicted-Change r s (record s { evictions = rest }) refl refl)
  ]

pub step-Change :
    (x : ItemCache ℕ) (a : Action x) (s : CredentialsCache x) → Change x a s (step x a s)
unfolding step
step-Change x (call_for i) s = same refl refl
step-Change x (next n) s = elim (Option-cases (get_elem? s.calls n)) [
  | inl e ↦ rw (e, step) (same refl refl)
  | inr (call, e) ↦ rw (e, step) (advance-Change x (next n) n call call.progress s)
]
step-Change x (context_done n d) s = elim (Option-cases (get_elem? s.calls n)) [
  | inl e ↦ rw (e, step) (same refl refl)
  | inr (call, e) ↦ rw (e, step) (cancel-Change x (context_done n d) n call d call.progress s)
]
step-Change x (answer f a) s = elim (Option-cases (get_elem? s.futures f)) [
  | inl e ↦ rw (e, step) (same refl refl)
  | inr (future, e) ↦ rw (e, step) (answered f future a refl e refl refl)
]
step-Change x janitor s = purged refl refl
step-Change x janitor_evicts s = evict_next-Change x janitor_evicts s.evictions s
step-Change x receive_expiring s = same refl refl
step-Change x wait s = passed refl refl
