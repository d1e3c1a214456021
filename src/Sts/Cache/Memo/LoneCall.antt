-- ===== src/Sts/Cache/Memo/LoneCall.antt =====
-- A call of CredentialsForRole that nothing comes between, from its start to its end.
use kiam.Base.{ℕ, ◌≡◌, ap, ◌∙◌, none, some}
use kiam.Base.Lists.{length, get_elem?-length}
use kiam.Base.Text.{Text}
use kiam.Base.Outcome.{Error}
use kiam.Sts.Identity.{RoleIdentity, to_string}
use kiam.Sts.Credentials.{Credentials}
use kiam.Sts.Cache.{
  ItemCache, Result, issued, not_issued, CachedCredentials, Progress, Progress.waiting_new,
  Progress.evicting, Progress.returned, CredentialsCache, result_of, discard, answer_call,
  evict_own, evicted, advance, completed, next, answer, step, run,
}
use kiam.Sts.Cache.Alone.{
  with_call, requested, next-with_call, progress_to-with_call, next-miss, next-hit, next-create,
  answer-requested, result_of-requested, next-new, next-cached,
}
use kiam.Sts.Cache.Memo.{lone_call}

module _ (x : ItemCache ℕ) where
  -- What is found in the cache has been issued.
  abbrev pub Settled : CredentialsCache x → Type 0
  Settled s =
      (k : Text) (f : ℕ)
      → x.get k s.cache ≡ some f
      → (c : CachedCredentials) × (result_of f s.futures ≡ some (issued c))

  next-returned :
      (i : RoleIdentity) (r : Result Credentials) (s : CredentialsCache x)
      → step x (next (length s.calls)) (with_call x i (returned r) s) ≡ with_call x i (returned r) s
  unfolding advance
  next-returned i r s = next-with_call x i (returned r) s

  -- The state that a failed request leaves.
  abbrev pub discarded : RoleIdentity → Error → CredentialsCache x → CredentialsCache x
  discarded i e s = record (requested x i (some (not_issued e)) s) {
    cache = (x.delete (to_string i) (x.set (to_string i) (length s.futures) s.cache)).1;
  }

  next-failed :
      (i : RoleIdentity) (e : Error) (s : CredentialsCache x)
      → step x
          (next (length s.calls))
          (with_call x i (waiting_new (length s.futures)) (requested x i (some (not_issued e)) s))
        ≡ with_call x i (evicting (length s.futures) e) (discarded i e s)
  unfolding advance answer_call discard
  next-failed i e s =
      let there = requested x i (some (not_issued e)) s in
      next-with_call x i (waiting_new (length s.futures)) there
      ∙ rw (result_of-requested x i (some (not_issued e)) s, answer_call)
          (rw (x.delete_set (to_string i) (length s.futures) s.cache, discard)
            (ap
              (λ (t : CredentialsCache x). record t {
                cache = (x.delete (to_string i) (x.set (to_string i) (length s.futures) s.cache)).1;
              })
              (progress_to-with_call x i (waiting_new (length s.futures))
                (evicting (length s.futures) e) there)))

  next-evicting :
      (i : RoleIdentity) (e : Error) (s : CredentialsCache x)
      → step x
          (next (length s.calls))
          (with_call x i (evicting (length s.futures) e) (discarded i e s))
        ≡ with_call x i (returned (not_issued e)) (discarded i e s)
  unfolding advance evict_own evicted
  next-evicting i e s =
      let there = discarded i e s in
      next-with_call x i (evicting (length s.futures) e) there
      ∙ rw (result_of-requested x i (some (not_issued e)) s, evict_own)
          (progress_to-with_call x i (evicting (length s.futures) e) (returned (not_issued e))
            there)

  answer-none :
      (i : RoleIdentity) (p : Progress) (a : Result Credentials) (s : CredentialsCache x)
      → step x (answer (length s.futures) a) (with_call x i p s) ≡ with_call x i p s
  unfolding step
  answer-none i p a s = rw (get_elem?-length s.futures, step)

  -- The three ends of a call that is alone.
  pub lone_call-hit :
      (i : RoleIdentity) (a : Result Credentials) (f : ℕ) (c : CachedCredentials)
      (s : CredentialsCache x)
      → x.get (to_string i) s.cache ≡ some f
      → result_of f s.futures ≡ some (issued c)
      → run x (lone_call x i a s) s ≡ with_call x i (returned (issued c.credentials)) s
  unfolding run lone_call
  lone_call-hit i a f c s h r =
      let n = length s.calls in
      let go = λ (t : CredentialsCache x). step x (next n) (step x (next n) t) in
      let reply = step x (answer (length s.futures) a) in
      let end = issued c.credentials in
      ap (λ t. go (reply (step x (next n) t))) (next-hit x i f s h)
      ∙ ap (λ t. go (reply t)) (next-cached x i f c s r)
      ∙ ap go (answer-none i (returned end) a s)
      ∙ ap (step x (next n)) (next-returned i end s)
      ∙ next-returned i end s

  lone_call-miss :
      (i : RoleIdentity) (a : Result Credentials) (s : CredentialsCache x)
      → x.get (to_string i) s.cache ≡ none
      → run x (lone_call x i a s) s
        ≡ step x (next (length s.calls)) (
            step x (next (length s.calls)) (
              with_call x i
                (waiting_new (length s.futures))
                (requested x i (some (completed i a)) s)))
  unfolding run lone_call
  lone_call-miss i a s h =
      let n = length s.calls in
      let go = λ (t : CredentialsCache x). step x (next n) (step x (next n) t) in
      let reply = step x (answer (length s.futures) a) in
      ap (λ t. go (reply (step x (next n) t))) (next-miss x i s h)
      ∙ ap (λ t. go (reply t)) (next-create x i s)
      ∙ ap go (answer-requested x i (waiting_new (length s.futures)) a s)

  pub lone_call-issued :
      (i : RoleIdentity) (c : Credentials) (s : CredentialsCache x)
      → x.get (to_string i) s.cache ≡ none
      → run x (lone_call x i (issued c) s) s
        ≡ with_call x i (returned (issued c)) (requested x i (some (completed i (issued c))) s)
  unfolding completed
  lone_call-issued i c s h =
      let cached : CachedCredentials = record { identity = i; credentials = c } in
      let there = requested x i (some (issued cached)) s in
      lone_call-miss i (issued c) s h
      ∙ ap (step x (next (length s.calls))) (
          next-new x i (length s.futures) cached there
            (result_of-requested x i (some (issued cached)) s))
      ∙ next-returned i (issued c) there

  pub lone_call-failed :
      (i : RoleIdentity) (e : Error) (s : CredentialsCache x)
      → x.get (to_string i) s.cache ≡ none
      → run x (lone_call x i (not_issued e) s) s
        ≡ with_call x i (returned (not_issued e)) (discarded i e s)
  unfolding completed
  lone_call-failed i e s h =
      lone_call-miss i (not_issued e) s h
      ∙ ap (step x (next (length s.calls))) (next-failed i e s)
      ∙ next-evicting i e s
