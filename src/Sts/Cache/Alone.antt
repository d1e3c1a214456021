-- ===== src/Sts/Cache/Alone.antt =====
-- Calls that nothing else comes between.
use kiam.Base.{ℕ, ◌≡◌, sym, ap, ◌∙◌, ◌++◌, Option, none, some, List, [], ◌∷◌}
use mathlib.Core.Path.{subst}
use kiam.Base.Lists.{length, get_elem?-append_last, set_elem-append_last}
use kiam.Sts.Identity.{RoleIdentity, to_string}
use kiam.Sts.Credentials.{Credentials}
use kiam.Sts.Cache.{
  ItemCache, Result, issued, CachedCredentials, Progress, Progress.started, Progress.missed,
  Progress.waiting_cached, Progress.waiting_new, Progress.returned, CredentialsCache, progress_to,
  result_of, lookup, create, answer_call, advance, complete_future, completed, new_future, Action,
  call_for, next, answer, step, run,
}

module _ (x : ItemCache ℕ) where
  -- The state with one more call.
  abbrev pub with_call : RoleIdentity → Progress → CredentialsCache x → CredentialsCache x
  with_call i p s = record s { calls = s.calls ++ record { identity = i; progress = p } ∷ [] }

  pub next-with_call :
      (i : RoleIdentity) (p : Progress) (s : CredentialsCache x)
      → step x (next (length s.calls)) (with_call i p s)
        ≡ advance x (length s.calls) (record { identity = i; progress = p }) p (with_call i p s)
  unfolding step
  next-with_call i p s =
      rw (get_elem?-append_last s.calls (record { identity = i; progress = p }), step)

  pub progress_to-with_call :
      (i : RoleIdentity) (p q : Progress) (s : CredentialsCache x)
      → progress_to x (length s.calls) (record { identity = i; progress = p }) q (with_call i p s)
        ≡ with_call i q s
  unfolding progress_to
  progress_to-with_call i p q s =
      ap (λ calls. record s { calls = calls })
        (set_elem-append_last s.calls (record { identity = i; progress = p })
          (record { identity = i; progress = q }))

  pub next-miss :
      (i : RoleIdentity) (s : CredentialsCache x)
      → x.get (to_string i) s.cache ≡ none
      → step x (next (length s.calls)) (with_call i started s) ≡ with_call i missed s
  unfolding advance lookup
  next-miss i s h =
      next-with_call i started s ∙ rw (h, lookup) (progress_to-with_call i started missed s)

  pub next-hit :
      (i : RoleIdentity) (f : ℕ) (s : CredentialsCache x)
      → x.get (to_string i) s.cache ≡ some f
      → step x (next (length s.calls)) (with_call i started s) ≡ with_call i (waiting_cached f) s
  unfolding advance lookup
  next-hit i f s h =
      next-with_call i started s
      ∙ rw (h, lookup) (progress_to-with_call i started (waiting_cached f) s)

  -- The state after a future has been made and put under its key.
  abbrev pub requested :
      RoleIdentity → Option (Result CachedCredentials) → CredentialsCache x → CredentialsCache x
  requested i r s = record s {
    futures = s.futures ++ record { identity = i; result = r } ∷ [];
    cache = x.set (to_string i) (length s.futures) s.cache;
  }

  pub next-create :
      (i : RoleIdentity) (s : CredentialsCache x)
      → step x (next (length s.calls)) (with_call i missed s)
        ≡ with_call i (waiting_new (length s.futures)) (requested i none s)
  unfolding advance create new_future progress_to
  next-create i s =
      next-with_call i missed s
      ∙ ap (λ calls. record (requested i none s) { calls = calls })
          (set_elem-append_last s.calls (record { identity = i; progress = missed })
            (record { identity = i; progress = waiting_new (length s.futures) }))

  pub answer-requested :
      (i : RoleIdentity) (p : Progress) (a : Result Credentials) (s : CredentialsCache x)
      → step x (answer (length s.futures) a) (with_call i p (requested i none s))
        ≡ with_call i p (requested i (some (completed i a)) s)
  unfolding step complete_future
  answer-requested i p a s =
      rw (get_elem?-append_last s.futures (record { identity = i; result = none }), step)
        (ap (λ fs. record (with_call i p (requested i none s)) { futures = fs })
          (set_elem-append_last s.futures (record { identity = i; result = none })
            (record { identity = i; result = some (completed i a) })))

  pub result_of-requested :
      (i : RoleIdentity) (r : Option (Result CachedCredentials)) (s : CredentialsCache x)
      → result_of (length s.futures) (requested i r s).futures ≡ r
  unfolding result_of
  result_of-requested i r s =
      rw (get_elem?-append_last s.futures (record { identity = i; result = r }), result_of)

  pub next-new :
      (i : RoleIdentity) (f : ℕ) (c : CachedCredentials) (s : CredentialsCache x)
      → result_of f s.futures ≡ some (issued c)
      → step x (next (length s.calls)) (with_call i (waiting_new f) s)
        ≡ with_call i (returned (issued c.credentials)) s
  unfolding advance answer_call
  next-new i f c s h =
      next-with_call i (waiting_new f) s
      ∙ rw (h, answer_call)
          (progress_to-with_call i (waiting_new f) (returned (issued c.credentials)) s)

  pub next-cached :
      (i : RoleIdentity) (f : ℕ) (c : CachedCredentials) (s : CredentialsCache x)
      → result_of f s.futures ≡ some (issued c)
      → step x (next (length s.calls)) (with_call i (waiting_cached f) s)
        ≡ with_call i (returned (issued c.credentials)) s
  unfolding advance answer_call
  next-cached i f c s h =
      next-with_call i (waiting_cached f) s
      ∙ rw (h, answer_call)
          (progress_to-with_call i (waiting_cached f) (returned (issued c.credentials)) s)

  -- A call that misses, alone, with the gateway's answer.
  abbrev pub first_call : RoleIdentity → Credentials → CredentialsCache x → List (Action x)
  first_call i c s =
      call_for i
      ∷ next (length s.calls)
      ∷ next (length s.calls)
      ∷ answer (length s.futures) (issued c)
      ∷ next (length s.calls)
      ∷ []

  -- A call whose key is not in the cache, and which nothing comes between, makes one request. When
  -- the gateway answers with credentials the call returns them, and its future stays under the key.
  lone_call_returns :
      (i : RoleIdentity) (c : Credentials) (s : CredentialsCache x)
      → x.get (to_string i) s.cache ≡ none
      → run x (first_call i c s) s
        ≡ with_call i (returned (issued c)) (requested i (some (completed i (issued c))) s)
  unfolding run completed
  lone_call_returns i c s h =
      let f = length s.futures in
      let cached : CachedCredentials = record { identity = i; credentials = c } in
      ap
        (λ t.
          step x (next (length s.calls))
            (step x (answer f (issued c)) (step x (next (length s.calls)) t)))
        (next-miss i s h)
      ∙ ap (λ t. step x (next (length s.calls)) (step x (answer f (issued c)) t)) (next-create i s)
      ∙ ap (step x (next (length s.calls))) (answer-requested i (waiting_new f) (issued c) s)
      ∙ next-new i f cached (requested i (some (issued cached)) s)
          (result_of-requested i (some (issued cached)) s)

  -- A later call with the key of a future that is done and in the cache returns that future's
  -- credentials, and nothing is asked of the gateway.
  later_call_returns :
      (j : RoleIdentity) (f : ℕ) (c : CachedCredentials) (s : CredentialsCache x)
      → x.get (to_string j) s.cache ≡ some f
      → result_of f s.futures ≡ some (issued c)
      → run x (call_for j ∷ next (length s.calls) ∷ next (length s.calls) ∷ []) s
        ≡ with_call j (returned (issued c.credentials)) s
  unfolding run
  later_call_returns j f c s h r =
      ap (step x (next (length s.calls))) (next-hit j f s h) ∙ next-cached j f c s r

  -- Calls that nothing comes between, for identities with one key that is not in the cache: the first
  -- makes one request and returns the credentials that the gateway answers with, and the second
  -- returns the same credentials, while the futures and the cache stay as the first call left them.
  calls_share_request :
      (i j : RoleIdentity) (c : Credentials) (s : CredentialsCache x)
      → x.get (to_string i) s.cache ≡ none
      → to_string j ≡ to_string i
      → let first = run x (first_call i c s) s in
        (first ≡ with_call i (returned (issued c)) (requested i (some (completed i (issued c))) s))
        × (run x (call_for j ∷ next (length first.calls) ∷ next (length first.calls) ∷ []) first
            ≡ with_call j (returned (issued c)) first)
  unfolding completed
  calls_share_request i j c s h e =
      let cached : CachedCredentials = record { identity = i; credentials = c } in
      let left = requested i (some (issued cached)) s in
      let there = with_call i (returned (issued c)) left in
      let same = lone_call_returns i c s h in
      let found =
        ap (λ k. x.get k left.cache) e ∙ x.get_set (to_string i) (length s.futures) s.cache in
      let later =
        later_call_returns j (length s.futures) cached there found
          (result_of-requested i (some (issued cached)) s) in
      (
        same,
        subst
            (λ t.
              run x (call_for j ∷ next (length t.calls) ∷ next (length t.calls) ∷ []) t
              ≡ with_call j (returned (issued c)) t)
            (sym same) later,
      )
