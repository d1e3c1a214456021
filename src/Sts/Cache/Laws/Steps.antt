-- ===== src/Sts/Cache/Laws/Steps.antt =====
-- Every action keeps the invariant.
use kiam.Base.{ℕ, ◌≡◌, refl, sym, inl, inr, Option, none, some, List, [], ◌∷◌, Option-cases}
use mathlib.Core.Path.{subst}
use kiam.Base.Lists.{length, get_elem?, All-append, All-get_elem?}
use kiam.Base.Outcome.{Error}
use kiam.Sts.Identity.{to_string}
use kiam.Sts.Cache.{
  ItemCache, Result, issued, not_issued, CachedCredentials, Call, Progress, Progress.started,
  Progress.missed, Progress.waiting_cached, Progress.waiting_new, Progress.evicting,
  Progress.returned, CredentialsCache, result_of, progress_to, lookup, create, discard, answer_call,
  evict_own, advance, cancel, evict_next, Action, call_for, next, context_done, answer, janitor,
  janitor_evicts, receive_expiring, wait, step, run, complete_future, new_future,
}
use kiam.Sts.Cache.Laws.Futures.{
  Of, new_future-Keeps, new_future-Of, new_future-ResultOk, complete_future-Keeps,
  complete_future-ResultOk, result_of-IssuedFor,
}
use kiam.Sts.Cache.Laws.{
  ProgressOk, CallOk, Inv, futures-Inv, cache-Inv, progress_to-Inv, expiring-Inv, evicted-Inv,
}

module _ (x : ItemCache ℕ) where
  lookup-Inv : (n : ℕ) (call : Call) (s : CredentialsCache x) → Inv x s → Inv x (lookup x n call s)
  unfolding lookup
  lookup-Inv n call s v = elim (Option-cases (x.get (to_string call.identity) s.cache)) [
    | inl e ↦ rw (e, lookup) (progress_to-Inv x n call missed s tt v)
    | inr (f, e) ↦
        rw (e, lookup)
          (progress_to-Inv x n call (waiting_cached f) s
            (v.held (to_string call.identity) f (x.get_holds (to_string call.identity) f s.cache e))
            v)
  ]

  create-Inv : (n : ℕ) (call : Call) (s : CredentialsCache x) → Inv x s → Inv x (create x n call s)
  unfolding create progress_to
  create-Inv n call s v =
      let fs = new_future call.identity s.futures in
      let f = length s.futures in
      let key = to_string call.identity in
      let grown = record s { futures = fs } in
      let w =
        futures-Inv x s fs (new_future-Keeps call.identity s.futures)
          (new_future-ResultOk call.identity s.futures v.results) v in
      let made = new_future-Of call.identity s.futures in
      progress_to-Inv x n call (waiting_new f) (record grown { cache = x.set key f s.cache }) made
        (cache-Inv x grown (x.set key f s.cache)
          (λ j g h. elim (x.set_holds key j f g s.cache h) [
            | inl (same_key, same) ↦
                subst (λ t. Of fs t g) (sym same_key) (subst (Of fs key) (sym same) made)
            | inr old ↦ w.held j g old
          ])
          w)

  discard-Inv :
      (n : ℕ) (call : Call) (e : Error) (s : CredentialsCache x)
      → Inv x s
      → Inv x (discard x n call e s)
  unfolding discard progress_to
  discard-Inv n call e s v =
      let key = to_string call.identity in
      let cache = (x.delete key s.cache).1 in
      let w = cache-Inv x s cache (λ j g h. v.held j g (x.delete_holds key j g s.cache h)) v in
      elim (Option-cases (x.delete key s.cache).0) [
        | inl d ↦
            rw (d, discard)
              (progress_to-Inv x n call (returned (not_issued e)) (record s { cache = cache }) tt w)
        | inr (f, d) ↦
            rw (d, discard)
              (progress_to-Inv x n call (evicting f e) (record s { cache = cache }) tt w)
      ]

  answer_call-Inv :
      (n : ℕ) (call : Call) (f : ℕ) (s : CredentialsCache x)
      → Of s.futures (to_string call.identity) f
      → Inv x s
      → Inv x (answer_call x n call (result_of f s.futures) s)
  unfolding answer_call
  answer_call-Inv n call f s o v = go (result_of f s.futures) refl
    where
      go :
          (r : Option (Result CachedCredentials))
          → result_of f s.futures ≡ r
          → Inv x (answer_call x n call r s)
      go none h = v
      go (some (issued c)) h =
          progress_to-Inv x n call (returned (issued c.credentials)) s
            (c, refl, result_of-IssuedFor s.futures (to_string call.identity) f c v.results o h) v
      go (some (not_issued e)) h = discard-Inv n call e s v

  evict_own-Inv :
      (n : ℕ) (call : Call) (e : Error) (f : ℕ) (s : CredentialsCache x)
      → Inv x s
      → Inv x (evict_own x n call e (result_of f s.futures) s)
  unfolding evict_own progress_to
  evict_own-Inv n call e f s v = elim (Option-cases (result_of f s.futures)) [
    | inl h ↦ rw (h, evict_own) v
    | inr (r, h) ↦
        rw (h, evict_own)
          (evicted-Inv x (progress_to x n call (returned (not_issued e)) s) f r h
            (progress_to-Inv x n call (returned (not_issued e)) s tt v))
  ]

  advance-Inv :
      (n : ℕ) (call : Call) (p : Progress) (s : CredentialsCache x)
      → ProgressOk s.futures (to_string call.identity) p
      → Inv x s
      → Inv x (advance x n call p s)
  unfolding advance
  advance-Inv n call started s o v = lookup-Inv n call s v
  advance-Inv n call missed s o v = create-Inv n call s v
  advance-Inv n call (waiting_cached f) s o v = answer_call-Inv n call f s o v
  advance-Inv n call (waiting_new f) s o v = answer_call-Inv n call f s o v
  advance-Inv n call (evicting f e) s o v = evict_own-Inv n call e f s v
  advance-Inv n call (returned r) s o v = v

  cancel-Inv :
      (n : ℕ) (call : Call) (e : Error) (p : Progress) (s : CredentialsCache x)
      → Inv x s
      → Inv x (cancel x n call e p s)
  unfolding cancel
  cancel-Inv n call e (waiting_cached f) s v = discard-Inv n call e s v
  cancel-Inv n call e (waiting_new f) s v = discard-Inv n call e s v
  cancel-Inv n call e started s v = v
  cancel-Inv n call e missed s v = v
  cancel-Inv n call e (evicting f d) s v = v
  cancel-Inv n call e (returned r) s v = v

  evict_next-Inv : (fs : List ℕ) (s : CredentialsCache x) → Inv x s → Inv x (evict_next x fs s)
  unfolding evict_next
  evict_next-Inv [] s v = v
  evict_next-Inv (f ∷ rest) s v = elim (Option-cases (result_of f s.futures)) [
    | inl h ↦ rw (h, evict_next) v
    | inr (r, h) ↦
        rw (h, evict_next)
          (evicted-Inv x (record s { evictions = rest }) f r h
            (record { held = v.held; calls = v.calls; results = v.results; expiring = v.expiring }))
  ]

  step-Inv : (a : Action x) (s : CredentialsCache x) → Inv x s → Inv x (step x a s)
  unfolding step
  step-Inv (call_for i) s v = record {
    held = v.held;
    calls = All-append (CallOk s.futures) s.calls _ v.calls (tt, tt);
    results = v.results;
    expiring = v.expiring;
  }
  step-Inv (next n) s v = elim (Option-cases (get_elem? s.calls n)) [
    | inl e ↦ rw (e, step) v
    | inr (call, e) ↦
        rw (e, step)
          (advance-Inv n call call.progress s (All-get_elem? (CallOk s.futures) n s.calls e v.calls)
            v)
  ]
  step-Inv (context_done n x') s v = elim (Option-cases (get_elem? s.calls n)) [
    | inl e ↦ rw (e, step) v
    | inr (call, e) ↦ rw (e, step) (cancel-Inv n call x' call.progress s v)
  ]
  step-Inv (answer f a) s v = elim (Option-cases (get_elem? s.futures f)) [
    | inl e ↦ rw (e, step) v
    | inr (future, e) ↦
        rw (e, step)
          (futures-Inv x s (complete_future f future a s.futures)
            (complete_future-Keeps f future a s.futures e)
            (complete_future-ResultOk f future a s.futures v.results) v)
  ]
  step-Inv janitor s v =
      let w =
        cache-Inv x s (x.delete_expired s.cache).1
          (λ j g h. v.held j g (x.expired_holds j g s.cache h)) v in
      record { held = w.held; calls = w.calls; results = w.results; expiring = w.expiring }
  step-Inv janitor_evicts s v = evict_next-Inv s.evictions s v
  step-Inv receive_expiring s v = expiring-Inv x s none tt v
  step-Inv wait s v =
      cache-Inv x s (x.pass_time s.cache) (λ j g h. v.held j g (x.time_holds j g s.cache h)) v

  pub run-Inv :
      (actions : List (Action x)) (s : CredentialsCache x) → Inv x s → Inv x (run x actions s)
  unfolding run
  run-Inv [] s v = v
  run-Inv (a ∷ rest) s v = run-Inv rest (step x a s) (step-Inv a s v)
