-- ===== src/Sts/Cache/Metrics/Counts.antt =====
-- What the metrics of misses, errors and calls of AssumeRole count.
use kiam.Base.{ℕ, ◌+◌, ◌-◌, ◌≡◌, refl, ap, inl, inr, none, some, List, [], ◌∷◌, Option-cases, arith}
use kiam.Base.Lists.{length, length-append, get_elem?}
use kiam.Base.Total.{total-append, total-set_elem, length-set_elem}
use kiam.Sts.Identity.{RoleIdentity, to_string}
use kiam.Sts.Credentials.{Credentials}
use kiam.Sts.Cache.{
  ItemCache, Result, issued, not_issued, Future, Call, Progress, Progress.missed, Progress.started,
  Progress.waiting_cached, Progress.waiting_new, Progress.evicting, Progress.returned,
  CredentialsCache, default_cache, result_of, progress_to, lookup, create, advance, evict_next,
  complete_future, completed, new_future, Action, call_for, next, context_done, answer, janitor,
  janitor_evicts, receive_expiring, wait, step, run,
}
use kiam.Sts.Cache.Metrics.{
  StsMetrics, no_metrics, issue_started, issue_ended, count_answer, evicted_metrics,
  advance_metrics, evict_metrics, issue_metrics, step_metrics, run_metrics,
}
use kiam.Sts.Cache.Metrics.Kept.{
  pending, failed, failed_result, missed_at, missed_call, Accounts, Same-refl, Kept-Accounts, moved,
  progress-Kept, evicted-Kept, answer-Kept, evict_own-Kept, cancel-Kept,
}

module _ (x : ItemCache ℕ) where
  create-Accounts :
      (n : ℕ) (call : Call) (s : CredentialsCache x) (m : StsMetrics)
      → get_elem? s.calls n ≡ some call
      → call.progress ≡ missed
      → Accounts x s m
      → Accounts x (create x n call s) (issue_started (record m { cache_size = m.cache_size + 1 }))
  unfolding create progress_to issue_started new_future
  create-Accounts n call s m h at a =
      let new : Future = record { identity = call.identity; result = none } in
      let p = total-append pending s.futures (new ∷ []) in
      let f = total-append failed s.futures (new ∷ []) in
      let l = length-append s.futures (new ∷ []) in
      let sum = moved x n call (waiting_new (length s.futures)) s h in
      let one = ap missed_at at in
      record {
        executing = omega (arith, a.executing);
        observed = omega (arith, a.observed);
        errors = omega (arith, a.errors);
        misses = omega (arith, a.misses);
      }

  lookup-Accounts :
      (n : ℕ) (call : Call) (s : CredentialsCache x) (m : StsMetrics)
      → get_elem? s.calls n ≡ some call
      → call.progress ≡ started
      → Accounts x s m
      → Accounts x (lookup x n call s) (advance_metrics x call started s m)
  unfolding lookup advance_metrics progress_to
  lookup-Accounts n call s m h at a =
      elim (Option-cases (x.get (to_string call.identity) s.cache)) [
        | inl e ↦
            let sum = moved x n call missed s h in
            let zero = ap missed_at at in
            rw (e, lookup, advance_metrics)
              (record {
                executing = a.executing;
                observed = a.observed;
                errors = a.errors;
                misses = omega (arith, a.misses);
              })
        | inr (f, e) ↦
            rw (e, lookup, advance_metrics)
              (Kept-Accounts x
                (progress-Kept x n call (waiting_cached f) s m m h (ap missed_at at) refl
                  (Same-refl x m))
                a)
      ]

  advance-Accounts :
      (n : ℕ) (call : Call) (p : Progress) (s : CredentialsCache x) (m : StsMetrics)
      → get_elem? s.calls n ≡ some call
      → call.progress ≡ p
      → Accounts x s m
      → Accounts x (advance x n call p s) (advance_metrics x call p s m)
  unfolding advance advance_metrics
  advance-Accounts n call started s m h at a = lookup-Accounts n call s m h at a
  advance-Accounts n call missed s m h at a = create-Accounts n call s m h at a
  advance-Accounts n call (waiting_cached f) s m h at a =
      Kept-Accounts x
        (answer-Kept x n call (result_of f s.futures) s (record m { cache_hit = m.cache_hit + 1 }) m
          (record { executing = refl; observed = refl; errors = refl; misses = refl }) h
          (ap missed_at at))
        a
  advance-Accounts n call (waiting_new f) s m h at a =
      Kept-Accounts x
        (answer-Kept x n call (result_of f s.futures) s m m (Same-refl x m) h (ap missed_at at)) a
  advance-Accounts n call (evicting f e) s m h at a =
      Kept-Accounts x (evict_own-Kept x n call e (result_of f s.futures) s m h (ap missed_at at)) a
  advance-Accounts n call (returned r) s m h at a = a

  evict_next-Accounts :
      (fs : List ℕ) (s : CredentialsCache x) (m : StsMetrics)
      → Accounts x s m
      → Accounts x (evict_next x fs s) (evict_metrics x fs s m)
  unfolding evict_next evict_metrics evicted_metrics
  evict_next-Accounts [] s m a = a
  evict_next-Accounts (f ∷ rest) s m a = elim (Option-cases (result_of f s.futures)) [
    | inl h ↦ rw (h, evict_next, evict_metrics) a
    | inr (r, h) ↦
        let rest_of = record s { evictions = rest } in
        let counted = record m { cache_size = m.cache_size - 1 } in
        rw (h, evict_next, evict_metrics)
          (Kept-Accounts x
            (evicted-Kept x r s rest_of m counted (record {
              futures = refl;
              calls = refl;
              same = record { executing = refl; observed = refl; errors = refl; misses = refl };
            }))
            a)
  ]

  count_answer-counts :
      (r : Result Credentials) (i : RoleIdentity) (m : StsMetrics)
      → ((count_answer x r m).assume_role_executing ≡ m.assume_role_executing)
        × ((count_answer x r m).assume_role ≡ m.assume_role)
        × ((count_answer x r m).error_issuing ≡ m.error_issuing + failed_result (completed i r))
        × ((count_answer x r m).cache_miss ≡ m.cache_miss)
  unfolding count_answer completed
  count_answer-counts (issued c) i m = (refl, refl, omega arith, refl)
  count_answer-counts (not_issued e) i m = (refl, refl, refl, refl)

  -- The gateway answers for a future that is not done.
  answer-Accounts :
      (f : ℕ) (future : Future) (r : Result Credentials) (s : CredentialsCache x) (m : StsMetrics)
      → get_elem? s.futures f ≡ some future
      → Accounts x s m
      → Accounts x
          (record s { futures = complete_future f future r s.futures })
          (issue_metrics x r future m)
  unfolding complete_future issue_metrics issue_ended
  answer-Accounts f future r s m h a = elim (Option-cases future.result) [
    | inr (q, e) ↦ rw (e, complete_future, issue_metrics) a
    | inl e ↦
        let new = record future { result = some (completed future.identity r) } in
        let p = rw e at (total-set_elem pending f future new s.futures h) in
        let q = rw e at (total-set_elem failed f future new s.futures h) in
        let l = length-set_elem f new s.futures in
        let (ran, observed, errors, misses) =
          count_answer-counts r future.identity (issue_ended m) in
        rw (e, complete_future, issue_metrics)
          (record {
            executing = omega (arith, a.executing, ran);
            observed = omega (arith, a.executing, a.observed, observed);
            errors = omega (arith, a.errors, errors);
            misses = omega (arith, a.misses, misses);
          })
  ]

  step-Accounts :
      (a : Action x) (s : CredentialsCache x) (m : StsMetrics)
      → Accounts x s m
      → Accounts x (step x a s) (step_metrics x a s m)
  unfolding step step_metrics
  step-Accounts (call_for i) s m a =
      let new : Call = record { identity = i; progress = started } in
      let sum = total-append missed_call s.calls (new ∷ []) in
      record {
        executing = a.executing;
        observed = a.observed;
        errors = a.errors;
        misses = omega (arith, a.misses);
      }
  step-Accounts (next n) s m a = elim (Option-cases (get_elem? s.calls n)) [
    | inl e ↦ rw (e, step, step_metrics) a
    | inr (call, e) ↦
        rw (e, step, step_metrics) (advance-Accounts n call call.progress s m e refl a)
  ]
  step-Accounts (context_done n d) s m a = elim (Option-cases (get_elem? s.calls n)) [
    | inl e ↦ rw (e, step, step_metrics) a
    | inr (call, e) ↦
        rw (e, step, step_metrics)
          (Kept-Accounts x (cancel-Kept x n call d call.progress s m e refl) a)
  ]
  step-Accounts (answer f r) s m a = elim (Option-cases (get_elem? s.futures f)) [
    | inl e ↦ rw (e, step, step_metrics) a
    | inr (future, e) ↦ rw (e, step, step_metrics) (answer-Accounts f future r s m e a)
  ]
  step-Accounts janitor s m a = record {
    executing = a.executing;
    observed = a.observed;
    errors = a.errors;
    misses = a.misses;
  }
  step-Accounts janitor_evicts s m a = evict_next-Accounts s.evictions s m a
  step-Accounts receive_expiring s m a = record {
    executing = a.executing;
    observed = a.observed;
    errors = a.errors;
    misses = a.misses;
  }
  step-Accounts wait s m a = record {
    executing = a.executing;
    observed = a.observed;
    errors = a.errors;
    misses = a.misses;
  }

  run-Accounts :
      (actions : List (Action x)) (s : CredentialsCache x) (m : StsMetrics)
      → Accounts x s m
      → Accounts x (run x actions s) (run_metrics x actions s m)
  unfolding run run_metrics
  run-Accounts [] s m a = a
  run-Accounts (act ∷ rest) s m a =
      run-Accounts rest (step x act s) (step_metrics x act s m) (step-Accounts act s m a)

  -- In any interleaving the gauge of running calls of AssumeRole is the number of futures that are
  -- not done, its histogram has one observation for each that is, the errors of issuing are the
  -- futures that failed, and the misses are the futures with the calls that have missed and have none
  -- yet.
  pub sts_metrics-Accounts :
      (actions : List (Action x))
      → Accounts x
          (run x actions (default_cache x))
          (run_metrics x actions (default_cache x) no_metrics)
  unfolding default_cache
  sts_metrics-Accounts actions =
      run-Accounts actions (default_cache x) no_metrics
        (record { executing = refl; observed = refl; errors = refl; misses = refl })
