-- ===== src/Sts/Cache/Metrics/Kept.antt =====
-- The steps of a call that leave the metrics of misses, errors and calls of AssumeRole as they are.
use kiam.Base.{ℕ, ◌+◌, ◌≡◌, refl, ap, inl, inr, Option, none, some, Option-cases, arith}
use kiam.Base.Lists.{length, get_elem?}
use kiam.Base.Total.{total, total-set_elem}
use kiam.Base.Outcome.{Error}
use kiam.Sts.Identity.{to_string}
use kiam.Sts.Cache.{
  ItemCache, Result, issued, not_issued, CachedCredentials, Future, Call, Progress, Progress.missed,
  Progress.started, Progress.waiting_cached, Progress.waiting_new, Progress.evicting,
  Progress.returned, CredentialsCache, progress_to, discard, answer_call, evict_own, evicted,
  cancel,
}
use kiam.Sts.Cache.Metrics.{
  StsMetrics, evicted_metrics, discard_metrics, answer_metrics, cancel_metrics,
}

-- A future that is not done, and one that failed.
abbrev pub pending : Future → ℕ
pending f = elim f.result [ none ↦ 1 | some r ↦ 0 ]

abbrev pub failed_result : Result CachedCredentials → ℕ
failed_result (issued c) = 0
failed_result (not_issued e) = 1

abbrev pub failed : Future → ℕ
failed f = elim f.result [ none ↦ 0 | some r ↦ failed_result r ]

-- A call between its miss and its future.
abbrev pub missed_at : Progress → ℕ
missed_at missed = 1
missed_at _ = 0

abbrev pub missed_call : Call → ℕ
missed_call call = missed_at call.progress

module _ (x : ItemCache ℕ) where
  -- Each call of AssumeRole belongs to one future, and so does each miss, once the call has gone on.
  pub record Accounts (s : CredentialsCache x) (m : StsMetrics) : Type 0 where
    pub executing : m.assume_role_executing ≡ total pending s.futures
    pub observed : m.assume_role + total pending s.futures ≡ length s.futures
    pub errors : m.error_issuing ≡ total failed s.futures
    pub misses : m.cache_miss ≡ length s.futures + total missed_call s.calls

  -- The metrics but for the cache's size and its hits.
  pub record Same (m n : StsMetrics) : Type 0 where
    pub executing : n.assume_role_executing ≡ m.assume_role_executing
    pub observed : n.assume_role ≡ m.assume_role
    pub errors : n.error_issuing ≡ m.error_issuing
    pub misses : n.cache_miss ≡ m.cache_miss

  pub Same-refl : (m : StsMetrics) → Same m m
  Same-refl m = record { executing = refl; observed = refl; errors = refl; misses = refl }

  -- Nothing that counts changes.
  pub record Kept (s : CredentialsCache x) (m : StsMetrics) (t : CredentialsCache x)
      (n : StsMetrics) : Type 0 where
    pub futures : t.futures ≡ s.futures
    pub calls : total missed_call t.calls ≡ total missed_call s.calls
    pub same : Same m n

  pub Kept-refl : (s : CredentialsCache x) (m : StsMetrics) → Kept s m s m
  Kept-refl s m = record { futures = refl; calls = refl; same = Same-refl m }

  pub Kept-Accounts :
      {s t : CredentialsCache x} {m n : StsMetrics} → Kept s m t n → Accounts s m → Accounts t n
  Kept-Accounts k a =
      let p = ap (total pending) k.futures in
      let f = ap (total failed) k.futures in
      let l = ap (length {A = Future}) k.futures in
      record {
        executing = omega (arith, k.same.executing, a.executing);
        observed = omega (arith, k.same.observed, a.observed);
        errors = omega (arith, k.same.errors, a.errors);
        misses = omega (arith, k.same.misses, a.misses, k.calls);
      }

  pub moved :
      (n : ℕ) (call : Call) (p : Progress) (s : CredentialsCache x)
      → get_elem? s.calls n ≡ some call
      → total missed_call (progress_to x n call p s).calls + missed_at call.progress
        ≡ total missed_call s.calls + missed_at p
  unfolding progress_to
  moved n call p s h = total-set_elem missed_call n call (record call { progress = p }) s.calls h

  -- A call moves on that is not at a miss before or afterwards.
  pub progress-Kept :
      (n : ℕ) (call : Call) (p : Progress) (s : CredentialsCache x) (m k : StsMetrics)
      → get_elem? s.calls n ≡ some call
      → missed_at call.progress ≡ 0
      → missed_at p ≡ 0
      → Same m k
      → Kept s m (progress_to x n call p s) k
  unfolding progress_to
  progress-Kept n call p s m k h before after same =
      let sum = moved n call p s h in record { futures = refl; calls = omega arith; same = same }

  pub evicted-Kept :
      (r : Result CachedCredentials) (s t : CredentialsCache x) (m k : StsMetrics)
      → Kept s m t k
      → Kept s m (evicted x r t) k
  unfolding evicted
  evicted-Kept (not_issued e) s t m k h = h
  evicted-Kept (issued c) s t m k h = elim (Option-cases t.expiring) [
    | inl e ↦ rw (e, evicted) (record { futures = h.futures; calls = h.calls; same = h.same })
    | inr (other, e) ↦ rw (e, evicted) h
  ]

  pub discard-Kept :
      (n : ℕ) (call : Call) (e : Error) (s : CredentialsCache x) (m : StsMetrics)
      → get_elem? s.calls n ≡ some call
      → missed_at call.progress ≡ 0
      → Kept s m (discard x n call e s) (discard_metrics x call s m)
  unfolding discard discard_metrics evicted_metrics progress_to
  discard-Kept n call e s m h before =
      elim (Option-cases (x.delete (to_string call.identity) s.cache).0) [
        | inl d ↦
            let k =
              progress-Kept n call (returned (not_issued e)) s m m h before refl (Same-refl m) in
            rw (d, discard, discard_metrics)
              (record { futures = refl; calls = k.calls; same = Same-refl m })
        | inr (f, d) ↦
            let k = progress-Kept n call (evicting f e) s m m h before refl (Same-refl m) in
            rw (d, discard, discard_metrics)
              (record {
                futures = refl;
                calls = k.calls;
                same = record { executing = refl; observed = refl; errors = refl; misses = refl };
              })
      ]

  pub answer-Kept :
      (n : ℕ) (call : Call) (r : Option (Result CachedCredentials)) (s : CredentialsCache x)
      (good m : StsMetrics)
      → Same m good
      → get_elem? s.calls n ≡ some call
      → missed_at call.progress ≡ 0
      → Kept s m (answer_call x n call r s) (answer_metrics x good call r s m)
  unfolding answer_call answer_metrics
  answer-Kept n call none s good m g h before = Kept-refl s m
  answer-Kept n call (some (issued c)) s good m g h before =
      progress-Kept n call (returned (issued c.credentials)) s m good h before refl g
  answer-Kept n call (some (not_issued e)) s good m g h before = discard-Kept n call e s m h before

  pub evict_own-Kept :
      (n : ℕ) (call : Call) (e : Error) (r : Option (Result CachedCredentials))
      (s : CredentialsCache x) (m : StsMetrics)
      → get_elem? s.calls n ≡ some call
      → missed_at call.progress ≡ 0
      → Kept s m (evict_own x n call e r s) m
  unfolding evict_own
  evict_own-Kept n call e none s m h before = Kept-refl s m
  evict_own-Kept n call e (some r) s m h before =
      evicted-Kept r s (progress_to x n call (returned (not_issued e)) s) m m
        (progress-Kept n call (returned (not_issued e)) s m m h before refl (Same-refl m))

  pub cancel-Kept :
      (n : ℕ) (call : Call) (e : Error) (p : Progress) (s : CredentialsCache x) (m : StsMetrics)
      → get_elem? s.calls n ≡ some call
      → call.progress ≡ p
      → Kept s m (cancel x n call e p s) (cancel_metrics x call p s m)
  unfolding cancel cancel_metrics
  cancel-Kept n call e (waiting_cached f) s m h at = discard-Kept n call e s m h (ap missed_at at)
  cancel-Kept n call e (waiting_new f) s m h at = discard-Kept n call e s m h (ap missed_at at)
  cancel-Kept n call e started s m h at = Kept-refl s m
  cancel-Kept n call e missed s m h at = Kept-refl s m
  cancel-Kept n call e (evicting f d) s m h at = Kept-refl s m
  cancel-Kept n call e (returned r) s m h at = Kept-refl s m
