-- ===== src/Sts/Cache/Metrics.antt =====
-- The metrics of pkg/aws/sts/metrics.go that pkg/aws/sts/cache.go and the gateway's Issue move, beside
-- the steps of the cache. An eviction by the janitor is counted when it ends, while the code counts it
-- before it waits for the future.
pub mod Size
pub mod Kept
pub mod Counts
use kiam.Base.{ℕ, ◌+◌, ◌-◌, Option, none, some, List, [], ◌∷◌}
use kiam.Base.Lists.{get_elem?}
use kiam.Sts.Identity.{to_string}
use kiam.Sts.Credentials.{Credentials}
use kiam.Sts.Cache.{
  ItemCache, Result, issued, not_issued, CachedCredentials, Future, Call, Progress,
  Progress.started, Progress.missed, Progress.waiting_cached, Progress.waiting_new,
  Progress.evicting, Progress.returned, CredentialsCache, result_of, Action, call_for, next,
  context_done, answer, janitor, janitor_evicts, receive_expiring, wait, step,
}

-- Of the histogram `assume_role` there is the number of its observations.
pub record StsMetrics : Type 0 where
  pub cache_size : ℕ
  pub cache_hit : ℕ
  pub cache_miss : ℕ
  pub error_issuing : ℕ
  pub assume_role : ℕ
  pub assume_role_executing : ℕ

abbrev pub no_metrics : StsMetrics
no_metrics = record {
  cache_size = 0;
  cache_hit = 0;
  cache_miss = 0;
  error_issuing = 0;
  assume_role = 0;
  assume_role_executing = 0;
}

-- The start of evicted
evicted_metrics : StsMetrics → StsMetrics
evicted_metrics m = record m { cache_size = m.cache_size - 1 }

-- The start of Issue, and its end on every path: the deferred calls.
issue_started : StsMetrics → StsMetrics
issue_started m = record m { assume_role_executing = m.assume_role_executing + 1 }

issue_ended : StsMetrics → StsMetrics
issue_ended m = record m {
  assume_role = m.assume_role + 1;
  assume_role_executing = m.assume_role_executing - 1;
}

module _ (x : ItemCache ℕ) where
  -- Delete, which calls `evicted` on what it removes.
  pub discard_metrics : Call → CredentialsCache x → StsMetrics → StsMetrics
  unfolding evicted_metrics
  discard_metrics call s m = elim (x.delete (to_string call.identity) s.cache).0 [
    | none ↦ m
    | some f ↦ evicted_metrics m
  ]

  -- A call whose future is done; the first argument is whether it came from the cache.
  pub answer_metrics :
      StsMetrics
      → Call
      → Option (Result CachedCredentials)
      → CredentialsCache x
      → StsMetrics
      → StsMetrics
  unfolding discard_metrics
  answer_metrics good call none s m = m
  answer_metrics good call (some (issued c)) s m = good
  answer_metrics good call (some (not_issued e)) s m = discard_metrics call s m

  advance_metrics : Call → Progress → CredentialsCache x → StsMetrics → StsMetrics
  unfolding answer_metrics issue_started
  advance_metrics call started s m = elim (x.get (to_string call.identity) s.cache) [
    | none ↦ record m { cache_miss = m.cache_miss + 1 }
    | some f ↦ m
  ]
  advance_metrics call missed s m = issue_started (record m { cache_size = m.cache_size + 1 })
  advance_metrics call (waiting_cached f) s m =
      answer_metrics (record m { cache_hit = m.cache_hit + 1 }) call (result_of f s.futures) s m
  advance_metrics call (waiting_new f) s m = answer_metrics m call (result_of f s.futures) s m
  advance_metrics call (evicting f e) s m = m
  advance_metrics call (returned r) s m = m

  pub cancel_metrics : Call → Progress → CredentialsCache x → StsMetrics → StsMetrics
  unfolding discard_metrics
  cancel_metrics call (waiting_cached f) s m = discard_metrics call s m
  cancel_metrics call (waiting_new f) s m = discard_metrics call s m
  cancel_metrics call _ s m = m

  -- An eviction of the janitor, counted with its end.
  evict_metrics : List ℕ → CredentialsCache x → StsMetrics → StsMetrics
  unfolding evicted_metrics
  evict_metrics [] s m = m
  evict_metrics (f ∷ rest) s m = elim (result_of f s.futures) [
    | none ↦ m
    | some r ↦ evicted_metrics m
  ]

  -- What `issue` counts on the gateway's answer.
  count_answer : Result Credentials → StsMetrics → StsMetrics
  count_answer (issued c) m = m
  count_answer (not_issued e) m = record m { error_issuing = m.error_issuing + 1 }

  -- The end of Issue and of `issue`, if the future is not done yet.
  issue_metrics : Result Credentials → Future → StsMetrics → StsMetrics
  unfolding issue_ended count_answer
  issue_metrics a future m = elim future.result [
    | none ↦ count_answer a (issue_ended m)
    | some r ↦ m
  ]

  pub step_metrics : Action x → CredentialsCache x → StsMetrics → StsMetrics
  unfolding advance_metrics cancel_metrics evict_metrics issue_metrics
  step_metrics (next n) s m = elim (get_elem? s.calls n) [
    | none ↦ m
    | some call ↦ advance_metrics call call.progress s m
  ]
  step_metrics (context_done n e) s m = elim (get_elem? s.calls n) [
    | none ↦ m
    | some call ↦ cancel_metrics call call.progress s m
  ]
  step_metrics (answer f a) s m = elim (get_elem? s.futures f) [
    | none ↦ m
    | some future ↦ issue_metrics a future m
  ]
  step_metrics janitor_evicts s m = evict_metrics s.evictions s m
  step_metrics _ s m = m

  unfoldable pub run_metrics : List (Action x) → CredentialsCache x → StsMetrics → StsMetrics
  unfolding step_metrics
  run_metrics [] s m = m
  run_metrics (a ∷ rest) s m = run_metrics rest (step x a s) (step_metrics a s m)
