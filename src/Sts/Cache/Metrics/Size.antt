-- ===== src/Sts/Cache/Metrics/Size.antt =====
-- What the gauge of the cache's size counts.
use kiam.Base.{
  ℕ, ◌+◌, ◌-◌, ◌≡◌, refl, ap, ◌∙◌, inl, inr, Bool, Option, none, some, List, [], ◌∷◌, Option-cases,
  Bool-cases, if◌then◌else◌, arith,
}
use kiam.Base.Lists.{length, length-append, get_elem?}
use kiam.Base.Text.{Text}
use kiam.Base.Outcome.{Error}
use kiam.Sts.Identity.{to_string}
use kiam.Sts.Credentials.{Credentials}
use kiam.Sts.Cache.{
  ItemCache, Result, issued, not_issued, CachedCredentials, Future, Call, Progress,
  Progress.started, Progress.missed, Progress.waiting_cached, Progress.waiting_new,
  Progress.evicting, Progress.returned, CredentialsCache, default_cache, result_of, progress_to,
  lookup, create, discard, answer_call, evict_own, evicted, advance, cancel, evict_next, Action,
  call_for, next, context_done, answer, janitor, janitor_evicts, receive_expiring, wait, step, run,
}
use kiam.Sts.Cache.Metrics.{
  StsMetrics, no_metrics, issue_started, issue_ended, count_answer, evicted_metrics,
  discard_metrics, answer_metrics, advance_metrics, cancel_metrics, evict_metrics, issue_metrics,
  step_metrics, run_metrics,
}

-- The number of items that go-cache holds, expired or not, by its documentation.
pub record Counted (x : ItemCache ℕ) : Type 0 where
  pub held : x.Store → ℕ
  pub is_held : Text → x.Store → Bool
  pub held_empty : held x.empty ≡ 0
  pub held_set :
      (k : Text) (f : ℕ) (s : x.Store)
      → held (x.set k f s) ≡ (if is_held k s then held s else held s + 1)
  pub held_delete :
      (k : Text) (s : x.Store)
      → held s ≡ held (x.delete k s).1 + elim (x.delete k s).0 [ none ↦ 0 | some f ↦ 1 ]
  pub held_expired :
      (s : x.Store) → held s ≡ held (x.delete_expired s).1 + length (x.delete_expired s).0
  pub held_time : (s : x.Store) → held (x.pass_time s) ≡ held s

module _ (x : ItemCache ℕ) (counted : Counted x) where
  -- The calls of Set that a list of actions makes for keys that the cache holds.
  abbrev call_overwrites : Call → Progress → CredentialsCache x → ℕ
  call_overwrites call missed s = if counted.is_held (to_string call.identity) s.cache then 1 else 0
  call_overwrites call _ s = 0

  abbrev step_overwrites : Action x → CredentialsCache x → ℕ
  step_overwrites (next n) s = elim (get_elem? s.calls n) [
    | none ↦ 0
    | some call ↦ call_overwrites call call.progress s
  ]
  step_overwrites _ s = 0

  abbrev pub overwrites : List (Action x) → CredentialsCache x → ℕ
  overwrites [] s = 0
  overwrites (a ∷ rest) s = step_overwrites a s + overwrites rest (step x a s)

  -- The gauge has the items that are held, those of which the janitor has still to count the
  -- eviction, and a number more.
  abbrev Balance : ℕ → CredentialsCache x → StsMetrics → Type 0
  Balance more s m = m.cache_size ≡ counted.held s.cache + length s.evictions + more

  evicted-keeps :
      (r : Result CachedCredentials) (s : CredentialsCache x)
      → ((evicted x r s).cache ≡ s.cache) × ((evicted x r s).evictions ≡ s.evictions)
  unfolding evicted
  evicted-keeps (not_issued e) s = (refl, refl)
  evicted-keeps (issued c) s = elim (Option-cases s.expiring) [
    | inl e ↦ rw (e, evicted) (refl, refl)
    | inr (other, e) ↦ rw (e, evicted) (refl, refl)
  ]

  evicted-Balance :
      (more : ℕ) (r : Result CachedCredentials) (s : CredentialsCache x) (m : StsMetrics)
      → Balance more s m
      → Balance more (evicted x r s) m
  evicted-Balance more r s m b =
      let (cache, evictions) = evicted-keeps r s in
      omega (arith, ap counted.held cache, ap (length {A = ℕ}) evictions)

  discard-Balance :
      (more n : ℕ) (call : Call) (e : Error) (s : CredentialsCache x) (m : StsMetrics)
      → Balance more s m
      → Balance more (discard x n call e s) (discard_metrics x call s m)
  unfolding discard discard_metrics evicted_metrics progress_to
  discard-Balance more n call e s m b =
      let left = counted.held_delete (to_string call.identity) s.cache in
      elim (Option-cases (x.delete (to_string call.identity) s.cache).0) [
        | inl d ↦ let count = rw d at left in rw (d, discard, discard_metrics) (omega arith)
        | inr (f, d) ↦ let count = rw d at left in rw (d, discard, discard_metrics) (omega arith)
      ]

  answer-Balance :
      (more n : ℕ) (call : Call) (r : Option (Result CachedCredentials)) (s : CredentialsCache x)
      (good m : StsMetrics)
      → good.cache_size ≡ m.cache_size
      → Balance more s m
      → Balance more (answer_call x n call r s) (answer_metrics x good call r s m)
  unfolding answer_call answer_metrics progress_to
  answer-Balance more n call none s good m e b = b
  answer-Balance more n call (some (issued c)) s good m e b = e ∙ b
  answer-Balance more n call (some (not_issued d)) s good m e b =
      discard-Balance more n call d s m b

  evict_own-Balance :
      (more n : ℕ) (call : Call) (e : Error) (r : Option (Result CachedCredentials))
      (s : CredentialsCache x) (m : StsMetrics)
      → Balance more s m
      → Balance more (evict_own x n call e r s) m
  unfolding evict_own progress_to
  evict_own-Balance more n call e none s m b = b
  evict_own-Balance more n call e (some r) s m b =
      evicted-Balance more r (progress_to x n call (returned (not_issued e)) s) m b

  create-Balance :
      (more n : ℕ) (call : Call) (s : CredentialsCache x) (m : StsMetrics)
      → Balance more s m
      → Balance
          (more + call_overwrites call missed s)
          (create x n call s)
          (issue_started (record m { cache_size = m.cache_size + 1 }))
  unfolding create progress_to issue_started
  create-Balance more n call s m b =
      let count = counted.held_set (to_string call.identity) (length s.futures) s.cache in
      elim (Bool-cases (counted.is_held (to_string call.identity) s.cache)) [
        | inl h ↦ let left = rw h at count in rw h (omega arith)
        | inr h ↦ let left = rw h at count in rw h (omega arith)
      ]

  lookup-Balance :
      (more n : ℕ) (call : Call) (s : CredentialsCache x) (m : StsMetrics)
      → Balance more s m
      → Balance more (lookup x n call s) (advance_metrics x call started s m)
  unfolding lookup advance_metrics progress_to
  lookup-Balance more n call s m b = elim (Option-cases (x.get (to_string call.identity) s.cache)) [
    | inl e ↦ rw (e, lookup, advance_metrics) b
    | inr (f, e) ↦ rw (e, lookup, advance_metrics) b
  ]

  advance-Balance :
      (more n : ℕ) (call : Call) (p : Progress) (s : CredentialsCache x) (m : StsMetrics)
      → Balance more s m
      → Balance
          (more + call_overwrites call p s)
          (advance x n call p s)
          (advance_metrics x call p s m)
  unfolding advance advance_metrics
  advance-Balance more n call started s m b =
      let kept = lookup-Balance more n call s m b in omega arith
  advance-Balance more n call missed s m b = create-Balance more n call s m b
  advance-Balance more n call (waiting_cached f) s m b =
      let hit = record m { cache_hit = m.cache_hit + 1 } in
      let kept = answer-Balance more n call (result_of f s.futures) s hit m refl b in omega arith
  advance-Balance more n call (waiting_new f) s m b =
      let kept = answer-Balance more n call (result_of f s.futures) s m m refl b in omega arith
  advance-Balance more n call (evicting f e) s m b =
      let kept = evict_own-Balance more n call e (result_of f s.futures) s m b in omega arith
  advance-Balance more n call (returned r) s m b = omega arith

  cancel-Balance :
      (more n : ℕ) (call : Call) (e : Error) (p : Progress) (s : CredentialsCache x)
      (m : StsMetrics)
      → Balance more s m
      → Balance more (cancel x n call e p s) (cancel_metrics x call p s m)
  unfolding cancel cancel_metrics
  cancel-Balance more n call e (waiting_cached f) s m b = discard-Balance more n call e s m b
  cancel-Balance more n call e (waiting_new f) s m b = discard-Balance more n call e s m b
  cancel-Balance more n call e started s m b = b
  cancel-Balance more n call e missed s m b = b
  cancel-Balance more n call e (evicting f d) s m b = b
  cancel-Balance more n call e (returned r) s m b = b

  evict_next-Balance :
      (more : ℕ) (fs : List ℕ) (s : CredentialsCache x) (m : StsMetrics)
      → s.evictions ≡ fs
      → Balance more s m
      → Balance more (evict_next x fs s) (evict_metrics x fs s m)
  unfolding evict_next evict_metrics evicted_metrics
  evict_next-Balance more [] s m e b = b
  evict_next-Balance more (f ∷ rest) s m e b = elim (Option-cases (result_of f s.futures)) [
    | inl h ↦ rw (h, evict_next, evict_metrics) b
    | inr (r, h) ↦
        let left = ap (length {A = ℕ}) e in
        rw (h, evict_next, evict_metrics)
          (evicted-Balance more r (record s { evictions = rest })
            (record m { cache_size = m.cache_size - 1 }) (omega arith))
  ]

  issue_metrics-size :
      (a : Result Credentials) (future : Future) (m : StsMetrics)
      → (issue_metrics x a future m).cache_size ≡ m.cache_size
  unfolding issue_metrics count_answer issue_ended
  issue_metrics-size (issued c) future m = elim (Option-cases future.result) [
    | inl h ↦ rw h
    | inr (r, h) ↦ rw h
  ]
  issue_metrics-size (not_issued e) future m = elim (Option-cases future.result) [
    | inl h ↦ rw h
    | inr (r, h) ↦ rw h
  ]

  step-Balance :
      (more : ℕ) (a : Action x) (s : CredentialsCache x) (m : StsMetrics)
      → Balance more s m
      → Balance (more + step_overwrites a s) (step x a s) (step_metrics x a s m)
  unfolding step step_metrics
  step-Balance more (call_for i) s m b = omega arith
  step-Balance more (next n) s m b = elim (Option-cases (get_elem? s.calls n)) [
    | inl e ↦ rw (e, step, step_metrics, step_overwrites) (omega arith)
    | inr (call, e) ↦
        rw (e, step, step_metrics, step_overwrites)
          (advance-Balance more n call call.progress s m b)
  ]
  step-Balance more (context_done n d) s m b = elim (Option-cases (get_elem? s.calls n)) [
    | inl e ↦ rw (e, step, step_metrics) (omega arith)
    | inr (call, e) ↦
        let kept = cancel-Balance more n call d call.progress s m b in
        rw (e, step, step_metrics) (omega arith)
  ]
  step-Balance more (answer f a) s m b = elim (Option-cases (get_elem? s.futures f)) [
    | inl e ↦ rw (e, step, step_metrics) (omega arith)
    | inr (future, e) ↦
        let kept = issue_metrics-size a future m in rw (e, step, step_metrics) (omega arith)
  ]
  step-Balance more janitor s m b =
      let count = counted.held_expired s.cache in
      omega (arith, length-append s.evictions (x.delete_expired s.cache).0)
  step-Balance more janitor_evicts s m b =
      let kept = evict_next-Balance more s.evictions s m refl b in omega arith
  step-Balance more receive_expiring s m b = omega arith
  step-Balance more wait s m b = let count = counted.held_time s.cache in omega arith

  run-Balance :
      (more : ℕ) (actions : List (Action x)) (s : CredentialsCache x) (m : StsMetrics)
      → Balance more s m
      → Balance (more + overwrites actions s) (run x actions s) (run_metrics x actions s m)
  unfolding run run_metrics
  run-Balance more [] s m b = omega arith
  run-Balance more (a ∷ rest) s m b =
      let later =
        run-Balance (more + step_overwrites a s) rest (step x a s) (step_metrics x a s m)
          (step-Balance more a s m b) in
      omega arith

  -- In any interleaving the gauge of the cache's size is the number of items that the cache holds,
  -- with those whose eviction the janitor has still to count, and with one for each Set that put a
  -- future under a key that the cache held, expired or not: of these the gauge is never relieved.
  pub cache_size_counts :
      (actions : List (Action x))
      → let s = run x actions (default_cache x) in
        (run_metrics x actions (default_cache x) no_metrics).cache_size
        ≡ counted.held s.cache + length s.evictions + overwrites actions (default_cache x)
  unfolding default_cache
  cache_size_counts actions =
      let empty = counted.held_empty in
      let whole = run-Balance 0 actions (default_cache x) no_metrics (omega arith) in omega arith
