-- ===== src/Sts/Cache/Laws/Calls.antt =====
-- A call keeps its place and its identity, whatever it and the others do.
use kiam.Base.{
  ℕ, ◌≡◌, refl, sym, ap, ◌∙◌, inl, inr, Option, none, some, List, [], ◌∷◌, Option-cases,
}
use mathlib.Core.Path.{subst}
use mathlib.Core.Option.{some-injective}
use kiam.Base.Lists.{
  length, get_elem?, set_elem, get_elem?-append, get_elem?-set_elem, get_elem?-set_elem_other,
}
use kiam.Base.Outcome.{Error}
use kiam.Sts.Identity.{to_string}
use kiam.Sts.Cache.{
  ItemCache, Result, issued, not_issued, CachedCredentials, Call, Progress, Progress.started,
  Progress.missed, Progress.waiting_cached, Progress.waiting_new, Progress.evicting,
  Progress.returned, CredentialsCache, result_of, progress_to, lookup, create, discard, answer_call,
  evict_own, evicted, advance, cancel, evict_next, Action, call_for, next, context_done, answer,
  janitor, janitor_evicts, receive_expiring, wait, step, run,
}

abbrev pub KeepsCalls : List Call → List Call → Type 0
KeepsCalls cs ds =
    (n : ℕ) (a : Call)
    → get_elem? cs n ≡ some a
    → (b : Call) × (get_elem? ds n ≡ some b) × (b.identity ≡ a.identity)

KeepsCalls-refl : (cs : List Call) → KeepsCalls cs cs
KeepsCalls-refl cs n a e = (a, e, refl)

KeepsCalls-trans : (cs ds es : List Call) → KeepsCalls cs ds → KeepsCalls ds es → KeepsCalls cs es
KeepsCalls-trans cs ds es k l n a e =
    let (b, f, i) = k n a e in let (c, g, j) = l n b f in (c, g, j ∙ i)

set_elem-KeepsCalls :
    (n : ℕ) (call : Call) (p : Progress) (cs : List Call)
    → get_elem? cs n ≡ some call
    → KeepsCalls cs (set_elem n (record call { progress = p }) cs)
set_elem-KeepsCalls n call p cs found m a e =
    elim (get_elem?-set_elem_other cs n m (record call { progress = p })) [
      | inr same ↦ (a, same ∙ e, refl)
      | inl at ↦ (
        record call { progress = p },
        subst
            (λ j.
              get_elem? (set_elem n (record call { progress = p }) cs) j
              ≡ some (record call { progress = p }))
            at (get_elem?-set_elem cs n (record call { progress = p }) found),
        ap (λ (c : Call). c.identity) (some-injective _ _ (sym found ∙ ap (get_elem? cs) at ∙ e)),
      )
    ]

module _ (x : ItemCache ℕ) where
  module _ (n : ℕ) (call : Call) (s : CredentialsCache x)
      (found : get_elem? s.calls n ≡ some call) where
    discard-KeepsCalls : (e : Error) → KeepsCalls s.calls (discard x n call e s).calls
    unfolding discard progress_to
    discard-KeepsCalls e = elim (Option-cases (x.delete (to_string call.identity) s.cache).0) [
      | inl d ↦ rw (d, discard) (set_elem-KeepsCalls n call (returned (not_issued e)) s.calls found)
      | inr (f, d) ↦ rw (d, discard) (set_elem-KeepsCalls n call (evicting f e) s.calls found)
    ]

    lookup-KeepsCalls : KeepsCalls s.calls (lookup x n call s).calls
    unfolding lookup progress_to
    lookup-KeepsCalls = elim (Option-cases (x.get (to_string call.identity) s.cache)) [
      | inl e ↦ rw (e, lookup) (set_elem-KeepsCalls n call missed s.calls found)
      | inr (f, e) ↦ rw (e, lookup) (set_elem-KeepsCalls n call (waiting_cached f) s.calls found)
    ]

    answer_call-KeepsCalls :
        (r : Option (Result CachedCredentials))
        → KeepsCalls s.calls (answer_call x n call r s).calls
    unfolding answer_call progress_to
    answer_call-KeepsCalls none = KeepsCalls-refl s.calls
    answer_call-KeepsCalls (some (issued c)) =
        set_elem-KeepsCalls n call (returned (issued c.credentials)) s.calls found
    answer_call-KeepsCalls (some (not_issued e)) = discard-KeepsCalls e

  evicted-calls :
      (r : Result CachedCredentials) (s : CredentialsCache x) → (evicted x r s).calls ≡ s.calls
  unfolding evicted
  evicted-calls (not_issued e) s = refl
  evicted-calls (issued c) s = elim (Option-cases s.expiring) [
    | inl e ↦ rw (e, evicted)
    | inr (other, e) ↦ rw (e, evicted)
  ]

  module _ (n : ℕ) (call : Call) (s : CredentialsCache x)
      (found : get_elem? s.calls n ≡ some call) where
    evict_own-KeepsCalls :
        (e : Error) (r : Option (Result CachedCredentials))
        → KeepsCalls s.calls (evict_own x n call e r s).calls
    unfolding evict_own progress_to
    evict_own-KeepsCalls e none = KeepsCalls-refl s.calls
    evict_own-KeepsCalls e (some r) =
        subst (KeepsCalls s.calls)
          (sym (evicted-calls r (progress_to x n call (returned (not_issued e)) s)))
          (set_elem-KeepsCalls n call (returned (not_issued e)) s.calls found)

    advance-KeepsCalls : (p : Progress) → KeepsCalls s.calls (advance x n call p s).calls
    unfolding advance create progress_to
    advance-KeepsCalls started = lookup-KeepsCalls n call s found
    advance-KeepsCalls missed =
        set_elem-KeepsCalls n call (waiting_new (length s.futures)) s.calls found
    advance-KeepsCalls (waiting_cached f) =
        answer_call-KeepsCalls n call s found (result_of f s.futures)
    advance-KeepsCalls (waiting_new f) =
        answer_call-KeepsCalls n call s found (result_of f s.futures)
    advance-KeepsCalls (evicting f e) = evict_own-KeepsCalls e (result_of f s.futures)
    advance-KeepsCalls (returned r) = KeepsCalls-refl s.calls

    cancel-KeepsCalls :
        (e : Error) (p : Progress) → KeepsCalls s.calls (cancel x n call e p s).calls
    unfolding cancel
    cancel-KeepsCalls e (waiting_cached f) = discard-KeepsCalls n call s found e
    cancel-KeepsCalls e (waiting_new f) = discard-KeepsCalls n call s found e
    cancel-KeepsCalls e started = KeepsCalls-refl s.calls
    cancel-KeepsCalls e missed = KeepsCalls-refl s.calls
    cancel-KeepsCalls e (evicting f d) = KeepsCalls-refl s.calls
    cancel-KeepsCalls e (returned r) = KeepsCalls-refl s.calls

  evict_next-calls : (fs : List ℕ) (s : CredentialsCache x) → (evict_next x fs s).calls ≡ s.calls
  unfolding evict_next
  evict_next-calls [] s = refl
  evict_next-calls (f ∷ rest) s = elim (Option-cases (result_of f s.futures)) [
    | inl e ↦ rw (e, evict_next)
    | inr (r, e) ↦ rw (e, evict_next) (evicted-calls r (record s { evictions = rest }))
  ]

  step-KeepsCalls : (a : Action x) (s : CredentialsCache x) → KeepsCalls s.calls (step x a s).calls
  unfolding step
  step-KeepsCalls (call_for i) s = λ n a e. (a, get_elem?-append s.calls _ n e, refl)
  step-KeepsCalls (next n) s = elim (Option-cases (get_elem? s.calls n)) [
    | inl e ↦ rw (e, step) (KeepsCalls-refl s.calls)
    | inr (call, e) ↦ rw (e, step) (advance-KeepsCalls n call s e call.progress)
  ]
  step-KeepsCalls (context_done n x') s = elim (Option-cases (get_elem? s.calls n)) [
    | inl e ↦ rw (e, step) (KeepsCalls-refl s.calls)
    | inr (call, e) ↦ rw (e, step) (cancel-KeepsCalls n call s e x' call.progress)
  ]
  step-KeepsCalls (answer f a) s = elim (Option-cases (get_elem? s.futures f)) [
    | inl e ↦ rw (e, step) (KeepsCalls-refl s.calls)
    | inr (future, e) ↦ rw (e, step) (KeepsCalls-refl s.calls)
  ]
  step-KeepsCalls janitor s = KeepsCalls-refl s.calls
  step-KeepsCalls janitor_evicts s =
      subst (KeepsCalls s.calls) (sym (evict_next-calls s.evictions s)) (KeepsCalls-refl s.calls)
  step-KeepsCalls receive_expiring s = KeepsCalls-refl s.calls
  step-KeepsCalls wait s = KeepsCalls-refl s.calls

  pub run-KeepsCalls :
      (actions : List (Action x)) (s : CredentialsCache x)
      → KeepsCalls s.calls (run x actions s).calls
  unfolding run
  run-KeepsCalls [] s = KeepsCalls-refl s.calls
  run-KeepsCalls (a ∷ rest) s =
      KeepsCalls-trans s.calls _ _ (step-KeepsCalls a s) (run-KeepsCalls rest (step x a s))
