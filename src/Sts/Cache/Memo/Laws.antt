-- ===== src/Sts/Cache/Memo/Laws.antt =====
-- Calls one after another are served as by the memory.
use kiam.Base.{
  ℕ, ◌≡◌, ◌≢◌, refl, sym, ◌∙◌, Option, none, some, List, [], ◌∷◌, Option-cases, inl, inr, map,
}
use mathlib.Core.Path.{fun_ext, subst}
use mathlib.Core.List.{append-nil}
use kiam.Base.Text.{Text}
use kiam.Sts.Identity.{RoleIdentity}
use kiam.Sts.Credentials.{Credentials}
use kiam.Sts.Cache.{
  ItemCache, Result, issued, not_issued, CachedCredentials, CredentialsCache, result_of,
  default_cache, Action, step, evict_next, evicted,
}
use kiam.Sts.Cache.Memo.{
  Use, ask, time_passes, cleans, evicts, receives, Memo, memo_answer, Serves, done, asked, forgets,
  use_cache, use_all, memo_of,
}
use kiam.Sts.Cache.Memo.LoneCall.{Settled}
use kiam.Sts.Cache.Memo.Served.{ask-Served, memo_of-none, Settled-fewer, memo_of-fewer}
use kiam.Sts.Cache.Safety.{get-empty}

module _ (x : ItemCache ℕ) where
  -- The cache holds no more than it did, and no future has changed.
  record Fewer (s t : CredentialsCache x) : Type 0 where
    same : t.futures ≡ s.futures
    fewer : (key : Text) (f : ℕ) → x.get key t.cache ≡ some f → x.get key s.cache ≡ some f

  evicted-Fewer :
      (r : Result CachedCredentials) (s t : CredentialsCache x)
      → Fewer s t
      → Fewer s (evicted x r t)
  unfolding evicted
  evicted-Fewer (not_issued e) s t less = less
  evicted-Fewer (issued c) s t less = elim (Option-cases t.expiring) [
    | inl e ↦ rw (e, evicted) (record { same = less.same; fewer = less.fewer })
    | inr (other, e) ↦ rw (e, evicted) less
  ]

  evict_next-Fewer : (fs : List ℕ) (s : CredentialsCache x) → Fewer s (evict_next x fs s)
  unfolding evict_next
  evict_next-Fewer [] s = record { same = refl; fewer = λ key f h. h }
  evict_next-Fewer (f ∷ rest) s = elim (Option-cases (result_of f s.futures)) [
    | inl e ↦ rw (e, evict_next) (record { same = refl; fewer = λ key f h. h })
    | inr (r, e) ↦
        rw (e, evict_next)
          (evicted-Fewer r s (record s { evictions = rest })
            (record { same = refl; fewer = λ key f h. h }))
  ]

  -- What the results of the calls and the state after them have to do with a memory.
  abbrev Refined :
      Memo → List Use → List (Option (Result Credentials)) × CredentialsCache x → Type 0
  Refined memo uses end =
      (results : List (Result Credentials)) × (last : Memo) × (end.0 ≡ map some results)
      × Serves memo uses results last
      × ((key : Text) → memo_of x end.1 key ≡ last key)

  Fewer-Settled : (s t : CredentialsCache x) → Fewer s t → Settled x s → Settled x t
  Fewer-Settled s t less settled =
      Settled-fewer x s t [] settled (less.same ∙ sym (append-nil s.futures)) less.fewer

  forgets-Refined :
      (u : Use) (uses : List Use) (s t : CredentialsCache x)
      → ((i : RoleIdentity) (a : Result Credentials) → u ≢ ask i a)
      → Fewer s t
      → Settled x s
      → Refined (memo_of x t) uses (use_all x uses t)
      → Refined (memo_of x s) (u ∷ uses) (use_all x uses t)
  forgets-Refined u uses s t quiet less settled (results, last, e, serves, m) = (
    results,
    last,
    e,
    forgets u quiet (memo_of-fewer x s t settled less.same less.fewer) serves,
    m,
  )

  uses-Refined :
      (uses : List Use) (s : CredentialsCache x)
      → Settled x s
      → Refined (memo_of x s) uses (use_all x uses s)
  unfolding use_all use_cache step
  uses-Refined [] s settled = ([], memo_of x s, refl, done, λ key. refl)
  uses-Refined (ask i a ∷ uses) s settled =
      let t = use_cache x (ask i a) s in
      let (result, memo, kept) = ask-Served x s i a settled in
      let (results, last, e, serves, m) = uses-Refined uses t kept in
      (
        memo_answer (memo_of x s) i a ∷ results,
        last,
        λ k. result k ∷ e k,
        asked i a (subst (λ n. Serves n uses results last) (fun_ext memo) serves),
        m,
      )
  uses-Refined (time_passes ∷ uses) s settled =
      let t = step x Action.wait s in
      let less : Fewer s t = record { same = refl; fewer = λ k f h. x.time_get k f s.cache h } in
      forgets-Refined time_passes uses s t (λ i a e. cc) less settled
        (uses-Refined uses t (Fewer-Settled s t less settled))
  uses-Refined (cleans ∷ uses) s settled =
      let t = step x Action.janitor s in
      let less : Fewer s t = record { same = refl; fewer = λ k f h. x.expired_get k f s.cache h } in
      forgets-Refined cleans uses s t (λ i a e. cc) less settled
        (uses-Refined uses t (Fewer-Settled s t less settled))
  uses-Refined (evicts ∷ uses) s settled =
      let t = step x Action.janitor_evicts s in
      let less : Fewer s t = evict_next-Fewer s.evictions s in
      forgets-Refined evicts uses s t (λ i a e. cc) less settled
        (uses-Refined uses t (Fewer-Settled s t less settled))
  uses-Refined (receives ∷ uses) s settled =
      let t = step x Action.receive_expiring s in
      let less : Fewer s t = record { same = refl; fewer = λ k f h. h } in
      forgets-Refined receives uses s t (λ i a e. cc) less settled
        (uses-Refined uses t (Fewer-Settled s t less settled))

  pub use_cache-Settled :
      (u : Use) (s : CredentialsCache x) → Settled x s → Settled x (use_cache x u s)
  unfolding use_cache step
  use_cache-Settled (ask i a) s settled = (ask-Served x s i a settled).2
  use_cache-Settled time_passes s settled =
      Fewer-Settled s (step x Action.wait s)
        (record { same = refl; fewer = λ k f h. x.time_get k f s.cache h }) settled
  use_cache-Settled cleans s settled =
      Fewer-Settled s (step x Action.janitor s)
        (record { same = refl; fewer = λ k f h. x.expired_get k f s.cache h }) settled
  use_cache-Settled evicts s settled =
      Fewer-Settled s (step x Action.janitor_evicts s) (evict_next-Fewer s.evictions s) settled
  use_cache-Settled receives s settled = settled

  -- The cache after uses.
  abbrev pub used : List Use → CredentialsCache x → CredentialsCache x
  used [] s = s
  used (u ∷ uses) s = used uses (use_cache x u s)

  pub used-Settled :
      (uses : List Use) (s : CredentialsCache x) → Settled x s → Settled x (used uses s)
  used-Settled [] s settled = settled
  used-Settled (u ∷ uses) s settled =
      used-Settled uses (use_cache x u s) (use_cache-Settled u s settled)

  -- Whatever calls are made one after another, with whatever answers of the gateway, and whatever the
  -- janitor, the clock and the prefetcher do in between: every call returns, and the results are
  -- those of a memory that starts empty. A call returns the credentials that the memory has under
  -- its key, else the gateway's answer, which it remembers if it is credentials and not if it is an
  -- error; between calls the memory may forget but not change.
  pub cache_refines_memo :
      (uses : List Use)
      → (results : List (Result Credentials)) × (last : Memo) × ((use_all x uses
            (default_cache x)).0
          ≡ map some results)
        × Serves (λ key. none) uses results last
        × ((key : Text) → memo_of x (use_all x uses (default_cache x)).1 key ≡ last key)
  unfolding default_cache
  cache_refines_memo uses =
      subst (λ memo. Refined memo uses (use_all x uses (default_cache x)))
        (fun_ext (λ key. memo_of-none x (default_cache x) key (get-empty x key)))
        (uses-Refined uses (default_cache x) (λ k f h. cc (get-empty x k, h)))
