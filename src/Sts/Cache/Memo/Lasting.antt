-- ===== src/Sts/Cache/Memo/Lasting.antt =====
-- How long the memory of the cache lasts: calls and the handling of evictions do not end it.
use kiam.Base.{ℕ, ◌≡◌, refl, sym, ap, ◌∙◌, some, List, [], ◌∷◌, Option-cases, Bool-cases, inl, inr}
use mathlib.Core.List.{append-nil}
use kiam.Base.Text.{Text, text_eq}
use kiam.Base.Text.Laws.{text_eq_iff}
use kiam.Sts.Identity.{RoleIdentity, to_string}
use kiam.Sts.Credentials.{Credentials}
use kiam.Sts.Cache.{
  ItemCache, Result, issued, not_issued, CachedCredentials, CredentialsCache, result_of, step,
  evict_next, evicted,
}
use kiam.Sts.Cache.Memo.{
  Use, ask, time_passes, cleans, evicts, receives, Memo, memo_answer, memo_ask, credentials_of,
  use_cache, memo_of,
}
use kiam.Sts.Cache.Memo.LoneCall.{Settled}
use kiam.Sts.Cache.Memo.Served.{ask-Served, memo_of-kept, memo_ask-own, memo_ask-other}
use kiam.Sts.Cache.Memo.Laws.{used, use_cache-Settled}

-- A memory that has the key keeps it through a call.
memo_ask-known :
    (memo : Memo) (i : RoleIdentity) (a : Result Credentials) (key : Text) (c : Credentials)
    → memo key ≡ some c
    → memo_ask memo i a key ≡ some c
unfolding memo_answer credentials_of
memo_ask-known memo i a key c known = elim (Bool-cases (text_eq key (to_string i))) [
  | inl e ↦
      let own = ap memo (sym ((text_eq_iff key (to_string i)).0 e)) ∙ known in
      memo_ask-own memo i a key e ∙ rw (own, memo_answer)
  | inr e ↦ memo_ask-other memo i a key e ∙ known
]

module _ (x : ItemCache ℕ) where
  -- The item under the key does not expire while time passes or when the janitor cleans up.
  abbrev pub Lasts : Text → List Use → CredentialsCache x → Type 0
  Lasts key [] s = Unit
  Lasts key (time_passes ∷ uses) s =
      (x.get key (use_cache x time_passes s).cache ≡ x.get key s.cache)
      × Lasts key uses (use_cache x time_passes s)
  Lasts key (cleans ∷ uses) s =
      (x.get key (use_cache x cleans s).cache ≡ x.get key s.cache)
      × Lasts key uses (use_cache x cleans s)
  Lasts key (ask i a ∷ uses) s = Lasts key uses (use_cache x (ask i a) s)
  Lasts key (evicts ∷ uses) s = Lasts key uses (use_cache x evicts s)
  Lasts key (receives ∷ uses) s = Lasts key uses (use_cache x receives s)

  abbrev SameItems : CredentialsCache x → CredentialsCache x → Type 0
  SameItems s t = (t.futures ≡ s.futures) × (t.cache ≡ s.cache)

  evicted-SameItems :
      (r : Result CachedCredentials) (s : CredentialsCache x) → SameItems s (evicted x r s)
  unfolding evicted
  evicted-SameItems (not_issued e) s = (refl, refl)
  evicted-SameItems (issued c) s = elim (Option-cases s.expiring) [
    | inl e ↦ rw (e, evicted) (refl, refl)
    | inr (other, e) ↦ rw (e, evicted) (refl, refl)
  ]

  evict_next-SameItems : (fs : List ℕ) (s : CredentialsCache x) → SameItems s (evict_next x fs s)
  unfolding evict_next
  evict_next-SameItems [] s = (refl, refl)
  evict_next-SameItems (f ∷ rest) s = elim (Option-cases (result_of f s.futures)) [
    | inl e ↦ rw (e, evict_next) (refl, refl)
    | inr (r, e) ↦ rw (e, evict_next) (evicted-SameItems r (record s { evictions = rest }))
  ]

  memo_of-same :
      (s t : CredentialsCache x) (key : Text)
      → Settled x s
      → t.futures ≡ s.futures
      → x.get key t.cache ≡ x.get key s.cache
      → memo_of x t key ≡ memo_of x s key
  memo_of-same s t key settled same items =
      memo_of-kept x s t [] key settled (same ∙ sym (append-nil s.futures)) items

  -- What is remembered under a key whose item does not expire is still remembered after the uses.
  pub memo_of-lasting :
      (key : Text) (c : Credentials) (uses : List Use) (s : CredentialsCache x)
      → Settled x s
      → memo_of x s key ≡ some c
      → Lasts key uses s
      → memo_of x (used x uses s) key ≡ some c
  unfolding use_cache step
  memo_of-lasting key c [] s settled known lasts = known
  memo_of-lasting key c (ask i a ∷ uses) s settled known lasts =
      memo_of-lasting key c uses (use_cache x (ask i a) s) (use_cache-Settled x (ask i a) s settled)
        ((ask-Served x s i a settled).1 key ∙ memo_ask-known (memo_of x s) i a key c known) lasts
  memo_of-lasting key c (time_passes ∷ uses) s settled known lasts =
      let t = use_cache x time_passes s in
      memo_of-lasting key c uses t (use_cache-Settled x time_passes s settled)
        (memo_of-same s t key settled refl lasts.0 ∙ known) lasts.1
  memo_of-lasting key c (cleans ∷ uses) s settled known lasts =
      let t = use_cache x cleans s in
      memo_of-lasting key c uses t (use_cache-Settled x cleans s settled)
        (memo_of-same s t key settled refl lasts.0 ∙ known) lasts.1
  memo_of-lasting key c (evicts ∷ uses) s settled known lasts =
      let t = use_cache x evicts s in
      let (same, items) = evict_next-SameItems s.evictions s in
      memo_of-lasting key c uses t (use_cache-Settled x evicts s settled)
        (memo_of-same s t key settled same (ap (x.get key) items) ∙ known) lasts
  memo_of-lasting key c (receives ∷ uses) s settled known lasts =
      let t = use_cache x receives s in
      memo_of-lasting key c uses t (use_cache-Settled x receives s settled)
        (memo_of-same s t key settled refl refl ∙ known) lasts
