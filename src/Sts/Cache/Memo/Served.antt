-- ===== src/Sts/Cache/Memo/Served.antt =====
-- What a call returns and leaves in the memory that the cache stands for.
use kiam.Base.{
  ℕ, ◌≡◌, refl, sym, ap, ◌∙◌, ◌++◌, none, some, List, [], ◌∷◌, Option-cases, Bool-cases, inl, inr,
  true, false,
}
use mathlib.Core.Path.{subst}
use mathlib.Core.Option.{some-injective}
use kiam.Base.Lists.{length, get_elem?, get_elem?-append, get_elem?-append_last}
use kiam.Base.Text.{Text, text_eq}
use kiam.Base.Text.Laws.{text_eq_iff}
use kiam.Base.Outcome.{Error}
use kiam.Sts.Identity.{RoleIdentity, to_string}
use kiam.Sts.Credentials.{Credentials}
use kiam.Sts.Cache.{
  ItemCache, Result, issued, not_issued, CachedCredentials, Future, Call, Progress.returned,
  CredentialsCache, result_of, completed,
}
use kiam.Sts.Cache.Alone.{with_call, requested, result_of-requested}
use kiam.Sts.Cache.Memo.{
  ask, Memo, memo_answer, memo_ask, credentials_of, result_at, use_cache, memo_of,
}
use kiam.Sts.Cache.Memo.LoneCall.{
  Settled, discarded, lone_call-hit, lone_call-issued, lone_call-failed,
}

result_of-append :
    (f : ℕ) (fs gs : List Future) {r : Result CachedCredentials}
    → result_of f fs ≡ some r
    → result_of f (fs ++ gs) ≡ some r
unfolding result_of
result_of-append f fs gs h = elim (Option-cases (get_elem? fs f)) [
  | inl e ↦ cc (rw (e, result_of) at h)
  | inr (future, e) ↦ rw (get_elem?-append fs gs f e, result_of) (rw (e, result_of) at h)
]

pub memo_ask-own :
    (memo : Memo) (i : RoleIdentity) (a : Result Credentials) (key : Text)
    → text_eq key (to_string i) ≡ true
    → memo_ask memo i a key ≡ credentials_of (memo_answer memo i a)
unfolding memo_ask
memo_ask-own memo i a key e = rw e

pub memo_ask-other :
    (memo : Memo) (i : RoleIdentity) (a : Result Credentials) (key : Text)
    → text_eq key (to_string i) ≡ false
    → memo_ask memo i a key ≡ memo key
unfolding memo_ask
memo_ask-other memo i a key e = rw e

module _ (x : ItemCache ℕ) where
  pub memo_of-none :
      (s : CredentialsCache x) (key : Text) → x.get key s.cache ≡ none → memo_of x s key ≡ none
  unfolding memo_of
  memo_of-none s key h = rw (h, memo_of)

  pub memo_of-some :
      (s : CredentialsCache x) (key : Text) (f : ℕ) (c : CachedCredentials)
      → x.get key s.cache ≡ some f
      → result_of f s.futures ≡ some (issued c)
      → memo_of x s key ≡ some c.credentials
  unfolding memo_of
  memo_of-some s key f c h r = rw (h, memo_of) (rw r)

  -- At a key that both caches hold alike, more futures change nothing.
  pub memo_of-kept :
      (s t : CredentialsCache x) (more : List Future) (key : Text)
      → Settled x s
      → t.futures ≡ s.futures ++ more
      → x.get key t.cache ≡ x.get key s.cache
      → memo_of x t key ≡ memo_of x s key
  memo_of-kept s t more key settled grown same = elim (Option-cases (x.get key s.cache)) [
    | inl e ↦ memo_of-none t key (same ∙ e) ∙ sym (memo_of-none s key e)
    | inr (f, e) ↦
        let (c, r) = settled key f e in
        memo_of-some t key f c (same ∙ e)
          (ap (result_of f) grown ∙ result_of-append f s.futures more r)
        ∙ sym (memo_of-some s key f c e r)
  ]

  -- A cache that holds no more than another, with the futures of the other and more, is settled as
  -- the other is.
  pub Settled-fewer :
      (s t : CredentialsCache x) (more : List Future)
      → Settled x s
      → t.futures ≡ s.futures ++ more
      → ((key : Text) (f : ℕ) → x.get key t.cache ≡ some f → x.get key s.cache ≡ some f)
      → Settled x t
  Settled-fewer s t more settled grown fewer key f h =
      let (c, r) = settled key f (fewer key f h) in
      (c, ap (result_of f) grown ∙ result_of-append f s.futures more r)

  pub memo_of-fewer :
      (s t : CredentialsCache x)
      → Settled x s
      → t.futures ≡ s.futures
      → ((key : Text) (f : ℕ) → x.get key t.cache ≡ some f → x.get key s.cache ≡ some f)
      → (key : Text) (c : Credentials) → memo_of x t key ≡ some c
      → memo_of x s key ≡ some c
  memo_of-fewer s t settled same fewer key c h = elim (Option-cases (x.get key t.cache)) [
    | inl e ↦ cc (memo_of-none t key e, h)
    | inr (f, e) ↦
        let (cached, r) = settled key f (fewer key f e) in
        memo_of-some s key f cached (fewer key f e) r
        ∙ sym (memo_of-some t key f cached e (ap (result_of f) same ∙ r))
        ∙ h
  ]

  result_at-with_call :
      (i : RoleIdentity) (r : Result Credentials) (s t : CredentialsCache x)
      → t.calls ≡ s.calls
      → result_at x (length s.calls) (with_call x i (returned r) t) ≡ some r
  unfolding result_at
  result_at-with_call i r s t same =
      let call : Call = record { identity = i; progress = returned r } in
      rw (
        subst (λ calls. get_elem? (calls ++ call ∷ []) (length s.calls) ≡ some call) (sym same)
            (get_elem?-append_last s.calls call),
        result_at,
      )

  -- What a call alone returns and leaves.
  abbrev pub Served :
      CredentialsCache x → RoleIdentity → Result Credentials → CredentialsCache x → Type 0
  Served s i a t =
      (result_at x (length s.calls) t ≡ some (memo_answer (memo_of x s) i a))
      × ((key : Text) → memo_of x t key ≡ memo_ask (memo_of x s) i a key)
      × Settled x t

  answer-known :
      (s : CredentialsCache x) (i : RoleIdentity) (a : Result Credentials) (c : Credentials)
      → memo_of x s (to_string i) ≡ some c
      → memo_answer (memo_of x s) i a ≡ issued c
  unfolding memo_answer
  answer-known s i a c h = rw (h, memo_answer)

  answer-new :
      (s : CredentialsCache x) (i : RoleIdentity) (a : Result Credentials)
      → x.get (to_string i) s.cache ≡ none
      → memo_answer (memo_of x s) i a ≡ a
  unfolding memo_answer
  answer-new s i a h = rw (memo_of-none s (to_string i) h, memo_answer)

  hit-Served :
      (s : CredentialsCache x) (i : RoleIdentity) (a : Result Credentials) (f : ℕ)
      (c : CachedCredentials)
      → Settled x s
      → x.get (to_string i) s.cache ≡ some f
      → result_of f s.futures ≡ some (issued c)
      → Served s i a (with_call x i (returned (issued c.credentials)) s)
  unfolding credentials_of memo_of
  hit-Served s i a f c settled h r =
      let known = memo_of-some s (to_string i) f c h r in
      let same = answer-known s i a c.credentials known in
      (
        result_at-with_call i (issued c.credentials) s s refl ∙ ap some (sym same),
        λ key. elim (Bool-cases (text_eq key (to_string i))) [
          | inl e ↦
              ap (memo_of x s) ((text_eq_iff key (to_string i)).0 e)
              ∙ known
              ∙ ap credentials_of (sym same)
              ∙ sym (memo_ask-own (memo_of x s) i a key e)
          | inr e ↦ sym (memo_ask-other (memo_of x s) i a key e)
        ],
        settled,
      )

  get-set_false :
      (s : CredentialsCache x) (i : RoleIdentity) (key : Text)
      → text_eq key (to_string i) ≡ false
      → x.get key (x.set (to_string i) (length s.futures) s.cache) ≡ x.get key s.cache
  get-set_false s i key e =
      x.get_set_other (to_string i) key (length s.futures) s.cache
        (λ same. cc (e, (text_eq_iff key (to_string i)).1 same))

  issued-Served :
      (s : CredentialsCache x) (i : RoleIdentity) (c : Credentials)
      → Settled x s
      → x.get (to_string i) s.cache ≡ none
      → Served s i (issued c) (
          with_call x i
            (returned (issued c))
            (requested x i (some (issued (record { identity = i; credentials = c }))) s))
  unfolding credentials_of
  issued-Served s i c settled h =
      let cached : CachedCredentials = record { identity = i; credentials = c } in
      let t = with_call x i (returned (issued c)) (requested x i (some (issued cached)) s) in
      let same = answer-new s i (issued c) h in
      let own = λ (key : Text) (e : text_eq key (to_string i) ≡ true).
        ap (λ k. x.get k t.cache) ((text_eq_iff key (to_string i)).0 e)
        ∙ x.get_set (to_string i) (length s.futures) s.cache in
      let result = result_of-requested x i (some (issued cached)) s in
      (
        result_at-with_call i (issued c) s (requested x i (some (issued cached)) s) refl
            ∙ ap some (sym same),
        λ key. elim (Bool-cases (text_eq key (to_string i))) [
          | inl e ↦
              memo_of-some t key (length s.futures) cached (own key e) result
              ∙ ap credentials_of (sym same)
              ∙ sym (memo_ask-own (memo_of x s) i (issued c) key e)
          | inr e ↦
              memo_of-kept s t _ key settled refl (get-set_false s i key e)
              ∙ sym (memo_ask-other (memo_of x s) i (issued c) key e)
        ],
        λ key f found. elim (Bool-cases (text_eq key (to_string i))) [
          | inl e ↦ (
            cached,
            ap (λ g. result_of g t.futures) (some-injective _ _ (sym found ∙ own key e)) ∙ result,
          )
          | inr e ↦
              let (d, r) = settled key f (sym (get-set_false s i key e) ∙ found) in
              (d, result_of-append f s.futures _ r)
        ],
      )

  get-discarded :
      (s : CredentialsCache x) (i : RoleIdentity) (e : Error) (key : Text)
      → x.get (to_string i) s.cache ≡ none
      → x.get key (discarded x i e s).cache ≡ x.get key s.cache
  get-discarded s i e key h = elim (Bool-cases (text_eq key (to_string i))) [
    | inl t ↦
        let k = (text_eq_iff key (to_string i)).0 t in
        ap (λ j. x.get j (discarded x i e s).cache) k
        ∙ x.get_delete (to_string i) (x.set (to_string i) (length s.futures) s.cache)
        ∙ sym h
        ∙ ap (λ j. x.get j s.cache) (sym k)
    | inr t ↦
        x.get_delete_other (to_string i) key (x.set (to_string i) (length s.futures) s.cache)
          (λ same. cc (t, (text_eq_iff key (to_string i)).1 same))
        ∙ get-set_false s i key t
  ]

  failed-Served :
      (s : CredentialsCache x) (i : RoleIdentity) (e : Error)
      → Settled x s
      → x.get (to_string i) s.cache ≡ none
      → Served s i (not_issued e) (with_call x i (returned (not_issued e)) (discarded x i e s))
  unfolding credentials_of
  failed-Served s i e settled h =
      let t = with_call x i (returned (not_issued e)) (discarded x i e s) in
      let same = answer-new s i (not_issued e) h in
      (
        result_at-with_call i (not_issued e) s (discarded x i e s) refl ∙ ap some (sym same),
        λ key.
            memo_of-kept s t _ key settled refl (get-discarded s i e key h)
            ∙ elim (Bool-cases (text_eq key (to_string i))) [
              | inl u ↦
                  memo_of-none s key
                    (ap (λ j. x.get j s.cache) ((text_eq_iff key (to_string i)).0 u) ∙ h)
                  ∙ ap credentials_of (sym same)
                  ∙ sym (memo_ask-own (memo_of x s) i (not_issued e) key u)
              | inr u ↦ sym (memo_ask-other (memo_of x s) i (not_issued e) key u)
            ],
        Settled-fewer s t _ settled refl (λ key f found. sym (get-discarded s i e key h) ∙ found),
      )

  pub ask-Served :
      (s : CredentialsCache x) (i : RoleIdentity) (a : Result Credentials)
      → Settled x s
      → Served s i a (use_cache x (ask i a) s)
  unfolding use_cache completed
  ask-Served s i a settled = elim (Option-cases (x.get (to_string i) s.cache)) [
    | inr (f, h) ↦
        let (c, r) = settled (to_string i) f h in
        subst (Served s i a) (sym (lone_call-hit x i a f c s h r))
          (hit-Served s i a f c settled h r)
    | inl h ↦ elim a as (λ b. Served s i b (use_cache x (ask i b) s)) [
      | issued c ↦
          subst (Served s i (issued c)) (sym (lone_call-issued x i c s h))
            (issued-Served s i c settled h)
      | not_issued e ↦
          subst (Served s i (not_issued e)) (sym (lone_call-failed x i e s h))
            (failed-Served s i e settled h)
    ]
  ]
