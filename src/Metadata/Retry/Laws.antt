-- ===== src/Metadata/Retry/Laws.antt =====
-- Which answers end the loops.
use kiam.Base.{List, [], ◌∷◌, ◌++◌, map, ◌≡◌, refl, sym, ◌≢◌, ◌⊎◌, inl, inr, ap, ◌∙◌}
use kiam.Base.Lists.{All}
use kiam.Base.Outcome.{Error, policy_forbidden}
use kiam.Sts.Credentials.{Credentials}
use kiam.Metadata.Http.{Try, done, fail}
use kiam.Metadata.Retry.{
  Attempt, transient, Backoff, Answers, credentials_attempt, fetch_credentials,
}

-- Answers `before`, then `answer`, then `rest`.
abbrev pub answers_from : {A : Type 0} → List (Try A) → Try A → List (Try A) → Answers A
answers_from [] answer rest = record { first = answer; more = rest }
answers_from (a ∷ before) answer rest = record { first = a; more = before ++ answer ∷ rest }

-- An error that the credentials' loop tries again after.
pub record IsTemporary (a : Try Credentials) : Type 0 where
  pub error : Error
  pub failed : a ≡ fail error
  pub other_than_forbidden : error ≢ policy_forbidden

abbrev IsFinal : Try Credentials → Type 0
IsFinal a = ((c : Credentials) × (a ≡ done c)) ⊎ (a ≡ fail policy_forbidden)

attempt-IsTemporary :
    (a : Try Credentials) (t : IsTemporary a) → credentials_attempt a ≡ transient t.error
unfolding credentials_attempt
attempt-IsTemporary a t = ap credentials_attempt t.failed ∙ go t.error t.other_than_forbidden
  where
    go : (e : Error) → e ≢ policy_forbidden → credentials_attempt (fail e) ≡ transient e
    go Error.policy_forbidden n = absurd (n refl)
    go _ n = refl

module _ (b : Backoff) where
  retry-IsFinal :
      (a : Try Credentials) (rest : List (Attempt Credentials))
      → IsFinal a
      → b.retry Credentials (credentials_attempt a) rest ≡ a
  unfolding credentials_attempt
  retry-IsFinal a rest (inl (c, e)) = rw e (b.retry_success Credentials c rest)
  retry-IsFinal a rest (inr e) = rw e (b.retry_permanent Credentials policy_forbidden rest)

  -- The loop for credentials ends with the first answer that has credentials or that is
  -- ErrPolicyForbidden, after any other errors and whatever would have followed.
  pub fetch_credentials_verdict :
      (before : List (Try Credentials)) (a : Try Credentials) (rest : List (Try Credentials))
      → All IsTemporary before
      → IsFinal a
      → fetch_credentials b (answers_from before a rest) ≡ a
  unfolding fetch_credentials
  fetch_credentials_verdict [] a rest t f = retry-IsFinal a (map credentials_attempt rest) f
  fetch_credentials_verdict (x ∷ []) a rest t f =
      rw (attempt-IsTemporary x t.0, fetch_credentials)
        (b.retry_transient Credentials t.0.error (credentials_attempt a)
            (map credentials_attempt rest)
          ∙ fetch_credentials_verdict [] a rest tt f)
  fetch_credentials_verdict (x ∷ y ∷ before) a rest t f =
      rw (attempt-IsTemporary x t.0, fetch_credentials)
        (b.retry_transient Credentials t.0.error (credentials_attempt y)
            (map credentials_attempt (before ++ a ∷ rest))
          ∙ fetch_credentials_verdict (y ∷ before) a rest t.1 f)

  -- A loop that ends with credentials has them from its first answer, or goes on to them.
  retry-step :
      (a : Try Credentials) (c : Credentials) (rest : List (Attempt Credentials))
      → b.retry Credentials (credentials_attempt a) rest ≡ done c
      → (a ≡ done c)
        ⊎ ((next : Attempt Credentials) × (later : List (Attempt Credentials)) × (rest
              ≡ next ∷ later)
            × (b.retry Credentials next later ≡ done c))
  unfolding credentials_attempt
  retry-step (done d) c rest h = inl (sym (b.retry_success Credentials d rest) ∙ h)
  retry-step (fail Error.policy_forbidden) c rest h =
      cc (b.retry_permanent Credentials policy_forbidden rest, h)
  retry-step (fail e) c [] h = cc (b.retry_out_of_time Credentials e, h)
  retry-step (fail e) c (next ∷ later) h =
      inr (next, later, refl, sym (b.retry_transient Credentials e next later) ∙ h)

  -- The loop ends with credentials only if one of the answers has them.
  pub fetch_credentials-done :
      {W : Type 0} (call : W → Try Credentials) (first : W) (more : List W) (c : Credentials)
      → fetch_credentials b (record { first = call first; more = map call more }) ≡ done c
      → (w : W) × (call w ≡ done c)
  unfolding fetch_credentials
  fetch_credentials-done call first [] c h = elim (retry-step (call first) c [] h) [
    | inl e ↦ (first, e)
    | inr (next, later, e, rest) ↦ cc
  ]
  fetch_credentials-done call first (w ∷ more) c h =
      elim (retry-step (call first) c (map credentials_attempt (map call (w ∷ more))) h) [
        | inl e ↦ (first, e)
        | inr (next, later, e, rest) ↦ fetch_credentials-done call w more c (cc (e, rest))
      ]
