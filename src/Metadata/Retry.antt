-- ===== src/Metadata/Retry.antt =====
-- The loops of the agent that ask the server until it answers: findRole, fetchCredentials and
-- findServerHealth. Retry of github.com/cenkalti/backoff enters by its documented behaviour.
pub mod Laws
use kiam.Base.{List, [], ◌∷◌, map, ◌≡◌}
use kiam.Base.Text.{Text}
use kiam.Base.Outcome.{Error, policy_forbidden}
use kiam.Sts.Credentials.{Credentials}
use kiam.Metadata.Http.{Try, done, fail}

-- How one call of the operation ends; a permanent error is wrapped by backoff.Permanent.
pub data Attempt (A : Type 0) : Type 0 where
  success : A → Attempt A
  transient : Error → Attempt A
  permanent : Error → Attempt A

-- `retry first rest` is what Retry returns where the calls of the operation end as `first` and then
-- as `rest`, and the strategy and the context leave time for so many calls.
pub record Backoff : Type 1 where
  pub retry : (A : Type 0) → Attempt A → List (Attempt A) → Try A
  pub retry_success :
      (A : Type 0) (a : A) (rest : List (Attempt A)) → retry A (success a) rest ≡ done a
  pub retry_permanent :
      (A : Type 0) (e : Error) (rest : List (Attempt A)) → retry A (permanent e) rest ≡ fail e
  pub retry_transient :
      (A : Type 0) (e : Error) (next : Attempt A) (rest : List (Attempt A))
      → retry A (transient e) (next ∷ rest) ≡ retry A next rest
  pub retry_out_of_time : (A : Type 0) (e : Error) → retry A (transient e) [] ≡ fail e

-- The server's answers to one operation: to its first call, and to the calls that time is left for.
pub record Answers (A : Type 0) : Type 0 where
  pub first : Try A
  pub more : List (Try A)

-- The operation of fetchCredentials
credentials_attempt : Try Credentials → Attempt Credentials
credentials_attempt (done c) = success c
credentials_attempt (fail policy_forbidden) = permanent policy_forbidden
credentials_attempt (fail e) = transient e

-- The operations of findRole and findServerHealth
text_attempt : Try Text → Attempt Text
text_attempt (done t) = success t
text_attempt (fail e) = transient e

module _ (b : Backoff) where
  pub fetch_credentials : Answers Credentials → Try Credentials
  unfolding credentials_attempt
  fetch_credentials answers =
      b.retry Credentials (credentials_attempt answers.first) (map credentials_attempt answers.more)

  unfoldable pub find_role : Answers Text → Try Text
  unfolding text_attempt
  find_role answers = b.retry Text (text_attempt answers.first) (map text_attempt answers.more)

  unfoldable pub find_server_health : Answers Text → Try Text
  unfolding text_attempt
  find_server_health answers =
      b.retry Text (text_attempt answers.first) (map text_attempt answers.more)
