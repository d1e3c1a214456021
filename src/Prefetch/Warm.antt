-- ===== src/Prefetch/Warm.antt =====
-- The prefetch manager and the server over one cache of credentials, in calls one after another.
use kiam.Base.{ℕ, ◌≡◌, List, [], ◌∷◌, Option}
use kiam.Base.Lists.{length}
use kiam.Base.Text.{Text}
use kiam.Base.Outcome.{Outcome, ok, err}
use kiam.Sts.Resolver.{ResolvedRole}
use kiam.Sts.Identity.{RoleIdentity}
use kiam.Sts.Credentials.{Credentials}
use kiam.Sts.Cache.{
  ItemCache, Result, issued, not_issued, CredentialsCache, Action, next, answer, Progress.returned,
}
use kiam.Sts.Cache.Memo.{Use}
use kiam.Sts.Cache.Memo.Laws.{used}
use kiam.K8s.Pod.{Pod, pod_session_name, pod_external_id}
use kiam.Prefetch.{CredentialManager, fetch_pod_credentials}
use kiam.Server.Handlers.{KiamServer, KubeEvent, World, get_pod_credentials}

-- Whose credentials a pod asks for with a role.
abbrev pub identity_of : ResolvedRole → Pod → RoleIdentity
identity_of role pod = record {
  role = role;
  session_name = pod_session_name pod;
  external_id = pod_external_id pod;
}

module _ (x : ItemCache ℕ) where
  -- What happens during a call that is alone: its own steps, and the answer of the gateway if it is
  -- asked.
  abbrev pub alone :
      (RoleIdentity → Result Credentials) → RoleIdentity → CredentialsCache x → List (Action x)
  alone gateway i s =
      let n = length s.calls in
      next n ∷ next n ∷ answer (length s.futures) (gateway i) ∷ next n ∷ next n ∷ []

  abbrev outcome : Result Credentials → Outcome Credentials
  outcome (issued c) = ok c
  outcome (not_issued e) = err e

  -- The manager handles the pod, and after what happens between, the server returns credentials for
  -- it with the items and the futures of the cache as they then are, and no event.
  abbrev pub ServedWarm :
      CredentialManager (CredentialsCache x)
      → KiamServer (CredentialsCache x)
      → Pod
      → CredentialsCache x
      → List Use
      → Text
      → Text
      → List KubeEvent
      → Type 0
  ServedWarm m k pod before between ip role events =
      (s : CredentialsCache x) × (d : Credentials) × (w : World (CredentialsCache x))
      × (fetch_pod_credentials m pod before ≡ ok s)
      × (get_pod_credentials k ip role (record { provider = used x between s; events = events })
          ≡ (ok d, w))
      × (w.provider.cache ≡ (used x between s).cache)
      × (w.provider.futures ≡ (used x between s).futures)
      × (w.events ≡ events)
