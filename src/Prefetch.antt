-- ===== src/Prefetch.antt =====
-- pkg/prefetch/manager.go: credentials are fetched for announced pods, and renewed when they expire.
-- The cache of credentials enters by CredentialsForRole, with its state.
pub mod Laws
pub mod Warm
use kiam.Base.{Bool, true, false, List, [], ◌∷◌, if◌then◌else◌}
use kiam.Base.Outcome.{Outcome, ok, err, panic}
use kiam.Sts.Resolver.{Resolver}
use kiam.Sts.Identity.{RoleIdentity, new_role_identity}
use kiam.Sts.Credentials.{Credentials}
use kiam.Sts.Cache.{CachedCredentials}
use kiam.K8s.Pod.{Pod, is_pod_completed, pod_role, pod_session_name, pod_external_id}
use kiam.K8s.PodCache.{Indexer, is_active_pods_for_role}

-- CredentialManager: the cache, the announcer with its store, and the resolver.
pub record CredentialManager (Cache : Type 0) : Type 1 where
  pub credentials_for_role : RoleIdentity → Cache → Outcome Credentials × Cache
  pub indexer : Indexer
  pub pods : indexer.Store
  pub arn_resolver : Resolver

pub data Received : Type 0 where
  announced : Pod → Received
  expiring : CachedCredentials → Received

module _ {Cache : Type 0} (m : CredentialManager Cache) where
  -- An error is logged; the state is what the call leaves, and `panic` ends the program.
  logged_state : Outcome Credentials × Cache → Outcome Cache
  logged_state (ok issued, cache) = ok cache
  logged_state (err e, cache) = ok cache
  logged_state (panic, cache) = panic

  pub fetch_credentials_from_cache : RoleIdentity → Cache → Outcome Cache
  unfolding logged_state
  fetch_credentials_from_cache identity cache = logged_state (m.credentials_for_role identity cache)

  fetch_for : Outcome RoleIdentity → Cache → Outcome Cache
  unfolding fetch_credentials_from_cache
  fetch_for (ok identity) cache = fetch_credentials_from_cache identity cache
  fetch_for (err e) cache = ok cache
  fetch_for panic cache = panic

  -- fetchCredentials
  pub fetch_pod_credentials : Pod → Cache → Outcome Cache
  unfolding fetch_for
  fetch_pod_credentials pod cache =
      if is_pod_completed pod
      then ok cache
      else fetch_for
          (new_role_identity m.arn_resolver (pod_role pod) (pod_session_name pod)
            (pod_external_id pod))
          cache

  is_role_active : RoleIdentity → Outcome Bool
  is_role_active identity = is_active_pods_for_role m.indexer m.arn_resolver m.pods identity

  renew_if : Outcome Bool → RoleIdentity → Cache → Outcome Cache
  unfolding fetch_credentials_from_cache
  renew_if (ok active) identity cache =
      if active then fetch_credentials_from_cache identity cache else ok cache
  renew_if (err e) identity cache = ok cache
  renew_if panic identity cache = panic

  pub handle_expiring : CachedCredentials → Cache → Outcome Cache
  unfolding renew_if is_role_active
  handle_expiring credentials cache =
      renew_if (is_role_active credentials.identity) credentials.identity cache

  -- One round of the loop of Run, on what was received.
  handle_received : Received → Cache → Outcome Cache
  unfolding fetch_pod_credentials handle_expiring
  handle_received (announced pod) cache = fetch_pod_credentials pod cache
  handle_received (expiring credentials) cache = handle_expiring credentials cache

  -- The loop of Run until its context ends, by what is received on the way.
  unfoldable pub run_manager : List Received → Cache → Outcome Cache
  unfolding handle_received
  run_manager [] cache = ok cache
  run_manager (r ∷ rest) cache = elim (handle_received r cache) [
    | ok after ↦ run_manager rest after
    | err e ↦ err e
    | panic ↦ panic
  ]
