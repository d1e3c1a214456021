-- ===== src/Server/Handlers.antt =====
-- pkg/server/server.go: the three calls of the gRPC service. The pod cache's index, the provider of
-- credentials with its state, and whether there is a recorder of events are parameters of the server.
pub mod Laws
pub mod NoNamespace
use kiam.Base.{ℕ, Bool, true, false, ◌++◌, List, [], ◌∷◌, if◌then◌else◌}
use kiam.Base.Text.{Text, codes}
use kiam.Base.Outcome.{
  Outcome, ok, err, panic, Error, pod_not_found, server_pod_not_found, policy_forbidden, aws,
  error_text, ◌>>=◌,
}
use kiam.Sts.Resolver.{Resolver}
use kiam.Sts.Identity.{RoleIdentity, new_role_identity}
use kiam.Sts.Credentials.{Credentials}
use kiam.K8s.Pod.{Pod, pod_role, pod_session_name, pod_external_id}
use kiam.K8s.PodCache.{Indexer, get_pod_by_ip}
use kiam.Server.Policy.{Decision, is_allowed, explanation, AssumeRolePolicy}

-- simplifyAWSErrorMessage
simplify_aws_error_message : Error → Text
simplify_aws_error_message (aws code message text) = code ++ (codes ": " ++ message)
simplify_aws_error_message e = error_text e

-- The two messages of events, by the values that they are formatted from.
pub data Message : Type 0 where
  failed_assuming_role : Text → Text → Message
  failed_retrieving_credentials : Text → Message

pub record KubeEvent : Type 0 where
  pub object : Pod
  pub reason : Text
  pub message : Message

-- translateCredentialsToProto; pb.Credentials has the same fields.
translate_credentials_to_proto : Credentials → Credentials
translate_credentials_to_proto c = record {
  code = c.code;
  type = c.type;
  access_key_id = c.access_key_id;
  secret_access_key = c.secret_access_key;
  token = c.token;
  expiration = c.expiration;
  last_updated = c.last_updated;
}

translate_pod_error : Error → Error
translate_pod_error pod_not_found = server_pod_not_found
translate_pod_error e = e

-- The parts of KiamServer that the calls use.
pub record KiamServer (Provider : Type 0) : Type 1 where
  pub indexer : Indexer
  pub pods : indexer.Store
  pub assume_policy : AssumeRolePolicy
  pub arn_resolver : Resolver
  pub credentials_for_role : RoleIdentity → Provider → Outcome Credentials × Provider
  pub has_event_recorder : Bool

-- What a call changes: the provider's state, and the events that were recorded, the latest first.
pub record World (Provider : Type 0) : Type 0 where
  pub provider : Provider
  pub events : List KubeEvent

module _ {Provider : Type 0} (k : KiamServer Provider) where
  -- recordEvent
  record_event : KubeEvent → World Provider → World Provider
  record_event e w = if k.has_event_recorder then record w { events = e ∷ w.events } else w

  -- The end of GetPodCredentials, from CredentialsForRole on.
  retrieve : Pod → RoleIdentity → World Provider → Outcome Credentials × World Provider
  unfolding record_event simplify_aws_error_message translate_credentials_to_proto
  retrieve pod identity w =
      let (answer, provider) = k.credentials_for_role identity w.provider in
      let after = record w { provider = provider } in
      elim answer [
        | ok creds ↦ (ok (translate_credentials_to_proto creds), after)
        | err e ↦ (
          err e,
          record_event
              (record {
                object = pod;
                reason = codes "KiamCredentialError";
                message = failed_retrieving_credentials (simplify_aws_error_message e);
              })
              after,
        )
        | panic ↦ (panic, after)
      ]

  -- GetPodCredentials once the policy allows it.
  pub issue : Pod → Text → World Provider → Outcome Credentials × World Provider
  unfolding retrieve
  issue pod role w =
      elim (new_role_identity k.arn_resolver role (pod_session_name pod) (pod_external_id pod)) [
        | ok identity ↦ retrieve pod identity w
        | err e ↦ (err e, w)
        | panic ↦ (panic, w)
      ]

  pub decide : Pod → Text → Decision → World Provider → Outcome Credentials × World Provider
  unfolding issue record_event is_allowed
  decide pod role decision w = if is_allowed decision then issue pod role w else (
    err policy_forbidden,
    record_event
        (record {
          object = pod;
          reason = codes "KiamRoleForbidden";
          message = failed_assuming_role role (explanation decision);
        })
        w,
  )

  check_policy : Pod → Text → World Provider → Outcome Credentials × World Provider
  unfolding decide
  check_policy pod role w = elim (k.assume_policy role pod) [
    | ok decision ↦ decide pod role decision w
    | err e ↦ (err e, w)
    | panic ↦ (panic, w)
  ]

  unfoldable pub get_pod_credentials :
      Text → Text → World Provider → Outcome Credentials × World Provider
  unfolding check_policy translate_pod_error
  get_pod_credentials ip role w = elim (get_pod_by_ip k.indexer k.pods ip) [
    | ok pod ↦ check_policy pod role w
    | err e ↦ (err (translate_pod_error e), w)
    | panic ↦ (panic, w)
  ]

  unfoldable pub get_pod_role : Text → Outcome Text
  get_pod_role ip = do pod ← get_pod_by_ip k.indexer k.pods ip; ok (pod_role pod)

  unfoldable pub get_health : Outcome Text
  get_health = ok (codes "ok")
