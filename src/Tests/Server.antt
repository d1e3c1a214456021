-- ===== src/Tests/Server.antt =====
-- The theorems on pkg/server at concrete inputs.
use kiam.Base.{ℕ, ◌≡◌, refl, ◌↔◌, Option, none, false, ap, ◌∙◌}
use mathlib.Core.Bool.{false≢true}
use kiam.Base.Text.{Text, codes}
use kiam.Base.Outcome.{
  Outcome, ok, err, panic, Error, error_text, policy_forbidden, server_pod_not_found, ok-injective,
}
use kiam.Sts.Resolver.{resolve, equals}
use kiam.Sts.Identity.{new_role_identity}
use kiam.Sts.Credentials.{Credentials}
use kiam.K8s.Pod.{
  pod_role, annotation, is_pod_completed, pod_ip_index, pod_session_name, pod_external_id,
}
use kiam.K8s.PodCache.{get_pod_by_ip, has_value}
use kiam.Base.Keep.{keep, any}
use kiam.K8s.NamespaceCache.{Namespace, find_namespace}
use kiam.Server.Policy.{
  allowed, is_allowed, Decision, AssumeRolePolicy, requesting_annotated_role_policy, assume_policy,
}
use kiam.Server.Policy.Laws.{Allows}
use kiam.Server.Policy.Assume.{MayAssume, assume_policy-allowed_iff}
use kiam.Server.Handlers.{get_pod_credentials, KiamServer}
use kiam.Server.Handlers.Laws.{Asked, get_pod_credentials_provenance}
use kiam.Server.Handlers.NoNamespace.{get_pod_credentials-missing_namespace}
use kiam.Server.Gateway.{Reply, reply, status, get_credentials, get_credentials_roundtrip}
use kiam.Tests.Fixtures.{
  resolver, web_role, web_ip, web_pod, web_resolved, web_credentials, compile, namespaces, server,
  world,
}

abbrev refusal : AssumeRolePolicy
refusal role pod = ok (Decision.forbidden role (codes "other"))

refusal_refuses : ¬ Allows web_role web_pod refusal
unfolding is_allowed
refusal_refuses (d, e, a) = false≢true (ap is_allowed (ok-injective e) ∙ a)

abbrev annotated : AssumeRolePolicy
annotated = requesting_annotated_role_policy resolver

annotated-Allows : Allows web_role web_pod annotated
unfolding requesting_annotated_role_policy is_allowed resolve pod_role annotation equals
annotated-Allows = (allowed, refl, refl)

assume_policy-allowed_iff_example :
    (assume_policy compile false namespaces resolver web_role web_pod ≡ ok allowed)
    ↔ MayAssume compile false namespaces resolver web_role web_pod
assume_policy-allowed_iff_example =
    assume_policy-allowed_iff compile false namespaces resolver web_role web_pod

-- The pods of the world are in a namespace that the cache does not have.
abbrev no_namespaces : Text → Outcome (Option Namespace)
no_namespaces name = ok none

abbrev unsynced : KiamServer ℕ
unsynced = record server {
  assume_policy = assume_policy compile false (find_namespace no_namespaces) resolver;
}

get_pod_credentials-missing_namespace_example :
    get_pod_credentials unsynced web_ip web_role (world 0) ≡ (panic, world 0)
unfolding resolve pod_role annotation get_pod_by_ip has_value keep any pod_ip_index is_pod_completed
get_pod_credentials-missing_namespace_example =
    get_pod_credentials-missing_namespace unsynced compile false no_namespaces web_ip web_role
      (world 0) web_pod web_resolved refl refl refl refl refl

web_called : get_pod_credentials server web_ip web_role (world 0) ≡ (ok web_credentials, world 1)
unfolding get_pod_credentials get_pod_by_ip has_value keep any pod_ip_index is_pod_completed resolve
    new_role_identity equals assume_policy find_namespace annotation pod_role pod_session_name
    pod_external_id
web_called = refl

get_pod_credentials_provenance_example :
    (q : Asked server web_ip web_role) × ((server.credentials_for_role q.identity 0).0
      ≡ ok web_credentials)
    × (world 1 ≡ world 1)
get_pod_credentials_provenance_example =
    get_pod_credentials_provenance server web_ip web_role (world 0) (world 1) web_credentials
      web_called

-- A transport that keeps what gRPC promises.
abbrev transport : Outcome Credentials → Reply Credentials
transport (ok c) = reply c
transport (err e) = status (error_text e)
transport panic = status (codes "unavailable")

get_credentials_roundtrip_example :
    ((c : Credentials) → get_credentials (transport (ok c)) ≡ ok c)
    × (get_credentials (transport (err policy_forbidden)) ≡ err policy_forbidden)
    × (get_credentials (transport (err server_pod_not_found)) ≡ err server_pod_not_found)
    × ((e : Error)
        → (get_credentials (transport (err e)) ≡ err policy_forbidden)
          ↔ (error_text e ≡ error_text policy_forbidden))
get_credentials_roundtrip_example = get_credentials_roundtrip transport (λ c. refl) (λ e. refl)
