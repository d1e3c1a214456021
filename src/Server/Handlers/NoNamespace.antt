-- ===== src/Server/Handlers/NoNamespace.antt =====
-- GetPodCredentials where FindNamespace does not have the namespace of the pod.
use kiam.Base.{Bool, none, ◌≡◌, Option, ap, ◌∙◌}
use kiam.Base.Text.{Text}
use kiam.Base.Outcome.{Outcome, ok, panic}
use kiam.Sts.Resolver.{ResolvedRole, resolve}
use kiam.K8s.Pod.{Pod, pod_role}
use kiam.K8s.PodCache.{get_pod_by_ip}
use kiam.K8s.NamespaceCache.{Namespace, find_namespace}
use kiam.Server.Policy.{RegexpCompile, AssumeRolePolicy, assume_policy}
use kiam.Server.Policy.Assume.{assume_policy-missing_namespace}
use kiam.Server.Handlers.{KiamServer, World, check_policy, get_pod_credentials}

-- With the policy and the resolver that Build gives the server, and with FindNamespace over the
-- store of namespaces, a request for the role that the pod with the caller's address is annotated
-- with panics if the store does not have the namespace of the pod; no event is recorded, and no
-- credentials are asked for.
pub get_pod_credentials-missing_namespace :
    {Provider : Type 0} (k : KiamServer Provider) (compile : RegexpCompile) (disable_strict : Bool)
    (get_by_key : Text → Outcome (Option Namespace)) (ip role : Text) (w : World Provider)
    (pod : Pod) (x : ResolvedRole)
    → k.assume_policy
      ≡ assume_policy compile disable_strict (find_namespace get_by_key) k.arn_resolver
    → get_pod_by_ip k.indexer k.pods ip ≡ ok pod
    → resolve k.arn_resolver (pod_role pod) ≡ ok x
    → resolve k.arn_resolver role ≡ ok x
    → get_by_key pod.namespace ≡ ok none
    → get_pod_credentials k ip role w ≡ (panic, w)
unfolding get_pod_credentials check_policy find_namespace
get_pod_credentials-missing_namespace k compile disable_strict get_by_key ip role w pod x built
      found annotated requested missing =
    let panics =
      ap (λ (p : AssumeRolePolicy). p role pod) built
      ∙ assume_policy-missing_namespace compile disable_strict (find_namespace get_by_key)
          k.arn_resolver role pod x annotated requested (rw missing) in
    rw (found, get_pod_credentials) (rw (panics, check_policy))
