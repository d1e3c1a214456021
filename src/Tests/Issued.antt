-- ===== src/Tests/Issued.antt =====
-- The server over the credentials cache at a concrete input.
use mathlib.Core.Path.{subst}
use kiam.Base.{ℕ, ◌≡◌, refl, some, false, true, List, [], ◌∷◌, arith}
use kiam.Base.Lists.{length, get_elem?, All}
use kiam.Base.Text.{codes, text_eq}
use kiam.Base.Text.Laws.{Free}
use kiam.Base.Keep.{keep, any}
use kiam.Base.Outcome.{ok, ok-injective}
use kiam.Sts.Resolver.{ResolvedRole, resolve, equals}
use kiam.Sts.Identity.{RoleIdentity, new_role_identity}
use kiam.Sts.Cache.{
  issued, issue_request, Future, CredentialsCache, default_cache, Action, next, answer, run, lookup,
  create, progress_to, new_future, complete_future, completed, result_of,
}
use kiam.Sts.Cache.Safety.{NoBar}
use kiam.Sts.Cache.Memo.{result_at}
use kiam.K8s.Pod.{
  Pod, pod_role, annotation, is_pod_completed, pod_ip_index, pod_session_name, pod_external_id,
}
use kiam.K8s.PodCache.{get_pod_by_ip, has_value}
use kiam.K8s.NamespaceCache.{find_namespace}
use kiam.Server.Policy.{assume_policy}
use kiam.Server.Policy.Assume.{MayAssume}
use kiam.Server.Handlers.{KiamServer, World, get_pod_credentials}
use kiam.Server.Issued.{from_cache, credentials_issued_as_permitted}
use kiam.Tests.Items.{items}
use kiam.Tests.Fixtures.{
  list_indexer, resolver, web_role, web_ip, web_pod, finished_pod, web_credentials, compile,
  namespaces,
}

-- The steps of the call itself, and the gateway's answer.
abbrev pub meanwhile : RoleIdentity → CredentialsCache items → List (Action items)
meanwhile i s =
    next (length s.calls)
    ∷ next (length s.calls)
    ∷ answer (length s.futures) (issued web_credentials)
    ∷ next (length s.calls)
    ∷ []

abbrev pub cached_server : KiamServer (CredentialsCache items)
cached_server = record {
  indexer = list_indexer;
  pods = finished_pod ∷ web_pod ∷ [];
  assume_policy = assume_policy compile false namespaces resolver;
  arn_resolver = resolver;
  credentials_for_role = from_cache items meanwhile;
  has_event_recorder = true;
}

abbrev pub at_first : World (CredentialsCache items)
at_first = record { provider = default_cache items; events = [] }

abbrev pub at_last : World (CredentialsCache items)
at_last = (get_pod_credentials cached_server web_ip web_role at_first).1

web_called :
    get_pod_credentials cached_server web_ip web_role at_first ≡ (ok web_credentials, at_last)
unfolding get_pod_credentials get_pod_by_ip has_value keep any pod_ip_index is_pod_completed resolve
    new_role_identity equals assume_policy find_namespace annotation pod_role pod_session_name
    pod_external_id run default_cache lookup create progress_to new_future complete_future completed
    result_of result_at
web_called = refl

pub session-Free :
    (pod : Pod)
    → get_pod_by_ip list_indexer cached_server.pods web_ip ≡ ok pod
    → Free b'|' (pod_session_name pod)
unfolding get_pod_by_ip has_value keep any pod_ip_index is_pod_completed pod_session_name annotation
    text_eq
session-Free pod h = subst (λ p. Free b'|' (pod_session_name p)) (ok-injective h) (ground arith)

pub arn-Free : (r : ResolvedRole) → resolve resolver web_role ≡ ok r → Free b'|' r.arn
unfolding resolve
arn-Free r h = subst (λ (r : ResolvedRole). Free b'|' r.arn) (ok-injective h) (ground arith)

pub last-NoBar : All (λ (future : Future). NoBar future.identity) at_last.provider.futures
unfolding get_pod_credentials get_pod_by_ip has_value keep any pod_ip_index is_pod_completed resolve
    new_role_identity equals assume_policy find_namespace annotation pod_role pod_session_name
    pod_external_id run default_cache lookup create progress_to new_future complete_future completed
    result_of result_at
last-NoBar = ((ground arith, ground arith), tt)

credentials_issued_as_permitted_example :
    (pod : Pod) × (may : MayAssume compile false namespaces resolver web_role pod) × (get_pod_by_ip
        list_indexer cached_server.pods web_ip
      ≡ ok pod)
    × (future : Future) × (at : ℕ) × (get_elem? at_last.provider.futures at ≡ some future)
    × (future.result
        ≡ some (issued (record { identity = future.identity; credentials = web_credentials })))
    × ((issue_request (codes "server") 900 future.identity).role_arn ≡ may.resolved.arn)
unfolding run default_cache
credentials_issued_as_permitted_example =
    credentials_issued_as_permitted items cached_server compile false namespaces meanwhile []
      (codes "server") 900 web_ip web_role at_first at_last web_credentials refl refl refl
      session-Free arn-Free last-NoBar web_called
