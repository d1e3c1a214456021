-- ===== src/K8s/Pod.antt =====
-- pkg/k8s/pod_cache.go: what is read off a pod, and the two index functions. A pod has the fields of
-- `v1.Pod` that the program reads.
use kiam.Base.{Bool, true, false, List, [], ◌∷◌, if◌then◌else◌}
use kiam.Base.Text.{Text, codes, text_eq}
use kiam.Base.Outcome.{Outcome, ok, ◌>>=◌}
use kiam.Sts.Resolver.{Resolver}
use kiam.Sts.Identity.{new_role_identity, to_string}

-- v1.PodPhase
pub data Phase : Type 0 where
  pending running succeeded failed unknown : Phase

-- A map of strings; a key that is missing reads as "".
abbrev pub Annotations : Type 0
Annotations = List (Text × Text)

unfoldable pub annotation : Annotations → Text → Text
annotation [] key = []
annotation ((k, v) ∷ rest) key = if text_eq k key then v else annotation rest key

pub record Pod : Type 0 where
  pub phase : Phase
  pub ip : Text
  pub namespace : Text
  pub name : Text
  pub annotations : Annotations

-- IsPodCompleted
unfoldable pub is_pod_completed : Pod → Bool
is_pod_completed pod = elim pod.phase [ Phase.succeeded ↦ true | Phase.failed ↦ true | _ ↦ false ]

abbrev pub annotation_iam_role_key : Text
annotation_iam_role_key = codes "iam.amazonaws.com/role"

abbrev pub annotation_iam_session_name_key : Text
annotation_iam_session_name_key = codes "iam.amazonaws.com/session-name"

abbrev pub annotation_iam_external_id_key : Text
annotation_iam_external_id_key = codes "iam.amazonaws.com/external-id"

unfoldable pub pod_role : Pod → Text
pod_role pod = annotation pod.annotations annotation_iam_role_key

unfoldable pub pod_session_name : Pod → Text
pod_session_name pod = annotation pod.annotations annotation_iam_session_name_key

unfoldable pub pod_external_id : Pod → Text
pod_external_id pod = annotation pod.annotations annotation_iam_external_id_key

-- podIPIndex
unfoldable pub pod_ip_index : Pod → Outcome (List Text)
pod_ip_index pod = if text_eq pod.ip [] then ok [] else ok (pod.ip ∷ [])

-- podRoleIdentityIndex
unfoldable pub pod_role_identity_index : Resolver → Pod → Outcome (List Text)
pod_role_identity_index resolver pod = if text_eq (pod_role pod) [] then ok [] else do
  identity ← new_role_identity resolver (pod_role pod) (pod_session_name pod) (pod_external_id pod)
  ok (to_string identity ∷ [])
