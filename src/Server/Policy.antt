-- ===== src/Server/Policy.antt =====
-- pkg/server/policy.go: whether a pod may assume a role. Regular expressions are a parameter: a
-- compiled expression is the set of texts in which `MatchString` finds a match.
pub mod Laws
pub mod Assume
use kiam.Base.{ℕ, Bool, true, false, not, ◌++◌, Option, none, some, List, [], ◌∷◌, if◌then◌else◌}
use kiam.Base.Text.{Text, codes, text_eq}
use kiam.Base.Outcome.{Outcome, ok, err, panic, ◌>>=◌}
use kiam.Sts.Resolver.{Resolver, ResolvedRole, resolve, equals}
use kiam.K8s.Pod.{Pod, pod_role, annotation}
use kiam.K8s.NamespaceCache.{Namespace, annotation_permitted_key}

pub data Decision : Type 0 where
  allowed : Decision
  forbidden : Text → Text → Decision
  namespace_policy_forbidden : Text → Text → Decision

unfoldable pub is_allowed : Decision → Bool
is_allowed allowed = true
is_allowed (forbidden requested annotated) = false
is_allowed (namespace_policy_forbidden expression role) = false

unfoldable pub explanation : Decision → Text
explanation allowed = []
explanation (forbidden requested annotated) =
    codes "requested '"
    ++ (requested ++ (codes "' but annotated with '" ++ (annotated ++ codes "', forbidden")))
explanation (namespace_policy_forbidden expression role) =
    codes "namespace policy expression '"
    ++ (expression ++ (codes "' forbids role '" ++ (role ++ codes "'")))

-- regexp: Compile and MatchString.
abbrev pub RegexpCompile : Type 0
RegexpCompile = Text → Outcome (Text → Bool)

-- AssumeRolePolicy
abbrev pub AssumeRolePolicy : Type 0
AssumeRolePolicy = Text → Pod → Outcome Decision

-- CompositeAssumeRolePolicy, made by Policies
pub policies : List AssumeRolePolicy → AssumeRolePolicy
unfolding is_allowed
policies [] role pod = ok allowed
policies (policy ∷ rest) role pod = do
  decision ← policy role pod
  if is_allowed decision then policies rest role pod else ok decision

-- RequestingAnnotatedRolePolicy
unfoldable pub requesting_annotated_role_policy : Resolver → AssumeRolePolicy
requesting_annotated_role_policy resolver role pod = do
  annotated ← resolve resolver (pod_role pod)
  requested ← resolve resolver role
  if equals annotated requested then ok allowed else ok (forbidden role annotated.name)

-- The expression that is compiled.
pub anchored : Bool → Text → Text
anchored strict expression = if strict then codes "^" ++ (expression ++ codes "$") else expression

-- ns.GetAnnotations() of a nil pointer panics.
permitted_expression : Option Namespace → Outcome Text
permitted_expression none = panic
permitted_expression (some ns) = ok (annotation ns.annotations annotation_permitted_key)

-- The end of NamespacePermittedRoleNamePolicy, for an expression that is not empty.
match_role : RegexpCompile → Bool → Text → Text → Outcome Decision
unfolding anchored
match_role compile strict expression arn = do
  match_string ← compile (anchored strict expression)
  if match_string arn then ok allowed else ok (namespace_policy_forbidden expression arn)

-- NamespacePermittedRoleNamePolicy
namespace_permitted_role_name_policy :
    RegexpCompile → Bool → (Text → Outcome (Option Namespace)) → Resolver → AssumeRolePolicy
unfolding match_role permitted_expression
namespace_permitted_role_name_policy compile strict find_namespace resolver role pod = do
  requested ← resolve resolver role
  ns ← find_namespace pod.namespace
  expression ← permitted_expression ns
  if text_eq expression []
      then ok (namespace_policy_forbidden (codes "(empty)") role)
      else match_role compile strict expression requested.arn

-- The policy that Build of server_builder.go gives the server.
unfoldable pub assume_policy :
    RegexpCompile → Bool → (Text → Outcome (Option Namespace)) → Resolver → AssumeRolePolicy
unfolding policies requesting_annotated_role_policy namespace_permitted_role_name_policy
assume_policy compile disable_strict find_namespace resolver = policies (
    requesting_annotated_role_policy resolver
    ∷ namespace_permitted_role_name_policy compile (not disable_strict) find_namespace resolver
    ∷ [])
