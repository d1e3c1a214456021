-- ===== src/Server/Policy/Assume.antt =====
-- When the server's policy allows a role to a pod.
use kiam.Base.{
  Bool, true, not, ◌≡◌, refl, sym, ap, ◌∙◌, ◌↔◌, ◌≢◌, Option, none, some, [], ◌∷◌, Bool-cases, inl,
  inr,
}
use mathlib.Core.Bool.{false≢true}
use kiam.Base.Text.{Text, text_eq}
use kiam.Base.Text.Laws.{text_eq_refl, text_eq-nil}
use kiam.Base.Outcome.{Outcome, ok, panic, ok-injective, >>=-eq-ok}
use kiam.Sts.Resolver.{Resolver, ResolvedRole, resolve, equals}
use kiam.Sts.Resolver.Laws.{equals_iff}
use kiam.K8s.Pod.{Pod, pod_role, annotation}
use kiam.K8s.NamespaceCache.{Namespace, annotation_permitted_key}
use kiam.Server.Policy.{
  Decision, allowed, is_allowed, RegexpCompile, requesting_annotated_role_policy, anchored,
  permitted_expression, match_role, namespace_permitted_role_name_policy, assume_policy,
}
use kiam.Server.Policy.Laws.{Allows, policies-Allows}

-- Why a pod may assume a role.
pub record MayAssume (compile : RegexpCompile) (disable_strict : Bool)
    (find_namespace : Text → Outcome (Option Namespace)) (resolver : Resolver) (role : Text)
    (pod : Pod) : Type 0 where
  pub resolved : ResolvedRole
  pub annotated : resolve resolver (pod_role pod) ≡ ok resolved
  pub requested : resolve resolver role ≡ ok resolved
  pub ns : Namespace
  pub found : find_namespace pod.namespace ≡ ok (some ns)
  pub match_string : Text → Bool
  pub expression : annotation ns.annotations annotation_permitted_key ≢ []
  pub compiled :
      compile (anchored (not disable_strict) (annotation ns.annotations annotation_permitted_key))
      ≡ ok match_string
  pub matches : match_string resolved.arn ≡ true

permitted_expression-eq-ok :
    (o : Option Namespace) {t : Text}
    → permitted_expression o ≡ ok t
    → (ns : Namespace) × (o ≡ some ns) × (t ≡ annotation ns.annotations annotation_permitted_key)
unfolding permitted_expression
permitted_expression-eq-ok none h = cc
permitted_expression-eq-ok (some ns) h = (ns, refl, sym (ok-injective h))

match_role-allowed :
    (compile : RegexpCompile) (strict : Bool) (t arn : Text) {d : Decision}
    → match_role compile strict t arn ≡ ok d
    → is_allowed d ≡ true
    → (m : Text → Bool) × (compile (anchored strict t) ≡ ok m) × (m arn ≡ true)
unfolding match_role is_allowed
match_role-allowed compile strict t arn e a =
    let (m, em, rest) = >>=-eq-ok (compile (anchored strict t)) _ e in
    elim (Bool-cases (m arn)) [
      | inl h ↦ (m, em, h)
      | inr h ↦ cc (a, ap is_allowed (ok-injective (rw h at rest)))
    ]

module _ (compile : RegexpCompile) (disable_strict : Bool)
    (find_namespace : Text → Outcome (Option Namespace)) (resolver : Resolver) (role : Text)
    (pod : Pod) where
  annotated-allowed :
      Allows role pod (requesting_annotated_role_policy resolver)
      → (x : ResolvedRole) × (resolve resolver (pod_role pod) ≡ ok x)
        × (resolve resolver role ≡ ok x)
  unfolding requesting_annotated_role_policy is_allowed
  annotated-allowed (d, e, a) =
      let (x, ex, e1) = >>=-eq-ok (resolve resolver (pod_role pod)) _ e in
      let (y, ey, e2) = >>=-eq-ok (resolve resolver role) _ e1 in
      elim (Bool-cases (equals x y)) [
        | inl s ↦ (x, ex, ey ∙ ap ok (sym ((equals_iff x y).0 s)))
        | inr s ↦ cc (a, ap is_allowed (ok-injective (rw s at e2)))
      ]

  namespace-allowed :
      Allows role pod
        (namespace_permitted_role_name_policy compile (not disable_strict) find_namespace resolver)
      → (x : ResolvedRole) × (resolve resolver role ≡ ok x)
        × (ns : Namespace) × (find_namespace pod.namespace ≡ ok (some ns))
        × (m : Text → Bool) × (annotation ns.annotations annotation_permitted_key ≢ [])
        × (compile
              (anchored (not disable_strict) (annotation ns.annotations annotation_permitted_key))
            ≡ ok m)
        × (m x.arn ≡ true)
  unfolding namespace_permitted_role_name_policy is_allowed
  namespace-allowed (d, e, a) =
      let (x, ex, e1) = >>=-eq-ok (resolve resolver role) _ e in
      let (o, eo, e2) = >>=-eq-ok (find_namespace pod.namespace) _ e1 in
      let (t, et, e3) = >>=-eq-ok (permitted_expression o) _ e2 in
      let (ns, en, shape) = permitted_expression-eq-ok o et in
      elim (Bool-cases (text_eq t [])) [
        | inl z ↦ cc (a, ap is_allowed (ok-injective (rw z at e3)))
        | inr z ↦
            let (m, em, h) =
              match_role-allowed compile (not disable_strict) t x.arn (rw z at e3) a in
            (
              x,
              ex,
              ns,
              eo ∙ ap ok en,
              m,
              λ empty.
                  false≢true (sym z ∙ ap (λ s. text_eq s []) (shape ∙ empty) ∙ text_eq_refl []),
              ap (λ s. compile (anchored (not disable_strict) s)) (sym shape) ∙ em,
              h,
            )
      ]

  policies-MayAssume :
      assume_policy compile disable_strict find_namespace resolver role pod ≡ ok allowed
      → MayAssume compile disable_strict find_namespace resolver role pod
  unfolding assume_policy
  policies-MayAssume h =
      let both =
        policies-Allows
          (requesting_annotated_role_policy resolver
            ∷ namespace_permitted_role_name_policy compile (not disable_strict) find_namespace
                resolver
            ∷ [])
          role pod h in
      let (x, ax, rx) = annotated-allowed both.0 in
      let (y, ry, ns, found, m, ne, compiled, matches) = namespace-allowed both.1.0 in
      record {
        resolved = y;
        annotated = ax ∙ sym rx ∙ ry;
        requested = ry;
        ns = ns;
        found = found;
        match_string = m;
        expression = ne;
        compiled = compiled;
        matches = matches;
      }

  annotated-eq :
      MayAssume compile disable_strict find_namespace resolver role pod
      → requesting_annotated_role_policy resolver role pod ≡ ok allowed
  unfolding requesting_annotated_role_policy
  annotated-eq m = rw (m.annotated, m.requested, (equals_iff m.resolved m.resolved).1 refl)

  namespace-eq :
      MayAssume compile disable_strict find_namespace resolver role pod
      → namespace_permitted_role_name_policy compile
          (not disable_strict)
          find_namespace
          resolver
          role
          pod
        ≡ ok allowed
  unfolding namespace_permitted_role_name_policy
  namespace-eq m =
      rw (m.requested, m.found)
        (rw (text_eq-nil _ m.expression) (rw (m.compiled, match_role) (rw m.matches)))

  MayAssume-policies :
      MayAssume compile disable_strict find_namespace resolver role pod
      → assume_policy compile disable_strict find_namespace resolver role pod ≡ ok allowed
  unfolding assume_policy is_allowed
  MayAssume-policies m = rw (annotated-eq m) (rw (namespace-eq m))

  -- The server's policy allows a role to a pod exactly when the pod's annotation and the request
  -- resolve to one role, the pod's namespace is known, its annotation of permitted roles is not
  -- empty and compiles (between `^` and `$` unless strictness is disabled), and the expression
  -- matches the role's ARN.
  pub assume_policy-allowed_iff :
      (assume_policy compile disable_strict find_namespace resolver role pod ≡ ok allowed)
      ↔ MayAssume compile disable_strict find_namespace resolver role pod
  assume_policy-allowed_iff = (policies-MayAssume, MayAssume-policies)

  -- Where no namespace is found, a request for the annotated role makes the policy panic.
  pub assume_policy-missing_namespace :
      (x : ResolvedRole)
      → resolve resolver (pod_role pod) ≡ ok x
      → resolve resolver role ≡ ok x
      → find_namespace pod.namespace ≡ ok none
      → assume_policy compile disable_strict find_namespace resolver role pod ≡ panic
  unfolding assume_policy requesting_annotated_role_policy namespace_permitted_role_name_policy
      is_allowed
  assume_policy-missing_namespace x a r n = rw (a, r) (rw ((equals_iff x x).1 refl) (rw n))
