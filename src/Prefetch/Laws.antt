-- ===== src/Prefetch/Laws.antt =====
-- Which credentials are renewed.
use kiam.Base.{
  ℕ, true, false, not, ◌&&◌, ◌≡◌, refl, sym, ap, ◌∙◌, ◌⊎◌, inl, inr, some, arith, if◌then◌else◌,
  Bool-cases,
}
use kiam.Base.Lists.{All, All-weaken, All-get_elem?, get_elem?}
use kiam.Base.Keep.{any, any-true, any-false}
use kiam.Base.Text.Laws.{text_eq_iff, Free}
use kiam.Base.Outcome.{Outcome, ok, err, panic}
use kiam.Sts.Identity.{RoleIdentity, to_string, to_string-injective, new_role_identity}
use kiam.Sts.Cache.{CachedCredentials}
use kiam.K8s.Pod.{
  Pod, is_pod_completed, pod_role, pod_session_name, pod_external_id, pod_role_identity_index,
}
use kiam.K8s.PodCache.{IsIndexed}
use kiam.K8s.PodCache.Laws.{is_key_of, has_role, is_active_pods_for_role_answers}
use kiam.Prefetch.{
  CredentialManager, fetch_credentials_from_cache, is_role_active, renew_if, handle_expiring,
}

-- Two identities agree in all that credentials depend on.
abbrev Agree : RoleIdentity → RoleIdentity → Type 0
Agree i j =
    (i.role.arn ≡ j.role.arn) × (i.session_name ≡ j.session_name) × (i.external_id ≡ j.external_id)

-- No `|` stands in the ARN or the session name.
abbrev IsBarless : RoleIdentity → Type 0
IsBarless i = Free b'|' i.role.arn × Free b'|' i.session_name

abbrev IfBarless : Outcome RoleIdentity → Type 0
IfBarless (ok i) = IsBarless i
IfBarless (err e) = Unit
IfBarless panic = Unit

is_key_of-Agree :
    (i : RoleIdentity) (o : Outcome RoleIdentity)
    → IsBarless i
    → IfBarless o
    → is_key_of (to_string i) o ≡ true
    → (j : RoleIdentity) × (o ≡ ok j) × Agree j i
is_key_of-Agree i (ok j) bi bj h = (
  j,
  refl,
  to_string-injective j i bj.0 bi.0 bj.1 bi.1 (sym ((text_eq_iff (to_string i) (to_string j)).0 h)),
)
is_key_of-Agree i (err e) bi bj h = cc
is_key_of-Agree i panic bi bj h = cc

Agree-is_key_of :
    (i j : RoleIdentity) (o : Outcome RoleIdentity)
    → o ≡ ok j
    → Agree j i
    → is_key_of (to_string i) o ≡ true
unfolding to_string
Agree-is_key_of i j o e (arn, session, external) =
    rw e ((text_eq_iff (to_string i) (to_string j)).1 (rw (arn, session, external)))

module _ {Cache : Type 0} (m : CredentialManager Cache) where
  abbrev annotated_identity : Pod → Outcome RoleIdentity
  annotated_identity pod =
      new_role_identity m.arn_resolver (pod_role pod) (pod_session_name pod) (pod_external_id pod)

  -- The pod's annotations name the identity.
  abbrev IsAnnotated : RoleIdentity → Pod → Type 0
  IsAnnotated identity pod = (i : RoleIdentity) × (annotated_identity pod ≡ ok i) × Agree i identity

  handle_expiring-any :
      (credentials : CachedCredentials) (cache : Cache)
      → All (IsIndexed (pod_role_identity_index m.arn_resolver)) (m.indexer.objects m.pods)
      → handle_expiring m credentials cache ≡ (
          if any
            (λ pod. has_role m.arn_resolver credentials.identity pod && not (is_pod_completed pod))
            (m.indexer.objects m.pods)
          then fetch_credentials_from_cache m credentials.identity cache
          else ok cache)
  unfolding handle_expiring is_role_active
  handle_expiring-any credentials cache h =
      ap (λ o. renew_if m o credentials.identity cache)
        (is_active_pods_for_role_answers m.indexer m.arn_resolver m.pods credentials.identity h)

  -- A pod needs the identity, and it is fetched; or no pod does, and the cache is left as it is.
  abbrev pub Renews : RoleIdentity → Cache → Outcome Cache → Type 0
  Renews identity cache result =
      ((n : ℕ) × (pod : Pod) × (get_elem? (m.indexer.objects m.pods) n ≡ some pod)
        × (is_pod_completed pod ≡ false)
        × IsAnnotated identity pod
        × (result ≡ fetch_credentials_from_cache m identity cache))
      ⊎ (All (λ pod. (is_pod_completed pod ≡ true) ⊎ ¬ IsAnnotated identity pod)
            (m.indexer.objects m.pods)
          × (result ≡ ok cache))

  unneeded :
      (identity : RoleIdentity) (pod : Pod)
      → (has_role m.arn_resolver identity pod && not (is_pod_completed pod)) ≡ false
      → (is_pod_completed pod ≡ true) ⊎ ¬ IsAnnotated identity pod
  unneeded identity pod h = elim (Bool-cases (is_pod_completed pod)) [
    | inl done ↦ inl done
    | inr active ↦ inr (λ (i, e, same).
        cc (Agree-is_key_of identity i (annotated_identity pod) e same, rw active at h))
  ]

  -- Credentials that expire are asked for again exactly when a pod in the store that has not
  -- completed is annotated with their identity, by ARN, session name and external ID; where every
  -- pod so annotated has completed, the cache is left as it is. This needs that the roles of all pods
  -- in the store can be resolved, and that no `|` stands in the ARN or the session name of the
  -- identity or of one that a pod in the store is annotated with.
  pub handle_expiring-Renews :
      (credentials : CachedCredentials) (cache : Cache)
      → All (IsIndexed (pod_role_identity_index m.arn_resolver)) (m.indexer.objects m.pods)
      → IsBarless credentials.identity
      → All (λ pod. IfBarless (annotated_identity pod)) (m.indexer.objects m.pods)
      → Renews credentials.identity cache (handle_expiring m credentials cache)
  handle_expiring-Renews credentials cache h bare pods_bare =
      let identity = credentials.identity in
      let stored = m.indexer.objects m.pods in
      let needs =
        λ (pod : Pod). has_role m.arn_resolver identity pod && not (is_pod_completed pod) in
      elim (Bool-cases (any needs stored)) [
        | inl e ↦
            let (n, pod, at_n, needed) = any-true needs stored e in
            inl (
              n,
              pod,
              at_n,
              ground (arith, needed),
              is_key_of-Agree identity (annotated_identity pod) bare
                  (All-get_elem? _ n stored at_n pods_bare) (ground (arith, needed)),
              handle_expiring-any credentials cache h ∙ rw e,
            )
        | inr e ↦ inr (
          All-weaken (unneeded identity) stored (any-false needs stored e),
          handle_expiring-any credentials cache h ∙ rw e,
        )
      ]
