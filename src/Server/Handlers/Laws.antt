-- ===== src/Server/Handlers/Laws.antt =====
-- When GetPodCredentials returns credentials, and what it leaves alone.
use kiam.Base.{◌≢◌, Bool, true, ◌≡◌, refl, sym, ap, ◌∙◌, Option, ◌⊎◌, inl, inr, Bool-cases}
use kiam.Base.Text.{Text}
use kiam.Base.Outcome.{Outcome, ok, ok-injective, Outcome-cases, >>=-eq-ok}
use kiam.Sts.Resolver.{Resolver, resolve}
use kiam.Sts.Identity.{RoleIdentity, new_role_identity}
use kiam.Sts.Credentials.{Credentials}
use kiam.K8s.Pod.{Pod, pod_session_name, pod_external_id}
use kiam.K8s.PodCache.{get_pod_by_ip}
use kiam.K8s.NamespaceCache.{Namespace}
use kiam.Server.Policy.{Decision, is_allowed, RegexpCompile, AssumeRolePolicy, assume_policy}
use kiam.Server.Policy.Laws.{is_allowed-eq}
use kiam.Server.Policy.Assume.{MayAssume, assume_policy-allowed_iff}
use kiam.Server.Handlers.{
  KiamServer, World, record_event, translate_credentials_to_proto, retrieve, issue, decide,
  check_policy, get_pod_credentials,
}

module _ {Provider : Type 0} (k : KiamServer Provider) where
  -- The calls that lead to a request for credentials.
  pub record Asked (ip role : Text) : Type 0 where
    pub pod : Pod
    pub found : get_pod_by_ip k.indexer k.pods ip ≡ ok pod
    pub decision : Decision
    pub decided : k.assume_policy role pod ≡ ok decision
    pub permitted : is_allowed decision ≡ true
    pub identity : RoleIdentity
    pub named :
        new_role_identity k.arn_resolver role (pod_session_name pod) (pod_external_id pod)
        ≡ ok identity

  get_pod_credentials-Asked :
      (ip role : Text) (w : World Provider) (q : Asked ip role)
      → get_pod_credentials k ip role w ≡ retrieve k q.pod q.identity w
  unfolding get_pod_credentials
  get_pod_credentials-Asked ip role w q =
      rw (q.found, get_pod_credentials)
        (rw (q.decided, check_policy) (rw (q.permitted, decide) (rw (q.named, issue))))

  -- The call answers without the provider, or asks it for the identity of an `Asked`.
  abbrev Untouched : World Provider → Outcome Credentials × World Provider → Type 0
  Untouched w r = (r.1.provider ≡ w.provider) × ((c : Credentials) → r.0 ≢ ok c)

  issue-cases :
      (ip role : Text) (w : World Provider) (pod : Pod) (d : Decision)
      → get_pod_by_ip k.indexer k.pods ip ≡ ok pod
      → k.assume_policy role pod ≡ ok d
      → is_allowed d ≡ true
      → Untouched w (issue k pod role w) ⊎ Asked ip role
  unfolding issue
  issue-cases ip role w pod d f e a =
      elim (Outcome-cases
        (new_role_identity k.arn_resolver role (pod_session_name pod) (pod_external_id pod))) [
          | inl (i, n) ↦ inr (record {
            pod = pod;
            found = f;
            decision = d;
            decided = e;
            permitted = a;
            identity = i;
            named = n;
          })
          | inr (inl (x, n)) ↦ inl (rw (n, issue) (refl, λ c h. cc))
          | inr (inr n) ↦ inl (rw (n, issue) (refl, λ c h. cc))
        ]

  decide-cases :
      (ip role : Text) (w : World Provider) (pod : Pod) (d : Decision)
      → get_pod_by_ip k.indexer k.pods ip ≡ ok pod
      → k.assume_policy role pod ≡ ok d
      → Untouched w (decide k pod role d w) ⊎ Asked ip role
  unfolding decide
  decide-cases ip role w pod d f e = elim (Bool-cases (is_allowed d)) [
    | inl a ↦ rw a (issue-cases ip role w pod d f e a)
    | inr a ↦ inl (
        rw a (
          unfold record_event in
          elim (Bool-cases k.has_event_recorder) [
            | inl r ↦ rw r (refl, λ c h. cc)
            | inr r ↦ rw r (refl, λ c h. cc)
          ]))
  ]

  check-cases :
      (ip role : Text) (w : World Provider) (pod : Pod)
      → get_pod_by_ip k.indexer k.pods ip ≡ ok pod
      → Untouched w (check_policy k pod role w) ⊎ Asked ip role
  unfolding check_policy
  check-cases ip role w pod f = elim (Outcome-cases (k.assume_policy role pod)) [
    | inl (d, e) ↦ rw (e, check_policy) (decide-cases ip role w pod d f e)
    | inr (inl (x, e)) ↦ inl (rw (e, check_policy) (refl, λ c h. cc))
    | inr (inr e) ↦ inl (rw (e, check_policy) (refl, λ c h. cc))
  ]

  call-cases :
      (ip role : Text) (w : World Provider)
      → Untouched w (get_pod_credentials k ip role w) ⊎ Asked ip role
  unfolding get_pod_credentials
  call-cases ip role w = elim (Outcome-cases (get_pod_by_ip k.indexer k.pods ip)) [
    | inl (pod, f) ↦ rw (f, get_pod_credentials) (check-cases ip role w pod f)
    | inr (inl (x, f)) ↦ inl (rw (f, get_pod_credentials) (refl, λ c h. cc))
    | inr (inr f) ↦ inl (rw (f, get_pod_credentials) (refl, λ c h. cc))
  ]

  retrieve-ok :
      (pod : Pod) (i : RoleIdentity) (w w' : World Provider) (c : Credentials)
      → retrieve k pod i w ≡ (ok c, w')
      → ((k.credentials_for_role i w.provider).0 ≡ ok c)
        × (w' ≡ record w { provider = (k.credentials_for_role i w.provider).1 })
  unfolding retrieve translate_credentials_to_proto
  retrieve-ok pod i w w' c h = elim (Outcome-cases (k.credentials_for_role i w.provider).0) [
    | inl (d, e) ↦
        let g = rw (e, retrieve) at h in
        (
          e ∙ ap (λ (r : Outcome Credentials × World Provider). r.0) g,
          sym (ap (λ (r : Outcome Credentials × World Provider). r.1) g),
        )
    | inr (inl (x, e)) ↦
        cc (ap (λ (r : Outcome Credentials × World Provider). r.0) (rw (e, retrieve) at h))
    | inr (inr e) ↦
        cc (ap (λ (r : Outcome Credentials × World Provider). r.0) (rw (e, retrieve) at h))
  ]

  -- What the provider returns for an identity that is asked for.
  pub get_pod_credentials-provided :
      (ip role : Text) (w : World Provider) (q : Asked ip role) (c : Credentials)
      → (k.credentials_for_role q.identity w.provider).0 ≡ ok c
      → get_pod_credentials k ip role w
        ≡ (ok c, record w { provider = (k.credentials_for_role q.identity w.provider).1 })
  unfolding retrieve translate_credentials_to_proto
  get_pod_credentials-provided ip role w q c h =
      get_pod_credentials-Asked ip role w q ∙ rw (h, retrieve)

  -- Credentials that GetPodCredentials returns belong to the one pod that has the caller's address,
  -- the policy allowed the role to that pod, and they are what the provider returned, field by
  -- field, for the identity of the role with the pod's session name and external ID. No event is
  -- recorded.
  pub get_pod_credentials_provenance :
      (ip role : Text) (w w' : World Provider) (c : Credentials)
      → get_pod_credentials k ip role w ≡ (ok c, w')
      → (q : Asked ip role) × ((k.credentials_for_role q.identity w.provider).0 ≡ ok c)
        × (w' ≡ record w { provider = (k.credentials_for_role q.identity w.provider).1 })
  get_pod_credentials_provenance ip role w w' c h = elim (call-cases ip role w) [
    | inl (same, none_given) ↦
        absurd (none_given c (ap (λ (r : Outcome Credentials × World Provider). r.0) h))
    | inr q ↦
        let (given, left) =
          retrieve-ok q.pod q.identity w w' c (sym (get_pod_credentials-Asked ip role w q) ∙ h) in
        (q, given, left)
  ]

pub new_role_identity-eq :
    (r : Resolver) (role session external : Text) {i : RoleIdentity}
    → new_role_identity r role session external ≡ ok i
    → (resolve r role ≡ ok i.role) × (i.session_name ≡ session)
unfolding new_role_identity
new_role_identity-eq r role session external n =
    let (x, e, rest) = >>=-eq-ok (resolve r role) _ n in
    let same = sym (ok-injective rest) in
    (
      e ∙ ap ok (sym (ap (λ (i : RoleIdentity). i.role) same)),
      ap (λ (i : RoleIdentity). i.session_name) same,
    )

-- What was asked under the policy that Build gives the server was permitted.
pub Asked-MayAssume :
    {Provider : Type 0} (k : KiamServer Provider) (compile : RegexpCompile) (disable_strict : Bool)
    (find_namespace : Text → Outcome (Option Namespace)) (ip role : Text) (q : Asked k ip role)
    → k.assume_policy ≡ assume_policy compile disable_strict find_namespace k.arn_resolver
    → (may : MayAssume compile disable_strict find_namespace k.arn_resolver role q.pod)
      × (q.identity.role ≡ may.resolved)
Asked-MayAssume k compile disable_strict find_namespace ip role q built =
    let may =
      (assume_policy-allowed_iff compile disable_strict find_namespace k.arn_resolver role q.pod).0
        (ap (λ (p : AssumeRolePolicy). p role q.pod) (sym built)
          ∙ q.decided
          ∙ ap ok (is_allowed-eq q.decision q.permitted)) in
    (
      may,
      ok-injective (sym (new_role_identity-eq k.arn_resolver role _ _ q.named).0 ∙ may.requested),
    )

-- What a pod asks for that may assume a role under the policy of Build.
pub MayAssume-Asked :
    {Provider : Type 0} (k : KiamServer Provider) (compile : RegexpCompile) (disable_strict : Bool)
    (find_namespace : Text → Outcome (Option Namespace)) (ip role : Text) (pod : Pod)
    (may : MayAssume compile disable_strict find_namespace k.arn_resolver role pod)
    → k.assume_policy ≡ assume_policy compile disable_strict find_namespace k.arn_resolver
    → get_pod_by_ip k.indexer k.pods ip ≡ ok pod
    → (q : Asked k ip role) × (q.identity ≡ record {
      role = may.resolved;
      session_name = pod_session_name pod;
      external_id = pod_external_id pod;
    })
unfolding new_role_identity is_allowed
MayAssume-Asked k compile disable_strict find_namespace ip role pod may built found = (
  record {
    pod = pod;
    found = found;
    decision = _;
    decided =
        ap (λ (p : AssumeRolePolicy). p role pod) built
        ∙ (assume_policy-allowed_iff compile disable_strict find_namespace k.arn_resolver role
              pod).1
            may;
    permitted = refl;
    identity = _;
    named = rw may.requested;
  },
  refl,
)

-- With the policy and the resolver that Build gives the server, credentials are returned only if the
-- pod with the caller's address may assume the role by its own annotation and by that of its
-- namespace, and the identity asked of the provider has the ARN that the namespace's expression
-- matched.
pub get_pod_credentials_permitted :
    {Provider : Type 0} (k : KiamServer Provider) (compile : RegexpCompile) (disable_strict : Bool)
    (find_namespace : Text → Outcome (Option Namespace)) (ip role : Text) (w w' : World Provider)
    (c : Credentials)
    → k.assume_policy ≡ assume_policy compile disable_strict find_namespace k.arn_resolver
    → get_pod_credentials k ip role w ≡ (ok c, w')
    → (pod : Pod) × (identity : RoleIdentity) × (may : MayAssume compile disable_strict
        find_namespace k.arn_resolver role pod)
      × (get_pod_by_ip k.indexer k.pods ip ≡ ok pod)
      × (identity.role ≡ may.resolved)
      × ((k.credentials_for_role identity w.provider).0 ≡ ok c)
get_pod_credentials_permitted k compile disable_strict find_namespace ip role w w' c built h =
    let (q, given, _) = get_pod_credentials_provenance k ip role w w' c h in
    let (may, same) = Asked-MayAssume k compile disable_strict find_namespace ip role q built in
    (q.pod, q.identity, may, q.found, same, given)
