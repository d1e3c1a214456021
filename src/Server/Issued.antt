-- ===== src/Server/Issued.antt =====
-- The server over the credentials cache, from GetPodCredentials down to the requests for the STS.
use kiam.Base.{arith, ℕ, Bool, ◌≡◌, sym, ap, ◌∙◌, Option, none, some, List, ◌∷◌}
use mathlib.Core.Path.{subst}
use mathlib.Core.Option.{some-injective}
use kiam.Base.Lists.{length, get_elem?, get_elem?-append_last, All, All-get_elem?}
use kiam.Base.Text.{Text}
use kiam.Base.Text.Laws.{Free}
use kiam.Base.Outcome.{Outcome, ok, err, panic, ok-injective}
use kiam.Sts.Resolver.{ResolvedRole, resolve}
use kiam.Sts.Identity.{RoleIdentity, to_string}
use kiam.Sts.Credentials.{Credentials}
use kiam.Sts.Cache.{
  ItemCache, Result, issued, not_issued, issue_request, StsIssueRequest, CachedCredentials, Future,
  Call, Progress.started, CredentialsCache, default_cache, Action, call_for, step, run,
}
use kiam.Sts.Cache.Laws.{Inv, default_cache-Inv, GivenFor, ProgressOk, CallOk}
use kiam.Sts.Cache.Laws.Steps.{run-Inv}
use kiam.Sts.Cache.Laws.Calls.{run-KeepsCalls}
use kiam.Sts.Cache.Safety.{NoBar, issue_request-eq}
use kiam.Sts.Cache.Memo.{result_at, result_at-call}
use kiam.K8s.Pod.{Pod, pod_session_name}
use kiam.K8s.PodCache.{get_pod_by_ip}
use kiam.K8s.NamespaceCache.{Namespace}
use kiam.Server.Policy.{RegexpCompile, assume_policy}
use kiam.Server.Policy.Assume.{MayAssume}
use kiam.Server.Handlers.{KiamServer, World, get_pod_credentials}
use kiam.Server.Handlers.Laws.{
  get_pod_credentials_provenance, Asked-MayAssume, new_role_identity-eq,
}

cached-eq :
    (cached : CachedCredentials) (i : RoleIdentity) (c : Credentials)
    → cached.identity ≡ i
    → cached.credentials ≡ c
    → cached ≡ record { identity = i; credentials = c }
cached-eq cached i c p q = ground arith

module _ (x : ItemCache ℕ) where
  -- The state that a call and what all goroutines do until its end lead to.
  abbrev after_call :
      (RoleIdentity → CredentialsCache x → List (Action x))
      → RoleIdentity
      → CredentialsCache x
      → CredentialsCache x
  after_call meanwhile i s = run x (call_for i ∷ meanwhile i s) s

  -- The cache as the provider of a server. What the goroutines do during a call, its own included,
  -- is any list of actions. A call that has not returned at their end has no result, as one that
  -- panics.
  abbrev pub from_cache :
      (RoleIdentity → CredentialsCache x → List (Action x))
      → RoleIdentity
      → CredentialsCache x
      → Outcome Credentials × CredentialsCache x
  from_cache meanwhile i s =
      let t = after_call meanwhile i s in
      (
        elim (result_at x (length s.calls) t) [
          | none ↦ panic
          | some r ↦ elim r [ issued c ↦ ok c | not_issued e ↦ err e ]
        ],
        t,
      )

  from_cache-ok :
      (meanwhile : RoleIdentity → CredentialsCache x → List (Action x)) (i : RoleIdentity)
      (s : CredentialsCache x) (c : Credentials)
      → (from_cache meanwhile i s).0 ≡ ok c
      → result_at x (length s.calls) (after_call meanwhile i s) ≡ some (issued c)
  from_cache-ok meanwhile i s c = go (result_at x (length s.calls) (after_call meanwhile i s))
    where
      go :
          (r : Option (Result Credentials))
          → (let o : Outcome Credentials = elim r [
            | none ↦ panic
            | some a ↦ elim a [ issued d ↦ ok d | not_issued e ↦ err e ]
          ] in
              o ≡ ok c)
          → r ≡ some (issued c)
      go none h = cc
      go (some (not_issued e)) h = cc
      go (some (issued d)) h = ap (λ a. some (issued a)) (ok-injective h)

  -- What a call returns is of a future with the key of its identity.
  from_cache-GivenFor :
      (meanwhile : RoleIdentity → CredentialsCache x → List (Action x)) (i : RoleIdentity)
      (s : CredentialsCache x) (c : Credentials)
      → Inv x s
      → (from_cache meanwhile i s).0 ≡ ok c
      → GivenFor (after_call meanwhile i s).futures (to_string i) c
  unfolding run step
  from_cache-GivenFor meanwhile i s c v h =
      let t = after_call meanwhile i s in
      let n = length s.calls in
      let mine : Call = record { identity = i; progress = started } in
      let begun = step x (call_for i) s in
      let (call, found, end) = result_at-call x n t (from_cache-ok meanwhile i s c h) in
      let (same, found', kept) =
        run-KeepsCalls x (meanwhile i s) begun n mine (get_elem?-append_last s.calls mine) in
      let ok =
        All-get_elem? (CallOk t.futures) n t.calls found
          (run-Inv x (call_for i ∷ meanwhile i s) s v).calls in
      let identity =
        ap (λ (c : Call). c.identity) (some-injective _ _ (sym found ∙ found')) ∙ kept in
      subst (λ j. GivenFor t.futures (to_string j) c) identity
        (subst (ProgressOk t.futures (to_string call.identity)) end ok)

  -- With the policy that Build gives the server and the credentials cache as its provider, after any
  -- interleaving and during any other, credentials that GetPodCredentials returns are those that the
  -- gateway answered a request with whose role ARN is the one that the pod with the caller's address
  -- may assume, by its own annotation and by its namespace's expression. The condition is that the
  -- ARN, the pod's session name, and the ARNs and session names that were asked for before hold no
  -- `|`.
  pub credentials_issued_as_permitted :
      (k : KiamServer (CredentialsCache x)) (compile : RegexpCompile) (disable_strict : Bool)
      (find_namespace : Text → Outcome (Option Namespace))
      (meanwhile : RoleIdentity → CredentialsCache x → List (Action x)) (before : List (Action x))
      (session_name : Text) (duration : ℕ) (ip role : Text) (w w' : World (CredentialsCache x))
      (c : Credentials)
      → k.assume_policy ≡ assume_policy compile disable_strict find_namespace k.arn_resolver
      → k.credentials_for_role ≡ from_cache meanwhile
      → w.provider ≡ run x before (default_cache x)
      → ((pod : Pod)
          → get_pod_by_ip k.indexer k.pods ip ≡ ok pod
          → Free b'|' (pod_session_name pod))
      → ((r : ResolvedRole) → resolve k.arn_resolver role ≡ ok r → Free b'|' r.arn)
      → All (λ (future : Future). NoBar future.identity) w'.provider.futures
      → get_pod_credentials k ip role w ≡ (ok c, w')
      → (pod : Pod) × (may : MayAssume compile disable_strict find_namespace k.arn_resolver role
          pod)
        × (get_pod_by_ip k.indexer k.pods ip ≡ ok pod)
        × (future : Future) × (at : ℕ) × (get_elem? w'.provider.futures at ≡ some future)
        × (future.result ≡ some (issued (record { identity = future.identity; credentials = c })))
        × ((issue_request session_name duration future.identity).role_arn ≡ may.resolved.arn)
  unfolding issue_request
  credentials_issued_as_permitted k compile disable_strict find_namespace meanwhile before
        session_name duration ip role w w' c built provided reached sessions arns bars h =
      let (q, given, left) = get_pod_credentials_provenance k ip role w w' c h in
      let (may, same) = Asked-MayAssume k compile disable_strict find_namespace ip role q built in
      let (named, session) = new_role_identity-eq k.arn_resolver role _ _ q.named in
      let provider =
        ap (λ (v : World (CredentialsCache x)). v.provider) left
        ∙ ap (λ f. (f q.identity w.provider).1) provided in
      let v =
        subst (Inv x) (sym reached) (run-Inv x before (default_cache x) (default_cache-Inv x)) in
      let (cached, own, i) =
        from_cache-GivenFor meanwhile q.identity w.provider c v
          (sym (ap (λ f. (f q.identity w.provider).0) provided) ∙ given) in
      let futures = ap (λ (s : CredentialsCache x). s.futures) provider in
      let found = ap (λ fs. get_elem? fs i.at) futures ∙ i.found in
      let clean =
        All-get_elem? (λ (f : Future). NoBar f.identity) i.at w'.provider.futures found bars in
      let mine : NoBar q.identity =
        (arns q.identity.role named, subst (Free b'|') (sym session) (sessions q.pod q.found)) in
      (
        q.pod,
        may,
        q.found,
        i.future,
        i.at,
        found,
        i.answered ∙ ap (λ r. some (issued r)) (cached-eq cached i.future.identity c i.own own),
        ap (λ (r : StsIssueRequest). r.role_arn)
              (issue_request-eq session_name duration i.future.identity q.identity clean mine
                i.same_key)
            ∙ ap (λ (r : ResolvedRole). r.arn) same,
      )
