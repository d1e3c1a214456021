-- ===== src/Metadata/Server/Issued.antt =====
-- The agent over the server over the credentials cache: from an HTTP request down to the request for
-- the STS.
use kiam.Base.{
  ℕ, ◌≡◌, ◌≢◌, sym, ap, ◌∙◌, Bool, true, ◌++◌, Option, some, List, [], ◌∷◌, map, ◌⊎◌, inl, inr,
}
use kiam.Base.Lists.{All, get_elem?}
use kiam.Base.Text.{Text, codes}
use kiam.Base.Text.Laws.{Free}
use kiam.Base.Outcome.{Outcome, ok}
use kiam.Sts.Resolver.{ResolvedRole, resolve}
use kiam.Sts.Identity.{RoleIdentity}
use kiam.Sts.Credentials.{Credentials}
use kiam.Sts.Cache.{
  ItemCache, issued, issue_request, Future, CredentialsCache, default_cache, Action, run,
}
use kiam.Sts.Cache.Safety.{NoBar}
use kiam.K8s.Pod.{Pod, pod_session_name}
use kiam.K8s.PodCache.{get_pod_by_ip}
use kiam.K8s.NamespaceCache.{Namespace}
use kiam.Server.Policy.{RegexpCompile, assume_policy}
use kiam.Server.Policy.Assume.{MayAssume}
use kiam.Server.Handlers.{KiamServer, World, get_pod_credentials}
use kiam.Server.Issued.{from_cache, credentials_issued_as_permitted}
use kiam.Server.Gateway.{Reply, reply}
use kiam.Metadata.Http.{done-injective, Try, done, Request, Metrics, fresh_writer}
use kiam.Metadata.Retry.{Answers, fetch_credentials}
use kiam.Metadata.Retry.Laws.{fetch_credentials-done}
use kiam.Metadata.Handlers.{client_ip}
use kiam.Metadata.Handlers.Laws.{Fetched, Served, Refused}
use kiam.Metadata.Mux.{IsSegment}
use kiam.Metadata.Server.{ServerOptions, Client, Url, Web, routes}
use kiam.Metadata.Server.Routes.{credentials_prefix}
use kiam.Metadata.Server.Permitted.{ask_server, ask_server-done, agent_answers}

module _ (x : ItemCache ℕ) (k : KiamServer (CredentialsCache x))
    (transport : Outcome Credentials → Reply Credentials) (ip role : Text) where
  -- A call of the agent reaches the server after some actions on the cache, and all the identities that
  -- have been asked for once it returns hold no `|`.
  pub record Attempt : Type 0 where
    pub at : World (CredentialsCache x)
    pub before : List (Action x)
    pub reached : at.provider ≡ run x before (default_cache x)
    pub clean :
        All (λ (f : Future). NoBar f.identity) (get_pod_credentials k ip role at).1.provider.futures

  -- The answers to the agent's loop for the role, each at an attempt.
  abbrev pub asked_in : Attempt → List Attempt → Answers Credentials
  asked_in first more = record {
    first = ask_server k transport ip role first.at;
    more = map (λ (a : Attempt). ask_server k transport ip role a.at) more;
  }

  -- Where credentials in JSON come from: the gateway answered with them a request for the ARN that
  -- the caller's pod may assume.
  pub record IssuedTo (compile : RegexpCompile) (disable_strict : Bool)
      (find_namespace : Text → Outcome (Option Namespace)) (encode : Credentials → Try Text)
      (session_name : Text) (duration : ℕ) (json : Text) : Type 0 where
    pub pod : Pod
    pub found : get_pod_by_ip k.indexer k.pods ip ≡ ok pod
    pub may : MayAssume compile disable_strict find_namespace k.arn_resolver role pod
    pub credentials : Credentials
    pub attempt : Attempt
    pub future : Future
    pub index : ℕ
    pub asked :
        get_elem? (get_pod_credentials k ip role attempt.at).1.provider.futures index ≡ some future
    pub answered :
        future.result
        ≡ some (issued (record { identity = future.identity; credentials = credentials }))
    pub for_role : (issue_request session_name duration future.identity).role_arn ≡ may.resolved.arn
    pub encoded : encode credentials ≡ done json

  module _ (compile : RegexpCompile) (disable_strict : Bool)
      (find_namespace : Text → Outcome (Option Namespace))
      (built : k.assume_policy ≡ assume_policy compile disable_strict find_namespace k.arn_resolver)
      (meanwhile : RoleIdentity → CredentialsCache x → List (Action x))
      (provided : k.credentials_for_role ≡ from_cache x meanwhile)
      (carried : (o : Outcome Credentials) (d : Credentials) → transport o ≡ reply d → o ≡ ok d)
      (sessions : (pod : Pod)
        → get_pod_by_ip k.indexer k.pods ip ≡ ok pod
        → Free b'|' (pod_session_name pod))
      (arns : (r : ResolvedRole) → resolve k.arn_resolver role ≡ ok r → Free b'|' r.arn)
      (session_name : Text) (duration : ℕ) (web : Web) (config : ServerOptions) (client : Client)
      (first : Attempt) (more : List Attempt)
      (asks : client.get_credentials ip role ≡ asked_in first more) (req : Request)
      (caller : client_ip config.allow_ip_query req ≡ done ip) (m : Metrics) where
    Fetched-IssuedTo :
        (json : Text)
        → Fetched web.backoff config.allow_ip_query web.encode client.get_credentials role req m
            json
        → IssuedTo compile disable_strict find_namespace web.encode session_name duration json
    Fetched-IssuedTo json f =
        let same : f.ip ≡ ip = done-injective (sym f.caller ∙ caller) in
        let fetched =
          ap (λ i. fetch_credentials web.backoff (client.get_credentials i role)) (sym same)
          ∙ f.fetched in
        let (a, e) =
          fetch_credentials-done web.backoff (λ (a : Attempt). ask_server k transport ip role a.at)
            first more f.credentials (ap (fetch_credentials web.backoff) (sym asks) ∙ fetched) in
        let returned = ask_server-done k transport ip role a.at f.credentials carried e in
        let after = (get_pod_credentials k ip role a.at).1 in
        let (pod, may, found, future, index, asked, answered, for_role) =
          credentials_issued_as_permitted x k compile disable_strict find_namespace meanwhile
            a.before session_name duration ip role a.at after f.credentials built provided a.reached
            sessions arns a.clean (λ i. (returned i, after)) in
        record {
          pod = pod;
          found = found;
          may = may;
          credentials = f.credentials;
          attempt = a;
          future = future;
          index = index;
          asked = asked;
          answered = answered;
          for_role = for_role;
          encoded = f.encoded;
        }

    -- End to end, from an HTTP request to the agent down to the gateway of the server, with the policy
    -- that Build gives the server and the credentials cache as its provider: a request for credentials
    -- on a clean path is answered with status 200 only with the JSON of credentials that the gateway
    -- answered a request with whose role ARN is the one that the pod with the client's address may
    -- assume, by its own annotation and its namespace's expression; else with an error of status 500.
    -- This holds whatever the agent's attempts find done at the server and its cache before them and
    -- during them, if gRPC passes credentials on only from a call that returned them. The condition is
    -- that the ARN, the pod's session name, and the ARNs and session names that were asked for by the
    -- end of an attempt hold no `|`.
    pub agent_serves-IssuedTo :
        (url : Url) (version : Text)
        → IsSegment version
        → role ≢ []
        → Free 10 role
        → req.path ≡ b'/' ∷ (version ++ b'/' ∷ (credentials_prefix ++ role))
        → web.mux.is_clean req.path ≡ true
        → let y =
            web.mux.serve_http
              (routes web config client url)
              req
              (record { writer = fresh_writer; metrics = m }) in
          ((json : Text) × IssuedTo compile disable_strict find_namespace web.encode session_name
              duration json
            × Served (codes "credentials") json m y)
          ⊎ Refused (codes "credentials") 500 m y
    agent_serves-IssuedTo url version is_segment ne f at clean =
        elim (agent_answers web config client req m url version role is_segment ne f at clean) [
          | inl (json, fetched, served) ↦ inl (json, Fetched-IssuedTo json fetched, served)
          | inr (refused, why) ↦ inr refused
        ]
