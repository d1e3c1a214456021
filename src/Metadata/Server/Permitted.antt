-- ===== src/Metadata/Server/Permitted.antt =====
-- The agent's web server over the gateway and the server's GetPodCredentials: from an HTTP request
-- for credentials down to the policy.
use kiam.Base.{◌≡◌, ◌≢◌, sym, ap, ◌∙◌, Bool, true, ◌++◌, Option, List, [], ◌∷◌, map, ◌⊎◌, inl, inr}
use mathlib.Core.Path.{subst}
use kiam.Base.Text.{Text, codes}
use kiam.Base.Text.Laws.{Free}
use kiam.Base.Outcome.{Outcome, ok, err, panic, other}
use kiam.Sts.Identity.{RoleIdentity}
use kiam.Sts.Credentials.{Credentials}
use kiam.K8s.Pod.{Pod}
use kiam.K8s.PodCache.{get_pod_by_ip}
use kiam.K8s.NamespaceCache.{Namespace}
use kiam.Server.Policy.{RegexpCompile, assume_policy}
use kiam.Server.Policy.Assume.{MayAssume}
use kiam.Server.Handlers.{KiamServer, World, get_pod_credentials}
use kiam.Server.Handlers.Laws.{get_pod_credentials_permitted}
use kiam.Server.Gateway.{Reply, reply, get_credentials, get_credentials-ok}
use kiam.Metadata.Http.{Try, done, fail, Request, Exchange, Metrics, fresh_writer}
use kiam.Metadata.Retry.{Answers, fetch_credentials}
use kiam.Metadata.Retry.Laws.{fetch_credentials-done}
use kiam.Metadata.Handlers.{client_ip}
use kiam.Metadata.Handlers.Laws.{serve_credentials, Answered, Served, Refused, Fetched}
use kiam.Metadata.Mux.{IsSegment}
use kiam.Metadata.Server.{ServerOptions, Client, Url, Web, routes, serve_credentials_of}
use kiam.Metadata.Server.Routes.{credentials_prefix, routed-credentials}

-- A call of the gateway, which does not panic, as the handlers see it.
pub try_of : {A : Type 0} → Outcome A → Try A
try_of (ok a) = done a
try_of (err e) = fail e
try_of panic = fail (other [])

try_of-done : {A : Type 0} (o : Outcome A) {a : A} → try_of o ≡ done a → o ≡ ok a
unfolding try_of
try_of-done (ok a) h = cc
try_of-done (err e) h = cc
try_of-done panic h = cc

-- The agent's router and its handler for credentials.
module _ (web : Web) (config : ServerOptions) (client : Client) (req : Request) (m : Metrics) where
  abbrev start : Exchange
  start = record { writer = fresh_writer; metrics = m }

  -- A request for credentials on a clean path is answered by the handler for credentials.
  pub agent_answers :
      (url : Url) (version role : Text)
      → IsSegment version
      → role ≢ []
      → Free 10 role
      → req.path ≡ b'/' ∷ (version ++ b'/' ∷ (credentials_prefix ++ role))
      → web.mux.is_clean req.path ≡ true
      → Answered web.backoff config.allow_ip_query web.encode client.get_credentials role req m
          (web.mux.serve_http (routes web config client url) req start)
  unfolding serve_credentials_of
  agent_answers url version role is_segment ne f at clean =
      let routed =
        ap
          (λ path.
            web.mux.serve_http (routes web config client url) (record req { path = path }) start)
          at
        ∙ routed-credentials web req start version is_segment config client url role ne f
            (ap web.mux.is_clean (sym at) ∙ clean)
        ∙ ap
            (λ path. serve_credentials_of web config client role (record req { path = path }) start)
            (sym at) in
      subst
        (Answered web.backoff config.allow_ip_query web.encode client.get_credentials role req m)
        (sym routed)
        (serve_credentials web.backoff config.allow_ip_query web.encode client.get_credentials role
          req m)

module _ {Provider : Type 0} (k : KiamServer Provider)
    (transport : Outcome Credentials → Reply Credentials) where
  -- GetCredentials of the agent's client at a state of the server.
  abbrev pub ask_server : Text → Text → World Provider → Try Credentials
  ask_server ip role w = try_of (get_credentials (transport (get_pod_credentials k ip role w).0))

  -- The answers to a handler's loop, each at a state of its own.
  abbrev pub asked_at : World Provider → List (World Provider) → Text → Text → Answers Credentials
  asked_at first more ip role = record {
    first = ask_server ip role first;
    more = map (ask_server ip role) more;
  }

  pub ask_server-done :
      (ip role : Text) (w : World Provider) (c : Credentials)
      → ((o : Outcome Credentials) (d : Credentials) → transport o ≡ reply d → o ≡ ok d)
      → ask_server ip role w ≡ done c
      → (get_pod_credentials k ip role w).0 ≡ ok c
  unfolding try_of
  ask_server-done ip role w c carried h =
      carried _ c (get_credentials-ok _ (try_of-done (get_credentials _) h))

  -- Why a response may carry credentials in JSON.
  pub record Permitted (compile : RegexpCompile) (disable_strict allow_ip_query : Bool)
      (find_namespace : Text → Outcome (Option Namespace)) (encode : Credentials → Try Text)
      (role : Text) (req : Request) (json : Text) : Type 0 where
    pub ip : Text
    pub caller : client_ip allow_ip_query req ≡ done ip
    pub pod : Pod
    pub found : get_pod_by_ip k.indexer k.pods ip ≡ ok pod
    pub may : MayAssume compile disable_strict find_namespace k.arn_resolver role pod
    pub identity : RoleIdentity
    pub same : identity.role ≡ may.resolved
    pub at : World Provider
    pub credentials : Credentials
    pub given : (k.credentials_for_role identity at.provider).0 ≡ ok credentials
    pub encoded : encode credentials ≡ done json

  module _ (compile : RegexpCompile) (disable_strict : Bool)
      (find_namespace : Text → Outcome (Option Namespace))
      (built : k.assume_policy ≡ assume_policy compile disable_strict find_namespace k.arn_resolver)
      (carried : (o : Outcome Credentials) (d : Credentials) → transport o ≡ reply d → o ≡ ok d)
      (web : Web) (config : ServerOptions) (client : Client) (first : World Provider)
      (more : List (World Provider)) (asks : client.get_credentials ≡ asked_at first more)
      (req : Request) (m : Metrics) where
    Fetched-Permitted :
        (role json : Text)
        → Fetched web.backoff config.allow_ip_query web.encode client.get_credentials role req m
            json
        → Permitted compile disable_strict config.allow_ip_query find_namespace web.encode role req
            json
    Fetched-Permitted role json f =
        let (w, e) =
          fetch_credentials-done web.backoff (ask_server f.ip role) first more f.credentials
            (ap (λ ask. fetch_credentials web.backoff (ask f.ip role)) (sym asks) ∙ f.fetched) in
        let returned = ask_server-done f.ip role w f.credentials carried e in
        let (pod, identity, may, found, same, given) =
          get_pod_credentials_permitted k compile disable_strict find_namespace f.ip role w _
            f.credentials built (λ i. (returned i, (get_pod_credentials k f.ip role w).1)) in
        record {
          ip = f.ip;
          caller = f.caller;
          pod = pod;
          found = found;
          may = may;
          identity = identity;
          same = same;
          at = w;
          credentials = f.credentials;
          given = given;
          encoded = f.encoded;
        }

    -- The agent with its routes, its handlers and its gateway, and the server with the policy that
    -- Build gives it: a request for credentials on a clean path, of any version and for a role that is
    -- not empty and holds no newline, is answered with status 200 only with the JSON of credentials that the provider returned for the
    -- role, at some attempt, where the pod with the client's address may assume the role by its own
    -- annotation and its namespace's expression. Else the response is an error with status 500. The
    -- gateway is assumed to pass credentials on only from a call that returned them.
    pub agent_serves-Permitted :
        (url : Url) (version role : Text)
        → IsSegment version
        → role ≢ []
        → Free 10 role
        → req.path ≡ b'/' ∷ (version ++ b'/' ∷ (credentials_prefix ++ role))
        → web.mux.is_clean req.path ≡ true
        → let y =
            web.mux.serve_http
              (routes web config client url)
              req
              (record { writer = fresh_writer; metrics = m }) in
          ((json : Text) × Permitted compile disable_strict config.allow_ip_query find_namespace
              web.encode role req json
            × Served (codes "credentials") json m y)
          ⊎ Refused (codes "credentials") 500 m y
    agent_serves-Permitted url version role is_segment ne f at clean =
        elim (agent_answers web config client req m url version role is_segment ne f at clean) [
          | inl (json, fetched, served) ↦ inl (json, Fetched-Permitted role json fetched, served)
          | inr (refused, why) ↦ inr refused
        ]
