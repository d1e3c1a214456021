-- ===== src/Metadata/Server.antt =====
-- pkg/aws/metadata/server.go, and the routes that the handlers install: the agent's web server. The
-- router, the client of the gRPC gateway, the reverse proxy, the client for HTTP and the parsing of
-- URLs are parameters.
pub mod Routes
pub mod Permitted
pub mod Issued
pub mod Logged
use kiam.Base.{ℕ, Bool, true, false, ◌++◌, Option, none, some, List, [], ◌∷◌, if◌then◌else◌}
use kiam.Base.Decimal.{decimal}
use kiam.Base.Text.{Text, codes, text_eq}
use kiam.Base.Outcome.{Error}
use kiam.Sts.Credentials.{Credentials}
use kiam.Metadata.Http.{
  Try, done, fail, ◌>>=◌, Request, ResponseWriter, Exchange, Handler, write, http_error,
}
use kiam.Metadata.Retry.{Backoff, Answers}
use kiam.Metadata.Handlers.{with_meter, adapt, handle_credentials, handle_role, handle_health}
use kiam.Metadata.Proxy.{Regexp, Reply, new_proxy_handler}
use kiam.Metadata.Log.{Entry, logging_handler}
use kiam.Metadata.Mux.{
  literal, segment, any, Vars, HttpHandler, Route, path_route, prefix_route, Mux,
}

pub record ServerOptions : Type 0 where
  pub listen_port : ℕ
  pub metadata_endpoint : Text
  pub allow_ip_query : Bool
  pub allow_route_regexp : Regexp

-- DefaultOptions; `^$` matches the empty text alone.
unfoldable pub default_options : ServerOptions
default_options = record {
  metadata_endpoint = codes "http://169.254.169.254";
  listen_port = 3100;
  allow_ip_query = false;
  allow_route_regexp = record { source = codes "^$"; match_string = λ path. text_eq path [] };
}

-- server.Client: the answers to the calls that a handler's loop makes.
pub record Client : Type 0 where
  pub get_role : Text → Answers Text
  pub get_credentials : Text → Text → Answers Credentials
  pub health : Answers Text

-- A URL as its path and the rest.
pub record Url : Type 0 where
  pub path : Text
  pub others : Text

-- The answer to a request that a client for HTTP makes: making it, sending it, reading the body.
pub record Fetch : Type 0 where
  pub new_request : Try (Unit {0})
  pub response : Try Text
  pub body : Try Text

-- What the server uses of other packages.
pub record Web : Type 1 where
  pub mux : Mux
  pub backoff : Backoff
  pub encode : Credentials → Try Text
  pub quote : Text → Text
  pub parse_url : Text → Try Url
  -- url.Parse(req.URL.String()), String, and http.Redirect with status 301
  pub parse_request_url : Request → Try Url
  pub url_text : Url → Text
  pub redirect : Request → Text → ResponseWriter → ResponseWriter
  pub reverse_proxy : Url → Request → List Reply
  pub get : Text → Fetch

ping : HttpHandler
ping req x = record x { writer = write (codes "pong") x.writer }

-- mux.Vars(req)[name]
pub var : Text → Vars → Text
var name [] = []
var name ((key, value) ∷ rest) = if text_eq key name then value else var name rest

module _ (web : Web) where
  pub trailing_slash_suffix_redirect_handler : HttpHandler
  trailing_slash_suffix_redirect_handler req x = elim (web.parse_request_url req) [
    | fail e ↦ record x { writer = http_error (codes "error parsing uri") 500 x.writer }
    | done u ↦ record x {
      writer = web.redirect req (web.url_text (record u { path = u.path ++ codes "/" })) x.writer;
    }
  ]

  module _ (config : ServerOptions) (client : Client) where
    -- The handlers behind adapt and withMeter.
    serve_health : HttpHandler
    serve_health =
        let fetch = web.get (config.metadata_endpoint ++ codes "/latest/meta-data/instance-id") in
        adapt (
          with_meter (codes "health")
            (handle_health web.backoff client.health fetch.new_request fetch.response fetch.body))

    pub serve_role_name : HttpHandler
    serve_role_name = adapt (
        with_meter (codes "roleName")
          (handle_role web.backoff config.allow_ip_query client.get_role))

    pub serve_credentials_of : Text → HttpHandler
    serve_credentials_of role = adapt (
        with_meter (codes "credentials") (
          handle_credentials web.backoff config.allow_ip_query web.encode client.get_credentials
            role))

    serve_proxy : Url → HttpHandler
    serve_proxy url = adapt (
        with_meter (codes "proxy")
          (new_proxy_handler web.quote (web.reverse_proxy url) config.allow_route_regexp))

    -- The routes in the order in which buildHTTPServer and the Install methods add them.
    pub routes : Url → List Route
    unfolding ping trailing_slash_suffix_redirect_handler serve_health serve_role_name
        serve_credentials_of serve_proxy var
    routes url =
        path_route (literal (codes "/ping") ∷ []) (λ vars. ping)
        ∷ path_route (literal (codes "/health") ∷ []) (λ vars. serve_health)
        ∷ path_route
            (literal (codes "/")
              ∷ segment (codes "version")
              ∷ literal (codes "/meta-data/iam/security-credentials/")
              ∷ [])
            (λ vars. serve_role_name)
        ∷ path_route
            (literal (codes "/")
              ∷ segment (codes "version")
              ∷ literal (codes "/meta-data/iam/security-credentials")
              ∷ [])
            (λ vars. trailing_slash_suffix_redirect_handler)
        ∷ path_route
            (literal (codes "/")
              ∷ segment (codes "version")
              ∷ literal (codes "/meta-data/iam/security-credentials/")
              ∷ any (codes "role")
              ∷ [])
            (λ vars. serve_credentials_of (var (codes "role") vars))
        ∷ prefix_route (codes "/") (serve_proxy url)
        ∷ []

-- http.Server; its handler also logs.
pub record HttpServer : Type 0 where
  pub addr : Text
  pub handler : Request → Exchange → Exchange × Entry

module _ (web : Web) where
  -- buildHTTPServer
  unfoldable pub build_http_server : ServerOptions → Client → Try HttpServer
  unfolding routes
  build_http_server config client = do
    url ← web.parse_url config.metadata_endpoint
    done (record {
      addr = codes ":" ++ decimal config.listen_port;
      handler = logging_handler (web.mux.serve_http (routes web config client url));
    })

  -- Server
  record WebServer : Type 0 where
    pub cfg : ServerOptions
    pub server : HttpServer

  -- NewWebServer
  unfoldable new_web_server : ServerOptions → Client → Try WebServer
  unfolding build_http_server
  new_web_server config client = do
    http ← build_http_server config client
    done (record { cfg = config; server = http })
