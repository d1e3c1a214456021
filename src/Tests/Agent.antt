-- ===== src/Tests/Agent.antt =====
-- The agent's web server over the server at a concrete input.
use kiam.Base.{◌≡◌, ◌≢◌, refl, false, ◌++◌, ◌⊎◌, List, [], ◌∷◌, arith}
use kiam.Base.Decimal.{decimal}
use kiam.Base.Text.{Text, codes, has_prefix}
use kiam.Base.Outcome.{Outcome, ok, err, panic, error_text}
use kiam.Sts.Credentials.{Credentials}
use kiam.Server.Gateway.{Reply, reply, status}
use kiam.Metadata.Http.{done, Request, Exchange, zero_metrics, fresh_writer, write, write_header}
use kiam.Metadata.Handlers.Laws.{Served, Refused}
use kiam.Metadata.Mux.{IsSegment}
use kiam.Metadata.Server.{
  default_options, Client, Url, Web, routes, serve_role_name, serve_credentials_of, HttpServer,
  build_http_server, trailing_slash_suffix_redirect_handler,
}
use kiam.Metadata.Server.Routes.{
  at, below, routed, credentials_prefix, credentials_name, security_credentials_routes,
}
use kiam.Metadata.Server.Permitted.{asked_at, Permitted, agent_serves-Permitted}
use kiam.Metadata.Server.Logged.{Redirects, Logged, access_log_shows_response}
use kiam.Metadata.Log.{logging_handler}
use kiam.Tests.Mux.{mux}
use kiam.Tests.Metadata.{backoff, encode, quote, request, secrets}
use kiam.Tests.Fixtures.{web_role, compile, namespaces, server, world}

abbrev pub endpoint : Url
endpoint = record { path = []; others = codes "http://169.254.169.254" }

abbrev location : Text → List (Text × Text)
location target = (codes "Location", target) ∷ []

abbrev pub web : Web
web = record {
  mux = mux;
  backoff = backoff;
  encode = encode;
  quote = quote;
  parse_url = λ text. done endpoint;
  parse_request_url = λ req. done (record { path = req.path; others = [] });
  url_text = λ url. url.path;
  redirect = λ req target w.
      write [] (write_header 301 (record w { header = location target ++ w.header }));
  reverse_proxy = λ url. secrets;
  get = λ url. record { new_request = done tt; response = done []; body = done (codes "i-1") };
}

-- A transport that keeps what gRPC promises.
abbrev pub transport : Outcome Credentials → Reply Credentials
transport (ok c) = reply c
transport (err e) = status (error_text e)
transport panic = status (codes "unavailable")

pub transport-carried :
    (o : Outcome Credentials) (d : Credentials) → transport o ≡ reply d → o ≡ ok d
transport-carried (ok c) d h = cc
transport-carried (err e) d h = cc
transport-carried panic d h = cc

abbrev client : Client
client = record {
  get_role = λ ip. record { first = done web_role; more = [] };
  get_credentials = asked_at server transport (world 0) [];
  health = record { first = done (codes "ok"); more = [] };
}

abbrev pub latest : Text
latest = codes "latest"

pub latest-IsSegment : IsSegment latest
latest-IsSegment = (λ e. cc, ground arith)

abbrev pub credentials_request : Request
credentials_request = record request {
  path = codes "/latest/meta-data/iam/security-credentials/web";
}

abbrev start : Exchange
start = record { writer = fresh_writer; metrics = zero_metrics }

pub web_role-some : web_role ≢ []
web_role-some e = cc

security_credentials_routes_example :
    (routed web credentials_request start latest latest-IsSegment default_options client endpoint (
        below web credentials_request start latest latest-IsSegment
          (credentials_prefix ++ web_role))
      ≡ serve_credentials_of web default_options client web_role
          (at web credentials_request start latest latest-IsSegment (
            below web credentials_request start latest latest-IsSegment
              (credentials_prefix ++ web_role)))
          start)
    × (routed web credentials_request start latest latest-IsSegment default_options client endpoint
          (below web credentials_request start latest latest-IsSegment credentials_prefix)
        ≡ serve_role_name web default_options client
            (at web credentials_request start latest latest-IsSegment
              (below web credentials_request start latest latest-IsSegment credentials_prefix))
            start)
    × (routed web credentials_request start latest latest-IsSegment default_options client endpoint
          (below web credentials_request start latest latest-IsSegment credentials_name)
        ≡ trailing_slash_suffix_redirect_handler web
            (at web credentials_request start latest latest-IsSegment
              (below web credentials_request start latest latest-IsSegment credentials_name))
            start)
security_credentials_routes_example =
    security_credentials_routes web credentials_request start latest latest-IsSegment
      default_options client endpoint web_role web_role-some (ground arith) refl refl refl

abbrev answered : Exchange
answered = web.mux.serve_http (routes web default_options client endpoint) credentials_request start

agent_serves-Permitted_example :
    ((json : Text) × Permitted server transport compile false false namespaces encode web_role
        credentials_request json
      × Served (codes "credentials") json zero_metrics answered)
    ⊎ Refused (codes "credentials") 500 zero_metrics answered
unfolding default_options
agent_serves-Permitted_example =
    agent_serves-Permitted server transport compile false namespaces refl transport-carried web
      default_options client (world 0) [] refl credentials_request zero_metrics endpoint latest
      web_role latest-IsSegment web_role-some (ground arith) refl refl

web-Redirects : Redirects web.redirect
web-Redirects = record {
  fields = λ req target. location target;
  note = λ req target. [];
  redirect_writes = λ req target w fresh. refl;
}

abbrev http_server : HttpServer
http_server = record {
  addr = codes ":" ++ decimal 3100;
  handler = logging_handler (web.mux.serve_http (routes web default_options client endpoint));
}

access_log_shows_response_example :
    (url : Url) × (web.parse_url default_options.metadata_endpoint ≡ done url)
    × Logged
        (http_server.handler credentials_request start)
        (web.mux.serve_http (routes web default_options client url) credentials_request start)
unfolding default_options build_http_server has_prefix
access_log_shows_response_example =
    access_log_shows_response web web-Redirects (λ url req. tt) default_options client
      credentials_request zero_metrics refl http_server refl refl
