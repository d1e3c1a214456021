-- ===== src/Tests/EndToEnd.antt =====
-- The agent over the server over the credentials cache at a concrete input.
use kiam.Base.{◌≡◌, refl, false, ◌⊎◌, [], arith}
use kiam.Base.Text.{Text, codes, split, join, text_eq}
use kiam.Metadata.Http.{done, Exchange, zero_metrics, fresh_writer}
use kiam.Metadata.ClientIp.{build_client_ip, parse_client_ip}
use kiam.Metadata.Handlers.{client_ip}
use kiam.Sts.Cache.{run, default_cache}
use kiam.Metadata.Handlers.Laws.{Served, Refused}
use kiam.Metadata.Server.{default_options, Client, routes}
use kiam.Metadata.Server.Issued.{Attempt, asked_in, IssuedTo, agent_serves-IssuedTo}
use kiam.Tests.Items.{items}
use kiam.Tests.Issued.{meanwhile, cached_server, at_first, session-Free, arn-Free, last-NoBar}
use kiam.Tests.Agent.{
  endpoint, web, transport, transport-carried, latest, latest-IsSegment, web_role-some,
  credentials_request,
}
use kiam.Tests.Metadata.{encode}
use kiam.Tests.Fixtures.{web_role, web_ip, compile, namespaces}

at_first-reached : at_first.provider ≡ run items [] (default_cache items)
unfolding run
at_first-reached = refl

abbrev attempt : Attempt items cached_server transport web_ip web_role
attempt = record { at = at_first; before = []; reached = at_first-reached; clean = last-NoBar }

abbrev client : Client
client = record {
  get_role = λ ip. record { first = done web_role; more = [] };
  get_credentials = λ ip role. asked_in items cached_server transport web_ip web_role attempt [];
  health = record { first = done (codes "ok"); more = [] };
}

caller : client_ip false credentials_request ≡ done web_ip
unfolding client_ip build_client_ip parse_client_ip split join text_eq
caller = refl

abbrev answered : Exchange
answered =
    web.mux.serve_http (routes web default_options client endpoint) credentials_request
      (record { writer = fresh_writer; metrics = zero_metrics })

agent_serves-IssuedTo_example :
    ((json : Text) × IssuedTo items cached_server transport web_ip web_role compile false namespaces
        encode
        (codes "server")
        900
        json
      × Served (codes "credentials") json zero_metrics answered)
    ⊎ Refused (codes "credentials") 500 zero_metrics answered
unfolding default_options
agent_serves-IssuedTo_example =
    agent_serves-IssuedTo items cached_server transport web_ip web_role compile false namespaces
      refl meanwhile refl transport-carried session-Free arn-Free (codes "server") 900 web
      default_options client attempt [] refl credentials_request caller zero_metrics endpoint latest
      latest-IsSegment web_role-some (ground arith) refl refl
