-- ===== src/Tests/Cmd.antt =====
-- The theorems on the commands, the builders and the STS gateway at concrete inputs.
use kiam.Base.{◌+◌, ◌*◌, ◌≤◌, ◌<◌, ◌++◌, ◌≡◌, ◌≢◌, refl, true, false, none, some, [], if◌then◌else◌}
use kiam.Base.Lists.{length}
use kiam.Base.Text.{Text, codes, text_eq}
use kiam.Base.Outcome.{Outcome, ok, err, other}
use kiam.Sts.Cache.{issue_request}
use kiam.Sts.Gateway.{assume_role_input, assume_role_input-IsValid}
use kiam.Sts.Session.Laws.{IsValid}
use kiam.Server.Policy.{assume_policy}
use kiam.Server.Builder.{Config, Outside, BuiltServer}
use kiam.Server.GatewayBuilder.{
  KiamGatewayBuilder, Watcher, gateway_with_tls, Settled, gateway_with_tls-Settled,
}
use kiam.Cmd.Server.{aws_min_session_duration, run_server}
use kiam.Cmd.Server.Laws.{Ready, run_server-Ready, run_server_needs_assume_role}
use kiam.Cmd.Options.{Arguments, or_default, server_options, second}
use kiam.Cmd.Options.Laws.{Expires, default_refresh-Expires}
use kiam.Cmd.Agent.{AgentCommand, Setup, Ended, count_rules, run_agent, run_agent_removes_rule}
use kiam.Tests.Fixtures.{resolver, web_identity, compile, namespaces}

assume_role_input-IsValid_example :
    let asked = assume_role_input (issue_request (codes "server") 900000000000 web_identity) in
    (asked.role_arn ≡ web_identity.role.arn)
    × (asked.external_id
        ≡ (if text_eq web_identity.external_id [] then none else some web_identity.external_id))
    × (asked.duration_seconds * 1000000000 ≤ 900000000000)
    × (900000000000 < (asked.duration_seconds + 1) * 1000000000)
    × IsValid asked.role_session_name
    × (2 ≤ length asked.role_session_name)
    × (length asked.role_session_name ≤ 64)
    × ((t : Text) × (asked.role_session_name ≡ codes "kiam-" ++ t))
assume_role_input-IsValid_example =
    assume_role_input-IsValid (codes "server") 900000000000 web_identity

-- Everything outside succeeds.
abbrev outside : Outside
outside = record {
  Creds = Text;
  instance_profile_arn = ok (codes "arn:aws:iam::123:instance-profile/x");
  lookup_host = λ host. true;
  new_credentials = λ cfg arn. arn;
  new_session = λ cfg. ok tt;
  new_client = ok tt;
  new_dynamic_tls_config = ok tt;
  new_server_creds = ok tt;
  listen = λ address. ok tt;
  compile = compile;
  find_namespace = namespaces;
}

abbrev config : Config
config = record {
  bind_address = codes "localhost:9610";
  pod_sync_interval = 60000000000;
  session_name = codes "kiam";
  session_duration = aws_min_session_duration;
  session_refresh = 300000000000;
  role_base_arn = codes "arn:aws:iam::123:role/";
  auto_detect_base_arn = false;
  disable_strict_namespace_regexp = false;
  parallel_fetcher_processes = 8;
  prefetch_buffer_size = 1000;
  assume_role_arn = codes "kiam-server";
  region = [];
}

abbrev serving : BuiltServer outside
serving = record {
  sts_gateway = some (record {
    region = none;
    endpoint_resolver = none;
    credentials = some (codes "arn:aws:iam::123:role/kiam-server");
  });
  pods = some (record { arn_resolver = resolver; sync_interval = 60000000000; buffer_size = 1000 });
  has_event_recorder = true;
  credentials_provider = record {
    session_name = codes "kiam";
    session_duration = aws_min_session_duration;
    session_refresh = 300000000000;
  };
  policy = assume_policy compile false namespaces resolver;
  parallel_fetchers = 8;
  arn_resolver = resolver;
}

run_server-Ready_example :
    (aws_min_session_duration ≤ config.session_duration) × Ready outside config serving
unfolding run_server text_eq kiam.Server.Builder.with_aws_sts_gateway kiam.Sts.Endpoint.with_region
    kiam.Server.Builder.new_kiam_server_builder kiam.Sts.Resolver.resolve
    kiam.Server.Builder.with_kubernetes_client kiam.Server.Builder.with_tls
    kiam.Server.Builder.build kiam.Sts.Endpoint.with_credentials_from_assumed_role
    kiam.Sts.Resolver.default_resolver kiam.Sts.Endpoint.new_server_config_builder
run_server-Ready_example = run_server-Ready outside config serving refl

-- Two flags are given.
abbrev arguments : Arguments
arguments = record {
  text = λ name.
      if text_eq name (codes "role-base-arn")
      then some config.role_base_arn
      else if text_eq name (codes "assume-role-arn")
      then some config.assume_role_arn
      else none;
  number = λ name. none;
  duration = λ name. none;
  switch = λ name. none;
  regexp = λ name. none;
}

default_refresh-Expires_example : Expires serving.credentials_provider (5 * 60 * second)
unfolding server_options or_default run_server text_eq kiam.Server.Builder.with_aws_sts_gateway
    kiam.Sts.Endpoint.with_region kiam.Server.Builder.new_kiam_server_builder
    kiam.Sts.Resolver.resolve kiam.Server.Builder.with_kubernetes_client
    kiam.Server.Builder.with_tls kiam.Server.Builder.build
    kiam.Sts.Endpoint.with_credentials_from_assumed_role kiam.Sts.Resolver.default_resolver
    kiam.Sts.Endpoint.new_server_config_builder
default_refresh-Expires_example = default_refresh-Expires outside arguments serving refl refl

-- The default of the option.
abbrev no_role : Config
no_role = record config { assume_role_arn = [] }

run_server_needs_assume_role_example : run_server outside no_role ≢ ok serving
run_server_needs_assume_role_example = run_server_needs_assume_role outside no_role serving refl

-- A text is its own host.
abbrev split_host_port : Text → Outcome Text
split_host_port address = ok address

abbrev new_client_creds : Text → Outcome (Unit {0})
new_client_creds name = err (other (codes "no credentials"))

abbrev builder : KiamGatewayBuilder
builder = record {
  address = codes "kiam-server";
  transport_creds = none;
  keepalive = 0;
  tls_config = Watcher.not_started;
  dial_options = [];
  retry_interval = 10000000;
  max_retries = 0;
}

gateway_with_tls-Settled_example :
    Settled split_host_port new_client_creds builder
      (gateway_with_tls split_host_port new_client_creds (ok tt) builder)
gateway_with_tls-Settled_example =
    gateway_with_tls-Settled split_host_port new_client_creds (ok tt) builder refl

abbrev agent : AgentCommand
agent = record { iptables = true; iptables_remove = true }

-- The gateway cannot be built.
abbrev setup : Setup
setup = record {
  add = none;
  with_tls = none;
  build = some (other (codes "deadline"));
  new_web_server = none;
  ended = Ended.serve_returned none;
}

run_agent_removes_rule_example : count_rules (run_agent agent setup).1 ≡ (true, true)
run_agent_removes_rule_example = run_agent_removes_rule agent setup
