-- ===== src/Cmd/Options.antt =====
-- The flags of cmd/kiam: opts.go, and Bind of server.go, agent.go and health.go. What kingpin reads
-- from the command line and the environment for a flag is a parameter, `none` where the flag is not
-- given. Durations are in nanoseconds.
pub mod Laws
pub mod Agent
use kiam.Base.{ℕ, ◌*◌, ◌++◌, Bool, true, false, Option, none, some, List, [], ◌∷◌, if◌then◌else◌}
use kiam.Base.Text.{Text, codes, text_eq}
use kiam.Base.Outcome.{Outcome, ok, err, other, ◌>>=◌}
use kiam.Server.Builder.{Config}
use kiam.Metadata.Proxy.{Regexp}
use kiam.Metadata.Server.{ServerOptions, default_options}
use kiam.Cmd.Agent.{AgentCommand}

pub record Arguments : Type 0 where
  pub text : Text → Option Text
  pub number : Text → Option ℕ
  pub duration : Text → Option ℕ
  pub switch : Text → Option Bool
  pub regexp : Text → Option Regexp

-- Default
unfoldable pub or_default : {A : Type 0} → A → Option A → A
or_default default none = default
or_default default (some a) = a

-- Required
unfoldable pub required : {A : Type 0} → Text → Option A → Outcome A
required name none = err (other (codes "required flag --" ++ (name ++ codes " not provided")))
required name (some a) = ok a

abbrev pub second : ℕ
second = 1000000000

pub data Level : Type 0 where
  debug_level info_level warn_level error_level : Level

pub record LogOptions : Type 0 where
  pub json_log : Bool
  pub log_level : Text

abbrev levels : List Text
levels = codes "debug" ∷ codes "info" ∷ codes "warn" ∷ codes "error" ∷ []

unfoldable pub one_of : Text → List Text → Bool
one_of s [] = false
one_of s (x ∷ rest) = if text_eq s x then true else one_of s rest

-- EnumVar
enum_var : Text → List Text → Outcome Text
unfolding one_of
enum_var s options =
    if one_of s options then ok s else err (other (codes "enum value must be one of the options"))

-- logOptions.bind
unfoldable pub log_options : Arguments → Outcome LogOptions
unfolding or_default enum_var
log_options a = do
  level ← enum_var (or_default (codes "info") (a.text (codes "level"))) levels
  ok (record { json_log = or_default false (a.switch (codes "json-log")); log_level = level })

-- The standard logger of logrus.
pub record Logger : Type 0 where
  pub json : Bool
  pub level : Level

-- The switch of configureLogger.
unfoldable pub level_of : Text → Level → Level
level_of s before =
    if text_eq s (codes "debug")
    then debug_level
    else if text_eq s (codes "info")
    then info_level
    else if text_eq s (codes "warn")
    then warn_level
    else if text_eq s (codes "error")
    then error_level
    else before

unfoldable pub configure_logger : LogOptions → Logger → Logger
unfolding level_of
configure_logger o logger = record {
  json = if o.json_log then true else logger.json;
  level = level_of o.log_level logger.level;
}

pub record TelemetryOptions : Type 0 where
  pub prometheus_listen : Text
  pub prometheus_sync : ℕ
  pub pprof_listen : Text

-- telemetryOptions.bind
unfoldable pub telemetry_options : Arguments → TelemetryOptions
unfolding or_default
telemetry_options a = record {
  prometheus_listen = or_default [] (a.text (codes "prometheus-listen-addr"));
  prometheus_sync = or_default (5 * second) (a.duration (codes "prometheus-sync-interval"));
  pprof_listen = or_default [] (a.text (codes "pprof-listen-addr"));
}

-- A server that is started, with its address.
pub data Telemetry : Type 0 where
  prometheus_server pprof_server : Text → Telemetry

-- telemetryOptions.start
unfoldable pub start_telemetry : TelemetryOptions → List Telemetry
start_telemetry o =
    (if text_eq o.prometheus_listen [] then [] else prometheus_server o.prometheus_listen ∷ [])
    ++ (if text_eq o.pprof_listen [] then [] else pprof_server o.pprof_listen ∷ [])

pub record TlsOptions : Type 0 where
  pub certificate_path : Text
  pub key_path : Text
  pub ca_path : Text

-- tlsOptions.bind
unfoldable pub tls_options : Arguments → Outcome TlsOptions
unfolding required
tls_options a = do
  cert ← required (codes "cert") (a.text (codes "cert"))
  key ← required (codes "key") (a.text (codes "key"))
  ca ← required (codes "ca") (a.text (codes "ca"))
  ok (record { certificate_path = cert; key_path = key; ca_path = ca })

pub record ClientOptions : Type 0 where
  pub server_address : Text
  pub server_address_refresh : ℕ
  pub timeout_kiam_gateway : ℕ
  pub keepalive_time : ℕ
  pub keepalive_timeout : ℕ
  pub permit_without_stream : Bool

-- clientOptions.bind
unfoldable pub client_options : Arguments → ClientOptions
unfolding or_default
client_options a = record {
  server_address = or_default (codes "localhost:9610") (a.text (codes "server-address"));
  server_address_refresh = or_default 0 (a.duration (codes "server-address-refresh"));
  timeout_kiam_gateway = or_default second (a.duration (codes "gateway-timeout-creation"));
  keepalive_time = or_default (10 * second) (a.duration (codes "grpc-keepalive-time-duration"));
  keepalive_timeout =
      or_default (2 * second) (a.duration (codes "grpc-keepalive-timeout-duration"));
  permit_without_stream =
      or_default false (a.switch (codes "grpc-keepalive-permit-without-stream"));
}

-- serverOptions.bind, for the fields of Config that the model has.
unfoldable pub server_options : Arguments → Config
unfolding or_default
server_options a = record {
  bind_address = or_default (codes "localhost:9610") (a.text (codes "bind"));
  pod_sync_interval = or_default (60 * second) (a.duration (codes "sync"));
  session_name = or_default (codes "kiam") (a.text (codes "session"));
  session_duration = or_default (15 * 60 * second) (a.duration (codes "session-duration"));
  session_refresh = or_default (5 * 60 * second) (a.duration (codes "session-refresh"));
  role_base_arn = or_default [] (a.text (codes "role-base-arn"));
  auto_detect_base_arn = or_default false (a.switch (codes "role-base-arn-autodetect"));
  disable_strict_namespace_regexp =
      or_default false (a.switch (codes "disable-strict-namespace-regexp"));
  parallel_fetcher_processes = or_default 8 (a.number (codes "fetchers"));
  prefetch_buffer_size = or_default 1000 (a.number (codes "prefetch-buffer-size"));
  assume_role_arn = or_default [] (a.text (codes "assume-role-arn"));
  region = or_default [] (a.text (codes "region"));
}

pub record AgentOptions : Type 0 where
  pub command : AgentCommand
  pub server_options : ServerOptions
  pub host_ip : Text
  pub host_interface : Text

-- agentCommand.Bind, without the options that it shares with the other commands.
unfoldable pub agent_options : Arguments → Outcome AgentOptions
unfolding or_default required default_options
agent_options a = do
  host ← required (codes "host") (a.text (codes "host"))
  ok (record {
    command = record {
      iptables = or_default false (a.switch (codes "iptables"));
      iptables_remove = or_default true (a.switch (codes "iptables-remove"));
    };
    server_options = record default_options {
      listen_port = or_default 3100 (a.number (codes "port"));
      allow_ip_query = or_default false (a.switch (codes "allow-ip-query"));
      allow_route_regexp =
          or_default default_options.allow_route_regexp (a.regexp (codes "allow-route-regexp"));
    };
    host_ip = host;
    host_interface = or_default (codes "docker0") (a.text (codes "host-interface"));
  })

-- The timeout of healthCommand.Bind.
unfoldable pub health_timeout : Arguments → ℕ
unfolding or_default
health_timeout a = or_default second (a.duration (codes "timeout"))

-- The commands of main.
pub data Command : Type 0 where
  agent server health : Command

-- The switch of main on what Parse returns.
unfoldable pub command_of : Text → Option Command
command_of s =
    if text_eq s (codes "agent")
    then some agent
    else if text_eq s (codes "server")
    then some server
    else if text_eq s (codes "health")
    then some health
    else none
