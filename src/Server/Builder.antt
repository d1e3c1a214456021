-- ===== src/Server/Builder.antt =====
-- pkg/server/server_builder.go. What other code answers is a parameter (Outside): the EC2 metadata
-- service, the DNS, the Kubernetes client, the certificates, gRPC and the listener. The EC2 metadata
-- service is asked up to three times for the ARN of the role, and answers alike each time.
use kiam.Base.{ℕ, Bool, true, false, Option, none, some, if◌then◌else◌, ◌++◌}
use kiam.Base.Text.{Text, codes}
use kiam.Base.Outcome.{Outcome, ok, err, panic, other, error_text, ◌>>=◌}
use kiam.Sts.Resolver.{Resolver, default_resolver, detect_arn_prefix, resolve}
use kiam.Sts.Endpoint.{
  AwsConfig, new_server_config_builder, with_region, with_credentials_from_assumed_role,
}
use kiam.K8s.NamespaceCache.{Namespace}
use kiam.Server.Policy.{RegexpCompile, AssumeRolePolicy, assume_policy}

-- The fields of Config that decide something; times are in nanoseconds.
pub record Config : Type 0 where
  pub bind_address : Text
  pub pod_sync_interval : ℕ
  pub session_name : Text
  pub session_duration : ℕ
  pub session_refresh : ℕ
  pub role_base_arn : Text
  pub auto_detect_base_arn : Bool
  pub disable_strict_namespace_regexp : Bool
  pub parallel_fetcher_processes : ℕ
  pub prefetch_buffer_size : ℕ
  pub assume_role_arn : Text
  pub region : Text

pub record Outside : Type 1 where
  pub Creds : Type 0
  pub instance_profile_arn : Outcome Text
  pub lookup_host : Text → Bool
  pub new_credentials : AwsConfig Creds → Text → Creds
  pub new_session : AwsConfig Creds → Outcome (Unit {0})
  pub new_client : Outcome (Unit {0})
  pub new_dynamic_tls_config : Outcome (Unit {0})
  pub new_server_creds : Outcome (Unit {0})
  pub listen : Text → Outcome (Unit {0})
  pub compile : RegexpCompile
  pub find_namespace : Text → Outcome (Option Namespace)

-- NewPodCache: the resolver of its index, and the times and sizes that it is made with.
pub record NewPodCache : Type 0 where
  pub arn_resolver : Resolver
  pub sync_interval : ℕ
  pub buffer_size : ℕ

-- DefaultCache
pub record NewCredentialsCache : Type 0 where
  pub session_name : Text
  pub session_duration : ℕ
  pub session_refresh : ℕ

-- session.Must
pub must : {A : Type 0} → Outcome A → Outcome A
must (ok a) = ok a
must (err e) = panic
must panic = panic

module _ (o : Outside) where
  -- KiamServerBuilder; the three flags are of fields that are set or nil.
  pub record KiamServerBuilder : Type 0 where
    pub config : Config
    pub sts_gateway : Option (AwsConfig o.Creds)
    pub pod_cache : Option NewPodCache
    pub namespace_cache : Bool
    pub event_recorder : Bool
    pub tls_config : Bool
    pub grpc_server : Bool

  -- KiamServer as Build makes it.
  pub record BuiltServer : Type 0 where
    pub sts_gateway : Option (AwsConfig o.Creds)
    pub pods : Option NewPodCache
    pub has_event_recorder : Bool
    pub credentials_provider : NewCredentialsCache
    pub policy : AssumeRolePolicy
    pub parallel_fetchers : ℕ
    pub arn_resolver : Resolver

  unfoldable pub new_kiam_server_builder : Config → KiamServerBuilder
  new_kiam_server_builder c = record {
    config = c;
    sts_gateway = none;
    pod_cache = none;
    namespace_cache = false;
    event_recorder = false;
    tls_config = false;
    grpc_server = false;
  }

  pub detected : Outcome Text → Outcome Resolver
  detected (ok prefix) = ok (default_resolver prefix)
  detected (err e) = err (other (codes "error detecting arn prefix: " ++ error_text e))
  detected panic = panic

  pub new_role_arn_resolver : Config → Outcome Resolver
  unfolding detected
  new_role_arn_resolver c =
      if c.auto_detect_base_arn
      then detected (detect_arn_prefix o.instance_profile_arn)
      else ok (default_resolver c.role_base_arn)

  -- WithAWSSTSGateway and WithSTSGateway
  unfoldable pub with_aws_sts_gateway : KiamServerBuilder → Outcome KiamServerBuilder
  unfolding new_role_arn_resolver must
  with_aws_sts_gateway b = do
    cfg ← with_region o.lookup_host new_server_config_builder b.config.region
    arn_resolver ← new_role_arn_resolver b.config
    assume_role ← resolve arn_resolver b.config.assume_role_arn
    let with_credentials = with_credentials_from_assumed_role o.new_credentials cfg assume_role.arn
    session ← must (o.new_session with_credentials)
    ok (record b { sts_gateway = some with_credentials })

  -- WithKubernetesClient and WithCaches
  unfoldable pub with_kubernetes_client : KiamServerBuilder → Outcome KiamServerBuilder
  unfolding new_role_arn_resolver
  with_kubernetes_client b = do
    client ← o.new_client
    resolver ← new_role_arn_resolver b.config
    ok (record b {
      pod_cache = some (record {
        arn_resolver = resolver;
        sync_interval = b.config.pod_sync_interval;
        buffer_size = b.config.prefetch_buffer_size;
      });
      namespace_cache = true;
      event_recorder = true;
    })

  unfoldable pub with_tls : KiamServerBuilder → Outcome KiamServerBuilder
  with_tls b = do
    tls ← o.new_dynamic_tls_config
    creds ← o.new_server_creds
    ok (record b { tls_config = true; grpc_server = true })

  -- Build; the registration reads the gRPC server, which panics if it is nil.
  unfoldable pub build : KiamServerBuilder → Outcome BuiltServer
  unfolding new_role_arn_resolver
  build b = do
    resolver ← new_role_arn_resolver b.config
    listener ← o.listen b.config.bind_address
    if b.grpc_server
        then ok (record {
          sts_gateway = b.sts_gateway;
          pods = b.pod_cache;
          has_event_recorder = b.event_recorder;
          credentials_provider = record {
            session_name = b.config.session_name;
            session_duration = b.config.session_duration;
            session_refresh = b.config.session_refresh;
          };
          policy =
              assume_policy o.compile b.config.disable_strict_namespace_regexp o.find_namespace
                resolver;
          parallel_fetchers = b.config.parallel_fetcher_processes;
          arn_resolver = resolver;
        })
        else panic
