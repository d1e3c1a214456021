-- ===== src/Sts/Endpoint.antt =====
-- pkg/aws/sts/aws_endpoint_resolver.go and kiam_configuration_builder.go. The DNS lookup, the SDK's
-- default resolver and its credentials are parameters.
pub mod Laws
use kiam.Base.{
  ◌++◌, ◌≡◌, refl, Bool, true, false, ◌||◌, Option, none, some, [], ◌∷◌, if◌then◌else◌, arith, inl,
  inr, Bool-cases, ◌⊎◌, ◌≢◌, List,
}
use kiam.Base.Text.{Text, codes, text_eq, has_prefix, contains}
use kiam.Base.Outcome.{Outcome, ok, err, no_endpoint, ◌>>=◌}

-- endpoints.ResolvedEndpoint, as far as it is set here.
pub record ResolvedEndpoint : Type 0 where
  pub url : Text
  pub signing_region : Text

-- endpoints.Resolver: the SDK's own, or the regional one in front of it.
pub data EndpointResolver : Type 0 where
  default_resolver : EndpointResolver
  regional : ResolvedEndpoint → EndpointResolver

-- The host of STS in a region, before the lookup: the last pattern that fits is taken.
unfoldable pub hostname : Text → Text
hostname region =
    let usual = codes "sts." ++ (region ++ codes ".amazonaws.com") in
    let chinese = if has_prefix region (codes "cn-") then usual ++ codes ".cn" else usual in
    if has_prefix region (codes "us-iso")
    then codes "sts." ++ (region ++ codes ".c2s.ic.gov")
    else chinese

module _ (lookup_host : Text → Bool) where
  -- regionalHostname
  regional_hostname : Text → Outcome Text
  regional_hostname region =
      if lookup_host (hostname region)
      then ok (hostname region)
      else err (no_endpoint (hostname region))

  -- newRegionalEndpointResolver
  unfoldable pub new_regional_endpoint_resolver : Text → Outcome EndpointResolver
  unfolding regional_hostname
  new_regional_endpoint_resolver region =
      if text_eq region [] || contains region (codes "fips") then ok default_resolver else do
        host ← regional_hostname region
        ok (regional (record { url = codes "https://" ++ host; signing_region = region }))

module _ (default_endpoint : Text → Text → Outcome ResolvedEndpoint) where
  -- EndpointFor; the first argument stands for endpoints.DefaultResolver().EndpointFor.
  pub endpoint_for : EndpointResolver → Text → Text → Outcome ResolvedEndpoint
  endpoint_for default_resolver svc region = default_endpoint svc region
  endpoint_for (regional e) svc region =
      if text_eq svc (codes "sts") then ok e else default_endpoint svc region

-- aws.Config, as far as the builder sets it: `none` is a field that was not set.
pub record AwsConfig (Creds : Type 0) : Type 0 where
  pub region : Option Text
  pub endpoint_resolver : Option EndpointResolver
  pub credentials : Option Creds

module _ {Creds : Type 0} where
  -- NewServerConfigBuilder
  unfoldable pub new_server_config_builder : AwsConfig Creds
  new_server_config_builder = record { region = none; endpoint_resolver = none; credentials = none }

  unfoldable pub with_region : (Text → Bool) → AwsConfig Creds → Text → Outcome (AwsConfig Creds)
  with_region lookup_host c region = if text_eq region [] then ok c else do
    resolver ← new_regional_endpoint_resolver lookup_host region
    ok (record c { region = some region; endpoint_resolver = some resolver })

  -- The provider makes its credentials from the configuration that is there.
  unfoldable pub with_credentials_from_assumed_role :
      (AwsConfig Creds → Text → Creds) → AwsConfig Creds → Text → AwsConfig Creds
  with_credentials_from_assumed_role new_credentials c arn =
      if text_eq arn [] then c else record c { credentials = some (new_credentials c arn) }
