-- ===== src/Tests/Sts.antt =====
-- The theorems on pkg/aws/sts at concrete inputs.
use kiam.Base.{Bool, ◌<◌, ◌≡◌, refl, ◌↔◌, true, none, some}
use kiam.Base.Text.{Text, codes, has_prefix, split, join}
use kiam.Base.Outcome.{Outcome, ok, panic}
use kiam.Sts.Resolver.{resolve, base_arn}
use kiam.Sts.Resolver.Fields.{count}
use kiam.Sts.Resolver.Laws.{IsBase, resolve-panic_iff, resolve_idem}
use kiam.Sts.Resolver.Prefix.{base_arn-IsBase}
use kiam.Sts.Endpoint.{AwsConfig, EndpointResolver, ResolvedEndpoint}
use kiam.Tests.Fixtures.{resolver, web_role, web_resolved}

resolver-IsBase : IsBase resolver.prefix
unfolding base_arn split join
resolver-IsBase = base_arn-IsBase (codes "aws:iam::123:instance-profile/x") resolver.prefix refl

resolve-panic_iff_example :
    (resolve resolver (codes "arn:aws") ≡ panic)
    ↔ ((has_prefix (codes "arn:aws") (codes "arn:") ≡ true) × (count b':' (codes "arn:aws") < 5))
resolve-panic_iff_example = resolve-panic_iff resolver (codes "arn:aws")

resolve_idem_example : resolve resolver (codes "arn:aws:iam::123:role/web") ≡ ok web_resolved
unfolding resolve
resolve_idem_example = resolve_idem resolver web_role resolver-IsBase refl

abbrev lookup_host : Text → Bool
lookup_host host = true

abbrev default_endpoint : Text → Text → Outcome ResolvedEndpoint
default_endpoint svc region = ok (record { url = svc; signing_region = region })

abbrev london : Text
london = codes "eu-west-2"

abbrev london_endpoint : ResolvedEndpoint
london_endpoint = record {
  url = codes "https://sts.eu-west-2.amazonaws.com";
  signing_region = london;
}

abbrev london_config : AwsConfig Text
london_config = record {
  region = some london;
  endpoint_resolver = some (EndpointResolver.regional london_endpoint);
  credentials = none;
}
