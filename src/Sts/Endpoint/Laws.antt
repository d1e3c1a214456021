-- ===== src/Sts/Endpoint/Laws.antt =====
-- Where the requests to STS go.
use kiam.Base.{
  ◌++◌, ◌≡◌, refl, Bool, true, false, some, [], ◌≢◌, if◌then◌else◌, inl, inr, Bool-cases, sym, ◌∙◌,
}
use kiam.Base.Text.{Text, codes, text_eq, contains}
use kiam.Base.Text.Laws.{text_eq-nil}
use kiam.Base.Outcome.{Outcome, ok, err, no_endpoint, ok-injective}
use kiam.Sts.Endpoint.{
  AwsConfig, ResolvedEndpoint, EndpointResolver, hostname, new_regional_endpoint_resolver,
  endpoint_for, with_region,
}

abbrev regional_endpoint : Text → ResolvedEndpoint
regional_endpoint region = record {
  url = codes "https://" ++ hostname region;
  signing_region = region;
}

module _ {Creds : Type 0} (lookup_host : Text → Bool) (c : AwsConfig Creds) (region : Text) where
  -- Both answers of the lookup, for a region that is neither empty nor a FIPS one.
  with_region-eq :
      region ≢ []
      → contains region (codes "fips") ≡ false
      → with_region lookup_host c region ≡ (
          if lookup_host (hostname region)
          then ok (record c {
            region = some region;
            endpoint_resolver = some (EndpointResolver.regional (regional_endpoint region));
          })
          else err (no_endpoint (hostname region)))
  unfolding with_region new_regional_endpoint_resolver text_eq
  with_region-eq n f = elim (Bool-cases (lookup_host (hostname region))) [
    | inl there ↦ rw (text_eq-nil region n, f, there)
    | inr gone ↦ rw (text_eq-nil region n, f, gone)
  ]

module _ {Creds : Type 0} (lookup_host : Text → Bool)
    (default_endpoint : Text → Text → Outcome ResolvedEndpoint) where
  -- With a region that is neither empty nor a FIPS one, a configuration is made only if the host
  -- exists. It names the region, sends every request to STS to that host over https, signed for the
  -- region, and leaves the other services to the default resolver and the credentials as they were.
  with_region_endpoint :
      (c c' : AwsConfig Creds) (region : Text)
      → region ≢ []
      → contains region (codes "fips") ≡ false
      → with_region lookup_host c region ≡ ok c'
      → (lookup_host (hostname region) ≡ true)
        × (c'.region ≡ some region)
        × (c'.credentials ≡ c.credentials)
        × ((r : EndpointResolver) × (c'.endpoint_resolver ≡ some r)
            × ((svc asked : Text)
                → endpoint_for default_endpoint r svc asked ≡ (
                    if text_eq svc (codes "sts")
                    then ok (record {
                      url = codes "https://" ++ hostname region;
                      signing_region = region;
                    })
                    else default_endpoint svc asked)))
  unfolding with_region new_regional_endpoint_resolver endpoint_for
  with_region_endpoint c c' region n f h = elim (Bool-cases (lookup_host (hostname region))) [
    | inl there ↦
        let shape = ok-injective (rw there at (sym h ∙ with_region-eq lookup_host c region n f)) in
        rw shape (
          there,
          refl,
          refl,
          (EndpointResolver.regional (regional_endpoint region), refl, λ svc asked. refl),
        )
    | inr gone ↦ cc (rw gone at (sym h ∙ with_region-eq lookup_host c region n f))
  ]
