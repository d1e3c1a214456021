-- ===== src/Cmd/Server/Laws.antt =====
-- What a server has when it starts to serve.
use kiam.Base.{◌≤◌, ◌≡◌, ◌≢◌, sym, ap, ◌∙◌, not, ◌&&◌, some, [], ltb, Bool-cases, inl, inr, arith}
use kiam.Base.Text.{Text, codes, text_eq}
use kiam.Base.Outcome.{Outcome, ok, err, panic, ok-injective, >>=-eq-ok, ◌>>=◌}
use kiam.Sts.Resolver.{Resolver, ResolvedRole, resolve}
use kiam.Sts.Endpoint.{new_server_config_builder, with_region}
use kiam.Server.Policy.{assume_policy}
use kiam.Server.Builder.{
  must, Config, NewCredentialsCache, Outside, BuiltServer, KiamServerBuilder,
  new_kiam_server_builder, new_role_arn_resolver, with_aws_sts_gateway, with_kubernetes_client,
  with_tls, build,
}
use kiam.Cmd.Server.{aws_min_session_duration, or_fatal, build_server, run_server}

or_fatal-eq-ok :
    {A : Type 0} (text : Text) (m : Outcome A) {a : A} → or_fatal text m ≡ ok a → m ≡ ok a
unfolding or_fatal
or_fatal-eq-ok text (ok a) h = h
or_fatal-eq-ok text (err e) h = cc
or_fatal-eq-ok text panic h = cc

or_fatal-bind :
    {A B : Type 0} (text : Text) (m : Outcome A) (f : A → Outcome B) {b : B}
    → (or_fatal text m >>= f) ≡ ok b
    → (a : A) × (m ≡ ok a) × (f a ≡ ok b)
or_fatal-bind text m f h =
    let (a, e, rest) = >>=-eq-ok (or_fatal text m) f h in (a, or_fatal-eq-ok text m e, rest)

-- What DefaultCache is called with.
abbrev pub cache_of : Config → NewCredentialsCache
cache_of c = record {
  session_name = c.session_name;
  session_duration = c.session_duration;
  session_refresh = c.session_refresh;
}

module _ (o : Outside) where
  with_aws_sts_gateway-eq-ok :
      (b b' : KiamServerBuilder o)
      → with_aws_sts_gateway o b ≡ ok b'
      → (b'.config ≡ b.config)
        × (r : Resolver) × (role : ResolvedRole) × (new_role_arn_resolver o b.config ≡ ok r)
        × (resolve r b.config.assume_role_arn ≡ ok role)
  unfolding with_aws_sts_gateway
  with_aws_sts_gateway-eq-ok b b' h =
      let (cfg, _, h1) =
        >>=-eq-ok (with_region o.lookup_host new_server_config_builder b.config.region) _ h in
      let (r, er, h2) = >>=-eq-ok (new_role_arn_resolver o b.config) _ h1 in
      let (role, ea, h3) = >>=-eq-ok (resolve r b.config.assume_role_arn) _ h2 in
      let (session, _, h4) = >>=-eq-ok (must (o.new_session _)) _ h3 in
      (ap (λ (b : KiamServerBuilder o). b.config) (sym (ok-injective h4)), r, role, er, ea)

  with_kubernetes_client-eq-ok :
      (b b' : KiamServerBuilder o)
      → with_kubernetes_client o b ≡ ok b'
      → (b'.config ≡ b.config)
        × (r : Resolver) × (new_role_arn_resolver o b.config ≡ ok r)
        × (b'.pod_cache
            ≡ some (record {
              arn_resolver = r;
              sync_interval = b.config.pod_sync_interval;
              buffer_size = b.config.prefetch_buffer_size;
            }))
  unfolding with_kubernetes_client
  with_kubernetes_client-eq-ok b b' h =
      let (client, _, h1) = >>=-eq-ok o.new_client _ h in
      let (r, er, h2) = >>=-eq-ok (new_role_arn_resolver o b.config) _ h1 in
      let shape = sym (ok-injective h2) in
      (
        ap (λ (b : KiamServerBuilder o). b.config) shape,
        r,
        er,
        ap (λ (b : KiamServerBuilder o). b.pod_cache) shape,
      )

  with_tls-eq-ok :
      (b b' : KiamServerBuilder o)
      → with_tls o b ≡ ok b'
      → (b'.config ≡ b.config) × (b'.pod_cache ≡ b.pod_cache)
  unfolding with_tls
  with_tls-eq-ok b b' h =
      let (tls, _, h1) = >>=-eq-ok o.new_dynamic_tls_config _ h in
      let (creds, _, h2) = >>=-eq-ok o.new_server_creds _ h1 in
      let shape = sym (ok-injective h2) in
      (
        ap (λ (b : KiamServerBuilder o). b.config) shape,
        ap (λ (b : KiamServerBuilder o). b.pod_cache) shape,
      )

  build-eq-ok :
      (b : KiamServerBuilder o) (srv : BuiltServer o)
      → build o b ≡ ok srv
      → (new_role_arn_resolver o b.config ≡ ok srv.arn_resolver)
        × (srv.pods ≡ b.pod_cache)
        × (srv.policy
            ≡ assume_policy o.compile b.config.disable_strict_namespace_regexp o.find_namespace
                srv.arn_resolver)
        × (srv.credentials_provider ≡ cache_of b.config)
  unfolding build
  build-eq-ok b srv h =
      let (r, er, h1) = >>=-eq-ok (new_role_arn_resolver o b.config) _ h in
      let (listener, _, h2) = >>=-eq-ok (o.listen b.config.bind_address) _ h1 in
      elim (Bool-cases b.grpc_server) [
        | inl g ↦
            let shape = ok-injective (rw g at h2) in
            (
              er ∙ ap (λ (s : BuiltServer o). ok s.arn_resolver) shape,
              ap (λ (s : BuiltServer o). s.pods) (sym shape),
              ap (λ (s : BuiltServer o). s.policy) (sym shape)
                  ∙ ap
                      (λ (s : BuiltServer o).
                        assume_policy o.compile b.config.disable_strict_namespace_regexp
                          o.find_namespace s.arn_resolver)
                      shape,
              ap (λ (s : BuiltServer o). s.credentials_provider) (sym shape),
            )
        | inr g ↦ cc (rw g at h2)
      ]

  -- What the parts of a server that serves agree in.
  pub record Ready (c : Config) (srv : BuiltServer o) : Type 0 where
    pub resolver : new_role_arn_resolver o c ≡ ok srv.arn_resolver
    pub pods :
        srv.pods
        ≡ some (record {
          arn_resolver = srv.arn_resolver;
          sync_interval = c.pod_sync_interval;
          buffer_size = c.prefetch_buffer_size;
        })
    pub policy :
        srv.policy
        ≡ assume_policy o.compile c.disable_strict_namespace_regexp o.find_namespace
            srv.arn_resolver
    pub cache : srv.credentials_provider ≡ cache_of c
    pub assumed : ResolvedRole
    pub assume_role : resolve srv.arn_resolver c.assume_role_arn ≡ ok assumed

  build_server-Ready : (c : Config) (srv : BuiltServer o) → build_server o c ≡ ok srv → Ready c srv
  unfolding build_server new_kiam_server_builder
  build_server-Ready c srv h =
      let (b1, e1, h1) =
        or_fatal-bind (codes "error using AWS STS Gateway: ")
          (with_aws_sts_gateway o (new_kiam_server_builder o c)) _ h in
      let (b2, e2, h2) =
        or_fatal-bind (codes "error configuring Kubernetes client: ") (with_kubernetes_client o b1)
          _ h1 in
      let (b3, e3, h3) = or_fatal-bind (codes "error configuring TLS: ") (with_tls o b2) _ h2 in
      let (c1, r1, role, er1, ea) =
        with_aws_sts_gateway-eq-ok (new_kiam_server_builder o c) b1 e1 in
      let (c2, r2, er2, p2) = with_kubernetes_client-eq-ok b1 b2 e2 in
      let (c3, p3) = with_tls-eq-ok b2 b3 e3 in
      let (er, p, policy, cache) =
        build-eq-ok b3 srv (or_fatal-eq-ok (codes "error creating listener: ") (build o b3) h3) in
      let same : b3.config ≡ c = c3 ∙ c2 ∙ c1 in
      let resolver : new_role_arn_resolver o c ≡ ok srv.arn_resolver =
        ap (new_role_arn_resolver o) (sym same) ∙ er in
      let is1 : r1 ≡ srv.arn_resolver = ok-injective (sym er1 ∙ resolver) in
      let is2 : r2 ≡ srv.arn_resolver =
        ok-injective (sym er2 ∙ ap (new_role_arn_resolver o) c1 ∙ resolver) in
      record {
        resolver = resolver;
        pods =
            p
            ∙ p3
            ∙ p2
            ∙ ap
                (λ (d : Config). some (record {
                  arn_resolver = r2;
                  sync_interval = d.pod_sync_interval;
                  buffer_size = d.prefetch_buffer_size;
                }))
                c1
            ∙ ap
                (λ r. some (record {
                  arn_resolver = r;
                  sync_interval = c.pod_sync_interval;
                  buffer_size = c.prefetch_buffer_size;
                }))
                is2;
        policy =
            policy
            ∙ ap
                (λ (d : Config).
                  assume_policy o.compile d.disable_strict_namespace_regexp o.find_namespace
                    srv.arn_resolver)
                same;
        cache = cache ∙ ap cache_of same;
        assumed = role;
        assume_role = ap (λ r. resolve r c.assume_role_arn) (sym is1) ∙ ea;
      }

  -- A server that serves has a session duration of at least 15 minutes, and one resolver: that of the
  -- configuration, which resolved the role to assume, indexes the pods and is in both policies.
  pub run_server-Ready :
      (c : Config) (srv : BuiltServer o)
      → run_server o c ≡ ok srv
      → (aws_min_session_duration ≤ c.session_duration) × Ready c srv
  unfolding run_server
  run_server-Ready c srv h =
      elim (Bool-cases (not c.auto_detect_base_arn && text_eq c.role_base_arn [])) [
        | inl a ↦ cc (rw a at h)
        | inr a ↦ elim (Bool-cases (ltb c.session_duration aws_min_session_duration)) [
          | inl d ↦ cc (rw (a, d) at h)
          | inr d ↦ (ground arith, build_server-Ready c srv (rw (a, d) at h))
        ]
      ]

  -- Without a role to assume, which is the default of the option, no server is ever built.
  pub run_server_needs_assume_role :
      (c : Config) (srv : BuiltServer o) → c.assume_role_arn ≡ [] → run_server o c ≢ ok srv
  unfolding resolve
  run_server_needs_assume_role c srv e h =
      let ready = (run_server-Ready c srv h).1 in
      cc (ready.assume_role, ap (resolve srv.arn_resolver) e)
