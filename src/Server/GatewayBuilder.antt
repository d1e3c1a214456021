-- ===== src/Server/GatewayBuilder.antt =====
-- pkg/server/gateway_builder.go. The certificates, net.SplitHostPort, gRPC's credentials and the
-- dialing are parameters.
use mathlib.Core.Path.{subst}
use kiam.Base.{sym, ℕ, ◌≡◌, ◌≢◌, refl, ◌⊎◌, inl, inr, ◌++◌, Option, none, some, List, [], ◌∷◌}
use kiam.Base.Text.{Text, codes}
use kiam.Base.Outcome.{Error, Outcome, ok, err, panic, other, error_text, Outcome-cases}

-- The watcher of a dynamicTLSConfig.
pub data Watcher : Type 0 where
  not_started running closed : Watcher

-- grpc.DialOption; keepalive parameters and options of the caller's own stand as numbers, since they
-- are only passed on.
pub data DialOption : Type 0 where
  keepalive_params : ℕ → DialOption
  transport_credentials : Option Text → DialOption
  -- retries at most so often, after waits of a fixed time
  unary_retry : ℕ → ℕ → DialOption
  round_robin disable_service_config block stream_interceptor : DialOption
  custom : ℕ → DialOption

-- KiamGatewayBuilder; times are in nanoseconds, and the transport's credentials are the name that the
-- server's certificate has to have.
pub record KiamGatewayBuilder : Type 0 where
  pub address : Text
  pub transport_creds : Option Text
  pub keepalive : ℕ
  pub tls_config : Watcher
  pub dial_options : List DialOption
  pub retry_interval : ℕ
  pub max_retries : ℕ

abbrev default_retry_interval : ℕ
default_retry_interval = 10000000

unfoldable pub new_kiam_gateway_builder : KiamGatewayBuilder
new_kiam_gateway_builder = record {
  address = [];
  transport_creds = none;
  keepalive = 0;
  tls_config = Watcher.not_started;
  dial_options = [];
  retry_interval = default_retry_interval;
  max_retries = 0;
}

unfoldable pub with_address : Text → KiamGatewayBuilder → KiamGatewayBuilder
with_address address b = record b { address = address }

unfoldable pub with_retry_interval : ℕ → KiamGatewayBuilder → KiamGatewayBuilder
with_retry_interval dur b = record b { retry_interval = dur }

unfoldable pub with_max_retries : ℕ → KiamGatewayBuilder → KiamGatewayBuilder
with_max_retries n b = record b { max_retries = n }

unfoldable pub with_keep_alive : ℕ → KiamGatewayBuilder → KiamGatewayBuilder
with_keep_alive parameters b = record b { keepalive = parameters }

unfoldable pub with_dial_option : List DialOption → KiamGatewayBuilder → KiamGatewayBuilder
with_dial_option opts b = record b { dial_options = opts }

-- What the deferred function does on an error.
close_tls : Text → KiamGatewayBuilder → Outcome (Unit {0}) × KiamGatewayBuilder
close_tls text b = (err (other text), record b { tls_config = Watcher.closed })

module _ (split_host_port : Text → Outcome Text)
    (new_client_creds : Text → Outcome (Unit {0})) where
  -- WithTLS once the host's name is there.
  with_creds : Text → KiamGatewayBuilder → Outcome (Unit {0}) × KiamGatewayBuilder
  unfolding close_tls
  with_creds host_name b = elim (new_client_creds host_name) [
    | ok creds ↦ (ok tt, record b { transport_creds = some host_name })
    | err e ↦ close_tls (codes "error creating grpc credentials: " ++ error_text e) b
    | panic ↦ (panic, b)
  ]

  with_host : KiamGatewayBuilder → Outcome (Unit {0}) × KiamGatewayBuilder
  unfolding close_tls with_creds
  with_host b = elim (split_host_port b.address) [
    | ok host_name ↦ with_creds host_name b
    | err e ↦ close_tls (codes "error parsing hostname: " ++ error_text e) b
    | panic ↦ (panic, b)
  ]

  -- WithTLS; the argument is what newDynamicTLSConfig returned.
  pub gateway_with_tls :
      Outcome (Unit {0}) → KiamGatewayBuilder → Outcome (Unit {0}) × KiamGatewayBuilder
  unfolding with_host
  gateway_with_tls (ok config) b = with_host (record b { tls_config = Watcher.running })
  gateway_with_tls (err e) b =
      (err (other (codes "error reading tls certificates: " ++ error_text e)), b)
  gateway_with_tls panic b = (panic, b)

-- The options that Build dials with.
dial_opts : KiamGatewayBuilder → List DialOption
dial_opts b =
    (DialOption.keepalive_params b.keepalive
      ∷ DialOption.transport_credentials b.transport_creds
      ∷ DialOption.unary_retry b.max_retries b.retry_interval
      ∷ DialOption.round_robin
      ∷ DialOption.disable_service_config
      ∷ DialOption.block
      ∷ DialOption.stream_interceptor
      ∷ [])
    ++ b.dial_options

-- Build; the connection is what the gateway has.
unfoldable pub build_gateway :
    {Conn : Type 0} → (Text → List DialOption → Outcome Conn) → KiamGatewayBuilder → Outcome Conn
unfolding dial_opts
build_gateway dial b = elim (dial (codes "dns:///" ++ b.address) (dial_opts b)) [
  | ok conn ↦ ok conn
  | err e ↦ err (other (codes "error dialing grpc server: " ++ error_text e))
  | panic ↦ panic
]

module _ (split_host_port : Text → Outcome Text)
    (new_client_creds : Text → Outcome (Unit {0})) where
  -- Success: the builder has its transport's credentials, for the host of its address, with a watcher
  -- that runs. An error: the credentials are as they were, and no watcher runs. Or something panicked.
  abbrev pub Settled : KiamGatewayBuilder → Outcome (Unit {0}) × KiamGatewayBuilder → Type 0
  Settled b result =
      ((host_name : Text) × (result.0 ≡ ok tt)
        × (split_host_port b.address ≡ ok host_name)
        × (result.1.transport_creds ≡ some host_name)
        × (result.1.tls_config ≡ Watcher.running))
      ⊎ (((e : Error) × (result.0 ≡ err e)
            × (result.1.transport_creds ≡ b.transport_creds)
            × (result.1.tls_config ≢ Watcher.running))
          ⊎ (result.0 ≡ panic))

  with_creds-Settled :
      (host_name : Text) (b : KiamGatewayBuilder)
      → split_host_port b.address ≡ ok host_name
      → b.tls_config ≡ Watcher.running
      → Settled b (with_creds split_host_port new_client_creds host_name b)
  unfolding with_creds close_tls
  with_creds-Settled host_name b h w = elim (Outcome-cases (new_client_creds host_name)) [
    | inl (c, e) ↦ rw (e, with_creds) (inl (host_name, refl, h, refl, w))
    | inr (inl (x, e)) ↦ rw (e, with_creds) (inr (inl (_, refl, refl, λ n. cc)))
    | inr (inr e) ↦ rw (e, with_creds) (inr (inr refl))
  ]

  with_host-eq :
      (host_name : Text) (b : KiamGatewayBuilder)
      → split_host_port b.address ≡ ok host_name
      → with_host split_host_port new_client_creds b
        ≡ with_creds split_host_port new_client_creds host_name b
  unfolding with_host
  with_host-eq host_name b e = rw (e, with_host)

  -- WithTLS of a new builder succeeds, returns an error, or something panics. If it succeeds, the
  -- certificate of the server is checked for the host of the address, and a watcher runs; on an error
  -- no watcher is left behind that runs, and the transport's credentials are as they were.
  pub gateway_with_tls-Settled :
      (config : Outcome (Unit {0})) (b : KiamGatewayBuilder)
      → b.tls_config ≡ Watcher.not_started
      → Settled b (gateway_with_tls split_host_port new_client_creds config b)
  unfolding gateway_with_tls with_host close_tls
  gateway_with_tls-Settled (err e) b n = inr (inl (_, refl, refl, λ r. cc))
  gateway_with_tls-Settled panic b n = inr (inr refl)
  gateway_with_tls-Settled (ok c) b n = elim (Outcome-cases (split_host_port b.address)) [
    | inl (host_name, e) ↦
        let on = record b { tls_config = Watcher.running } in
        subst (Settled b) (sym (with_host-eq host_name on e))
          (with_creds-Settled host_name on e refl)
    | inr (inl (x, e)) ↦ rw (e, with_host) (inr (inl (_, refl, refl, λ r. cc)))
    | inr (inr e) ↦ rw (e, with_host) (inr (inr refl))
  ]
