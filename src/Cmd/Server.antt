-- ===== src/Cmd/Server.antt =====
-- Run of cmd/kiam/server.go up to Serve: the checks of the options, and the steps of the builder. A
-- log.Fatal is an error.
pub mod Laws
use kiam.Base.{ℕ, ◌*◌, Bool, true, false, not, ◌&&◌, if◌then◌else◌, ltb, ◌++◌, []}
use kiam.Base.Text.{Text, codes, text_eq}
use kiam.Base.Outcome.{Outcome, ok, err, panic, other, error_text, ◌>>=◌}
use kiam.Server.Builder.{
  Config, Outside, BuiltServer, new_kiam_server_builder, with_aws_sts_gateway,
  with_kubernetes_client, with_tls, build,
}

-- AWSMinSessionDuration
abbrev pub aws_min_session_duration : ℕ
aws_min_session_duration = 15 * 60 * 1000000000

-- log.Fatal on an error, with a text in front.
unfoldable pub or_fatal : {A : Type 0} → Text → Outcome A → Outcome A
or_fatal text (ok a) = ok a
or_fatal text (err e) = err (other (text ++ error_text e))
or_fatal text panic = panic

-- Run from the builder on.
build_server : (o : Outside) → Config → Outcome (BuiltServer o)
unfolding or_fatal
build_server o c = do
  with_sts ←
      or_fatal (codes "error using AWS STS Gateway: ")
        (with_aws_sts_gateway o (new_kiam_server_builder o c))
  with_client ←
      or_fatal (codes "error configuring Kubernetes client: ") (with_kubernetes_client o with_sts)
  with_certs ← or_fatal (codes "error configuring TLS: ") (with_tls o with_client)
  or_fatal (codes "error creating listener: ") (build o with_certs)

unfoldable pub run_server : (o : Outside) → Config → Outcome (BuiltServer o)
unfolding build_server
run_server o c =
    if not c.auto_detect_base_arn && text_eq c.role_base_arn []
    then err (
        other (
          codes
            "role-base-arn not specified and not auto-detected. please specify or use --role-base-arn-autodetect"))
    else if ltb c.session_duration aws_min_session_duration
    then err (other (codes "session-duration should be at least 15 minutes"))
    else build_server o c
