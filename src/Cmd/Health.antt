-- ===== src/Cmd/Health.antt =====
-- Run of cmd/kiam/health.go: the gateway is built, and the server is asked until it answers. A
-- log.Fatal is an error.
use kiam.Base.{◌++◌}
use kiam.Base.Text.{Text, codes}
use kiam.Base.Outcome.{Outcome, ok, err, other, error_text, ◌>>=◌}
use kiam.Metadata.Http.{Try, done, fail}
use kiam.Metadata.Retry.{Backoff, Answers, find_server_health}
use kiam.Cmd.Server.{or_fatal}

-- What Retry leaves: the message is logged.
healthy : Try Text → Outcome Text
healthy (done message) = ok message
healthy (fail e) = err (other (codes "error retrieving health: " ++ error_text e))

-- The first arguments are what WithTLS and Build return.
unfoldable pub run_health :
    Backoff → Outcome (Unit {0}) → Outcome (Unit {0}) → Answers Text → Outcome Text
unfolding healthy or_fatal find_server_health
run_health b with_tls build answers = do
  builder ← or_fatal (codes "error creating server gateway: ") with_tls
  gateway ← or_fatal (codes "error creating server gateway: ") build
  healthy (find_server_health b answers)
