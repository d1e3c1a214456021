-- ===== src/Metadata/Handlers.antt =====
-- pkg/aws/metadata/handlers.go, handler_credentials.go, handler_role_name.go and handler_health.go.
-- The encoder of JSON, the requests to the EC2 metadata service and the server's answers are
-- parameters. The encoder fails before it writes anything, or its text is written.
pub mod Laws
pub mod Role
pub mod Logged
use kiam.Base.{
  ℕ, zero, suc, ◌+◌, Bool, true, false, ◌++◌, Option, none, some, List, [], ◌∷◌, if◌then◌else◌,
}
use kiam.Base.Text.{Text, codes, text_eq}
use kiam.Base.Outcome.{Error, error_text}
use kiam.Sts.Credentials.{Credentials}
use kiam.Metadata.Http.{
  Try, done, fail, ◌>>=◌, Request, ResponseWriter, Exchange, Handled, Handler, Metrics, set_header,
  write, http_error,
}
use kiam.Metadata.ClientIp.{build_client_ip}
use kiam.Metadata.Retry.{Backoff, Answers, fetch_credentials, find_role, find_server_health}

abbrev pub failed : Text → Handled
failed message = record { status = 500; error = some message }

abbrev pub succeeded : Handled
succeeded = record { status = 200; error = none }

-- metricHandler.Handle: the response is counted under the handler's name.
pub with_meter : Text → Handler → Handler
with_meter name h req x =
    let (handled, y) = h req x in
    (
      handled,
      record y {
        metrics = record (y.metrics) { responses = (name, handled.status) ∷ y.metrics.responses };
      },
    )

-- handlerAdapter.ServeHTTP; the deadline that it sets is in the answers of the server.
pub adapt : Handler → Request → Exchange → Exchange
adapt h req x =
    let (handled, y) = h req x in
    elim handled.error [
      | none ↦ y
      | some message ↦ record y { writer = http_error message handled.status y.writer }
    ]

-- The end of credentialsHandler.Handle, from the encoding of the credentials on.
send_credentials : Try Text → Exchange → Handled × Exchange
send_credentials (fail e) x = (
  failed (codes "error encoding credentials: " ++ error_text e),
  record x {
    metrics = record (x.metrics) {
      credential_encode_error = x.metrics.credential_encode_error + 1;
    };
  },
)
send_credentials (done json) x = (
  succeeded,
  record {
    writer = set_header (codes "Content-Type") (codes "application/json") (write json x.writer);
    metrics = record (x.metrics) { success = x.metrics.success + 1 };
  },
)

module _ (encode : Credentials → Try Text) where
  -- From the result of fetchCredentials on.
  after_fetch : Try Credentials → Exchange → Handled × Exchange
  unfolding send_credentials
  after_fetch (fail e) x = (
    failed (codes "error fetching credentials: " ++ error_text e),
    record x {
      metrics = record (x.metrics) {
        credential_fetch_error = x.metrics.credential_fetch_error + 1;
      };
    },
  )
  after_fetch (done credentials) x = send_credentials (encode credentials) x

-- The first steps of both handlers: parsing the form and finding the client's address.
unfoldable pub client_ip : Bool → Request → Try Text
client_ip allow_ip_query req = do parsed ← req.parse_form; build_client_ip allow_ip_query req

module _ (b : Backoff) (allow_ip_query : Bool) where
  module _ (encode : Credentials → Try Text) (ask : Text → Text → Answers Credentials)
      (requested : Text) where
    -- From the client's address on.
    credentials_for : Try Text → Exchange → Handled × Exchange
    unfolding after_fetch
    credentials_for (fail e) x = (failed (error_text e), x)
    credentials_for (done ip) x = after_fetch encode (fetch_credentials b (ask ip requested)) x

    -- credentialsHandler.Handle; `requested` is the variable `role` of the route, and `ask` gives the
    -- server's answers to GetCredentials for an address and a role.
    pub handle_credentials : Handler
    unfolding credentials_for client_ip
    handle_credentials req x = credentials_for (client_ip allow_ip_query req) x

-- roleHandler.Handle from the result of findRole on.
send_role : Try Text → Exchange → Handled × Exchange
send_role (fail e) x = (
  failed (error_text e),
  record x { metrics = record (x.metrics) { find_role_error = x.metrics.find_role_error + 1 } },
)
send_role (done role) x =
    if text_eq role []
    then (
      record { status = 404; error = some (error_text Error.empty_role) },
      record x { metrics = record (x.metrics) { empty_role = x.metrics.empty_role + 1 } },
    )
    else (
      succeeded,
      record {
        writer = write role x.writer;
        metrics = record (x.metrics) { success = x.metrics.success + 1 };
      },
    )

module _ (b : Backoff) (allow_ip_query : Bool) (ask : Text → Answers Text) where
  role_for : Try Text → Exchange → Handled × Exchange
  unfolding send_role
  role_for (fail e) x = (failed (error_text e), x)
  role_for (done ip) x = send_role (find_role b (ask ip)) x

  -- roleHandler.Handle; `ask` gives the server's answers to GetRole for an address.
  pub handle_role : Handler
  unfolding role_for client_ip
  handle_role req x = role_for (client_ip allow_ip_query req) x

-- What the request for the instance's ID gives: making it, sending it, and reading the body.
instance_id : Try (Unit {0}) → Try Text → Try Text → Handled × Text
instance_id (fail e) response body =
    (failed (codes "couldn't create request: " ++ error_text e), [])
instance_id (done _) (fail e) body =
    (failed (codes "couldn't read metadata response: " ++ error_text e), [])
instance_id (done _) (done _) (fail e) =
    (failed (codes "couldn't read metadata response: " ++ error_text e), [])
instance_id (done _) (done _) (done text) = (succeeded, text)

module _ (b : Backoff) (health : Answers Text) (new_request : Try (Unit {0}))
    (response body : Try Text) where
  send_instance_id : Exchange → Handled × Exchange
  unfolding instance_id
  send_instance_id x =
      let (handled, text) = instance_id new_request response body in
      elim handled.error [
        | none ↦ (handled, record x { writer = write text x.writer })
        | some message ↦ (handled, x)
      ]

  -- The deep check, from the result of findServerHealth on.
  deep_health : Try Text → Exchange → Handled × Exchange
  unfolding send_instance_id
  deep_health (fail e) x = (failed (error_text e), x)
  deep_health (done message) x =
      if text_eq message (codes "ok")
      then send_instance_id x
      else (failed (codes "server health: " ++ message), x)

  -- healthHandler.Handle
  unfoldable pub handle_health : Handler
  unfolding deep_health
  handle_health req x =
      if text_eq req.deep []
      then send_instance_id x
      else deep_health (find_server_health b health) x
