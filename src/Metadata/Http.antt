-- ===== src/Metadata/Http.antt =====
-- What the handlers use of net/http, and the agent's metrics. A response is sent in two parts: the
-- status and the header go out together, at the first of WriteHeader and Write, and what is set in
-- the header afterwards is not sent. The connection takes what is written: Write returns no error.
use kiam.Base.{ℕ, ◌≡◌, ◌++◌, Option, none, some, List, [], ◌∷◌}
use kiam.Base.Text.{Text, codes}
use kiam.Base.Outcome.{Error}

-- A call that returns `(T, error)` and does not panic.
pub data Try {ℓ} (A : Type ℓ) : Type ℓ where
  done : A → Try A
  fail : Error → Try A

pub done-injective {ℓ} : {A : Type ℓ} {a b : A} → done a ≡ done b → a ≡ b
done-injective h = cc

module _ {ℓ κ} {A : Type ℓ} {B : Type κ} where
  infixl 5 ◌>>=◌
  abbrev pub ◌>>=◌ : Try A → (A → Try B) → Try B
  done value >>= next = next value
  fail e >>= next = fail e

pub record Request : Type 0 where
  pub method : Text
  pub path : Text
  pub remote_addr : Text
  -- what ParseForm returns, and the form's value of `ip`
  pub parse_form : Try (Unit {0})
  pub form_ip : Text
  -- the query's value of `deep`
  pub deep : Text

-- The header as the latest value of each key, and what has been sent of the response. Where a
-- statusWriter of log.go is around it, `status_code` is that writer's.
pub record ResponseWriter : Type 0 where
  pub status_code : Option ℕ
  pub header : List (Text × Text)
  pub sent : Option (ℕ × List (Text × Text))
  pub body : Text

abbrev pub fresh_writer : ResponseWriter
fresh_writer = record { status_code = none; header = []; sent = none; body = [] }

unfoldable pub set_header : Text → Text → ResponseWriter → ResponseWriter
set_header key value w = record w { header = (key, value) ∷ w.header }

-- WriteHeader of net/http itself.
unfoldable pub send_header : ℕ → ResponseWriter → ResponseWriter
send_header status w = elim w.sent [
  | none ↦ record w { sent = some (status, w.header) }
  | some s ↦ w
]

unfoldable pub see_status : ℕ → Option ℕ → Option ℕ
see_status status none = none
see_status status (some seen) = some status

-- WriteHeader, through a statusWriter if there is one.
unfoldable pub write_header : ℕ → ResponseWriter → ResponseWriter
unfolding send_header see_status
write_header status w =
    send_header status (record w { status_code = see_status status w.status_code })

-- Write passes a statusWriter by, and so does the WriteHeader that it makes.
unfoldable pub write : Text → ResponseWriter → ResponseWriter
unfolding send_header
write text w = let v = send_header 200 w in record v { body = v.body ++ text }

-- http.Error
unfoldable pub http_error : Text → ℕ → ResponseWriter → ResponseWriter
unfolding set_header write_header write send_header see_status
http_error message status w = write (message ++ (10 ∷ [])) (
    write_header status (
      set_header (codes "X-Content-Type-Options") (codes "nosniff")
        (set_header (codes "Content-Type") (codes "text/plain; charset=utf-8") w)))

-- The counters of metrics.go; `responses` has the handler and the code of each response.
pub record Metrics : Type 0 where
  pub success : ℕ
  pub find_role_error : ℕ
  pub empty_role : ℕ
  pub credential_fetch_error : ℕ
  pub credential_encode_error : ℕ
  pub proxy_denies : ℕ
  pub responses : List (Text × ℕ)

abbrev pub zero_metrics : Metrics
zero_metrics = record {
  success = 0;
  find_role_error = 0;
  empty_role = 0;
  credential_fetch_error = 0;
  credential_encode_error = 0;
  proxy_denies = 0;
  responses = [];
}

pub record Exchange : Type 0 where
  pub writer : ResponseWriter
  pub metrics : Metrics

-- What Handle returns: a status, and the text of an error if there is one.
pub record Handled : Type 0 where
  pub status : ℕ
  pub error : Option Text

abbrev pub Handler : Type 0
Handler = Request → Exchange → Handled × Exchange
