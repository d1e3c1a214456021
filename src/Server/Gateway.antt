-- ===== src/Server/Gateway.antt =====
-- pkg/server/gateway.go: the agent's client. The gRPC stub is a parameter: a call ends with a reply,
-- with a status that carries a message, or with an error that is no status.
use kiam.Base.{◌↔◌, ◌≡◌, ◌∙◌, ap, sym, Bool-cases, inl, inr, if◌then◌else◌}
use kiam.Base.Text.{Text, text_eq}
use kiam.Base.Text.Laws.{text_eq_iff}
use kiam.Base.Outcome.{
  Outcome, ok, err, Error, other, error_text, ok-injective, server_pod_not_found, policy_forbidden,
}
use kiam.Sts.Credentials.{Credentials}

pub data Reply (A : Type 0) : Type 0 where
  reply : A → Reply A
  status : Text → Reply A
  failure : Error → Reply A

-- status.FromError and the switch on the status's message.
from_status : Text → Error
unfolding error_text
from_status message =
    if text_eq message (error_text policy_forbidden)
    then policy_forbidden
    else if text_eq message (error_text server_pod_not_found)
    then server_pod_not_found
    else other message

-- KiamGateway.GetCredentials
pub get_credentials : Reply Credentials → Outcome Credentials
unfolding from_status
get_credentials (reply c) = ok (record {
  code = c.code;
  type = c.type;
  access_key_id = c.access_key_id;
  secret_access_key = c.secret_access_key;
  token = c.token;
  expiration = c.expiration;
  last_updated = c.last_updated;
})
get_credentials (status message) = err (from_status message)
get_credentials (failure e) = err e

-- KiamGateway.GetRole
unfoldable pub get_role : Reply Text → Outcome Text
get_role (reply name) = ok name
get_role (status message) = err (other message)
get_role (failure e) = err e

-- KiamGateway.Health
unfoldable pub health : Reply Text → Outcome Text
health (reply message) = ok message
health (status message) = err (other message)
health (failure e) = err e

pub get_credentials-ok :
    (r : Reply Credentials) {c : Credentials} → get_credentials r ≡ ok c → r ≡ reply c
unfolding get_credentials
get_credentials-ok (reply d) h = ap reply (ok-injective h)
get_credentials-ok (status message) h = cc
get_credentials-ok (failure e) h = cc

forbidden_text :
    (message : Text)
    → get_credentials (status message) ≡ err policy_forbidden
    → message ≡ error_text policy_forbidden
unfolding get_credentials
forbidden_text message h = elim (Bool-cases (text_eq message (error_text policy_forbidden))) [
  | inl e ↦ (text_eq_iff message (error_text policy_forbidden)).0 e
  | inr e ↦ elim (Bool-cases (text_eq message (error_text server_pod_not_found))) [
    | inl f ↦ cc (rw (e, f, get_credentials, from_status) at h)
    | inr f ↦ cc (rw (e, f, get_credentials, from_status) at h)
  ]
]

-- If gRPC carries a handler's credentials as they are and its error as a status with the error's
-- text, the agent gets the server's credentials, field by field, and both errors of the server that
-- it acts upon; it takes an error for ErrPolicyForbidden exactly when it has that one's text.
pub get_credentials_roundtrip :
    (transport : Outcome Credentials → Reply Credentials)
    → ((c : Credentials) → transport (ok c) ≡ reply c)
    → ((e : Error) → transport (err e) ≡ status (error_text e))
    → ((c : Credentials) → get_credentials (transport (ok c)) ≡ ok c)
      × (get_credentials (transport (err policy_forbidden)) ≡ err policy_forbidden)
      × (get_credentials (transport (err server_pod_not_found)) ≡ err server_pod_not_found)
      × ((e : Error)
          → (get_credentials (transport (err e)) ≡ err policy_forbidden)
            ↔ (error_text e ≡ error_text policy_forbidden))
unfolding get_credentials text_eq
get_credentials_roundtrip transport tr te = (
  λ c. ap get_credentials (tr c),
  ap get_credentials (te policy_forbidden),
  ap get_credentials (te server_pod_not_found),
  λ e. (
    λ h. forbidden_text (error_text e) (ap get_credentials (sym (te e)) ∙ h),
    λ h. ap get_credentials (te e ∙ ap status h),
  ),
)
