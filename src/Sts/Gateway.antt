-- ===== src/Sts/Gateway.antt =====
-- pkg/aws/sts/gateway.go. The call of AssumeRole is a parameter, and so are the clock and the format
-- of times.
use kiam.Base.{
  ℕ, ◌≤◌, ◌<◌, ◌+◌, ◌*◌, ◌/◌, ◌++◌, arith, ap, ◌≡◌, refl, Option, none, some, [], if◌then◌else◌,
}
use kiam.Base.Lists.{length}
use kiam.Base.Text.{Text, codes, text_eq}
use kiam.Base.Outcome.{Outcome, ok, ◌>>=◌}
use kiam.Sts.Identity.{RoleIdentity}
use kiam.Sts.Session.Laws.{IsValid, get_session_name-IsValid}
use kiam.Sts.Credentials.{Credentials, new_credentials}
use kiam.Sts.Cache.{StsIssueRequest, issue_request}

-- sts.AssumeRoleInput, as far as it is set; a duration is in nanoseconds.
pub record AssumeRoleInput : Type 0 where
  pub duration_seconds : ℕ
  pub role_arn : Text
  pub role_session_name : Text
  pub external_id : Option Text

-- The credentials of sts.AssumeRoleOutput.
pub record AssumeRoleOutput (Time : Type 0) : Type 0 where
  pub access_key_id : Text
  pub secret_access_key : Text
  pub session_token : Text
  pub expiration : Time

pub assume_role_input : StsIssueRequest → AssumeRoleInput
assume_role_input request = record {
  duration_seconds = request.session_duration / 1000000000;
  role_arn = request.role_arn;
  role_session_name = request.session_name;
  external_id = if text_eq request.external_id [] then none else some request.external_id;
}

-- DefaultSTSGateway.Issue
unfoldable pub issue_from_sts :
    {Time : Type 0}
    → (Time → Text)
    → Time
    → (AssumeRoleInput → Outcome (AssumeRoleOutput Time))
    → StsIssueRequest
    → Outcome Credentials
unfolding assume_role_input
issue_from_sts format now assume_role request = do
  resp ← assume_role (assume_role_input request)
  ok (
      new_credentials format now resp.access_key_id resp.secret_access_key resp.session_token
        resp.expiration)

-- What AssumeRole is asked for an identity: its role's ARN, with the external ID exactly if there is
-- one, the whole seconds of the cache's session duration, and a session name that STS takes, of 2 to
-- 64 bytes that STS allows, which begins with `kiam-`.
pub assume_role_input-IsValid :
    (session_name : Text) (duration : ℕ) (i : RoleIdentity)
    → let asked = assume_role_input (issue_request session_name duration i) in
      (asked.role_arn ≡ i.role.arn)
      × (asked.external_id ≡ (if text_eq i.external_id [] then none else some i.external_id))
      × (asked.duration_seconds * 1000000000 ≤ duration)
      × (duration < (asked.duration_seconds + 1) * 1000000000)
      × IsValid asked.role_session_name
      × (2 ≤ length asked.role_session_name)
      × (length asked.role_session_name ≤ 64)
      × ((t : Text) × (asked.role_session_name ≡ codes "kiam-" ++ t))
unfolding assume_role_input issue_request
assume_role_input-IsValid session_name duration i =
    let (valid, short, (t, named)) = get_session_name-IsValid session_name i in
    let long = ap (length {A = ℕ}) named in
    (refl, refl, omega arith, omega arith, valid, omega arith, short, (t, named))
