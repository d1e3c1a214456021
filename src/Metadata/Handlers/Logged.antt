-- ===== src/Metadata/Handlers/Logged.antt =====
-- The handlers do the same with a statusWriter around the response.
use kiam.Base.{refl, Bool, [], inl, inr, Bool-cases}
use kiam.Base.Text.{Text, codes, text_eq}
use kiam.Sts.Credentials.{Credentials}
use kiam.Metadata.Http.{Try, done, fail, Request, Handler, Metrics, set_header}
use kiam.Metadata.Retry.{Backoff, Answers, fetch_credentials, find_role, find_server_health}
use kiam.Metadata.Handlers.{
  with_meter, adapt, send_credentials, after_fetch, client_ip, credentials_for, handle_credentials,
  send_role, role_for, handle_role, instance_id, send_instance_id, deep_health, handle_health,
}
use kiam.Metadata.Log.Laws.{
  Seen-write, Seen-set_header, Seen-start, Observed, ObservedHttp, Agrees-finish, refused, answered,
}

pub adapt-ObservedHttp :
    (name : Text) (h : Handler) (req : Request) (m : Metrics)
    → Observed (h req) m
    → ObservedHttp (adapt (with_meter name h)) req m
unfolding adapt with_meter
adapt-ObservedHttp name h req m a = Agrees-finish name a

module _ (b : Backoff) (allow_ip_query : Bool) (m : Metrics) where
  module _ (encode : Credentials → Try Text) (ask : Text → Text → Answers Credentials)
      (requested : Text) where
    send_credentials-Agrees : (t : Try Text) → Observed (send_credentials t) m
    unfolding send_credentials set_header
    send_credentials-Agrees (fail e) = refused _ _ _
    send_credentials-Agrees (done json) =
        answered 200 (record {
          writer = Seen-set_header _ _ (Seen-write json _ (Seen-start m));
          metrics = refl;
        })

    after_fetch-Agrees : (t : Try Credentials) → Observed (after_fetch encode t) m
    unfolding after_fetch
    after_fetch-Agrees (fail e) = refused _ _ _
    after_fetch-Agrees (done credentials) = send_credentials-Agrees (encode credentials)

    credentials_for-Agrees :
        (t : Try Text) → Observed (credentials_for b allow_ip_query encode ask requested t) m
    unfolding credentials_for
    credentials_for-Agrees (fail e) = refused _ _ _
    credentials_for-Agrees (done ip) = after_fetch-Agrees (fetch_credentials b (ask ip requested))

    pub handle_credentials-Agrees :
        (req : Request) → Observed (handle_credentials b allow_ip_query encode ask requested req) m
    unfolding handle_credentials
    handle_credentials-Agrees req = credentials_for-Agrees (client_ip allow_ip_query req)

  module _ (ask : Text → Answers Text) where
    send_role-Agrees : (t : Try Text) → Observed (send_role t) m
    unfolding send_role
    send_role-Agrees (fail e) = refused _ _ _
    send_role-Agrees (done role) = elim (Bool-cases (text_eq role [])) [
      | inl e ↦ rw e (refused _ _ _)
      | inr e ↦
          rw e (answered 200 (record { writer = Seen-write role _ (Seen-start m); metrics = refl }))
    ]

    role_for-Agrees : (t : Try Text) → Observed (role_for b allow_ip_query ask t) m
    unfolding role_for
    role_for-Agrees (fail e) = refused _ _ _
    role_for-Agrees (done ip) = send_role-Agrees (find_role b (ask ip))

    pub handle_role-Agrees : (req : Request) → Observed (handle_role b allow_ip_query ask req) m
    unfolding handle_role
    handle_role-Agrees req = role_for-Agrees (client_ip allow_ip_query req)

  module _ (health : Answers Text) where
    send_instance_id-Agrees :
        (r : Try (Unit {0})) (response body : Try Text)
        → Observed (send_instance_id b health r response body) m
    unfolding send_instance_id instance_id
    send_instance_id-Agrees (fail e) response body = refused _ _ _
    send_instance_id-Agrees (done _) (fail e) body = refused _ _ _
    send_instance_id-Agrees (done _) (done _) (fail e) = refused _ _ _
    send_instance_id-Agrees (done _) (done _) (done text) =
        answered 200 (record { writer = Seen-write text _ (Seen-start m); metrics = refl })

    module _ (r : Try (Unit {0})) (response body : Try Text) where
      deep_health-Agrees : (t : Try Text) → Observed (deep_health b health r response body t) m
      unfolding deep_health
      deep_health-Agrees (fail e) = refused _ _ _
      deep_health-Agrees (done message) = elim (Bool-cases (text_eq message (codes "ok"))) [
        | inl e ↦ rw e (send_instance_id-Agrees r response body)
        | inr e ↦ rw e (refused _ _ _)
      ]

      pub handle_health-Agrees :
          (req : Request) → Observed (handle_health b health r response body req) m
      unfolding handle_health
      handle_health-Agrees req = elim (Bool-cases (text_eq req.deep [])) [
        | inl e ↦ rw e (send_instance_id-Agrees r response body)
        | inr e ↦ rw e (deep_health-Agrees (find_server_health b health))
      ]
