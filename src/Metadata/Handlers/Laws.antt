-- ===== src/Metadata/Handlers/Laws.antt =====
-- The responses that the agent sends.
use kiam.Base.{
  ℕ, ◌+◌, Bool, ◌≡◌, refl, sym, ap, ◌∙◌, ◌++◌, none, some, List, [], ◌∷◌, ◌⊎◌, inl, inr,
}
use mathlib.Core.Path.{subst}
use kiam.Base.Text.{Text, codes}
use kiam.Base.Outcome.{Error, error_text}
use kiam.Sts.Credentials.{Credentials}
use kiam.Metadata.Http.{
  Try, done, fail, Request, Exchange, Handled, Handler, Metrics, fresh_writer, set_header, write,
  http_error,
}
use kiam.Metadata.Retry.{Backoff, Answers, fetch_credentials}
use kiam.Metadata.Handlers.{
  failed, with_meter, adapt, send_credentials, after_fetch, client_ip, credentials_for,
  handle_credentials,
}

-- A handler behind the meter and the adapter, as Install puts it, on a fresh response.
abbrev pub serve : Text → Handler → Request → Metrics → Exchange
serve name h req m = adapt (with_meter name h) req (record { writer = fresh_writer; metrics = m })

-- The meter and the adapter after the handler.
abbrev pub finish : Text → Handled × Exchange → Exchange
finish name (handled, y) =
    let z = record y {
      metrics = record (y.metrics) { responses = (name, handled.status) ∷ y.metrics.responses };
    } in
    elim handled.error [
      | none ↦ z
      | some message ↦ record z { writer = http_error message handled.status z.writer }
    ]

pub serve-finish :
    (name : Text) (h : Handler) (req : Request) (m : Metrics) {r : Handled × Exchange}
    → h req (record { writer = fresh_writer; metrics = m }) ≡ r
    → serve name h req m ≡ finish name r
unfolding adapt with_meter
serve-finish name h req m e = ap (finish name) e

-- An error has been sent, with its text as the body.
pub record Refused (name : Text) (status : ℕ) (m : Metrics) (y : Exchange) : Type 0 where
  pub message : Text
  pub header : List (Text × Text)
  pub sent : y.writer.sent ≡ some (status, header)
  pub body : y.writer.body ≡ message ++ (10 ∷ [])
  pub counted : y.metrics.responses ≡ (name, status) ∷ m.responses
  pub no_success : y.metrics.success ≡ m.success

pub Refused-finish_message :
    (name : Text) (m n : Metrics) (status : ℕ) (message : Text)
    → n.responses ≡ m.responses
    → n.success ≡ m.success
    → (r : Refused name status m (
        finish name (
          record { status = status; error = some message },
          record { writer = fresh_writer; metrics = n },
        )))
      × (r.message ≡ message)
unfolding http_error
Refused-finish_message name m n status message r s = (
  record {
    message = message;
    header = _;
    sent = refl;
    body = refl;
    counted = ap (λ t. (name, status) ∷ t) r;
    no_success = s;
  },
  refl,
)

pub Refused-finish :
    (name : Text) (m n : Metrics) (status : ℕ) (message : Text)
    → n.responses ≡ m.responses
    → n.success ≡ m.success
    → Refused name status m (
        finish name (
          record { status = status; error = some message },
          record { writer = fresh_writer; metrics = n },
        ))
Refused-finish name m n status message r s = (Refused-finish_message name m n status message r s).0

-- Text has been sent with status 200 and nothing in the header.
pub record Served (name text : Text) (m : Metrics) (y : Exchange) : Type 0 where
  pub sent : y.writer.sent ≡ some (200, [])
  pub body : y.writer.body ≡ text
  pub counted : y.metrics.responses ≡ (name, 200) ∷ m.responses
  pub success : y.metrics.success ≡ m.success + 1

pub try-cases {ℓ} :
    {A : Type ℓ} (t : Try A) → ((a : A) × (t ≡ done a)) ⊎ ((e : Error) × (t ≡ fail e))
try-cases (done a) = inl (a, refl)
try-cases (fail e) = inr (e, refl)

module _ (b : Backoff) (allow_ip_query : Bool) (encode : Credentials → Try Text)
    (ask : Text → Text → Answers Credentials) (requested : Text) (req : Request) (m : Metrics) where
  -- What leads to credentials in the response.
  pub record Fetched (json : Text) : Type 0 where
    pub ip : Text
    pub caller : client_ip allow_ip_query req ≡ done ip
    pub credentials : Credentials
    pub fetched : fetch_credentials b (ask ip requested) ≡ done credentials
    pub encoded : encode credentials ≡ done json

  abbrev handler : Handler
  handler = handle_credentials b allow_ip_query encode ask requested

  abbrev start : Exchange
  start = record { writer = fresh_writer; metrics = m }

  abbrev for_caller : Try Text → Handled × Exchange
  for_caller ip = credentials_for b allow_ip_query encode ask requested ip start

  abbrev for_credentials : Try Credentials → Handled × Exchange
  for_credentials c = after_fetch encode c start

  -- What the text of an error is: that of the step that failed, after which there is no other.
  pub data Explains (message : Text) : Type 0 where
    no_address :
        (e : Error)
        → client_ip allow_ip_query req ≡ fail e
        → message ≡ error_text e
        → Explains message
    no_credentials :
        (ip : Text) (e : Error)
        → client_ip allow_ip_query req ≡ done ip
        → fetch_credentials b (ask ip requested) ≡ fail e
        → message ≡ codes "error fetching credentials: " ++ error_text e
        → Explains message
    not_encoded :
        (ip : Text) (c : Credentials) (e : Error)
        → client_ip allow_ip_query req ≡ done ip
        → fetch_credentials b (ask ip requested) ≡ done c
        → encode c ≡ fail e
        → message ≡ codes "error encoding credentials: " ++ error_text e
        → Explains message

  -- The response carries the credentials, or an error with status 500.
  abbrev pub Answered : Exchange → Type 0
  Answered y =
      ((json : Text) × Fetched json × Served (codes "credentials") json m y)
      ⊎ ((r : Refused (codes "credentials") 500 m y) × Explains r.message)

  answer :
      {r : Handled × Exchange}
      → handler req start ≡ r
      → Answered (finish (codes "credentials") r)
      → Answered (serve (codes "credentials") handler req m)
  answer e a = subst Answered (sym (serve-finish (codes "credentials") handler req m e)) a

  refused :
      (message : Text) (n : Metrics)
      → n.responses ≡ m.responses
      → n.success ≡ m.success
      → Explains message
      → Answered (
          finish
            (codes "credentials")
            (failed message, record { writer = fresh_writer; metrics = n }))
  refused message n r s why =
      let (sent, same) = Refused-finish_message (codes "credentials") m n 500 message r s in
      inr (sent, subst Explains (sym same) why)

  pub serve_credentials : Answered (serve (codes "credentials") handler req m)
  unfolding handle_credentials
  serve_credentials = elim (try-cases (client_ip allow_ip_query req)) [
    | inr (x, e) ↦ answer (ap for_caller e) (refused _ m refl refl (no_address x e refl))
    | inl (ip, e) ↦ elim (try-cases (fetch_credentials b (ask ip requested))) [
      | inr (x, f) ↦
          answer (ap for_caller e ∙ ap for_credentials f)
            (refused _ _ refl refl (no_credentials ip x e f refl))
      | inl (c, f) ↦ elim (try-cases (encode c)) [
        | inr (x, g) ↦
            answer (ap for_caller e ∙ ap for_credentials f ∙ ap (λ t. send_credentials t start) g)
              (refused _ _ refl refl (not_encoded ip c x e f g refl))
        | inl (json, g) ↦
            answer (ap for_caller e ∙ ap for_credentials f ∙ ap (λ t. send_credentials t start) g) (
              inl (
                json,
                record { ip = ip; caller = e; credentials = c; fetched = f; encoded = g },
                unfold write set_header in
                    record { sent = refl; body = refl; counted = refl; success = refl },
              ))
      ]
    ]
  ]
