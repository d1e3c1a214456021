-- ===== src/Metadata/Log/Laws.antt =====
-- What a statusWriter around the response sees of it.
use kiam.Base.{
  ℕ, ◌≡◌, refl, ap, ◌∙◌, ◌++◌, Option, none, some, List, [], ◌∷◌, inl, inr, Option-cases,
}
use kiam.Base.Text.{Text}
use kiam.Metadata.Http.{
  Request, ResponseWriter, Exchange, Handled, Metrics, set_header, http_error, fresh_writer,
  send_header, see_status, write_header, write,
}
use kiam.Metadata.Handlers.Laws.{finish}
use kiam.Metadata.Mux.{HttpHandler}
use kiam.Metadata.Log.{status_code_of}

-- The response without its statusWriter.
abbrev pub bare : ResponseWriter → ResponseWriter
bare w = record w { status_code = none }

-- net/http sends status 200 if a handler sends none.
pub sent_status_of : Option (ℕ × List (Text × Text)) → ℕ
sent_status_of none = 200
sent_status_of (some (status, header)) = status

abbrev pub sent_status : ResponseWriter → ℕ
sent_status w = sent_status_of w.sent

-- The statusWriter of `v` holds the status that is sent, and without it the response is `w`.
pub record Seen (v w : ResponseWriter) : Type 0 where
  pub same : bare v ≡ w
  pub status : status_code_of v.status_code ≡ sent_status v

-- A handler's start with the statusWriter and without it.
abbrev pub logged_start : Metrics → Exchange
logged_start m = record { writer = record fresh_writer { status_code = some 200 }; metrics = m }

abbrev pub start : Metrics → Exchange
start m = record { writer = fresh_writer; metrics = m }

module _ (text : Text) (v : ResponseWriter) where
  write-bare : bare (write text v) ≡ write text (bare v)
  unfolding write send_header
  write-bare = elim (Option-cases v.sent) [ inl e ↦ rw e refl | inr (s, e) ↦ rw e refl ]

  write-status :
      status_code_of v.status_code ≡ sent_status v
      → status_code_of (write text v).status_code ≡ sent_status (write text v)
  unfolding write send_header sent_status_of
  write-status h = elim (Option-cases v.sent) [
    | inl e ↦ rw e (h ∙ ap sent_status_of e)
    | inr (s, e) ↦ rw e (h ∙ ap sent_status_of e)
  ]

  pub Seen-write : {w : ResponseWriter} → Seen v w → Seen (write text v) (write text w)
  Seen-write {w} h = record {
    same = write-bare ∙ ap (write text) h.same;
    status = write-status h.status;
  }

pub Seen-set_header :
    (key value : Text) {v w : ResponseWriter}
    → Seen v w
    → Seen (set_header key value v) (set_header key value w)
unfolding set_header
Seen-set_header key value h = record { same = ap (set_header key value) h.same; status = h.status }

-- A response of which nothing has been sent yet.
pub Seen-write_header :
    (status : ℕ) (header : List (Text × Text)) (body : Text)
    → Seen
        (write_header status
          (record { status_code = some 200; header = header; sent = none; body = body }))
        (write_header status
          (record { status_code = none; header = header; sent = none; body = body }))
unfolding write_header send_header see_status sent_status_of status_code_of
Seen-write_header status header body = record { same = refl; status = refl }

-- The same for the metrics.
pub record SeenExchange (y z : Exchange) : Type 0 where
  pub writer : Seen y.writer z.writer
  pub metrics : y.metrics ≡ z.metrics

-- A handler's two results: an error, with nothing written, or a response.
pub data Agrees : Handled × Exchange → Handled × Exchange → Type 0 where
  refused :
      (status : ℕ) (message : Text) (m : Metrics)
      → Agrees
          (record { status = status; error = some message }, logged_start m)
          (record { status = status; error = some message }, start m)
  answered :
      (status : ℕ) {y z : Exchange}
      → SeenExchange y z
      → Agrees
          (record { status = status; error = none }, y)
          (record { status = status; error = none }, z)

count : Text → ℕ → Metrics → Metrics
count name status m = record m { responses = (name, status) ∷ m.responses }

pub Agrees-finish :
    (name : Text) {r s : Handled × Exchange}
    → Agrees r s
    → SeenExchange (finish name r) (finish name s)
unfolding http_error set_header count
Agrees-finish name (refused status message m) = record {
  writer = Seen-write (message ++ 10 ∷ []) _ (Seen-write_header status _ []);
  metrics = refl;
}
Agrees-finish name (answered status seen) = record {
  writer = seen.writer;
  metrics = ap (count name status) seen.metrics;
}

-- What a handler does from either start agrees.
abbrev pub Observed : (Exchange → Handled × Exchange) → Metrics → Type 0
Observed run m = Agrees (run (logged_start m)) (run (start m))

abbrev pub ObservedHttp : HttpHandler → Request → Metrics → Type 0
ObservedHttp h req m = SeenExchange (h req (logged_start m)) (h req (start m))

-- Responses of which nothing has been sent.
pub Seen-unsent :
    (header : List (Text × Text)) (body : Text)
    → Seen
        (record { status_code = some 200; header = header; sent = none; body = body })
        (record { status_code = none; header = header; sent = none; body = body })
unfolding sent_status_of status_code_of
Seen-unsent header body = record { same = refl; status = refl }

-- Both start with nothing sent.
pub Seen-start : (m : Metrics) → Seen (logged_start m).writer (start m).writer
Seen-start m = Seen-unsent [] []
