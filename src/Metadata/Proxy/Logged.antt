-- ===== src/Metadata/Proxy/Logged.antt =====
-- The proxy does the same with a statusWriter around the response.
use kiam.Base.{
  some, ℕ, ◌+◌, ◌≡◌, refl, ◌==◌, if◌then◌else◌, none, List, [], ◌∷◌, inl, inr, Bool-cases,
}
use mathlib.Core.Path.{subst}
use kiam.Base.Text.{Text}
use kiam.Metadata.Http.{Request, ResponseWriter, Exchange, Handled, Metrics, write, set_header}
use kiam.Metadata.Proxy.{
  Regexp, Reply, set_header_reply, write_header_reply, write_reply, TeeWriter, reply, is_proxied,
  handle_proxy, effective_regexp, new_proxy_handler,
}
use kiam.Metadata.Log.Laws.{
  Seen, Seen-write, Seen-write_header, Seen-unsent, Seen-set_header, Agrees, Observed, refused,
  answered,
}

abbrev OnlyText : List Reply → Type 0
OnlyText [] = Unit
OnlyText (set_header_reply key value ∷ rest) = OnlyText rest
OnlyText (write_header_reply status ∷ rest) = ⊥
OnlyText (write_reply text ∷ rest) = OnlyText rest

-- WriteHeader is called at most once, before anything is written.
abbrev pub HeaderFirst : List Reply → Type 0
HeaderFirst [] = Unit
HeaderFirst (set_header_reply key value ∷ rest) = HeaderFirst rest
HeaderFirst (write_header_reply status ∷ rest) = OnlyText rest
HeaderFirst (write_reply text ∷ rest) = OnlyText rest

abbrev tee : ResponseWriter → ℕ → TeeWriter
tee w status = record { inner = w; status = status }

-- The two ends of the backing service's calls.
record SeenTee (t u : TeeWriter) : Type 0 where
  writer : Seen t.inner u.inner
  status : t.status ≡ u.status

reply-OnlyText :
    (replies : List Reply) (v w : ResponseWriter) (status : ℕ)
    → OnlyText replies
    → Seen v w
    → SeenTee (reply (tee v status) replies) (reply (tee w status) replies)
unfolding reply
reply-OnlyText [] v w status o h = record { writer = h; status = refl }
reply-OnlyText (set_header_reply key value ∷ rest) v w status o h =
    reply-OnlyText rest (set_header key value v) (set_header key value w) status o
      (Seen-set_header key value h)
reply-OnlyText (write_header_reply s ∷ rest) v w status o h = absurd o
reply-OnlyText (write_reply text ∷ rest) v w status o h =
    reply-OnlyText rest (write text v) (write text w) status o (Seen-write text v h)

-- A response of which nothing has been sent, through a statusWriter and without it.
abbrev logged_unsent : List (Text × Text) → ResponseWriter
logged_unsent header = record { status_code = some 200; header = header; sent = none; body = [] }

abbrev unsent : List (Text × Text) → ResponseWriter
unsent header = record { status_code = none; header = header; sent = none; body = [] }

reply-HeaderFirst :
    (replies : List Reply) (header : List (Text × Text))
    → HeaderFirst replies
    → SeenTee
        (reply (tee (logged_unsent header) 200) replies)
        (reply (tee (unsent header) 200) replies)
unfolding reply set_header
reply-HeaderFirst [] header o = record { writer = Seen-unsent header []; status = refl }
reply-HeaderFirst (set_header_reply key value ∷ rest) header o =
    reply-HeaderFirst rest ((key, value) ∷ header) o
reply-HeaderFirst (write_header_reply s ∷ rest) header o =
    reply-OnlyText rest _ _ s o (Seen-write_header s header [])
reply-HeaderFirst (write_reply text ∷ rest) header o =
    reply-OnlyText rest _ _ 200 o (Seen-write text _ (Seen-unsent header []))

counted : ℕ → Metrics → Metrics
counted status m = record m { success = if status == 200 then m.success + 1 else m.success }

proxied : TeeWriter → Metrics → Handled × Exchange
unfolding counted
proxied t m = (
  record { status = t.status; error = none },
  record { writer = t.inner; metrics = counted t.status m },
)

proxied-Agrees : (m : Metrics) {t u : TeeWriter} → SeenTee t u → Agrees (proxied t m) (proxied u m)
unfolding proxied
proxied-Agrees m {t} {u} h =
    subst (λ s. Agrees (proxied t m) (proxied (tee u.inner s) m)) h.status
      (answered t.status (record { writer = h.writer; metrics = refl }))

module _ (quote : Text → Text) (backing_service : Request → List Reply)
    (once : (req : Request) → HeaderFirst (backing_service req)) (req : Request) (m : Metrics) where
  handle_proxy-Agrees : (allow : Regexp) → Observed (handle_proxy quote backing_service allow req) m
  unfolding handle_proxy proxied counted
  handle_proxy-Agrees allow = elim (Bool-cases (is_proxied allow req)) [
    | inl e ↦
        let forwarded = record req { remote_addr = [] } in
        rw e (proxied-Agrees m (reply-HeaderFirst (backing_service forwarded) [] (once forwarded)))
    | inr e ↦ rw e (refused _ _ _)
  ]

  pub new_proxy_handler-Agrees :
      (allow : Regexp) → Observed (new_proxy_handler quote backing_service allow req) m
  unfolding new_proxy_handler
  new_proxy_handler-Agrees allow = handle_proxy-Agrees (effective_regexp allow)
