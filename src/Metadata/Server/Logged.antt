-- ===== src/Metadata/Server/Logged.antt =====
-- The log of requests of pkg/aws/metadata/log.go beside the responses that are sent.
use kiam.Base.{
  ℕ, ◌≤◌, ◌≡◌, ◌↔◌, refl, sym, ap, ◌∙◌, true, ◌++◌, none, List, [], ◌∷◌, inl, inr, Option-cases,
  Bool-cases, arith, ltb,
}
use mathlib.Core.Path.{subst}
use kiam.Base.Text.{Text, codes, has_prefix}
use kiam.Metadata.Http.{
  done-injective, done, Request, ResponseWriter, Exchange, Metrics, write, write_header, http_error,
  set_header,
}
use kiam.Metadata.Handlers.Laws.{try-cases}
use kiam.Metadata.Handlers.Logged.{
  adapt-ObservedHttp, handle_credentials-Agrees, handle_role-Agrees, handle_health-Agrees,
}
use kiam.Metadata.Proxy.Logged.{HeaderFirst, new_proxy_handler-Agrees}
use kiam.Metadata.Log.{Entry, info, entry_level, status_code_of, logging_handler, new_status_writer}
use kiam.Metadata.Log.Laws.{
  bare, sent_status, Seen, Seen-write, Seen-write_header, Seen-start, SeenExchange, ObservedHttp,
  logged_start, start,
}
use kiam.Metadata.Mux.{Piece, Vars, HttpHandler, Route, path_route, prefix_route}
use kiam.Metadata.Server.{
  ServerOptions, Client, Url, Web, HttpServer, build_http_server, routes, ping,
  trailing_slash_suffix_redirect_handler, serve_health, serve_role_name, serve_credentials_of,
  serve_proxy,
}

-- What http.Redirect does with a fresh response: it sets fields, sends the status and writes a note.
pub record Redirects (redirect : Request → Text → ResponseWriter → ResponseWriter) : Type 0 where
  pub fields : Request → Text → List (Text × Text)
  pub note : Request → Text → Text
  pub redirect_writes :
      (req : Request) (target : Text) (w : ResponseWriter)
      → w.sent ≡ none
      → redirect req target w
        ≡ write
            (note req target)
            (write_header 301 (record w { header = fields req target ++ w.header }))

twice :
    (f g : HttpHandler) (req : Request) (m : Metrics)
    → ((x : Exchange) → f req x ≡ g req x)
    → ObservedHttp g req m
    → ObservedHttp f req m
twice f g req m e h =
    subst (λ z. SeenExchange (f req (logged_start m)) z) (sym (e (start m)))
      (subst (λ y. SeenExchange y (g req (start m))) (sym (e (logged_start m))) h)

-- A response with its entry in the log, and the response of the same server without the logging.
pub record Logged (out : Exchange × Entry) (plain : Exchange) : Type 0 where
  pub same : record out.0 { writer = bare out.0.writer } ≡ plain
  pub status : out.1.status ≡ sent_status plain.writer
  pub at_info : (out.1.level ≡ info) ↔ (400 ≤ sent_status plain.writer)

entry_level-info : (status : ℕ) → (entry_level status ≡ info) ↔ (400 ≤ status)
unfolding entry_level
entry_level-info status = elim (Bool-cases (ltb status 400)) [
  | inl e ↦ rw (e, entry_level) ((λ d. cc), (λ le. absurd (ground arith)))
  | inr e ↦ rw (e, entry_level) ((λ d. ground arith), (λ le. refl))
]

SeenExchange-Logged :
    (h : HttpHandler) (req : Request) (m : Metrics)
    → ObservedHttp h req m
    → Logged (logging_handler h req (start m)) (h req (start m))
unfolding logging_handler new_status_writer
SeenExchange-Logged h req m seen =
    let y = h req (logged_start m) in
    let z = h req (start m) in
    let status = seen.writer.status ∙ ap sent_status seen.writer.same in
    record {
      same =
          ap (λ w. record { writer = w; metrics = y.metrics }) seen.writer.same
          ∙ ap (λ n. record { writer = z.writer; metrics = n }) seen.metrics;
      status = status;
      at_info =
          subst (λ s. (entry_level (status_code_of y.writer.status_code) ≡ info) ↔ (400 ≤ s)) status
            (entry_level-info _);
    }

module _ (web : Web) (redirects : Redirects web.redirect)
    (once : (url : Url) (req : Request) → HeaderFirst (web.reverse_proxy url req))
    (config : ServerOptions) (client : Client) (req : Request) (m : Metrics) where
  Seen-redirect :
      (r : Request) (target : Text)
      → Seen
          (web.redirect r target (logged_start m).writer)
          (web.redirect r target (start m).writer)
  Seen-redirect r target = rw (redirects.redirect_writes r target (logged_start m).writer refl) (
      rw (redirects.redirect_writes r target (start m).writer refl)
        (Seen-write _ _ (Seen-write_header 301 _ [])))

  redirect-ObservedHttp : ObservedHttp (trailing_slash_suffix_redirect_handler web) req m
  unfolding trailing_slash_suffix_redirect_handler http_error set_header
  redirect-ObservedHttp = elim (try-cases (web.parse_request_url req)) [
    | inr (e, p) ↦
        rw (p, trailing_slash_suffix_redirect_handler)
          (record { writer = Seen-write _ _ (Seen-write_header 500 _ []); metrics = refl })
    | inl (u, p) ↦
        rw (p, trailing_slash_suffix_redirect_handler)
          (record { writer = Seen-redirect _ _; metrics = refl })
  ]

  module _ (clean : web.mux.is_clean req.path ≡ true) where
    path_route-ObservedHttp :
        (template : List Piece) (handler : Vars → HttpHandler) (rest : List Route)
        → ((vars : Vars) → ObservedHttp (handler vars) req m)
        → ObservedHttp (web.mux.serve_http rest) req m
        → ObservedHttp (web.mux.serve_http (path_route template handler ∷ rest)) req m
    path_route-ObservedHttp template handler rest here there =
        let routed = web.mux.serve_http (path_route template handler ∷ rest) in
        elim (Option-cases (web.mux.matches template req.path)) [
          | inl e ↦
              twice routed (web.mux.serve_http rest) req m
                (λ x. web.mux.serve_next template handler rest req x clean e) there
          | inr (vars, e) ↦
              twice routed (handler vars) req m
                (λ x. web.mux.serve_first template handler rest req x clean e) (here vars)
        ]

    proxy-ObservedHttp :
        (url : Url)
        → has_prefix req.path (codes "/") ≡ true
        → ObservedHttp
            (web.mux.serve_http (prefix_route (codes "/") (serve_proxy web config client url) ∷ []))
            req
            m
    unfolding serve_proxy
    proxy-ObservedHttp url absolute =
        let proxy = serve_proxy web config client url in
        twice (web.mux.serve_http (prefix_route (codes "/") proxy ∷ [])) proxy req m
          (λ x. web.mux.serve_prefix (codes "/") proxy [] req x clean absolute)
          (adapt-ObservedHttp _ _ req m (
            new_proxy_handler-Agrees web.quote (web.reverse_proxy url) (once url) req m
              config.allow_route_regexp))

    routes-ObservedHttp :
        (url : Url)
        → has_prefix req.path (codes "/") ≡ true
        → ObservedHttp (web.mux.serve_http (routes web config client url)) req m
    unfolding routes ping serve_health serve_role_name serve_credentials_of serve_proxy
    routes-ObservedHttp url absolute =
        let run = path_route-ObservedHttp in
        run _ _ _
          (λ vars. record { writer = Seen-write (codes "pong") _ (Seen-start m); metrics = refl })
          (run _ _ _
            (λ vars.
              adapt-ObservedHttp _ _ req m
                (handle_health-Agrees web.backoff config.allow_ip_query m _ _ _ _ req))
            (run _ _ _
              (λ vars.
                adapt-ObservedHttp _ _ req m
                  (handle_role-Agrees web.backoff config.allow_ip_query m _ req))
              (run _ _ _ (λ vars. redirect-ObservedHttp)
                (run _ _ _
                  (λ vars.
                    adapt-ObservedHttp _ _ req m
                      (handle_credentials-Agrees web.backoff config.allow_ip_query m _ _ _ req))
                  (proxy-ObservedHttp url absolute)))))

    -- With a path that is clean and absolute, a Redirect that does what is documented, and a backing
    -- service that sends its status at most once and before the body: the agent's server sends the
    -- response that its routes give without the logging, and logs the status that is sent, at the
    -- level of information exactly from 400 on.
    pub access_log_shows_response :
        (server : HttpServer)
        → has_prefix req.path (codes "/") ≡ true
        → build_http_server web config client ≡ done server
        → (url : Url) × (web.parse_url config.metadata_endpoint ≡ done url)
          × Logged
              (server.handler req (start m))
              (web.mux.serve_http (routes web config client url) req (start m))
    unfolding build_http_server logging_handler
    access_log_shows_response server absolute built =
        elim (try-cases (web.parse_url config.metadata_endpoint)) [
          | inr (e, p) ↦ cc (rw p at built)
          | inl (url, p) ↦ (
            url,
            p,
            let router = web.mux.serve_http (routes web config client url) in
                subst (λ s. Logged (s.handler req (start m)) (router req (start m)))
                  (done-injective (rw p at built))
                  (SeenExchange-Logged router req m (routes-ObservedHttp url absolute)),
          )
        ]
