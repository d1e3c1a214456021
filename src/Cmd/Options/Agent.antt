-- ===== src/Cmd/Options/Agent.antt =====
-- The agent's flags, from the command line to its proxy.
use kiam.Base.{refl, ◌+◌, ◌≡◌, ◌≢◌, sym, ap, ◌∙◌, ◌⊎◌, inl, inr, none, some, List, []}
use mathlib.Core.Path.{subst}
use kiam.Base.Text.{Text, codes}
use kiam.Base.Outcome.{ok, ok-injective, >>=-eq-ok}
use kiam.Metadata.Http.{Request, Exchange, Metrics, fresh_writer}
use kiam.Metadata.Handlers.Laws.{serve, serve-finish, Refused, Refused-finish_message}
use kiam.Metadata.Proxy.{Regexp, Reply, new_proxy_handler}
use kiam.Metadata.Proxy.Laws.{
  IsTokenRoute, denial, denied, empty_only, DeniesAll, new_proxy_handler_default,
}
use kiam.Metadata.Server.{default_options}
use kiam.Cmd.Options.{Arguments, AgentOptions, or_default, required, agent_options}

-- The flag for the routes is not given, or it is empty.
abbrev pub NoRoutes : Arguments → Type 0
NoRoutes a =
    (a.regexp (codes "allow-route-regexp") ≡ none)
    ⊎ ((r : Regexp) × (a.regexp (codes "allow-route-regexp") ≡ some r) × (r.source ≡ []))

agent_options-regexp :
    (a : Arguments) (options : AgentOptions)
    → agent_options a ≡ ok options
    → options.server_options.allow_route_regexp
      ≡ or_default default_options.allow_route_regexp (a.regexp (codes "allow-route-regexp"))
unfolding agent_options
agent_options-regexp a options h =
    let (host, _, h1) = >>=-eq-ok (required (codes "host") (a.text (codes "host"))) _ h in
    ap (λ (o : AgentOptions). o.server_options.allow_route_regexp) (sym (ok-injective h1))

or_default-DeniesAll :
    (a : Arguments)
    → NoRoutes a
    → DeniesAll
        (or_default default_options.allow_route_regexp (a.regexp (codes "allow-route-regexp")))
unfolding or_default default_options
or_default-DeniesAll a (inl e) = inr (ap (or_default empty_only) e)
or_default-DeniesAll a (inr (r, e, empty)) =
    inl (ap (λ (s : Regexp). s.source) (ap (or_default empty_only) e) ∙ empty)

-- What is sent for a request that is not let through: 404, and as the body the message with the
-- default's expression and the path. The request is counted as denied.
pub record Blocked (quote : Text → Text) (req : Request) (m : Metrics) (y : Exchange) : Type 0 where
  pub refused : Refused (codes "proxy") 404 m y
  pub message : refused.message ≡ denial quote (codes "^$") req
  pub counted : y.metrics.proxy_denies ≡ m.proxy_denies + 1

-- An agent whose flag for the routes is not given, or is empty, answers requests that its routes leave
-- to the proxy with 404 and a message with the expression and the path, whatever the metadata service
-- would have said and whatever the other flags are: the handler returns the error and has written
-- nothing, the adapter sends it, and the request is counted as denied. The exceptions are the empty
-- path and PUTs for a session token.
pub agent_denies_by_default :
    (a : Arguments) (options : AgentOptions) (quote : Text → Text) (backing : Request → List Reply)
    (req : Request) (x : Exchange) (m : Metrics)
    → agent_options a ≡ ok options
    → NoRoutes a
    → req.path ≢ []
    → (req.method ≢ codes "PUT") ⊎ (¬ IsTokenRoute req.path)
    → let handler = new_proxy_handler quote backing options.server_options.allow_route_regexp in
      (handler req x ≡ denied quote (codes "^$") req x)
      × Blocked quote req m (serve (codes "proxy") handler req m)
agent_denies_by_default a options quote backing req x m parsed unset path other =
    let r = options.server_options.allow_route_regexp in
    let denies = λ (y : Exchange).
      new_proxy_handler_default quote r req y backing
        (subst DeniesAll (sym (agent_options-regexp a options parsed))
          (or_default-DeniesAll a unset))
        path other in
    let sent =
      serve-finish (codes "proxy") (new_proxy_handler quote backing r) req m
        (denies (record { writer = fresh_writer; metrics = m })) in
    let (refused, message) =
      Refused-finish_message (codes "proxy") m (record m { proxy_denies = m.proxy_denies + 1 }) 404
        (denial quote (codes "^$") req) refl refl in
    (
      denies x,
      subst (Blocked quote req m) (sym sent)
          (record { refused = refused; message = message; counted = refl }),
    )
