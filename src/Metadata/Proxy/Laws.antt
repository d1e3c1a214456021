-- ===== src/Metadata/Proxy/Laws.antt =====
-- What the proxy lets through.
use kiam.Base.{
  ◌+◌, Bool, true, false, not, ◌&&◌, ◌≡◌, ◌≢◌, ◌↔◌, ◌⊎◌, inl, inr, refl, ap, ◌∙◌, ◌++◌, some, List,
  [], ◌∷◌, ◌==◌, arith, Bool-cases,
}
use kiam.Base.Text.{Text, codes, text_eq, trim_prefix}
use kiam.Base.Text.Laws.{Free, trim_prefix-append, text_eq_iff, text_eq_refl, text_eq-nil}
use kiam.Metadata.Http.{Request, Exchange, Handled}
use kiam.Metadata.Proxy.{
  Regexp, to_slash, is_token_path, is_token_route, Reply, is_proxied, handle_proxy,
  effective_regexp, new_proxy_handler,
}

pub to_slash-append : (s : Text) → s ≡ (to_slash s).0 ++ (to_slash s).1
unfolding to_slash
to_slash-append [] = refl
to_slash-append (b ∷ s) = ground (arith, to_slash-append s)

pub to_slash-Free : (s : Text) → Free b'/' (to_slash s).0
unfolding to_slash
to_slash-Free [] = tt
to_slash-Free (b ∷ s) = ground (arith, to_slash-Free s)

pub to_slash-Free_id : (s t : Text) → Free b'/' s → to_slash (s ++ b'/' ∷ t) ≡ (s, b'/' ∷ t)
unfolding to_slash
to_slash-Free_id [] t f = refl
to_slash-Free_id (b ∷ s) t f = ground (arith, to_slash-Free_id s t f.1)

and-true : (a b : Bool) → (a && b) ≡ true → (a ≡ true) × (b ≡ true)
and-true true true h = (refl, refl)
and-true true false h = cc
and-true false b h = cc

-- A path of one segment before `/api/token`.
abbrev IsTokenPath : Text → Type 0
IsTokenPath s =
    (segment : Text) × (segment ≢ []) × Free b'/' segment × (s ≡ segment ++ codes "/api/token")

is_token_path→IsTokenPath : (s : Text) → is_token_path s ≡ true → IsTokenPath s
unfolding is_token_path
is_token_path→IsTokenPath s h =
    let parts = and-true (not (text_eq (to_slash s).0 [])) _ h in
    (
      (to_slash s).0,
      (λ z. cc (parts.0, ap (λ t. text_eq t []) z, text_eq_refl [])),
      to_slash-Free s,
      to_slash-append s ∙ ap (λ t. (to_slash s).0 ++ t) ((text_eq_iff _ _).0 parts.1),
    )

IsTokenPath→is_token_path : (s : Text) → IsTokenPath s → is_token_path s ≡ true
unfolding is_token_path
IsTokenPath→is_token_path s (segment, n, f, e) =
    let cut = ap to_slash e ∙ to_slash-Free_id segment (codes "api/token") f in
    rw cut (rw (text_eq-nil segment n) (text_eq_refl (codes "/api/token")))

-- The same with or without a slash in front.
abbrev pub IsTokenRoute : Text → Type 0
IsTokenRoute path =
    IsTokenPath path ⊎ ((rest : Text) × (path ≡ codes "/" ++ rest) × IsTokenPath rest)

token-there :
    (path : Text) → is_token_path (trim_prefix path (codes "/")) ≡ true → IsTokenRoute path
unfolding trim_prefix
token-there [] h = inl (is_token_path→IsTokenPath [] h)
token-there (b ∷ s) h = elim (Bool-cases (b == b'/')) [
  | inl e ↦ inr (s, ground arith, is_token_path→IsTokenPath s (rw (e, trim_prefix) at h))
  | inr e ↦ inl (is_token_path→IsTokenPath (b ∷ s) (rw (e, trim_prefix) at h))
]

trim-IsTokenPath : (path : Text) → IsTokenPath path → trim_prefix path (codes "/") ≡ path
unfolding trim_prefix
trim-IsTokenPath [] t = refl
trim-IsTokenPath (b ∷ s) ([], n, f, e) = absurd (n refl)
trim-IsTokenPath (b ∷ s) (c ∷ segment, n, f, e) = ground arith

-- The paths of the requests for a session token, which are always let through if they are PUTs: an
-- optional slash, one segment that is not empty, and `/api/token`.
pub is_token_route_iff : (path : Text) → (is_token_route path ≡ true) ↔ IsTokenRoute path
unfolding is_token_route
is_token_route_iff path = (token-there path, back)
  where
    back : IsTokenRoute path → is_token_path (trim_prefix path (codes "/")) ≡ true
    back (inl t) = rw (trim-IsTokenPath path t) (IsTokenPath→is_token_path path t)
    back (inr (rest, e, t)) =
        rw (ap (λ p. trim_prefix p (codes "/")) e ∙ trim_prefix-append (codes "/") rest)
          (IsTokenPath→is_token_path rest t)

effective_regexp-nil :
    (r : Regexp)
    → r.source ≡ []
    → effective_regexp r ≡ record { source = codes "^$"; match_string = λ path. text_eq path [] }
unfolding effective_regexp
effective_regexp-nil r e = elim (Bool-cases (text_eq r.source [])) [
  | inl t ↦ rw t
  | inr t ↦ cc (t, ap (λ s. text_eq s []) e, text_eq_refl [])
]

abbrev pub denial : (Text → Text) → Text → Request → Text
denial quote source req =
    codes "request blocked by allow-route-regexp " ++ (quote source ++ (codes ": " ++ req.path))

-- A request that is not let through: 404 with the expression and the path, the request is counted as
-- denied, and nothing is written.
abbrev pub denied : (Text → Text) → Text → Request → Exchange → Handled × Exchange
denied quote source req x = (
  record { status = 404; error = some (denial quote source req) },
  record x { metrics = record (x.metrics) { proxy_denies = x.metrics.proxy_denies + 1 } },
)

module _ (quote : Text → Text) (r : Regexp) (req : Request) (x : Exchange) where
  no_token :
      (req.method ≢ codes "PUT") ⊎ (¬ IsTokenRoute req.path)
      → (text_eq req.method (codes "PUT") && is_token_route req.path) ≡ false
  no_token other = elim (Bool-cases (text_eq req.method (codes "PUT") && is_token_route req.path)) [
    | inr e ↦ e
    | inl e ↦ absurd (go other (and-true _ _ e))
  ]
    where
      go :
          (req.method ≢ codes "PUT") ⊎ (¬ IsTokenRoute req.path)
          → (text_eq req.method (codes "PUT") ≡ true) × (is_token_route req.path ≡ true)
          → ⊥
      go (inl n) (put, token) = n ((text_eq_iff _ _).0 put)
      go (inr n) (put, token) = n ((is_token_route_iff req.path).0 token)

  -- A request that the expression does not match and that is no PUT for a session token is answered
  -- with 404, whatever the backing service would have said: nothing is written, and it is counted
  -- as denied.
  handle_proxy-denied :
      (backing : Request → List Reply)
      → r.match_string req.path ≡ false
      → (req.method ≢ codes "PUT") ⊎ (¬ IsTokenRoute req.path)
      → handle_proxy quote backing r req x ≡ denied quote r.source req x
  unfolding handle_proxy is_proxied
  handle_proxy-denied backing m other = rw (m, no_token other) refl

-- `^$`
abbrev pub empty_only : Regexp
empty_only = record { source = codes "^$"; match_string = λ path. text_eq path [] }

-- The expression is empty, or `^$`.
abbrev pub DeniesAll : Regexp → Type 0
DeniesAll r = (r.source ≡ []) ⊎ (r ≡ empty_only)

effective_regexp-empty_only : (r : Regexp) → DeniesAll r → effective_regexp r ≡ empty_only
unfolding effective_regexp text_eq
effective_regexp-empty_only r (inl e) = effective_regexp-nil r e
effective_regexp-empty_only r (inr e) = ap effective_regexp e

-- With no expression given, or `^$`, every path but the empty one is denied, save PUTs for a session
-- token.
pub new_proxy_handler_default :
    (quote : Text → Text) (r : Regexp) (req : Request) (x : Exchange)
    (backing : Request → List Reply)
    → DeniesAll r
    → req.path ≢ []
    → (req.method ≢ codes "PUT") ⊎ (¬ IsTokenRoute req.path)
    → new_proxy_handler quote backing r req x ≡ denied quote (codes "^$") req x
unfolding new_proxy_handler
new_proxy_handler_default quote r req x backing e n other =
    ap (λ s. handle_proxy quote backing s req x) (effective_regexp-empty_only r e)
    ∙ handle_proxy-denied quote empty_only req x backing (text_eq-nil req.path n) other
