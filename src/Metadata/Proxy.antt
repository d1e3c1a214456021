-- ===== src/Metadata/Proxy.antt =====
-- pkg/aws/metadata/handler_proxy.go. A compiled regular expression and the backing service are
-- parameters; the one expression that the program fixes is a function on texts.
pub mod Laws
pub mod Logged
use kiam.Base.{
  ℕ, zero, suc, ◌+◌, Bool, true, false, not, ◌&&◌, ◌||◌, ◌++◌, Option, none, some, List, [], ◌∷◌,
  if◌then◌else◌, ◌==◌,
}
use kiam.Base.Text.{Text, codes, text_eq, has_prefix, trim_prefix}
use kiam.Metadata.Http.{
  Request, ResponseWriter, Exchange, Handled, Handler, set_header, write_header, write,
}

-- regexp.Regexp: String and MatchString
pub record Regexp : Type 0 where
  pub source : Text
  pub match_string : Text → Bool

-- What a text is up to its first slash, and the rest from the slash on.
pub to_slash : Text → Text × Text
to_slash [] = ([], [])
to_slash (b ∷ s) =
    let (front, rest) = to_slash s in if b == b'/' then ([], b ∷ s) else (b ∷ front, rest)

-- `[^/]+/api/token$`, from the beginning of the text
is_token_path : Text → Bool
unfolding to_slash text_eq
is_token_path s =
    let (front, rest) = to_slash s in not (text_eq front []) && text_eq rest (codes "/api/token")

-- tokenRouteRegexp, `^/?[^/]+/api/token$`: what follows an optional slash holds no slash at first.
pub is_token_route : Text → Bool
unfolding is_token_path trim_prefix
is_token_route path = is_token_path (trim_prefix path (codes "/"))

-- The calls that the backing service makes on its response writer and on the header of it, which
-- teeWriter passes on.
pub data Reply : Type 0 where
  set_header_reply : Text → Text → Reply
  write_header_reply : ℕ → Reply
  write_reply : Text → Reply

-- teeWriter: the status of the last WriteHeader, 200 if there is none.
pub record TeeWriter : Type 0 where
  pub inner : ResponseWriter
  pub status : ℕ

pub reply : TeeWriter → List Reply → TeeWriter
unfolding write_header write set_header
reply t [] = t
reply t (set_header_reply key value ∷ rest) =
    reply (record t { inner = set_header key value t.inner }) rest
reply t (write_header_reply status ∷ rest) =
    reply (record { inner = write_header status t.inner; status = status }) rest
reply t (write_reply text ∷ rest) = reply (record t { inner = write text t.inner }) rest

is_proxied : Regexp → Request → Bool
unfolding is_token_route
is_proxied allow_route_regexp r =
    allow_route_regexp.match_string r.path
    || (text_eq r.method (codes "PUT") && is_token_route r.path)

-- `quote` is the quoting of %q in a format.
module _ (quote : Text → Text) (backing_service : Request → List Reply)
    (allow_route_regexp : Regexp) where
  -- proxyHandler.Handle; the address is taken off the request that the backing service gets.
  handle_proxy : Handler
  unfolding is_proxied reply
  handle_proxy r x =
      if is_proxied allow_route_regexp r
      then (let t =
            reply (record { inner = x.writer; status = 200 })
              (backing_service (record r { remote_addr = [] })) in
          (
            record { status = t.status; error = none },
            record {
              writer = t.inner;
              metrics = record (x.metrics) {
                success = if t.status == 200 then x.metrics.success + 1 else x.metrics.success;
              };
            },
          ))
      else (
        record {
          status = 404;
          error = some (
              codes "request blocked by allow-route-regexp "
              ++ (quote allow_route_regexp.source ++ (codes ": " ++ r.path)));
        },
        record x { metrics = record (x.metrics) { proxy_denies = x.metrics.proxy_denies + 1 } },
      )

-- newProxyHandler: an empty expression is replaced by `^$`, which matches the empty text alone.
effective_regexp : Regexp → Regexp
effective_regexp r =
    if text_eq r.source []
    then record { source = codes "^$"; match_string = λ path. text_eq path [] }
    else r

pub new_proxy_handler : (Text → Text) → (Request → List Reply) → Regexp → Handler
unfolding effective_regexp handle_proxy
new_proxy_handler quote backing_service r = handle_proxy quote backing_service (effective_regexp r)
