-- ===== src/Metadata/Server/Routes.antt =====
-- Which handler gets the requests for a role's name and for credentials.
use kiam.Base.{ℕ, arith, ◌≡◌, ◌≢◌, refl, sym, ◌∙◌, true, ◌++◌, Option, none, some, [], ◌∷◌}
use mathlib.Core.Path.{subst}
use kiam.Base.Text.{Text, codes, text_eq}
use kiam.Base.Text.Laws.{Free, Free-split_unique}
use kiam.Metadata.Http.{Request, Exchange}
use kiam.Metadata.Mux.{literal, segment, IsSegment}
use kiam.Metadata.Server.{
  ServerOptions, Client, Url, Web, routes, trailing_slash_suffix_redirect_handler, serve_role_name,
  serve_credentials_of, var,
}

not-Free : (sep : ℕ) (s t : Text) → ¬ Free sep (s ++ sep ∷ t)
not-Free sep [] t f = f.0 refl
not-Free sep (b ∷ s) t f = not-Free sep s t f.1

append_cancel : (p s t : Text) → p ++ s ≡ p ++ t → s ≡ t
append_cancel [] s t e = e
append_cancel (c ∷ p) s t e = append_cancel p s t (ground arith)

nothing {ℓ} : {A : Type ℓ} (o : Option A) → ((a : A) → o ≢ some a) → o ≡ none
nothing none h = refl
nothing (some a) h = absurd (h a refl)

abbrev pub credentials_prefix : Text
credentials_prefix = codes "meta-data/iam/security-credentials/"

abbrev pub credentials_name : Text
credentials_name = codes "meta-data/iam/security-credentials"

module _ (web : Web) (req : Request) (x : Exchange) where
  module _ (version : Text) (is_segment : IsSegment version) where
    -- `/{version}/` and the rest
    abbrev pub below : Text → Text
    below rest = b'/' ∷ (version ++ b'/' ∷ rest)

    abbrev pub at : Text → Request
    at path = record req { path = path }

    literal-none :
        (name rest : Text)
        → Free b'/' name
        → web.mux.matches (literal (b'/' ∷ name) ∷ []) (below rest) ≡ none
    literal-none name rest f = nothing _ (λ vars h.
        let e = web.mux.literal_only (b'/' ∷ name) (below rest) h in
        not-Free b'/' version rest (subst (Free b'/') (sym (append_cancel (codes "/") _ _ e)) f))

    segment-none :
        (rest other : Text)
        → rest ≢ other
        → web.mux.matches
            (literal (codes "/") ∷ segment (codes "version") ∷ literal (b'/' ∷ other) ∷ [])
            (below rest)
          ≡ none
    segment-none rest other ne = nothing _ (λ vars h.
        let (v, s, e) = web.mux.segment_only (codes "version") other (below rest) h in
        ne (
          (Free-split_unique b'/' version v rest other is_segment.1 s.1
            (append_cancel (codes "/") _ _ e)).1))

    slash_role : (role : Text) → role ≢ [] → credentials_prefix ++ role ≢ credentials_prefix
    slash_role role ne e = ne (append_cancel credentials_prefix role [] e)

    name_role : (role : Text) → credentials_prefix ++ role ≢ credentials_name
    name_role role e = cc (append_cancel credentials_name (b'/' ∷ role) [] e)

    name_prefix : credentials_name ≢ credentials_prefix
    name_prefix e = cc (append_cancel credentials_name [] (b'/' ∷ []) e)

    module _ (config : ServerOptions) (client : Client) (url : Url) where
      -- The router's answer to the request with another path.
      abbrev pub routed : Text → Exchange
      routed path = web.mux.serve_http (routes web config client url) (at path) x

      pub routed-credentials :
          (role : Text)
          → role ≢ []
          → Free 10 role
          → web.mux.is_clean (below (credentials_prefix ++ role)) ≡ true
          → routed (below (credentials_prefix ++ role))
            ≡ serve_credentials_of web config client role
                (at (below (credentials_prefix ++ role)))
                x
      unfolding routes var text_eq
      routed-credentials role ne f clean =
          let r = at (below (credentials_prefix ++ role)) in
          web.mux.serve_next _ _ _ r x clean (literal-none (codes "ping") _ (ground arith))
          ∙ web.mux.serve_next _ _ _ r x clean (literal-none (codes "health") _ (ground arith))
          ∙ web.mux.serve_next _ _ _ r x clean
              (segment-none _ credentials_prefix (slash_role role ne))
          ∙ web.mux.serve_next _ _ _ r x clean (segment-none _ credentials_name (name_role role))
          ∙ web.mux.serve_first _ _ _ r x clean (
              web.mux.any_matches (codes "version") version credentials_prefix (codes "role") role
                is_segment f)

      routed-role_name :
          web.mux.is_clean (below credentials_prefix) ≡ true
          → routed (below credentials_prefix)
            ≡ serve_role_name web config client (at (below credentials_prefix)) x
      unfolding routes
      routed-role_name clean =
          let r = at (below credentials_prefix) in
          web.mux.serve_next _ _ _ r x clean (literal-none (codes "ping") _ (ground arith))
          ∙ web.mux.serve_next _ _ _ r x clean (literal-none (codes "health") _ (ground arith))
          ∙ web.mux.serve_first _ _ _ r x clean
              (web.mux.segment_matches (codes "version") version credentials_prefix is_segment)

      routed-redirect :
          web.mux.is_clean (below credentials_name) ≡ true
          → routed (below credentials_name)
            ≡ trailing_slash_suffix_redirect_handler web (at (below credentials_name)) x
      unfolding routes
      routed-redirect clean =
          let r = at (below credentials_name) in
          web.mux.serve_next _ _ _ r x clean (literal-none (codes "ping") _ (ground arith))
          ∙ web.mux.serve_next _ _ _ r x clean (literal-none (codes "health") _ (ground arith))
          ∙ web.mux.serve_next _ _ _ r x clean (segment-none _ credentials_prefix name_prefix)
          ∙ web.mux.serve_first _ _ _ r x clean
              (web.mux.segment_matches (codes "version") version credentials_name is_segment)

      -- Whatever the options allow to be proxied, clean paths of credentials under any version do not
      -- reach the metadata service: with a role behind the slash, of any bytes but a newline, they are
      -- for the handler of credentials and that role; with none, for the handler of the role's name;
      -- and without the slash they are redirected.
      pub security_credentials_routes :
          (role : Text)
          → role ≢ []
          → Free 10 role
          → web.mux.is_clean (below (credentials_prefix ++ role)) ≡ true
          → web.mux.is_clean (below credentials_prefix) ≡ true
          → web.mux.is_clean (below credentials_name) ≡ true
          → (routed (below (credentials_prefix ++ role))
              ≡ serve_credentials_of web config client role
                  (at (below (credentials_prefix ++ role)))
                  x)
            × (routed (below credentials_prefix)
                ≡ serve_role_name web config client (at (below credentials_prefix)) x)
            × (routed (below credentials_name)
                ≡ trailing_slash_suffix_redirect_handler web (at (below credentials_name)) x)
      security_credentials_routes role ne f c d e =
          (routed-credentials role ne f c, routed-role_name d, routed-redirect e)
