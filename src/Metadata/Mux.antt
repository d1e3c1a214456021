-- ===== src/Metadata/Mux.antt =====
-- The router of github.com/gorilla/mux, by its documentation: the routes are tried in the order in
-- which they were added, a variable `{name}` is anything up to the next slash, and `{name:pattern}` is
-- what the pattern matches.
use kiam.Base.{Bool, true, ◌≡◌, ◌≢◌, ◌++◌, Option, none, some, List, [], ◌∷◌}
use kiam.Base.Text.{Text, codes, has_prefix}
use kiam.Base.Text.Laws.{Free}
use kiam.Metadata.Http.{Request, Exchange}

-- The pieces of a template: `{name}` and `{name:.*}` are variables.
pub data Piece : Type 0 where
  literal : Text → Piece
  segment : Text → Piece
  any : Text → Piece

abbrev pub Vars : Type 0
Vars = List (Text × Text)

-- http.HandlerFunc
abbrev pub HttpHandler : Type 0
HttpHandler = Request → Exchange → Exchange

-- router.Handle and HandleFunc, and router.PathPrefix with Handler.
pub data Route : Type 0 where
  path_route : List Piece → (Vars → HttpHandler) → Route
  prefix_route : Text → HttpHandler → Route

abbrev pub IsSegment : Text → Type 0
IsSegment s = (s ≢ []) × Free b'/' s

-- The matching of templates, as far as the program's go: a text; a segment before a text that begins
-- with a slash; the same with anything but newlines behind it.
pub record Mux : Type 0 where
  pub matches : List Piece → Text → Option Vars
  pub literal_matches : (t : Text) → matches (literal t ∷ []) t ≡ some []
  pub literal_only : (t p : Text) {vars : Vars} → matches (literal t ∷ []) p ≡ some vars → p ≡ t
  pub segment_matches :
      (name value rest : Text)
      → IsSegment value
      → matches
          (literal (codes "/") ∷ segment name ∷ literal (b'/' ∷ rest) ∷ [])
          (b'/' ∷ (value ++ b'/' ∷ rest))
        ≡ some ((name, value) ∷ [])
  pub segment_only :
      (name rest p : Text) {vars : Vars}
      → matches (literal (codes "/") ∷ segment name ∷ literal (b'/' ∷ rest) ∷ []) p ≡ some vars
      → (value : Text) × IsSegment value × (p ≡ b'/' ∷ (value ++ b'/' ∷ rest))
  pub any_matches :
      (name value rest tail end : Text)
      → IsSegment value
      → Free 10 end
      → matches
          (literal (codes "/") ∷ segment name ∷ literal (b'/' ∷ rest) ∷ any tail ∷ [])
          (b'/' ∷ (value ++ b'/' ∷ (rest ++ end)))
        ≡ some ((name, value) ∷ (tail, end) ∷ [])
  pub any_only :
      (name rest tail p : Text) {vars : Vars}
      → matches (literal (codes "/") ∷ segment name ∷ literal (b'/' ∷ rest) ∷ any tail ∷ []) p
        ≡ some vars
      → (value end : Text) × IsSegment value
        × Free 10 end
        × (p ≡ b'/' ∷ (value ++ b'/' ∷ (rest ++ end)))
  -- Paths with no `.`, `..` or doubled slashes; others are redirected.
  pub is_clean : Text → Bool
  -- ServeHTTP
  pub serve_http : List Route → HttpHandler
  pub serve_first :
      (template : List Piece) (handler : Vars → HttpHandler) (rest : List Route) (req : Request)
      (x : Exchange) {vars : Vars}
      → is_clean req.path ≡ true
      → matches template req.path ≡ some vars
      → serve_http (path_route template handler ∷ rest) req x ≡ handler vars req x
  pub serve_next :
      (template : List Piece) (handler : Vars → HttpHandler) (rest : List Route) (req : Request)
      (x : Exchange)
      → is_clean req.path ≡ true
      → matches template req.path ≡ none
      → serve_http (path_route template handler ∷ rest) req x ≡ serve_http rest req x
  pub serve_prefix :
      (prefix : Text) (handler : HttpHandler) (rest : List Route) (req : Request) (x : Exchange)
      → is_clean req.path ≡ true
      → has_prefix req.path prefix ≡ true
      → serve_http (prefix_route prefix handler ∷ rest) req x ≡ handler req x
