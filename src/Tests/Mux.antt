-- ===== src/Tests/Mux.antt =====
-- A router's matching of templates that has the properties that are asked of it.
use kiam.Base.{
  ℕ, Bool, true, false, ◌≡◌, refl, ap, ◌∙◌, ◌++◌, inl, inr, Bool-cases, Option, none, some,
  Option-cases, List, [], ◌∷◌, if◌then◌else◌, ◌==◌, arith,
}
use mathlib.Core.Path.{subst}
use mathlib.Core.Option.{some-injective}
use kiam.Base.Text.{Text, codes, text_eq, strip_prefix, has_prefix}
use kiam.Base.Text.Laws.{
  Free, text_eq_iff, text_eq_refl, text_eq-nil, strip_prefix-append, strip_prefix→eq,
}
use kiam.Metadata.Proxy.{to_slash}
use kiam.Metadata.Proxy.Laws.{to_slash-append, to_slash-Free, to_slash-Free_id}
use kiam.Metadata.Mux.{
  Piece, literal, segment, any, Vars, HttpHandler, Route, path_route, prefix_route, IsSegment, Mux,
}

-- The first segment of a path and the rest.
abbrev first_segment : Text × Text → Option (Text × Text)
first_segment (front, rest) = if text_eq front [] then none else some (front, rest)

abbrev pub cut : Text → Option (Text × Text)
cut [] = none
cut (c ∷ s) = if c == b'/' then first_segment (to_slash s) else none

pub cut-matches :
    (v rest : Text) → IsSegment v → cut (b'/' ∷ (v ++ b'/' ∷ rest)) ≡ some (v, b'/' ∷ rest)
cut-matches v rest s = rw (to_slash-Free_id v rest s.1) (rw (text_eq-nil v s.0))

slash : (c : ℕ) (s : Text) → c == b'/' ≡ true → c ∷ s ≡ b'/' ∷ s
slash c s h = ground arith

cut-only : (p v r : Text) → cut p ≡ some (v, r) → IsSegment v × (p ≡ b'/' ∷ (v ++ r))
cut-only [] v r h = cc
cut-only (c ∷ s) v r h = elim (Bool-cases (c == b'/')) [
  | inr n ↦ cc (rw n at h)
  | inl y ↦ elim (Bool-cases (text_eq (to_slash s).0 [])) [
    | inl e ↦ cc (rw e at (rw y at h))
    | inr e ↦
        let both = some-injective _ _ (rw e at (rw y at h)) in
        let front = ap (λ (t : Text × Text). t.0) both in
        let rest = ap (λ (t : Text × Text). t.1) both in
        (
          (
            λ empty. cc (e, (text_eq_iff (to_slash s).0 []).1 (front ∙ empty)),
            subst (Free b'/') front (to_slash-Free s),
          ),
          slash c s y ∙ ap (λ t. b'/' ∷ t) (to_slash-append s ∙ λ i. front i ++ rest i),
        )
  ]
]

abbrev one_line : Text → Bool
one_line [] = true
one_line (b ∷ s) = let rest = one_line s in if b == 10 then false else rest

one_line-Free : (s : Text) → one_line s ≡ true → Free 10 s
one_line-Free [] h = tt
one_line-Free (b ∷ s) h = ground (arith, one_line-Free s)

pub Free-one_line : (s : Text) → Free 10 s → one_line s ≡ true
Free-one_line [] h = refl
Free-one_line (b ∷ s) h = ground (arith, Free-one_line s h.1)

abbrev pub matches : List Piece → Text → Option Vars
matches (literal t ∷ []) p = if text_eq p t then some [] else none
matches (literal a ∷ segment n ∷ literal b ∷ []) p = elim (cut p) [
  | none ↦ none
  | some (v, r) ↦ if text_eq r b then some ((n, v) ∷ []) else none
]
matches (literal a ∷ segment n ∷ literal b ∷ any m ∷ []) p = elim (cut p) [
  | none ↦ none
  | some (v, r) ↦ elim (strip_prefix b r) [
    | none ↦ none
    | some end ↦ if one_line end then some ((n, v) ∷ (m, end) ∷ []) else none
  ]
]
matches _ p = none

pub literal_only : (t p : Text) {vars : Vars} → matches (literal t ∷ []) p ≡ some vars → p ≡ t
literal_only t p h = elim (Bool-cases (text_eq p t)) [
  | inl e ↦ (text_eq_iff p t).0 e
  | inr e ↦ cc (rw e at h)
]

pub segment_only :
    (name rest p : Text) {vars : Vars}
    → matches (literal (codes "/") ∷ segment name ∷ literal (b'/' ∷ rest) ∷ []) p ≡ some vars
    → (value : Text) × IsSegment value × (p ≡ b'/' ∷ (value ++ b'/' ∷ rest))
segment_only name rest p h = elim (Option-cases (cut p)) [
  | inl e ↦ cc (rw (e, matches) at h)
  | inr ((v, r), e) ↦ elim (Bool-cases (text_eq r (b'/' ∷ rest))) [
    | inl t ↦
        let (s, shape) = cut-only p v r e in
        (v, s, shape ∙ ap (λ u. b'/' ∷ (v ++ u)) ((text_eq_iff r (b'/' ∷ rest)).0 t))
    | inr t ↦ cc (rw t at (rw (e, matches) at h))
  ]
]

pub any_only :
    (name rest tail p : Text) {vars : Vars}
    → matches (literal (codes "/") ∷ segment name ∷ literal (b'/' ∷ rest) ∷ any tail ∷ []) p
      ≡ some vars
    → (value end : Text) × IsSegment value
      × Free 10 end
      × (p ≡ b'/' ∷ (value ++ b'/' ∷ (rest ++ end)))
any_only name rest tail p h = elim (Option-cases (cut p)) [
  | inl e ↦ cc (rw (e, matches) at h)
  | inr ((v, r), e) ↦ elim (Option-cases (strip_prefix (b'/' ∷ rest) r)) [
    | inl t ↦ cc (rw t at (rw (e, matches) at h))
    | inr (end, t) ↦ elim (Bool-cases (one_line end)) [
      | inl o ↦
          let (s, shape) = cut-only p v r e in
          (
            v,
            end,
            s,
            one_line-Free end o,
            shape ∙ ap (λ u. b'/' ∷ (v ++ u)) (strip_prefix→eq (b'/' ∷ rest) r end t),
          )
      | inr o ↦ cc (rw o at (rw t at (rw (e, matches) at h)))
    ]
  ]
]

abbrev pub serve_http : List Route → HttpHandler
serve_http [] req x = x
serve_http (path_route template handler ∷ rest) req x = elim (matches template req.path) [
  | none ↦ serve_http rest req x
  | some vars ↦ handler vars req x
]
serve_http (prefix_route prefix handler ∷ rest) req x =
    let others = serve_http rest req x in
    if has_prefix req.path prefix then handler req x else others

abbrev pub mux : Mux
mux = record {
  matches = matches;
  literal_matches = λ t. rw (text_eq_refl t);
  literal_only = literal_only;
  segment_matches =
      λ name value rest s. rw (cut-matches value rest s, matches) (rw (text_eq_refl (b'/' ∷ rest)));
  segment_only = segment_only;
  any_matches = λ name value rest tail end s f.
      rw (cut-matches value (rest ++ end) s, matches)
        (rw (strip_prefix-append (b'/' ∷ rest) end) (rw (Free-one_line end f)));
  any_only = any_only;
  is_clean = λ path. true;
  serve_http = serve_http;
  serve_first = λ template handler rest req x c m. rw (m, serve_http);
  serve_next = λ template handler rest req x c m. rw (m, serve_http);
  serve_prefix = λ prefix handler rest req x c h. rw (h, serve_http);
}
