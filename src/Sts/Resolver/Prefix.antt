-- ===== src/Sts/Resolver/Prefix.antt =====
-- The prefix that is detected from the instance's ARN is a base ARN.
use kiam.Base.{
  ℕ, ◌++◌, ◌≡◌, refl, true, some, List, [], ◌∷◌, arith, ◌≢◌, inl, inr, Option-cases, sym, ◌∙◌,
}
use mathlib.Core.List.{append_assoc}
use kiam.Base.Lists.{All, get_elem?, take}
use kiam.Base.Text.{Text, codes, has_prefix, split, join, cons_head}
use kiam.Base.Text.Laws.{Free}
use kiam.Base.Outcome.{ok, ok-injective}
use kiam.Sts.Resolver.{base_arn}
use kiam.Sts.Resolver.Fields.{after, after-Free}
use kiam.Sts.Resolver.Laws.{IsBase}

cons_head-Free :
    (sep b : ℕ) (ps : List Text) → b ≢ sep → All (Free sep) ps → All (Free sep) (cons_head b ps)
cons_head-Free sep b [] n f = ((n, tt), tt)
cons_head-Free sep b (p ∷ ps) n f = ((n, f.0), f.1)

-- Split leaves no separator in a piece.
split-Free : (sep : ℕ) (s : Text) → All (Free sep) (split sep s)
unfolding split
split-Free sep [] = (tt, tt)
split-Free sep (b ∷ s) = ground (arith, split-Free sep s, cons_head-Free sep b (split sep s))

-- Five pieces joined by a separator that stands in none of them.
after-join :
    (sep : ℕ) (ps : List Text) (piece rest : Text)
    → All (Free sep) ps
    → get_elem? ps 4 ≡ some piece
    → after sep 5 (join (sep ∷ []) (take 5 ps) ++ sep ∷ rest) ≡ some rest
unfolding join
after-join sep (a ∷ b ∷ c ∷ d ∷ e ∷ ps) piece rest f h = simp append_assoc (
    after-Free sep 4 a _ f.0
    ∙ after-Free sep 3 b _ f.1.0
    ∙ after-Free sep 2 c _ f.1.1.0
    ∙ after-Free sep 1 d _ f.1.1.1.0
    ∙ after-Free sep 0 e _ f.1.1.1.1.0)
after-join sep [] piece rest f h = cc
after-join sep (a ∷ []) piece rest f h = cc
after-join sep (a ∷ b ∷ []) piece rest f h = cc
after-join sep (a ∷ b ∷ c ∷ []) piece rest f h = cc
after-join sep (a ∷ b ∷ c ∷ d ∷ []) piece rest f h = cc

base_arn-eq-ok :
    (arn p : Text)
    → base_arn arn ≡ ok p
    → (piece : Text) × (get_elem? (split b':' arn) 4 ≡ some piece)
      × (p ≡ join (codes ":") (take 5 (split b':' arn)) ++ codes ":role/")
unfolding base_arn
base_arn-eq-ok arn p h = elim (Option-cases (get_elem? (split b':' arn) 4)) [
  | inl e ↦ cc (rw (e, base_arn) at h)
  | inr (piece, e) ↦ (piece, e, sym (ok-injective (rw (e, base_arn) at h)))
]

scheme_of_join :
    (ps : List Text) (piece rest : Text)
    → get_elem? ps 3 ≡ some piece
    → has_prefix (join (codes ":") (codes "arn" ∷ take 4 ps) ++ rest) (codes "arn:") ≡ true
unfolding join has_prefix
scheme_of_join [] piece rest h = cc
scheme_of_join (q ∷ ps) piece rest h = refl

-- A prefix that is detected from an instance profile's ARN is a base ARN, as `resolve` wants it.
pub base_arn-IsBase : (s p : Text) → base_arn (codes "arn:" ++ s) ≡ ok p → IsBase p
unfolding split
base_arn-IsBase s p h =
    let (piece, found, shape) = base_arn-eq-ok (codes "arn:" ++ s) p h in
    rw shape (record {
      scheme = scheme_of_join (split b':' s) piece (codes ":role/") found;
      path =
          after-join b':' (split b':' (codes "arn:" ++ s)) piece (codes "role/")
            (split-Free b':' (codes "arn:" ++ s)) found;
    })
