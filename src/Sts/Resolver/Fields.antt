-- ===== src/Sts/Resolver/Fields.antt =====
-- The fields of a text that a separator divides: what stands behind the k-th separator.
use kiam.Base.{
  ℕ, zero, suc, ◌+◌, ◌<◌, ◌++◌, ◌≡◌, refl, true, false, Option, none, some, [], ◌∷◌, arith, ◌==◌,
  List, if◌then◌else◌,
}
use kiam.Base.Lists.{get_elem?}
use kiam.Base.Text.{Text, split_after, cons_head}
use kiam.Base.Text.Laws.{Free}

-- What follows the k-th separator, if there are so many.
abbrev pub after : ℕ → ℕ → Text → Option Text
after sep zero s = some s
after sep (suc k) [] = none
after sep (suc k) (b ∷ s) = elim (b == sep) [ true ↦ after sep k s | false ↦ after sep (suc k) s ]

abbrev pub count : ℕ → Text → ℕ
count sep [] = 0
count sep (b ∷ s) = (if b == sep then 1 else 0) + count sep s

get_elem?-cons_head :
    (b k : ℕ) (ps : List Text) → get_elem? (cons_head b ps) (suc k) ≡ get_elem? ps (suc k)
get_elem?-cons_head b k [] = refl
get_elem?-cons_head b k (p ∷ ps) = refl

pub get_elem?-split_after :
    (sep k : ℕ) (s : Text) → get_elem? (split_after sep k s) k ≡ after sep k s
unfolding split_after
get_elem?-split_after sep zero s = refl
get_elem?-split_after sep (suc k) [] = refl
get_elem?-split_after sep (suc k) (b ∷ s) = ground (
  arith,
  get_elem?-split_after sep k s,
  get_elem?-split_after sep (suc k) s,
  get_elem?-cons_head b k (split_after sep (suc k) s),
)

pub after-eq-none→lt : (sep k : ℕ) (s : Text) → after sep k s ≡ none → count sep s < k
after-eq-none→lt sep zero s h = cc
after-eq-none→lt sep (suc k) [] h = omega arith
after-eq-none→lt sep (suc k) (b ∷ s) h =
    ground (arith, after-eq-none→lt sep k s, after-eq-none→lt sep (suc k) s)

pub lt→after-eq-none : (sep k : ℕ) (s : Text) → count sep s < k → after sep k s ≡ none
lt→after-eq-none sep zero s h = absurd (omega arith)
lt→after-eq-none sep (suc k) [] h = refl
lt→after-eq-none sep (suc k) (b ∷ s) h =
    ground (arith, lt→after-eq-none sep k s, lt→after-eq-none sep (suc k) s)

pub after-append :
    (sep k : ℕ) (p s r : Text) → after sep k p ≡ some r → after sep k (p ++ s) ≡ some (r ++ s)
after-append sep zero p s r h = ground arith
after-append sep (suc k) [] s r h = cc
after-append sep (suc k) (b ∷ p) s r h =
    ground (arith, after-append sep k p s r, after-append sep (suc k) p s r)

pub after-Free :
    (sep k : ℕ) (p s : Text) → Free sep p → after sep (suc k) (p ++ sep ∷ s) ≡ after sep k s
after-Free sep k [] s f = ground arith
after-Free sep k (b ∷ p) s f = ground (arith, after-Free sep k p s f.1)
