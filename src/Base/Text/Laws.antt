-- ===== src/Base/Text/Laws.antt =====
-- Laws of the text operations.
use Prim.Native.Nat.{ℕ}
use mathlib.Core.Path.{◌≡◌, refl}
use mathlib.Core.Logic.{◌↔◌, ◌≢◌, inl, inr}
use mathlib.Core.Bool.{true, false}
use mathlib.Core.List.{[], ◌∷◌, ◌++◌}
use mathlib.Core.Option.{some}
use native.Mathlib.Omega.{arith}
use kiam.Base.Tests.{Bool-cases}
use kiam.Base.Lists.{All}
use kiam.Base.Text.{Text, text_eq, strip_prefix, has_prefix, trim_prefix}

text_eq→eq : (s t : Text) → text_eq s t ≡ true → s ≡ t
unfolding text_eq
text_eq→eq [] [] h = refl
text_eq→eq [] (c ∷ t) h = cc
text_eq→eq (b ∷ s) [] h = cc
text_eq→eq (b ∷ s) (c ∷ t) h = ground (arith, text_eq→eq s t)

pub text_eq_refl : (s : Text) → text_eq s s ≡ true
unfolding text_eq
text_eq_refl [] = refl
text_eq_refl (b ∷ s) = ground (arith, text_eq_refl s)

pub text_eq_iff : (s t : Text) → (text_eq s t ≡ true) ↔ (s ≡ t)
text_eq_iff s t = (text_eq→eq s t, λ e. rw e (text_eq_refl t))

pub strip_prefix-append : (p s : Text) → strip_prefix p (p ++ s) ≡ some s
unfolding strip_prefix
strip_prefix-append [] s = refl
strip_prefix-append (c ∷ p) s = ground (arith, strip_prefix-append p s)

pub strip_prefix→eq : (p s r : Text) → strip_prefix p s ≡ some r → s ≡ p ++ r
unfolding strip_prefix
strip_prefix→eq [] s r h = ground arith
strip_prefix→eq (c ∷ p) [] r h = cc
strip_prefix→eq (c ∷ p) (b ∷ s) r h = ground (arith, strip_prefix→eq p s r)

pub trim_prefix-append : (p s : Text) → trim_prefix (p ++ s) p ≡ s
unfolding trim_prefix
trim_prefix-append p s = rw (strip_prefix-append p s, trim_prefix)

-- The byte does not stand in the text.
abbrev pub Free : ℕ → Text → Type 0
Free sep = All (λ b. b ≢ sep)

pub has_prefix-append_left : (p q s : Text) → has_prefix q p ≡ true → has_prefix (q ++ s) p ≡ true
unfolding has_prefix
has_prefix-append_left [] q s h = refl
has_prefix-append_left (c ∷ p) [] s h = cc
has_prefix-append_left (c ∷ p) (b ∷ q) s h = ground (arith, has_prefix-append_left p q s)

-- A separator that is free in both first parts divides a text in one way.
pub Free-split_unique :
    (sep : ℕ) (p q s t : Text)
    → Free sep p
    → Free sep q
    → p ++ sep ∷ s ≡ q ++ sep ∷ t
    → (p ≡ q) × (s ≡ t)
Free-split_unique sep [] [] s t f g e = ground arith
Free-split_unique sep [] (c ∷ q) s t f g e = ground arith
Free-split_unique sep (b ∷ p) [] s t f g e = ground arith
Free-split_unique sep (b ∷ p) (c ∷ q) s t f g e =
    ground (arith, Free-split_unique sep p q s t f.1 g.1)

pub text_eq-nil : (s : Text) → s ≢ [] → text_eq s [] ≡ false
unfolding text_eq
text_eq-nil [] h = absurd (h refl)
text_eq-nil (b ∷ s) h = refl

pub text_eq-false : (s t : Text) → s ≢ t → text_eq s t ≡ false
text_eq-false s t other = elim (Bool-cases (text_eq s t)) [
  | inl e ↦ absurd (other (text_eq→eq s t e))
  | inr e ↦ e
]
