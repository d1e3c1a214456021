-- ===== src/Base/Keep.antt =====
-- Filtering by a Boolean test, and what does not depend on the order of a list.
use mathlib.Core.List.{Permᴰ}
use mathlib.Core.List.Permᴰ
use mathlib.Core.Logic.{inl, inr}
use kiam.Base.Tests.{Bool-cases, if◌then◌else◌}
use mathlib.Core.Path.{◌≡◌, refl, sym, ap, ◌∙◌}
use mathlib.Core.Bool.{Bool, true, false, ◌&&◌, ◌||◌}
use mathlib.Core.List.{List, [], ◌∷◌}
use native.Mathlib.Omega.{arith}
use Prim.Native.Nat.{ℕ, suc}
use mathlib.Core.Option.{some}
use kiam.Base.Lists.{get_elem?, All}

module _ {ℓ} {A : Type ℓ} where
  unfoldable pub keep : (A → Bool) → List A → List A
  keep f [] = []
  keep f (x ∷ xs) = if f x then x ∷ keep f xs else keep f xs

  unfoldable pub any : (A → Bool) → List A → Bool
  any f [] = false
  any f (x ∷ xs) = f x || any f xs

  pub keep-keep : (f g : A → Bool) (xs : List A) → keep f (keep g xs) ≡ keep (λ x. f x && g x) xs
  unfolding keep
  keep-keep f g [] = refl
  keep-keep f g (x ∷ xs) = ground (arith, keep-keep f g xs)

  keep-swap :
      (f : A → Bool) (a b a' b' : A) (l : List A)
      → a ≡ b'
      → b ≡ a'
      → Permᴰ (keep f (a ∷ b ∷ l)) (keep f (a' ∷ b' ∷ l))
  unfolding keep
  keep-swap f a b a' b' l e d = elim (Bool-cases (f a)) [
    | inl t ↦ elim (Bool-cases (f b)) [
      | inl u ↦ rw (t, u, sym (ap f d) ∙ u, sym (ap f e) ∙ t) (Permᴰ.swap e d)
      | inr u ↦ rw (t, u, sym (ap f d) ∙ u, sym (ap f e) ∙ t) (Permᴰ.cons e (Permᴰ.refl _))
    ]
    | inr t ↦ elim (Bool-cases (f b)) [
      | inl u ↦ rw (t, u, sym (ap f d) ∙ u, sym (ap f e) ∙ t) (Permᴰ.cons d (Permᴰ.refl _))
      | inr u ↦ rw (t, u, sym (ap f d) ∙ u, sym (ap f e) ∙ t) (Permᴰ.refl _)
    ]
  ]

  pub keep-Permᴰ : (f : A → Bool) {xs ys : List A} → Permᴰ xs ys → Permᴰ (keep f xs) (keep f ys)
  unfolding keep
  keep-Permᴰ f Permᴰ.nil = Permᴰ.nil
  keep-Permᴰ f (Permᴰ.cons {a} {b} e p) = elim (Bool-cases (f a)) [
    | inl t ↦ rw (t, sym (ap f e) ∙ t) (Permᴰ.cons e (keep-Permᴰ f p))
    | inr t ↦ rw (t, sym (ap f e) ∙ t) (keep-Permᴰ f p)
  ]
  keep-Permᴰ f (Permᴰ.swap {a} {b} {a'} {b'} {l} e d) = keep-swap f a b a' b' l e d
  keep-Permᴰ f (Permᴰ.trans p q) = Permᴰ.trans (keep-Permᴰ f p) (keep-Permᴰ f q)

  pub any-Permᴰ : (f : A → Bool) {xs ys : List A} → Permᴰ xs ys → any f xs ≡ any f ys
  unfolding any
  any-Permᴰ f Permᴰ.nil = refl
  any-Permᴰ f (Permᴰ.cons e p) = cc (any-Permᴰ f p, ap f e)
  any-Permᴰ f (Permᴰ.swap {a} {b} {a'} {b'} {l} e d) = ground (arith, ap f e, ap f d)
  any-Permᴰ f (Permᴰ.trans p q) = any-Permᴰ f p ∙ any-Permᴰ f q

  abbrev pub is_nil : List A → Bool
  is_nil [] = true
  is_nil (x ∷ xs) = false

  pub is_nil-Permᴰ : {xs ys : List A} → Permᴰ xs ys → is_nil xs ≡ is_nil ys
  is_nil-Permᴰ Permᴰ.nil = refl
  is_nil-Permᴰ (Permᴰ.cons e p) = refl
  is_nil-Permᴰ (Permᴰ.swap e d) = refl
  is_nil-Permᴰ (Permᴰ.trans p q) = is_nil-Permᴰ p ∙ is_nil-Permᴰ q

  pub any-keep : (f g : A → Bool) (xs : List A) → any f (keep g xs) ≡ any (λ x. g x && f x) xs
  unfolding any keep
  any-keep f g [] = refl
  any-keep f g (x ∷ xs) = ground (arith, any-keep f g xs)

  -- Where the test holds of some element.
  pub any-true :
      (f : A → Bool) (xs : List A)
      → any f xs ≡ true
      → (n : ℕ) × (x : A) × (get_elem? xs n ≡ some x) × (f x ≡ true)
  unfolding any
  any-true f [] h = cc
  any-true f (x ∷ xs) h = elim (Bool-cases (f x)) [
    | inl e ↦ (0, x, refl, e)
    | inr e ↦ let (n, y, at_n, holds) = any-true f xs (rw e at h) in (suc n, y, at_n, holds)
  ]

  pub any-false : (f : A → Bool) (xs : List A) → any f xs ≡ false → All (λ x. f x ≡ false) xs
  unfolding any
  any-false f [] h = tt
  any-false f (x ∷ xs) h = elim (Bool-cases (f x)) [
    | inl e ↦ cc (rw e at h)
    | inr e ↦ (e, any-false f xs (rw e at h))
  ]
