-- ===== src/Base/Total.antt =====
-- Sums over lists, of native numbers.
use Prim.Native.Nat.{ℕ, zero, suc, ◌+◌}
use mathlib.Core.Path.{◌≡◌, refl, ap}
use mathlib.Core.Option.{some, some-injective}
use mathlib.Core.List.{List, [], ◌∷◌, ◌++◌}
use native.Mathlib.Omega.{arith}
use kiam.Base.Lists.{length, get_elem?, set_elem}

module _ {ℓ} {A : Type ℓ} (weight : A → ℕ) where
  abbrev pub total : List A → ℕ
  total [] = 0
  total (a ∷ rest) = weight a + total rest

  pub total-append : (front back : List A) → total (front ++ back) ≡ total front + total back
  total-append [] back = omega arith
  total-append (a ∷ front) back = omega (arith, total-append front back)

  pub total-set_elem :
      (i : ℕ) (old new : A) (xs : List A)
      → get_elem? xs i ≡ some old
      → total (set_elem i new xs) + weight old ≡ total xs + weight new
  total-set_elem i old new [] e = cc
  total-set_elem zero old new (a ∷ rest) e =
      let same = ap weight (some-injective _ _ e) in omega arith
  total-set_elem (suc i) old new (a ∷ rest) e = omega (arith, total-set_elem i old new rest e)

pub length-set_elem {ℓ} :
    {A : Type ℓ} (i : ℕ) (a : A) (xs : List A) → length (set_elem i a xs) ≡ length xs
length-set_elem i a [] = refl
length-set_elem zero a (x ∷ xs) = refl
length-set_elem (suc i) a (x ∷ xs) = omega (arith, length-set_elem i a xs)
