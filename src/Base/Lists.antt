-- ===== src/Base/Lists.antt =====
-- Lists measured and indexed by native numbers, under the library's names.
use Prim.Native.Nat.{ℕ, zero, suc, ◌+◌, ◌≤◌}
use mathlib.Core.Path.{◌≡◌, refl, ap, subst}
use mathlib.Core.Logic.{◌⊎◌, inl, inr}
use mathlib.Core.Option.{some-injective}
use mathlib.Core.List.{List, [], ◌∷◌, ◌++◌}
use mathlib.Core.Option.{Option, none, some}
use native.Mathlib.Omega.{arith}

module _ {ℓ} {A : Type ℓ} where
  abbrev pub length : List A → ℕ
  length [] = 0
  length (x ∷ xs) = suc (length xs)

  abbrev pub get_elem? : List A → ℕ → Option A
  get_elem? [] i = none
  get_elem? (x ∷ xs) zero = some x
  get_elem? (x ∷ xs) (suc i) = get_elem? xs i

  abbrev pub take : ℕ → List A → List A
  take zero xs = []
  take (suc n) [] = []
  take (suc n) (x ∷ xs) = x ∷ take n xs

  -- The list with another value at an index; out of range, the list itself.
  abbrev pub set_elem : ℕ → A → List A → List A
  set_elem i a [] = []
  set_elem zero a (x ∷ xs) = a ∷ xs
  set_elem (suc i) a (x ∷ xs) = x ∷ set_elem i a xs

  pub length-append : (xs ys : List A) → length (xs ++ ys) ≡ length xs + length ys
  length-append [] ys = omega arith
  length-append (x ∷ xs) ys = omega (arith, length-append xs ys)

  pub length-take-le : (n : ℕ) (xs : List A) → length (take n xs) ≤ n
  length-take-le zero xs = omega arith
  length-take-le (suc n) [] = omega arith
  length-take-le (suc n) (x ∷ xs) = omega (arith, length-take-le n xs)

  -- A predicate on every element, by recursion.
  abbrev pub All {κ} : (A → Type κ) → List A → Type κ
  All Holds [] = Unit
  All Holds (first ∷ rest) = Holds first × All Holds rest

  module _ {κ} (Holds : A → Type κ) where
    pub All-append :
        (front back : List A) → All Holds front → All Holds back → All Holds (front ++ back)
    All-append [] back none_left holds = holds
    All-append (x ∷ front) back (hx, more) holds = (hx, All-append front back more holds)

    All-take : (n : ℕ) (xs : List A) → All Holds xs → All Holds (take n xs)
    All-take zero xs h = tt
    All-take (suc n) [] h = tt
    All-take (suc n) (x ∷ xs) h = (h.0, All-take n xs h.1)

    pub All-set_elem :
        (i : ℕ) (a : A) (xs : List A) → Holds a → All Holds xs → All Holds (set_elem i a xs)
    All-set_elem i a [] ha h = tt
    All-set_elem zero a (x ∷ xs) ha h = (ha, h.1)
    All-set_elem (suc i) a (x ∷ xs) ha h = (h.0, All-set_elem i a xs ha h.1)

    pub All-get_elem? :
        (i : ℕ) (xs : List A) {a : A} → get_elem? xs i ≡ some a → All Holds xs → Holds a
    All-get_elem? i [] e h = cc
    All-get_elem? zero (x ∷ xs) e h = subst Holds (some-injective _ _ e) h.0
    All-get_elem? (suc i) (x ∷ xs) e h = All-get_elem? i xs e h.1

  pub All-weaken {κ μ} :
      {Holds : A → Type κ} {Stays : A → Type μ}
      → ((a : A) → Holds a → Stays a)
      → (xs : List A) → All Holds xs
      → All Stays xs
  All-weaken w [] h = tt
  All-weaken w (x ∷ xs) h = (w x h.0, All-weaken w xs h.1)

  pub get_elem?-append :
      (xs ys : List A) (i : ℕ) {a : A} → get_elem? xs i ≡ some a → get_elem? (xs ++ ys) i ≡ some a
  get_elem?-append [] ys i e = cc
  get_elem?-append (x ∷ xs) ys zero e = e
  get_elem?-append (x ∷ xs) ys (suc i) e = get_elem?-append xs ys i e

  pub get_elem?-append_last : (xs : List A) (a : A) → get_elem? (xs ++ a ∷ []) (length xs) ≡ some a
  get_elem?-append_last [] a = refl
  get_elem?-append_last (x ∷ xs) a = get_elem?-append_last xs a

  pub get_elem?-append_one :
      (xs : List A) (a : A) (i : ℕ) {b : A}
      → get_elem? (xs ++ a ∷ []) i ≡ some b
      → (get_elem? xs i ≡ some b) ⊎ (a ≡ b)
  get_elem?-append_one [] a zero e = inr (some-injective _ _ e)
  get_elem?-append_one [] a (suc i) e = cc
  get_elem?-append_one (x ∷ xs) a zero e = inl e
  get_elem?-append_one (x ∷ xs) a (suc i) e = get_elem?-append_one xs a i e

  pub get_elem?-set_elem :
      (xs : List A) (i : ℕ) (a : A) {old : A}
      → get_elem? xs i ≡ some old
      → get_elem? (set_elem i a xs) i ≡ some a
  get_elem?-set_elem [] i a e = cc
  get_elem?-set_elem (x ∷ xs) zero a e = refl
  get_elem?-set_elem (x ∷ xs) (suc i) a e = get_elem?-set_elem xs i a e

  -- Every index but the one that is set.
  pub get_elem?-set_elem_other :
      (xs : List A) (i j : ℕ) (a : A) → (i ≡ j) ⊎ (get_elem? (set_elem i a xs) j ≡ get_elem? xs j)
  get_elem?-set_elem_other [] i j a = inr refl
  get_elem?-set_elem_other (x ∷ xs) zero zero a = inl refl
  get_elem?-set_elem_other (x ∷ xs) zero (suc j) a = inr refl
  get_elem?-set_elem_other (x ∷ xs) (suc i) zero a = inr refl
  get_elem?-set_elem_other (x ∷ xs) (suc i) (suc j) a = elim (get_elem?-set_elem_other xs i j a) [
    | inl e ↦ inl (ap suc e)
    | inr e ↦ inr e
  ]

  pub set_elem-append_last :
      (xs : List A) (a b : A) → set_elem (length xs) b (xs ++ a ∷ []) ≡ xs ++ b ∷ []
  set_elem-append_last [] a b = refl
  set_elem-append_last (x ∷ xs) a b = ap (λ t. x ∷ t) (set_elem-append_last xs a b)

  pub get_elem?-length : (xs : List A) → get_elem? xs (length xs) ≡ none
  get_elem?-length [] = refl
  get_elem?-length (x ∷ xs) = get_elem?-length xs
