-- ===== src/Base/Outcome.antt =====
-- What a Go function that returns `(T, error)` does: it returns a value, returns an error, or panics.

use mathlib.Core.Path.{◌≡◌, refl}
use mathlib.Core.Logic.{◌⊎◌, inl, inr}
use mathlib.Core.List.{◌++◌}
use kiam.Base.Text.{Text, codes}

-- The errors of the program by their variables and format strings; those of other code are `other`.
pub data Error : Type 0 where
  role_empty : Error
  pod_not_found : Error
  multiple_running_pods : Error
  waiting_for_sync : Error
  server_pod_not_found : Error
  policy_forbidden : Error
  empty_role : Error
  incorrect_format : Text → Error
  no_endpoint : Text → Error
  -- an error of the AWS SDK: its code, its message and the text of Error()
  aws : Text → Text → Text → Error
  other : Text → Error

-- Error()
unfoldable pub error_text : Error → Text
error_text role_empty = codes "role can't be empty"
error_text pod_not_found = codes "pod not found"
error_text multiple_running_pods = codes "multiple running pods found"
error_text waiting_for_sync = codes "error waiting for cache sync"
error_text server_pod_not_found = codes "no pod found"
error_text policy_forbidden = codes "forbidden by policy"
error_text empty_role = codes "empty role"
error_text (incorrect_format addr) = codes "incorrect format, expected ip:port, was: " ++ addr
error_text (no_endpoint host) = codes "Regional STS endpoint does not exist: " ++ host
error_text (aws code message text) = text
error_text (other text) = text

pub data Outcome {ℓ} (A : Type ℓ) : Type ℓ where
  ok : A → Outcome A
  err : Error → Outcome A
  panic : Outcome A

infixl 5 ◌>>◌
module _ {ℓ κ} {A : Type ℓ} {B : Type κ} where
  infixl 5 ◌>>=◌
  abbrev pub ◌>>=◌ : Outcome A → (A → Outcome B) → Outcome B
  ok value >>= next = next value
  err e >>= next = err e
  panic >>= next = panic

abbrev pub ◌>>◌ {κ} : {B : Type κ} → Outcome (Unit {0}) → Outcome B → Outcome B
checked >> next = checked >>= (λ _. next)

module _ {ℓ} {A : Type ℓ} where
  pub ok-injective : {a b : A} → ok a ≡ ok b → a ≡ b
  ok-injective e = cc

module _ {ℓ κ} {A : Type ℓ} {B : Type κ} {result : B} where
  -- A chain that returns went on with the value of its first call.
  pub >>=-eq-ok :
      (first : Outcome A) (next : A → Outcome B)
      → (first >>= next) ≡ ok result
      → (value : A) × (first ≡ ok value) × (next value ≡ ok result)
  >>=-eq-ok (ok value) next returned = (value, refl, returned)
  >>=-eq-ok (err e) next returned = cc
  >>=-eq-ok panic next returned = cc

-- To split on a result and keep the equation.
pub Outcome-cases {ℓ} :
    {A : Type ℓ} (o : Outcome A)
    → ((a : A) × (o ≡ ok a)) ⊎ (((e : Error) × (o ≡ err e)) ⊎ (o ≡ panic))
Outcome-cases (ok a) = inl (a, refl)
Outcome-cases (err e) = inr (inl (e, refl))
Outcome-cases panic = inr (inr refl)
