-- ===== src/Sts/Session/Laws.antt =====
-- The session names that are asked of STS are valid.
use kiam.Base.{
  ℕ, zero, suc, ◌≤◌, ◌⊎◌, ◌++◌, ◌≡◌, refl, true, [], ◌∷◌, arith, ltb, if◌then◌else◌, Bool-cases,
  inl, inr,
}
use native.Mathlib.Nat.{le_trans}
use kiam.Base.Lists.{length, take, All, length-take-le}
use kiam.Base.Text.{Text, codes, text_eq}
use kiam.Sts.Identity.{RoleIdentity}
use kiam.Sts.Session.{
  within, is_allowed, more_bytes, replace_all, sanitize_session_name, get_session_name,
}

-- The bytes of the pattern that STS sets for a session name, `[\w+=,.@-]*`: digits, letters, and the
-- signs.
abbrev pub IsWordByte : ℕ → Type 0
IsWordByte b =
    ((b'0' ≤ b) × (b ≤ b'9'))
    ⊎ (((b'A' ≤ b) × (b ≤ b'Z')) ⊎ (((b'a' ≤ b) × (b ≤ b'z')) ⊎ (b ≡ b'_')))

abbrev pub IsSign : ℕ → Type 0
IsSign b = (b ≡ b'+') ⊎ ((b ≡ b'=') ⊎ ((b ≡ b',') ⊎ ((b ≡ b'.') ⊎ ((b ≡ b'@') ⊎ (b ≡ b'-')))))

abbrev pub IsValid : Text → Type 0
IsValid = All (λ b. IsWordByte b ⊎ IsSign b)

is_allowed-IsValid : (b : ℕ) → is_allowed b ≡ true → IsWordByte b ⊎ IsSign b
unfolding is_allowed within
is_allowed-IsValid b h = ground arith

replace_all-IsValid : (skip : ℕ) (s : Text) → IsValid (replace_all skip s)
unfolding replace_all
replace_all-IsValid zero [] = tt
replace_all-IsValid (suc skip) [] = tt
replace_all-IsValid (suc skip) (b ∷ s) = replace_all-IsValid skip s
replace_all-IsValid zero (b ∷ s) = elim (Bool-cases (is_allowed b)) [
  | inl a ↦ rw a (is_allowed-IsValid b a, replace_all-IsValid 0 s)
  | inr a ↦ rw a (inr (inr (inr (inr (inr (inr refl))))), replace_all-IsValid (more_bytes b s) s)
]

length-replace_all-le : (skip : ℕ) (s : Text) → length (replace_all skip s) ≤ length s
unfolding replace_all
length-replace_all-le zero [] = omega arith
length-replace_all-le (suc skip) [] = omega arith
length-replace_all-le (suc skip) (b ∷ s) = omega (arith, length-replace_all-le skip s)
length-replace_all-le zero (b ∷ s) =
    omega (arith, length-replace_all-le (if is_allowed b then 0 else more_bytes b s) s)

length-sanitize-le : (s : Text) → length (sanitize_session_name s) ≤ 64
unfolding sanitize_session_name
length-sanitize-le s = elim (Bool-cases (ltb 64 (length s))) [
  | inl long ↦ rw long (omega (arith, length-replace_all-le 0 (take 63 s), length-take-le 63 s))
  | inr short ↦ rw short (le_trans (length-replace_all-le 0 s) (ground arith))
]

sanitize-kiam :
    (s : Text) → (t : Text) × (sanitize_session_name (codes "kiam-" ++ s) ≡ codes "kiam-" ++ t)
unfolding sanitize_session_name
sanitize-kiam s = elim (Bool-cases (ltb 64 (length (codes "kiam-" ++ s)))) [
  | inl long ↦ (replace_all 0 (take 58 s), rw long)
  | inr short ↦ (replace_all 0 s, rw short)
]

-- What is asked of STS: whatever the annotation holds, the session name begins with `kiam-`, has at
-- most 64 bytes, and every byte is one that STS allows.
pub get_session_name-IsValid :
    (default : Text) (i : RoleIdentity)
    → IsValid (get_session_name default i)
      × (length (get_session_name default i) ≤ 64)
      × ((t : Text) × (get_session_name default i ≡ codes "kiam-" ++ t))
unfolding get_session_name
get_session_name-IsValid default i =
    let chosen = if text_eq i.session_name [] then default else i.session_name in
    (
      unfold sanitize_session_name in replace_all-IsValid 0 _,
      length-sanitize-le (codes "kiam-" ++ chosen),
      sanitize-kiam chosen,
    )
