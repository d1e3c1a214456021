-- ===== src/Sts/Session.antt =====
-- getSessionName and sanitizeSessionName of pkg/aws/sts/cache.go. The regular expression
-- `([^\w+=,.@-])` is applied to the characters of a UTF-8 text, so a character of several bytes
-- becomes one hyphen, and so does each byte that begins no character.
pub mod Laws
use kiam.Base.{
  ℕ, zero, suc, ◌-◌, ◌++◌, Bool, true, false, ◌&&◌, ◌||◌, List, [], ◌∷◌, ltb, leb, ◌==◌,
  if◌then◌else◌,
}
use kiam.Base.Lists.{length, take}
use kiam.Base.Text.{Text, codes, text_eq}
use kiam.Sts.Identity.{RoleIdentity}

within : ℕ → ℕ → ℕ → Bool
within lo hi b = leb lo b && leb b hi

-- [\w+=,.@-]
unfoldable pub is_allowed : ℕ → Bool
unfolding within
is_allowed b =
    within b'0' b'9' b
    || within b'A' b'Z' b
    || within b'a' b'z' b
    || b == b'_'
    || b == b'+'
    || b == b'='
    || b == b','
    || b == b'.'
    || b == b'@'
    || b == b'-'

-- The bytes that may follow `b` in a character, as ranges: none for an ASCII byte, and none for one
-- that begins no character.
tails : ℕ → List (ℕ × ℕ)
unfolding within
tails b =
    if within 0xC2 0xDF b
    then (0x80, 0xBF) ∷ []
    else if b == 0xE0
    then (0xA0, 0xBF) ∷ (0x80, 0xBF) ∷ []
    else if b == 0xED
    then (0x80, 0x9F) ∷ (0x80, 0xBF) ∷ []
    else if within 0xE1 0xEF b
    then (0x80, 0xBF) ∷ (0x80, 0xBF) ∷ []
    else if b == 0xF0
    then (0x90, 0xBF) ∷ (0x80, 0xBF) ∷ (0x80, 0xBF) ∷ []
    else if within 0xF1 0xF3 b
    then (0x80, 0xBF) ∷ (0x80, 0xBF) ∷ (0x80, 0xBF) ∷ []
    else if b == 0xF4
    then (0x80, 0x8F) ∷ (0x80, 0xBF) ∷ (0x80, 0xBF) ∷ []
    else []

fits : List (ℕ × ℕ) → Text → Bool
unfolding within
fits [] s = true
fits (r ∷ rs) [] = false
fits ((lo, hi) ∷ rs) (b ∷ s) = within lo hi b && fits rs s

-- How many bytes of `s` belong to the character that begins with `b`.
more_bytes : ℕ → Text → ℕ
unfolding tails fits
more_bytes b s = if fits (tails b) s then length (tails b) else 0

-- sanitize.ReplaceAllString(s, "-"); the number counts the bytes left of a character that a hyphen
-- has taken the place of.
replace_all : ℕ → Text → Text
unfolding is_allowed more_bytes
replace_all skip [] = []
replace_all (suc skip) (b ∷ s) = replace_all skip s
replace_all zero (b ∷ s) =
    (if is_allowed b then b else b'-') ∷ replace_all (if is_allowed b then 0 else more_bytes b s) s

sanitize_session_name : Text → Text
unfolding replace_all
sanitize_session_name name = replace_all 0 (if ltb 64 (length name) then take 63 name else name)

-- getSessionName; the first argument is the cache's own session name.
unfoldable pub get_session_name : Text → RoleIdentity → Text
unfolding text_eq sanitize_session_name
get_session_name default i =
    sanitize_session_name
      (codes "kiam-" ++ (if text_eq i.session_name [] then default else i.session_name))
