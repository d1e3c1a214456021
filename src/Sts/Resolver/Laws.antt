-- ===== src/Sts/Resolver/Laws.antt =====
-- What `resolve` answers.
use kiam.Base.{
  ◌<◌, ◌++◌, ◌≡◌, refl, true, false, none, some, [], ◌∷◌, arith, ◌↔◌, ◌≢◌, inl, inr, Option-cases,
  Bool-cases, ◌⊎◌, ◌∙◌, sym, ap,
}
use kiam.Base.Text.{Text, codes, has_prefix, trim_prefix}
use kiam.Base.Text.Laws.{has_prefix-append_left, trim_prefix-append, text_eq_iff, text_eq_refl}
use kiam.Base.Outcome.{ok, err, panic, ok-injective, role_empty}
use kiam.Sts.Resolver.{Resolver, ResolvedRole, role_from_arn, resolve, equals}
use kiam.Sts.Resolver.Fields.{
  after, count, get_elem?-split_after, after-eq-none→lt, lt→after-eq-none, after-append,
}

-- The form of a base ARN: `arn:` in front, and `role/` behind the fifth colon.
pub record IsBase (prefix : Text) : Type 0 where
  pub scheme : has_prefix prefix (codes "arn:") ≡ true
  pub path : after b':' 5 prefix ≡ some (codes "role/")

role_from_arn_lem :
    (arn r : Text)
    → after b':' 5 arn ≡ some r
    → role_from_arn arn ≡ ok (trim_prefix r (codes "role/"))
unfolding role_from_arn
role_from_arn_lem arn r h = rw (get_elem?-split_after b':' 5 arn ∙ h, role_from_arn)

role_from_arn-panic : (arn : Text) → after b':' 5 arn ≡ none → role_from_arn arn ≡ panic
unfolding role_from_arn
role_from_arn-panic arn h = rw (get_elem?-split_after b':' 5 arn ∙ h, role_from_arn)

-- The three ways of `resolve`, for the other proofs.
resolve-absolute :
    (r : Resolver) (role name : Text)
    → has_prefix role (codes "arn:") ≡ true
    → after b':' 5 role ≡ some name
    → resolve r role ≡ ok (record { name = trim_prefix name (codes "role/"); arn = role })
unfolding resolve
resolve-absolute r [] name h a = cc
resolve-absolute r (b ∷ s) name h a = rw (h, role_from_arn_lem (b ∷ s) name a)

resolve-absolute_panic :
    (r : Resolver) (role : Text)
    → has_prefix role (codes "arn:") ≡ true
    → after b':' 5 role ≡ none
    → resolve r role ≡ panic
unfolding resolve
resolve-absolute_panic r [] h a = cc
resolve-absolute_panic r (b ∷ s) h a = rw (h, role_from_arn-panic (b ∷ s) a)

abbrev without_slash : Text → Text
without_slash role = elim (has_prefix role (codes "/")) [
  | true ↦ trim_prefix role (codes "/")
  | false ↦ role
]

resolve-relative :
    (r : Resolver) (role : Text)
    → role ≢ []
    → has_prefix role (codes "arn:") ≡ false
    → resolve r role
      ≡ ok (record { name = without_slash role; arn = r.prefix ++ without_slash role })
unfolding resolve
resolve-relative r [] n h = absurd (n refl)
resolve-relative r (b ∷ s) n h = rw h (ground arith)

resolve-empty : (r : Resolver) → resolve r [] ≡ err role_empty
unfolding resolve
resolve-empty r = refl

text-cases : (s : Text) → (s ≡ []) ⊎ (s ≢ [])
text-cases [] = inl refl
text-cases (b ∷ s) = inr (λ e. cc)

-- `resolve` panics exactly on a role that begins with `arn:` and has fewer than five colons; on
-- every other role it returns a result or its one error.
pub resolve-panic_iff :
    (r : Resolver) (role : Text)
    → (resolve r role ≡ panic) ↔ ((has_prefix role (codes "arn:") ≡ true) × (count b':' role < 5))
resolve-panic_iff r role =
    (there, λ h. resolve-absolute_panic r role h.0 (lt→after-eq-none _ 5 role h.1))
  where
    absolute : has_prefix role (codes "arn:") ≡ true → resolve r role ≡ panic → count b':' role < 5
    absolute h e = elim (Option-cases (after b':' 5 role)) [
      | inl a ↦ after-eq-none→lt b':' 5 role a
      | inr (name, a) ↦ cc (resolve-absolute r role name h a)
    ]

    there : resolve r role ≡ panic → (has_prefix role (codes "arn:") ≡ true) × (count b':' role < 5)
    there e = elim (text-cases role) [
      | inl z ↦ absurd (cc (resolve-empty r, rw z at e))
      | inr n ↦ elim (Bool-cases (has_prefix role (codes "arn:"))) [
        | inl h ↦ (h, absolute h e)
        | inr h ↦ cc (resolve-relative r role n h)
      ]
    ]

-- A leading slash makes no difference: a role that is not empty, begins with no slash and is no ARN
-- resolves to its own name behind the prefix, with or without a slash in front.
resolve_slash :
    (r : Resolver) (role : Text)
    → role ≢ []
    → has_prefix role (codes "arn:") ≡ false
    → has_prefix role (codes "/") ≡ false
    → (resolve r role ≡ ok (record { name = role; arn = r.prefix ++ role }))
      × (resolve r (codes "/" ++ role) ≡ resolve r role)
unfolding resolve
resolve_slash r [] n a s = absurd (n refl)
resolve_slash r (b ∷ t) n a s =
    let e : resolve r (b ∷ t) ≡ ok (record { name = b ∷ t; arn = r.prefix ++ b ∷ t }) = rw (a, s) in
    (e, rw (e))

arn-resolve_absolute :
    (r : Resolver) (role : Text) (x : ResolvedRole)
    → has_prefix role (codes "arn:") ≡ true
    → resolve r role ≡ ok x
    → x.arn ≡ role
arn-resolve_absolute r role x h e = elim (Option-cases (after b':' 5 role)) [
  | inl a ↦ cc (resolve-absolute_panic r role h a)
  | inr (name, a) ↦ cc (resolve-absolute r role name h a)
]

resolve-base_append :
    (r : Resolver) (name : Text)
    → IsBase r.prefix
    → resolve r (r.prefix ++ name) ≡ ok (record { name = name; arn = r.prefix ++ name })
resolve-base_append r name base =
    resolve-absolute r (r.prefix ++ name) (codes "role/" ++ name)
      (has_prefix-append_left (codes "arn:") r.prefix name base.scheme)
      (after-append b':' 5 r.prefix name (codes "role/") base.path)
    ∙ rw (trim_prefix-append (codes "role/") name)

-- Under a base ARN, resolving the ARN that a role resolved to gives the same name and ARN again: a
-- role and its full ARN are one role.
pub resolve_idem :
    (r : Resolver) (role : Text) {x : ResolvedRole}
    → IsBase r.prefix
    → resolve r role ≡ ok x
    → resolve r x.arn ≡ ok x
resolve_idem r role {x} base e = elim (text-cases role) [
  | inl z ↦ cc (resolve-empty r, rw z at e)
  | inr n ↦ elim (Bool-cases (has_prefix role (codes "arn:"))) [
    | inl h ↦ ap (resolve r) (arn-resolve_absolute r role x h e) ∙ e
    | inr h ↦
        let shape = ok-injective (sym e ∙ resolve-relative r role n h) in
        rw shape (resolve-base_append r (without_slash role) base)
  ]
]

-- Two resolved roles are equal for the policy exactly when they are the same name and ARN.
pub equals_iff : (i j : ResolvedRole) → (equals i j ≡ true) ↔ (i ≡ j)
unfolding equals
equals_iff i j = (
  λ h. ground (arith, text_eq_iff i.name j.name, text_eq_iff i.arn j.arn),
  λ e. rw e (ground (arith, text_eq_refl j.name, text_eq_refl j.arn)),
)
