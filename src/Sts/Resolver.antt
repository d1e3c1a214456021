-- ===== src/Sts/Resolver.antt =====
-- pkg/aws/sts/arn_resolver.go and BaseArn of pkg/aws/sts/resolver_detect_arn.go: from the name of a
-- role to its ARN. An index or a slice out of range is `panic`.
pub mod Fields
pub mod Laws
pub mod Prefix
use kiam.Base.{
  ℕ, zero, suc, ◌++◌, ◌≡◌, Bool, true, false, ◌&&◌, Option, none, some, List, [], ◌∷◌,
  if◌then◌else◌,
}
use kiam.Base.Lists.{get_elem?, take}
use kiam.Base.Text.{Text, codes, text_eq, has_prefix, trim_prefix, split, split_after, join}
use kiam.Base.Outcome.{Outcome, ok, err, panic, role_empty, ◌>>=◌}

pub record Resolver : Type 0 where
  pub prefix : Text

pub record ResolvedRole : Type 0 where
  pub name : Text
  pub arn : Text

-- DefaultResolver
unfoldable pub default_resolver : Text → Resolver
default_resolver prefix = record { prefix = prefix }

-- splits[5] of SplitAfterN(arn, ":", 6)
role_from_arn : Text → Outcome Text
role_from_arn arn = elim (get_elem? (split_after b':' 5 arn) 5) [
  | none ↦ panic
  | some piece ↦ ok (trim_prefix piece (codes "role/"))
]

unfoldable pub resolve : Resolver → Text → Outcome ResolvedRole
unfolding role_from_arn text_eq has_prefix trim_prefix
resolve r role =
    if text_eq role []
    then err role_empty
    else if has_prefix role (codes "arn:")
    then (do name ← role_from_arn role; ok (record { name = name; arn = role }))
    else (do
      let name = if has_prefix role (codes "/") then trim_prefix role (codes "/") else role
      ok (record { name = name; arn = r.prefix ++ name }))

-- *i == *other
unfoldable pub equals : ResolvedRole → ResolvedRole → Bool
equals i j = text_eq i.name j.name && text_eq i.arn j.arn

-- parts[0:5] panics where Split gives fewer than five parts.
unfoldable pub base_arn : Text → Outcome Text
base_arn arn = elim (get_elem? (split b':' arn) 4) [
  | none ↦ panic
  | some part ↦ ok (join (codes ":") (take 5 (split b':' arn)) ++ codes ":role/")
]

-- DetectARNPrefix; the argument is what instanceProfileARN got from the EC2 metadata service.
unfoldable pub detect_arn_prefix : Outcome Text → Outcome Text
detect_arn_prefix profile = do arn ← profile; base_arn arn
