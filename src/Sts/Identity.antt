-- ===== src/Sts/Identity.antt =====
-- pkg/aws/sts/role_identity.go: whose credentials are asked for, and their key in the cache.
use kiam.Base.{◌++◌, ◌≡◌}
use mathlib.Core.List.{append_assoc}
use kiam.Base.Text.{Text, codes}
use kiam.Base.Text.Laws.{Free, Free-split_unique}
use kiam.Base.Outcome.{Outcome, ok, ◌>>=◌}
use kiam.Sts.Resolver.{Resolver, ResolvedRole, resolve}

pub record RoleIdentity : Type 0 where
  pub role : ResolvedRole
  pub session_name : Text
  pub external_id : Text

unfoldable pub new_role_identity : Resolver → Text → Text → Text → Outcome RoleIdentity
new_role_identity resolver role session_name external_id = do
  resolved ← resolve resolver role
  ok (record { role = resolved; session_name = session_name; external_id = external_id })

-- String(), the identity's key in the caches and in the index of pods.
unfoldable pub to_string : RoleIdentity → Text
to_string i = i.role.arn ++ (codes "|" ++ (i.session_name ++ (codes "|" ++ i.external_id)))

-- Two identities whose ARNs and session names hold no `|` have one key only if they agree in ARN,
-- session name and external ID.
pub to_string-injective :
    (i j : RoleIdentity)
    → Free b'|' i.role.arn
    → Free b'|' j.role.arn
    → Free b'|' i.session_name
    → Free b'|' j.session_name
    → to_string i ≡ to_string j
    → (i.role.arn ≡ j.role.arn)
      × (i.session_name ≡ j.session_name)
      × (i.external_id ≡ j.external_id)
unfolding to_string
to_string-injective i j fi fj si sj e =
    let (arn, rest) = Free-split_unique b'|' i.role.arn j.role.arn _ _ fi fj e in
    let (session, external) = Free-split_unique b'|' i.session_name j.session_name _ _ si sj rest in
    (arn, session, external)

-- With a `|` in a session name the key is ambiguous: what stands behind the bar can as well be the
-- front of the external ID.
to_string_collision :
    (role : ResolvedRole) (front back external_id : Text)
    → to_string (record {
      role = role;
      session_name = front ++ codes "|" ++ back;
      external_id = external_id;
    })
      ≡ to_string (record {
        role = role;
        session_name = front;
        external_id = back ++ codes "|" ++ external_id;
      })
unfolding to_string
to_string_collision role front back external_id = simp append_assoc
