-- ===== src/Server/Policy/Laws.antt =====
-- What the policies allow.
use kiam.Base.{
  true, false, ◌≡◌, refl, ap, ◌∙◌, ◌↔◌, ◌≢◌, ◌++◌, List, [], ◌∷◌, if◌then◌else◌, Bool-cases, inl,
  inr,
}
use mathlib.Core.List.{append-nil}
use kiam.Base.Lists.{All}
use kiam.Base.Text.{Text}
use kiam.Base.Outcome.{Outcome, ok, err, panic, ok-injective, >>=-eq-ok}
use kiam.K8s.Pod.{Pod}
use kiam.Server.Policy.{Decision, allowed, is_allowed, AssumeRolePolicy, policies}

-- The policy answers, and its answer is to allow.
abbrev pub Allows : Text → Pod → AssumeRolePolicy → Type 0
Allows role pod policy = (d : Decision) × (policy role pod ≡ ok d) × (is_allowed d ≡ true)

pub is_allowed-eq : (d : Decision) → is_allowed d ≡ true → d ≡ allowed
unfolding is_allowed
is_allowed-eq Decision.allowed h = refl
is_allowed-eq (Decision.forbidden x y) h = cc
is_allowed-eq (Decision.namespace_policy_forbidden x y) h = cc

not_allowed : (d : Decision) → is_allowed d ≡ false → d ≢ allowed
unfolding is_allowed
not_allowed d h e = cc (ap is_allowed e)

-- After policies that all allow, the composite policy goes on with the rest.
policies-append :
    (ps qs : List AssumeRolePolicy) (role : Text) (pod : Pod)
    → All (Allows role pod) ps
    → policies (ps ++ qs) role pod ≡ policies qs role pod
unfolding policies
policies-append [] qs role pod h = refl
policies-append (p ∷ ps) qs role pod h =
    let (d, e, a) = h.0 in rw (e, policies) (rw a (policies-append ps qs role pod h.1))

pub policies-Allows :
    (ps : List AssumeRolePolicy) (role : Text) (pod : Pod)
    → policies ps role pod ≡ ok allowed
    → All (Allows role pod) ps
unfolding policies
policies-Allows [] role pod h = tt
policies-Allows (p ∷ ps) role pod h =
    let (d, e, rest) =
      >>=-eq-ok (p role pod) (λ d. if is_allowed d then policies ps role pod else ok d) h in
    elim (Bool-cases (is_allowed d)) [
      | inl a ↦ ((d, e, a), policies-Allows ps role pod (rw a at rest))
      | inr a ↦ absurd (not_allowed d a (ok-injective (rw a at rest)))
    ]

policies-refused :
    (q : AssumeRolePolicy) (qs : List AssumeRolePolicy) (role : Text) (pod : Pod)
    → ¬ Allows role pod q
    → policies (q ∷ qs) role pod ≡ q role pod
unfolding policies
policies-refused q qs role pod n = go (q role pod) refl
  where
    go : (o : Outcome Decision) → q role pod ≡ o → policies (q ∷ qs) role pod ≡ q role pod
    go (ok d) e = elim (Bool-cases (is_allowed d)) [
      | inl a ↦ absurd (n (d, e, a))
      | inr a ↦ rw (e, policies) (rw a)
    ]
    go (err x) e = rw (e, policies)
    go panic e = rw (e, policies)

-- The composite policy allows a role exactly when every one of its policies does.
policies_conjunction :
    (ps : List AssumeRolePolicy) (role : Text) (pod : Pod)
    → (policies ps role pod ≡ ok allowed) ↔ All (Allows role pod) ps
policies_conjunction ps role pod = (
  policies-Allows ps role pod,
  λ h. unfold policies in (rw (← append-nil ps) (policies-append ps [] role pod h)),
)

-- Where the first policies allow a role and the next one does not, its refusal, error or panic is
-- the composite's answer, whatever policies follow.
policies_first_refusal :
    (ps : List AssumeRolePolicy) (q : AssumeRolePolicy) (qs : List AssumeRolePolicy) (role : Text)
    (pod : Pod)
    → All (Allows role pod) ps
    → ¬ Allows role pod q
    → policies (ps ++ q ∷ qs) role pod ≡ q role pod
policies_first_refusal ps q qs role pod h n =
    policies-append ps (q ∷ qs) role pod h ∙ policies-refused q qs role pod n
