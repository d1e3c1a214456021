-- ===== src/K8s/Announcer/Laws.antt =====
-- What stands in the channel of announced pods.
use kiam.Base.{ℕ, ◌≤◌, ◌≡◌, refl, false, List, [], ◌∷◌, some, arith, inl, inr, Option-cases}
use mathlib.Core.Path.{subst}
use mathlib.Core.Option.{some-injective}
use kiam.Base.Lists.{length, length-append, All, All-append}
use kiam.Base.Text.{text_eq}
use kiam.K8s.Pod.{Pod, is_pod_completed, pod_role}
use kiam.K8s.Announcer.{
  Announcer, Event, Event.add, Event.delete, Event.update, Event.take_one, current,
  final_state_unknown, pod, unexpected, new_announcer, announce, step, run,
}

-- A pod that is worth prefetching for: it has not completed and names a role.
abbrev IsWanted : Pod → Type 0
IsWanted p = (is_pod_completed p ≡ false) × (text_eq (pod_role p) [] ≡ false)

pub record Inv (a : Announcer) : Type 0 where
  pub bounded : length a.pods ≤ a.buffer_size
  pub wanted : All IsWanted a.pods

announce-Inv : (p : Pod) (a : Announcer) → Inv a → Inv (announce p a)
unfolding announce
announce-Inv p a v =
    ground (arith, length-append a.pods (p ∷ []), All-append IsWanted a.pods (p ∷ []) v.wanted)

take-Inv :
    (a : Announcer) (ps : List Pod) (b : Announcer)
    → a.pods ≡ ps
    → Inv a
    → step take_one a ≡ some b
    → Inv b
unfolding step
take-Inv a [] b e v h = ground arith
take-Inv a (p ∷ ps) b e v h = ground arith

step-Inv : (e : Event) (a b : Announcer) → Inv a → step e a ≡ some b → Inv b
unfolding step
step-Inv (add (current (pod p))) a b v h = subst Inv (some-injective _ _ h) (announce-Inv p a v)
step-Inv (add (current unexpected)) a b v h = subst Inv (some-injective _ _ h) v
step-Inv (add (final_state_unknown o)) a b v h = subst Inv (some-injective _ _ h) v
step-Inv (delete (current o)) a b v h = subst Inv (some-injective _ _ h) v
step-Inv (delete (final_state_unknown (pod p))) a b v h = subst Inv (some-injective _ _ h) v
step-Inv (delete (final_state_unknown unexpected)) a b v h = cc
step-Inv (update n) a b v h = subst Inv (some-injective _ _ h) v
step-Inv take_one a b v h = take-Inv a a.pods b refl v h

run-Inv : (es : List Event) (a b : Announcer) → Inv a → run es a ≡ some b → Inv b
unfolding run
run-Inv [] a b v h = subst Inv (some-injective _ _ h) v
run-Inv (e ∷ es) a b v h = elim (Option-cases (step e a)) [
  | inl s ↦ cc (rw (s, run) at h)
  | inr (c, s) ↦ run-Inv es c b (step-Inv e a c v s) (rw (s, run) at h)
]

-- After any events the channel holds no more pods than its buffer, and each of them had a role and
-- had not completed when it was announced.
run-new_announcer-Inv :
    (buffer_size : ℕ) (es : List Event) (b : Announcer)
    → run es (new_announcer buffer_size) ≡ some b
    → Inv b
run-new_announcer-Inv n es b h =
    run-Inv es (new_announcer n) b
      (unfold new_announcer in record { bounded = omega arith; wanted = tt }) h
