-- ===== src/K8s/Announcer/Fifo.antt =====
-- What the receivers of announced pods get.
use kiam.Base.{
  ◌⊎◌, ℕ, ◌+◌, ◌≡◌, refl, sym, ◌++◌, List, [], ◌∷◌, none, some, arith, inl, inr, Bool-cases,
  if◌then◌else◌, ltb,
}
use mathlib.Core.Path.{subst}
use mathlib.Core.List.{append_assoc, append-nil}
use mathlib.Core.List.{Sublistᴰ}
use mathlib.Core.List.Sublistᴰ
use mathlib.Core.Option.{some-injective}
use kiam.Base.Lists.{length, length-append}
use kiam.Base.Text.{text_eq}
use kiam.K8s.Pod.{Pod, is_pod_completed, pod_role}
use kiam.K8s.Announcer.{
  Announcer, Event, Event.add, Event.delete, Event.update, Event.take_one, current,
  final_state_unknown, pod, unexpected, new_announcer, announce, receive, step, run,
}

-- The pods that are added while they have a role and have not completed, in order.
abbrev pub wanted : List Event → List Pod
wanted [] = []
wanted (add (current (pod p)) ∷ es) =
    let rest = wanted es in
    if is_pod_completed p then rest else if text_eq (pod_role p) [] then rest else p ∷ rest
wanted (_ ∷ es) = wanted es

-- What a receive gets.
abbrev taken : Event → List Pod → List Pod
taken take_one (p ∷ ps) = p ∷ []
taken _ ps = []

-- The pods that are received, in order.
abbrev pub received : List Event → Announcer → List Pod
received [] a = []
received (e ∷ es) a = elim (step e a) [ none ↦ [] | some b ↦ taken e a.pods ++ received es b ]

-- The receivers got, and the channel holds, pods of a list in its order, and all but the dropped.
pub record Follows (got : List Pod) (b : Announcer) (all : List Pod) (dropped : ℕ) : Type 0 where
  pub in_order : Sublistᴰ (got ++ b.pods) all
  pub counted : length got + length b.pods + b.dropped ≡ length all + dropped

weaken :
    (p : Pod) (front back got : List Pod)
    → Sublistᴰ got (front ++ back)
    → Sublistᴰ got (front ++ p ∷ back)
weaken p [] back got s = Sublistᴰ.cons s
weaken p (x ∷ front) back got (Sublistᴰ.cons s) = Sublistᴰ.cons (weaken p front back got s)
weaken p (x ∷ front) back (g ∷ got) (Sublistᴰ.cons-cons e s) =
    Sublistᴰ.cons-cons e (weaken p front back got s)

abbrev add_pod : Pod → Event
add_pod p = add (current (pod p))

-- What announce does, beside what the event adds to the wanted pods.
announce-cases :
    (p : Pod) (a : Announcer) (es : List Event)
    → ((announce p a ≡ a) × (wanted (add_pod p ∷ es) ≡ wanted es))
      ⊎ (((announce p a ≡ record a { pods = a.pods ++ p ∷ [] })
            × (wanted (add_pod p ∷ es) ≡ p ∷ wanted es))
          ⊎ ((announce p a ≡ record a { dropped = a.dropped + 1 })
              × (wanted (add_pod p ∷ es) ≡ p ∷ wanted es)))
unfolding announce
announce-cases p a es = elim (Bool-cases (is_pod_completed p)) [
  | inl c ↦ inl (rw c, rw c)
  | inr c ↦ elim (Bool-cases (text_eq (pod_role p) [])) [
    | inl r ↦ inl (rw (c, r), rw (c, r))
    | inr r ↦ elim (Bool-cases (ltb (length a.pods) a.buffer_size)) [
      | inl l ↦ inr (inl (rw (c, r, l), rw (c, r)))
      | inr l ↦ inr (inr (rw (c, r, l), rw (c, r)))
    ]
  ]
]

abbrev Result : List Event → Announcer → Announcer → Type 0
Result es a b = Follows (received es a) b (a.pods ++ wanted es) a.dropped

add-Follows :
    (p : Pod) (es : List Event) (a b : Announcer)
    → Result es (announce p a) b
    → Follows (received es (announce p a)) b (a.pods ++ wanted (add_pod p ∷ es)) a.dropped
add-Follows p es a b f = elim (announce-cases p a es) [
  | inl (same, less) ↦
      rw less
        (subst (λ c. Follows (received es (announce p a)) b (c.pods ++ wanted es) c.dropped) same f)
  | inr (inl (queued, more)) ↦
      let g =
        subst (λ c. Follows (received es (announce p a)) b (c.pods ++ wanted es) c.dropped) queued
          f in
      rw more (
        subst (λ l. Follows (received es (announce p a)) b l a.dropped)
          (append_assoc a.pods (p ∷ []) (wanted es)) g)
  | inr (inr (dropped, more)) ↦
      let g =
        subst (λ c. Follows (received es (announce p a)) b (c.pods ++ wanted es) c.dropped) dropped
          f in
      rw more (record {
        in_order = weaken p a.pods (wanted es) _ g.in_order;
        counted = omega (
          arith,
          g.counted,
          length-append a.pods (p ∷ wanted es),
          length-append a.pods (wanted es),
        );
      })
]

nothing-Follows : (a : Announcer) → Result [] a a
nothing-Follows a = record {
  in_order = subst (Sublistᴰ a.pods) (sym (append-nil a.pods)) (Sublistᴰ.refl a.pods);
  counted = omega (arith, length-append a.pods []);
}

List-cases : {A : Type 0} (l : List A) → (l ≡ []) ⊎ ((x : A) × (xs : List A) × (l ≡ x ∷ xs))
List-cases [] = inl refl
List-cases (x ∷ xs) = inr (x, xs, refl)

step-empty : (a : Announcer) → a.pods ≡ [] → step take_one a ≡ some a
unfolding step
step-empty a e = ground arith

step-take :
    (a : Announcer) (p : Pod) (ps : List Pod)
    → a.pods ≡ p ∷ ps
    → step take_one a ≡ some (record a { pods = ps })
unfolding step
step-take a p ps e = rw (e, step, receive)

run-Follows : (es : List Event) (a b : Announcer) → run es a ≡ some b → Result es a b
unfolding run step
run-Follows [] a b h = subst (Result [] a) (some-injective _ _ h) (nothing-Follows a)
run-Follows (add (current (pod p)) ∷ es) a b h =
    add-Follows p es a b (run-Follows es (announce p a) b h)
run-Follows (add (current unexpected) ∷ es) a b h = run-Follows es a b h
run-Follows (add (final_state_unknown o) ∷ es) a b h = run-Follows es a b h
run-Follows (delete (current o) ∷ es) a b h = run-Follows es a b h
run-Follows (delete (final_state_unknown (pod p)) ∷ es) a b h = run-Follows es a b h
run-Follows (delete (final_state_unknown unexpected) ∷ es) a b h = cc
run-Follows (update n ∷ es) a b h = run-Follows es a b h
run-Follows (take_one ∷ es) a b h = elim (List-cases a.pods) [
  | inl none_there ↦
      let s = step-empty a none_there in
      let f = run-Follows es a b (rw (s, run) at h) in
      rw (s, received)
        (subst (λ l. Follows (taken take_one l ++ received es a) b (a.pods ++ wanted es) a.dropped)
          (sym none_there) f)
  | inr (p, ps, e) ↦
      let s = step-take a p ps e in
      let f = run-Follows es (record a { pods = ps }) b (rw (s, run) at h) in
      rw (s, received)
        (rw e (record {
          in_order = Sublistᴰ.cons-cons refl f.in_order;
          counted = omega (arith, f.counted);
        }))
]

-- The channel is a queue that drops what it has no room for: whatever is added, deleted, updated and
-- received, the pods that the receivers got, followed by those in the channel, are in the order in
-- which they were added while they had a role and had not completed, each at most once; and those that
-- are missing are counted as dropped, exactly.
pub announced_in_order :
    (buffer_size : ℕ) (es : List Event) (b : Announcer)
    → run es (new_announcer buffer_size) ≡ some b
    → Follows (received es (new_announcer buffer_size)) b (wanted es) 0
unfolding new_announcer
announced_in_order n es b h = run-Follows es (new_announcer n) b h
