-- ===== src/Tests/Items.antt =====
-- A cache of items that is a list.
use kiam.Base.{
  ℕ, ◌≡◌, ◌≢◌, refl, sym, ◌∙◌, ◌⊎◌, inl, inr, Bool-cases, Option, Option-cases, ap, ◌+◌, true,
  false, arith, none, some, List, [], ◌∷◌, if◌then◌else◌,
}
use mathlib.Core.Option.{some-injective}
use kiam.Base.Text.{Text, text_eq}
use kiam.Base.Text.Laws.{text_eq_iff, text_eq_refl, text_eq-false}
use kiam.Sts.Cache.{ItemCache}
use kiam.Sts.Cache.Metrics.Size.{Counted}

pub or_map : {A B C : Type 0} → (B → C) → A ⊎ B → A ⊎ C
or_map f (inl a) = inl a
or_map f (inr b) = inr (f b)

module _ {V : Type 0} where
  abbrev pub Holds : List (Text × V) → Text → V → Type 0
  Holds [] k v = ⊥
  Holds ((j, w) ∷ s) k v = ((k ≡ j) × (v ≡ w)) ⊎ Holds s k v

  abbrev pub get : Text → List (Text × V) → Option V
  get k [] = none
  get k ((j, w) ∷ s) = if text_eq k j then some w else get k s

  abbrev pub without : Text → List (Text × V) → List (Text × V)
  without k [] = []
  without k ((j, w) ∷ s) = if text_eq k j then without k s else (j, w) ∷ without k s

  pub get-Holds : (k : Text) (v : V) (s : List (Text × V)) → get k s ≡ some v → Holds s k v
  get-Holds k v [] e = cc
  get-Holds k v ((j, w) ∷ s) e = elim (Bool-cases (text_eq k j)) [
    | inl t ↦ inl ((text_eq_iff k j).0 t, sym (some-injective _ _ (rw t at e)))
    | inr t ↦ inr (get-Holds k v s (rw t at e))
  ]

  pub without-Holds :
      (k j : Text) (v : V) (s : List (Text × V)) → Holds (without k s) j v → Holds s j v
  without-Holds k j v [] h = h
  without-Holds k j v ((i, w) ∷ s) h = elim (Bool-cases (text_eq k i)) [
    | inl t ↦ inr (without-Holds k j v s (rw t at h))
    | inr t ↦ or_map (without-Holds k j v s) (rw t at h)
  ]

  pub get-without : (k : Text) (s : List (Text × V)) → get k (without k s) ≡ none
  get-without k [] = refl
  get-without k ((j, w) ∷ s) = elim (Bool-cases (text_eq k j)) [
    | inl t ↦ rw t (get-without k s)
    | inr t ↦ rw (t, t) (get-without k s)
  ]

  pub get-without_other : (k j : Text) (s : List (Text × V)) → j ≢ k → get j (without k s) ≡ get j s
  get-without_other k j [] ne = refl
  get-without_other k j ((i, w) ∷ s) ne = elim (Bool-cases (text_eq k i)) [
    | inl t ↦ rw t (
        rw (text_eq-false j i (λ e. ne (e ∙ sym ((text_eq_iff k i).0 t))))
          (get-without_other k j s ne))
    | inr t ↦ rw t (elim (Bool-cases (text_eq j i)) [
      | inl u ↦ rw u
      | inr u ↦ rw u (get-without_other k j s ne)
    ])
  ]

-- A cache whose items do not expire.
abbrev pub items : ItemCache ℕ
items = record {
  Store = List (Text × ℕ);
  empty = [];
  Holds = Holds;
  get = get;
  set = λ k v s. (k, v) ∷ s;
  delete = λ k s. (get k s, without k s);
  delete_expired = λ s. ([], s);
  pass_time = λ s. s;
  empty_holds = λ k v h. h;
  get_holds = get-Holds;
  set_holds = λ k j v w s h. h;
  delete_holds = without-Holds;
  expired_holds = λ j w s h. h;
  time_holds = λ j w s h. h;
  get_set = λ k v s. rw (text_eq_refl k);
  get_delete = get-without;
  get_set_other = λ k j v s other. rw (text_eq-false j k other);
  get_delete_other = get-without_other;
  delete_set = λ k v s. rw (text_eq_refl k);
  expired_get = λ j w s h. h;
  time_get = λ j w s h. h;
}

-- An item that is behind another with its key does not count.
abbrev pub held : List (Text × ℕ) → ℕ
held [] = 0
held ((j, w) ∷ s) = elim (get j s) [ none ↦ held s + 1 | some v ↦ held s ]

held-new :
    (k : Text) (v : ℕ) (s : List (Text × ℕ)) → get k s ≡ none → held ((k, v) ∷ s) ≡ held s + 1
held-new k v s e = rw (e, held)

held-old :
    (k : Text) (v w : ℕ) (s : List (Text × ℕ)) → get k s ≡ some w → held ((k, v) ∷ s) ≡ held s
held-old k v w s e = rw (e, held)

pub held-without :
    (k : Text) (s : List (Text × ℕ))
    → held s ≡ held (without k s) + elim (get k s) [ none ↦ 0 | some v ↦ 1 ]
held-without k [] = omega arith
held-without k ((j, w) ∷ s) = elim (Bool-cases (text_eq k j)) [
  | inl t ↦
      let at = ap (λ i. get i s) (sym ((text_eq_iff k j).0 t)) in
      rw t (elim (Option-cases (get k s)) [
        | inl e ↦
            let front = held-new j w s (at ∙ e) in
            let rest = rw e at (held-without k s) in omega arith
        | inr (v, e) ↦
            let front = held-old j w v s (at ∙ e) in
            let rest = rw e at (held-without k s) in omega arith
      ])
  | inr t ↦
      let other = get-without_other k j s (λ e. cc (t, (text_eq_iff k j).1 (sym e))) in
      rw t (elim (Option-cases (get j s)) [
        | inl e ↦
            let front = held-new j w s e in
            let left = held-new j w (without k s) (other ∙ e) in
            let rest = held-without k s in omega arith
        | inr (v, e) ↦
            let front = held-old j w v s e in
            let left = held-old j w v (without k s) (other ∙ e) in
            let rest = held-without k s in omega arith
      ])
]

pub held-set :
    (k : Text) (f : ℕ) (s : List (Text × ℕ))
    → held ((k, f) ∷ s)
      ≡ (if elim (get k s) [ none ↦ false | some v ↦ true ] then held s else held s + 1)
held-set k f s = elim (Option-cases (get k s)) [
  | inl e ↦ rw e (held-new k f s e)
  | inr (v, e) ↦ rw e (held-old k f v s e)
]

abbrev pub counted : Counted items
counted = record {
  held = held;
  is_held = λ k s. elim (get k s) [ none ↦ false | some v ↦ true ];
  held_empty = refl;
  held_set = held-set;
  held_delete = held-without;
  held_expired = λ s. omega arith;
  held_time = λ s. refl;
}
