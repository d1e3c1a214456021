-- ===== src/Tests/Timed.antt =====
-- A cache of items that expire.
use kiam.Base.{
  ℕ, ◌+◌, ◌≤◌, ◌≡◌, sym, ap, ◌∙◌, inl, inr, Bool-cases, Option, none, some, List, [], ◌∷◌,
  if◌then◌else◌, leb, arith,
}
use mathlib.Core.Option.{some-injective}
use kiam.Base.Text.{Text, text_eq}
use kiam.Base.Text.Laws.{text_eq_iff, text_eq_refl, text_eq-false}
use kiam.Sts.Cache.{ItemCache}
use kiam.Sts.Cache.Ttl.{Timed}
use kiam.Tests.Items.{
  or_map, Holds, get, without, without-Holds, get-Holds, get-without, get-without_other,
}

abbrev Dated : Type 0
Dated = List (Text × (ℕ × ℕ))

abbrev live : ℕ → Option (ℕ × ℕ) → Option ℕ
live now none = none
live now (some (f, t)) = if leb now t then some f else none

abbrev future_of : Option (ℕ × ℕ) → Option ℕ
future_of none = none
future_of (some (f, t)) = some f

abbrev time_of : Option (ℕ × ℕ) → Option ℕ
time_of none = none
time_of (some (f, t)) = some t

-- What DeleteExpired removes, and what it keeps.
abbrev expired : ℕ → Dated → List ℕ
expired now [] = []
expired now ((k, (f, t)) ∷ s) = if leb now t then expired now s else f ∷ expired now s

abbrev kept : ℕ → Dated → Dated
kept now [] = []
kept now ((k, (f, t)) ∷ s) = if leb now t then (k, (f, t)) ∷ kept now s else without k (kept now s)

pub live-some :
    (now : ℕ) (v : Option (ℕ × ℕ)) (f : ℕ)
    → live now v ≡ some f
    → (t : ℕ) × (v ≡ some (f, t)) × (now ≤ t)
live-some now none f e = cc
live-some now (some (g, t)) f e = elim (Bool-cases (leb now t)) [
  | inl b ↦ (t, ap (λ a. some (a, t)) (some-injective _ _ (rw b at e)), ground arith)
  | inr b ↦ cc (rw b at e)
]

pub kept-Holds : (now : ℕ) (k : Text) (v : ℕ × ℕ) (s : Dated) → Holds (kept now s) k v → Holds s k v
kept-Holds now k v [] h = h
kept-Holds now k v ((j, (f, t)) ∷ s) h = elim (Bool-cases (leb now t)) [
  | inl b ↦ or_map (kept-Holds now k v s) (rw b at h)
  | inr b ↦ inr (kept-Holds now k v s (without-Holds j k v (kept now s) (rw b at h)))
]

get-kept :
    (now : ℕ) (k : Text) (v : ℕ × ℕ) (s : Dated) → get k (kept now s) ≡ some v → get k s ≡ some v
get-kept now k v [] e = e
get-kept now k v ((j, (f, t)) ∷ s) e = elim (Bool-cases (leb now t)) [
  | inl b ↦ elim (Bool-cases (text_eq k j)) [
    | inl u ↦ rw u (rw (b, u) at e)
    | inr u ↦ rw u (get-kept now k v s (rw (b, u) at e))
  ]
  | inr b ↦ elim (Bool-cases (text_eq k j)) [
    | inl u ↦ cc (get-without j (kept now s), rw b at e, (text_eq_iff k j).0 u)
    | inr u ↦ rw u (
        get-kept now k v s (
          sym (get-without_other j k (kept now s) (λ same. cc (u, (text_eq_iff k j).1 same)))
          ∙ rw b at e))
  ]
]

abbrev pub HoldsSome : ℕ × Dated → Text → ℕ → Type 0
HoldsSome (now, s) k f = (t : ℕ) × Holds s k (f, t)

pub live-HoldsSome :
    (k : Text) (f now : ℕ) (s : Dated) → live now (get k s) ≡ some f → HoldsSome (now, s) k f
live-HoldsSome k f now s e =
    let (t, found, _) = live-some now (get k s) f e in (t, get-Holds k (f, t) s found)

pub live-kept :
    (j : Text) (w now : ℕ) (s : Dated)
    → live now (get j (kept now s)) ≡ some w
    → live now (get j s) ≡ some w
live-kept j w now s e =
    let (t, found, early) = live-some now (get j (kept now s)) w e in
    rw (get-kept now j (w, t) s found) (sym (ap (live now) found) ∙ e)

pub live-later : (v : Option (ℕ × ℕ)) (w now : ℕ) → live (now + 60) v ≡ some w → live now v ≡ some w
live-later v w now e = let (t, found, early) = live-some (now + 60) v w e in rw found (ground arith)

-- A clock and a list of keys, items and times; a new item expires 600 seconds later.
abbrev pub timed_items : ItemCache ℕ
timed_items = record {
  Store = ℕ × Dated;
  empty = (0, []);
  Holds = HoldsSome;
  get = λ k s. live s.0 (get k s.1);
  set = λ k f s. (s.0, (k, (f, s.0 + 600)) ∷ s.1);
  delete = λ k s. (future_of (get k s.1), (s.0, without k s.1));
  delete_expired = λ s. (expired s.0 s.1, (s.0, kept s.0 s.1));
  pass_time = λ s. (s.0 + 60, s.1);
  empty_holds = λ k v h. h.1;
  get_holds = λ k v s e. live-HoldsSome k v s.0 s.1 e;
  set_holds = λ k j v w s h. elim h.1 [
    | inl e ↦ inl (e.0, ap (λ (p : ℕ × ℕ). p.0) e.1)
    | inr e ↦ inr (h.0, e)
  ];
  delete_holds = λ k j w s h. (h.0, without-Holds k j (w, h.0) s.1 h.1);
  expired_holds = λ j w s h. (h.0, kept-Holds s.0 j (w, h.0) s.1 h.1);
  time_holds = λ j w s h. h;
  get_set = λ k v s. rw (text_eq_refl k) (ground arith);
  get_delete = λ k s. rw (get-without k s.1);
  get_set_other = λ k j v s other. rw (text_eq-false j k other);
  get_delete_other = λ k j s other. rw (get-without_other k j s.1 other);
  delete_set = λ k v s. rw (text_eq_refl k);
  expired_get = λ j w s e. live-kept j w s.0 s.1 e;
  time_get = λ j w s e. live-later (get j s.1) w s.0 e;
}

time_of-some : (v : Option (ℕ × ℕ)) (t : ℕ) → time_of v ≡ some t → (f : ℕ) × (v ≡ some (f, t))
time_of-some none t e = cc
time_of-some (some (f, u)) t e = (f, ap (λ a. some (f, a)) (some-injective _ _ e))

pub time_of-without :
    (k j : Text) (t : ℕ) (s : Dated)
    → time_of (get j (without k s)) ≡ some t
    → time_of (get j s) ≡ some t
time_of-without k j t s e = elim (Bool-cases (text_eq j k)) [
  | inl u ↦ cc (e, get-without k s, (text_eq_iff j k).0 u)
  | inr u ↦
      ap time_of (sym (get-without_other k j s (λ at_key. cc (u, (text_eq_iff j k).1 at_key)))) ∙ e
]

pub time_of-kept :
    (j : Text) (t now : ℕ) (s : Dated)
    → time_of (get j (kept now s)) ≡ some t
    → time_of (get j s) ≡ some t
time_of-kept j t now s e =
    let (f, found) = time_of-some (get j (kept now s)) t e in rw (get-kept now j (f, t) s found)

pub get-time_of :
    (k : Text) (f now : ℕ) (s : Dated)
    → live now (get k s) ≡ some f
    → (t : ℕ) × (time_of (get k s) ≡ some t) × (now ≤ t)
get-time_of k f now s e =
    let (t, found, early) = live-some now (get k s) f e in (t, ap time_of found, early)

abbrev pub timed : Timed timed_items 600
timed = record {
  clock = λ s. s.0;
  expires = λ k s. time_of (get k s.1);
  get_expires = λ k f s e. get-time_of k f s.0 s.1 e;
  set_expires = λ k f s. rw (text_eq_refl k);
  set_expires_other = λ k j f s other. rw (text_eq-false j k other);
  delete_expires = λ k j t s e. time_of-without k j t s.1 e;
  expired_expires = λ j t s e. time_of-kept j t s.0 s.1 e;
  time_expires = λ j t s e. e;
}
