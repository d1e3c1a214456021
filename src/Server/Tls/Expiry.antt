-- ===== src/Server/Tls/Expiry.antt =====
-- earliestExpiry of pkg/server/tls.go: the loops over the verified chains. A certificate is its
-- NotAfter, and 0 is the zero time.
use native.Mathlib.Nat.{le_trans}
use mathlib.Core.Path.{subst}
use kiam.Base.{
  ℕ, ◌≤◌, ◌<◌, ◌≡◌, refl, sym, ◌∙◌, ◌⊎◌, inl, inr, ◌||◌, ◌==◌, List, [], ◌∷◌, if◌then◌else◌, ltb,
  arith,
}
use kiam.Base.Lists.{All}

earlier : ℕ → ℕ → ℕ
earlier t not_after = if t == 0 || ltb not_after t then not_after else t

over_chain : ℕ → List ℕ → ℕ
unfolding earlier
over_chain t [] = t
over_chain t (cert ∷ chain) = over_chain (earlier t cert) chain

pub over_chains : ℕ → List (List ℕ) → ℕ
unfolding over_chain
over_chains t [] = t
over_chains t (chain ∷ chains) = over_chains (over_chain t chain) chains

-- The time stands on one of the chains.
abbrev Occurs : ℕ → List ℕ → Type 0
Occurs t [] = ⊥
Occurs t (x ∷ xs) = (t ≡ x) ⊎ Occurs t xs

abbrev pub OccursIn : ℕ → List (List ℕ) → Type 0
OccursIn t [] = ⊥
OccursIn t (c ∷ cs) = Occurs t c ⊎ OccursIn t cs

abbrev pub NonZero : ℕ → Type 0
NonZero x = 0 < x

earlier_lem :
    (t x : ℕ)
    → 0 < x
    → (0 < earlier t x)
      × (earlier t x ≤ x)
      × ((earlier t x ≡ t) ⊎ (earlier t x ≡ x))
      × (0 < t → earlier t x ≤ t)
unfolding earlier
earlier_lem t x h = (ground arith, ground arith, ground arith, λ p. ground arith)

-- What the loop over a chain has found: `r`, from `t` on.
record Least (t r : ℕ) (xs : List ℕ) : Type 0 where
  source : (r ≡ t) ⊎ Occurs r xs
  least : All (λ x. r ≤ x) xs
  kept : 0 < t → r ≤ t
  positive : (0 < t) ⊎ ((x : ℕ) × Occurs x xs) → 0 < r

over_chain-Least : (t : ℕ) (xs : List ℕ) → All NonZero xs → Least t (over_chain t xs) xs
unfolding over_chain
over_chain-Least t [] h = record {
  source = inl refl;
  least = tt;
  kept = λ p. omega arith;
  positive = elim [ inl p ↦ p | inr x ↦ absurd x.1 ];
}
over_chain-Least t (x ∷ xs) h =
    let (pos, le, from, keep) = earlier_lem t x h.0 in
    let ih = over_chain-Least (earlier t x) xs h.1 in
    let le_earlier = ih.kept pos in
    record {
      source = elim ih.source [
        | inr o ↦ inr (inr o)
        | inl e ↦ elim from [ inl f ↦ inl (e ∙ f) | inr f ↦ inr (inl (e ∙ f)) ]
      ];
      least = (omega arith, ih.least);
      kept = λ p. le_trans le_earlier (keep p);
      positive = λ _. ih.positive (inl pos);
    }

-- The same for all chains.
record LeastIn (t r : ℕ) (chains : List (List ℕ)) : Type 0 where
  source : (r ≡ t) ⊎ OccursIn r chains
  least : All (All (λ x. r ≤ x)) chains
  kept : 0 < t → r ≤ t
  positive : (0 < t) ⊎ ((x : ℕ) × OccursIn x chains) → 0 < r

All-le_trans : (r e : ℕ) (xs : List ℕ) → r ≤ e → All (λ x. e ≤ x) xs → All (λ x. r ≤ x) xs
All-le_trans r e [] h a = tt
All-le_trans r e (x ∷ xs) h a = (le_trans h a.0, All-le_trans r e xs h a.1)

over_chains-LeastIn :
    (t : ℕ) (chains : List (List ℕ))
    → All (All NonZero) chains
    → LeastIn t (over_chains t chains) chains
unfolding over_chains
over_chains-LeastIn t [] h = record {
  source = inl refl;
  least = tt;
  kept = λ p. omega arith;
  positive = elim [ inl p ↦ p | inr x ↦ absurd x.1 ];
}
over_chains-LeastIn t ([] ∷ cs) h =
    let ih = over_chains-LeastIn t cs h.1 in
    unfold over_chain in
    record {
      source = elim ih.source [ inl e ↦ inl e | inr o ↦ inr (inr o) ];
      least = (tt, ih.least);
      kept = ih.kept;
      positive = elim [
        | inl p ↦ ih.positive (inl p)
        | inr (x, inl o) ↦ absurd o
        | inr (x, inr o) ↦ ih.positive (inr (x, o))
      ];
    }
over_chains-LeastIn t ((c ∷ chain) ∷ cs) h =
    let first = over_chain-Least t (c ∷ chain) h.0 in
    let e = over_chain t (c ∷ chain) in
    let pos = first.positive (inr (c, inl refl)) in
    let ih = over_chains-LeastIn e cs h.1 in
    record {
      source = elim ih.source [
        | inr o ↦ inr (inr o)
        | inl q ↦ elim first.source [
          | inl f ↦ inl (q ∙ f)
          | inr f ↦ inr (inl (subst (λ z. Occurs z (c ∷ chain)) (sym q) f))
        ]
      ];
      least = (All-le_trans _ e (c ∷ chain) (ih.kept pos) first.least, ih.least);
      kept = λ p. le_trans (ih.kept pos) (first.kept p);
      positive = λ _. ih.positive (inl pos);
    }

-- If some chain has a certificate, and no NotAfter is the zero time, the expiry is the NotAfter of a
-- certificate on one of the chains, and no certificate on any chain expires before it.
pub earliest_expiry_least :
    (chains : List (List ℕ)) (x : ℕ)
    → All (All NonZero) chains
    → OccursIn x chains
    → OccursIn (over_chains 0 chains) chains × All (All (λ y. over_chains 0 chains ≤ y)) chains
earliest_expiry_least chains x h o =
    let l = over_chains-LeastIn 0 chains h in
    (elim l.source [ inr q ↦ q | inl q ↦ absurd (zero_pos (l.positive (inr (x, o))) q) ], l.least)
  where
    zero_pos : {r : ℕ} → 0 < r → r ≡ 0 → ⊥
    zero_pos p e = omega arith
