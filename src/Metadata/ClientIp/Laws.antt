-- ===== src/Metadata/ClientIp/Laws.antt =====
-- The address that a request is attributed to.

use kiam.Base.{
  ℕ, ◌-◌, ◌<◌, ◌≡◌, refl, ap, ◌∙◌, ◌++◌, ◌==◌, false, List, [], ◌∷◌, ltb, arith, Bool-cases, inl,
  inr, ltb→lt,
}
use kiam.Base.Lists.{length, take, length-append}
use kiam.Base.Text.{Text, codes, split, join, cons_head}
use kiam.Base.Text.Laws.{Free}
use kiam.Base.Outcome.{incorrect_format}
use kiam.Metadata.Http.{done, fail, Request}
use kiam.Metadata.ClientIp.{parse_client_ip, build_client_ip}

length-cons_head : (b : ℕ) (ps : List Text) → 0 < length ps → length (cons_head b ps) ≡ length ps
length-cons_head b [] h = absurd (omega arith)
length-cons_head b (p ∷ ps) h = refl

length-split-pos : (sep : ℕ) (s : Text) → 0 < length (split sep s)
unfolding split
length-split-pos sep [] = omega arith
length-split-pos sep (b ∷ s) =
    ground (arith, length-split-pos sep s, length-cons_head b (split sep s))

cons_head-append :
    (b : ℕ) (ps qs : List Text) → 0 < length ps → cons_head b (ps ++ qs) ≡ cons_head b ps ++ qs
cons_head-append b [] qs h = absurd (omega arith)
cons_head-append b (p ∷ ps) qs h = refl

split-Free_id : (sep : ℕ) (s : Text) → Free sep s → split sep s ≡ s ∷ []
unfolding split
split-Free_id sep [] f = refl
split-Free_id sep (b ∷ s) f = ground (arith, split-Free_id sep s f.1)

-- A separator in the text is a cut between the pieces.
split-append : (sep : ℕ) (s t : Text) → split sep (s ++ sep ∷ t) ≡ split sep s ++ split sep t
unfolding split
split-append sep [] t = ground arith
split-append sep (b ∷ s) t = elim (Bool-cases (b == sep)) [
  | inl e ↦ rw e (ap (λ ps. [] ∷ ps) (split-append sep s t))
  | inr e ↦ rw e (
      ap (cons_head b) (split-append sep s t)
      ∙ cons_head-append b (split sep s) (split sep t) (length-split-pos sep s))
]

join-cons_head :
    (sep b : ℕ) (ps : List Text)
    → 0 < length ps
    → join (sep ∷ []) (cons_head b ps) ≡ b ∷ join (sep ∷ []) ps
unfolding join
join-cons_head sep b [] h = absurd (omega arith)
join-cons_head sep b (p ∷ []) h = refl
join-cons_head sep b (p ∷ q ∷ ps) h = refl

join-nil_cons :
    (sep : ℕ) (ps : List Text)
    → 0 < length ps
    → join (sep ∷ []) ([] ∷ ps) ≡ sep ∷ join (sep ∷ []) ps
unfolding join
join-nil_cons sep [] h = absurd (omega arith)
join-nil_cons sep (p ∷ ps) h = refl

join-split : (sep : ℕ) (s : Text) → join (sep ∷ []) (split sep s) ≡ s
unfolding split
join-split sep [] = unfold join in refl
join-split sep (b ∷ s) = elim (Bool-cases (b == sep)) [
  | inl e ↦
      rw e (
        join-nil_cons sep (split sep s) (length-split-pos sep s) ∙ ground (arith, join-split sep s))
  | inr e ↦ rw e (
      join-cons_head sep b (split sep s) (length-split-pos sep s)
      ∙ ap (λ t. b ∷ t) (join-split sep s))
]

take-append_last {ℓ} : {A : Type ℓ} (xs : List A) (y : A) → take (length xs) (xs ++ y ∷ []) ≡ xs
take-append_last [] y = refl
take-append_last (x ∷ xs) y = ap (λ t. x ∷ t) (take-append_last xs y)

-- All pieces but the last, joined again.
all_but_last :
    (addr : Text) (ps : List Text) (p : Text)
    → 0 < length ps
    → split b':' addr ≡ ps ++ p ∷ []
    → parse_client_ip addr ≡ done (join (codes ":") ps)
unfolding parse_client_ip
all_but_last addr ps p h e =
    rw (e, parse_client_ip)
      (elim (Bool-cases (ltb (length (ps ++ p ∷ [])) 2)) [
        | inl t ↦
            absurd (omega (arith, length-append ps (p ∷ []), ltb→lt (length (ps ++ p ∷ [])) 2 t))
        | inr t ↦ rw t (
            ap (λ k. done (join (codes ":") (take k (ps ++ p ∷ [])))) one_less
            ∙ ap (λ qs. done (join (codes ":") qs)) (take-append_last ps p))
      ])
  where
    one_less : length (ps ++ p ∷ []) - 1 ≡ length ps
    one_less = omega (arith, length-append ps (p ∷ []))

-- The address of a peer is what stands in front of the last colon, whatever colons it holds itself;
-- an address with no colon is refused.
parse_client_ip_last_colon :
    (ip port : Text)
    → Free b':' port
    → (parse_client_ip (ip ++ (codes ":" ++ port)) ≡ done ip)
      × (parse_client_ip port ≡ fail (incorrect_format port))
unfolding parse_client_ip
parse_client_ip_last_colon ip port f = (
  all_but_last _ (split b':' ip) port (length-split-pos b':' ip)
        (split-append b':' ip port ∙ ap (λ ps. split b':' ip ++ ps) (split-Free_id b':' port f))
      ∙ ap done (join-split b':' ip),
  rw (split-Free_id b':' port f),
)

-- Unless the query may name an address, a request is attributed to its peer, whatever its form
-- holds.
build_client_ip_peer :
    (req : Request) (ip port : Text)
    → Free b':' port
    → req.remote_addr ≡ ip ++ (codes ":" ++ port)
    → build_client_ip false req ≡ done ip
unfolding build_client_ip
build_client_ip_peer req ip port f e =
    ap parse_client_ip e ∙ (parse_client_ip_last_colon ip port f).0
