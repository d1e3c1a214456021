-- ===== src/K8s/PodCache/Laws.antt =====
-- What the lookups answer about the pods in the store.
use mathlib.Core.List.{Permᴰ}
use kiam.Base.{
  Bool, true, false, not, ◌≡◌, refl, sym, ap, ◌∙◌, ◌&&◌, List, [], ◌∷◌, if◌then◌else◌, arith,
  Bool-cases, inl, inr,
}
use mathlib.Core.Path.{fun_ext}
use kiam.Base.Lists.{All}
use kiam.Base.Keep.{keep, any, keep-keep, keep-Permᴰ, any-Permᴰ, any-keep, is_nil, is_nil-Permᴰ}
use kiam.Base.Text.{Text, text_eq}
use kiam.Base.Text.Laws.{text_eq_iff}
use kiam.Base.Outcome.{Outcome, ok, ok-injective, err, panic, role_empty, ◌>>=◌}
use kiam.Sts.Resolver.{Resolver, resolve}
use kiam.Sts.Identity.{RoleIdentity, to_string, new_role_identity}
use kiam.K8s.Pod.{
  Pod, is_pod_completed, pod_ip_index, pod_role_identity_index, pod_role, pod_session_name,
  pod_external_id,
}
use kiam.K8s.PodCache.{
  Indexer, IsIndexed, has_value, among, is_found, only_one, find_pod_for_ip, get_pod_by_ip,
  is_active_pods_for_role,
}

-- A pod that may act under an address: it has not completed, and its address is that one, which is
-- not empty.
abbrev pub is_active_at : Text → Pod → Bool
is_active_at ip pod = (not (text_eq ip []) && text_eq pod.ip ip) && not (is_pod_completed pod)

cons_cases-Permᴰ :
    {a b : Pod} (l r : List Pod) → a ≡ b → is_nil l ≡ is_nil r → only_one (a ∷ l) ≡ only_one (b ∷ r)
unfolding only_one
cons_cases-Permᴰ [] [] e h = ap ok e
cons_cases-Permᴰ [] (y ∷ r) e h = cc
cons_cases-Permᴰ (x ∷ l) [] e h = cc
cons_cases-Permᴰ (x ∷ l) (y ∷ r) e h = refl

pub only_one-Permᴰ : {xs ys : List Pod} → Permᴰ xs ys → only_one xs ≡ only_one ys
unfolding only_one
only_one-Permᴰ Permᴰ.nil = refl
only_one-Permᴰ (Permᴰ.cons {l₁} {l₂} e p) = cons_cases-Permᴰ l₁ l₂ e (is_nil-Permᴰ p)
only_one-Permᴰ (Permᴰ.swap e d) = refl
only_one-Permᴰ (Permᴰ.trans p q) = only_one-Permᴰ p ∙ only_one-Permᴰ q

ip-IsIndexed : (pods : List Pod) → All (IsIndexed pod_ip_index) pods
unfolding pod_ip_index
ip-IsIndexed [] = tt
ip-IsIndexed (pod ∷ pods) = elim (Bool-cases (text_eq pod.ip [])) [
  | inl e ↦ rw e (([], refl), ip-IsIndexed pods)
  | inr e ↦ rw e ((pod.ip ∷ [], refl), ip-IsIndexed pods)
]

ip_value :
    (ip : Text) (pod : Pod)
    → has_value pod_ip_index ip pod ≡ (if text_eq pod.ip [] then false else text_eq ip pod.ip)
unfolding has_value pod_ip_index any
ip_value ip pod = elim (Bool-cases (text_eq pod.ip [])) [
  | inl e ↦ rw e
  | inr e ↦ rw e (ground arith)
]

found_active :
    (ip : Text) (pod : Pod)
    → (is_found ip pod && has_value pod_ip_index ip pod) ≡ is_active_at ip pod
unfolding is_found
found_active ip pod = rw ip_value (
    ground (
      arith,
      text_eq_iff pod.ip ip,
      text_eq_iff ip pod.ip,
      text_eq_iff pod.ip [],
      text_eq_iff ip [],
    ))

only_one-keep :
    (f : Pod → Bool) (pods : List Pod) (pod : Pod) → only_one (keep f pods) ≡ ok pod → f pod ≡ true
unfolding only_one keep
only_one-keep f [] pod h = cc
only_one-keep f (p ∷ pods) pod h = elim (Bool-cases (f p)) [
  | inl e ↦ first (keep f pods) (rw e at h) e
  | inr e ↦ only_one-keep f pods pod (rw e at h)
]
  where
    first : (rest : List Pod) → only_one (p ∷ rest) ≡ ok pod → f p ≡ true → f pod ≡ true
    first [] o e = ap f (sym (ok-injective o)) ∙ e
    first (q ∷ rest) o e = cc

module _ (x : Indexer) where
  -- GetPodByIP answers by the pods in the store that have not completed and have that address, if it
  -- is not empty: none is ErrPodNotFound, one is that pod, and more are ErrMultipleRunningPods. The
  -- order in which the index returns them does not matter, and it panics or fails with no other
  -- error.
  pub get_pod_by_ip_answers :
      (store : x.Store) (ip : Text)
      → get_pod_by_ip x store ip ≡ only_one (keep (is_active_at ip) (x.objects store))
  unfolding get_pod_by_ip
  get_pod_by_ip_answers store ip =
      let (items, e, p) = x.by_index_finds pod_ip_index store ip (ip-IsIndexed (x.objects store)) in
      rw (e, find_pod_for_ip)
        (only_one-Permᴰ (keep-Permᴰ (is_found ip) p)
          ∙ ap only_one (keep-keep (is_found ip) (has_value pod_ip_index ip) (x.objects store))
          ∙ ap (λ f. only_one (keep f (x.objects store))) (fun_ext (found_active ip)))

  -- A pod that is found has not completed.
  pub get_pod_by_ip-active :
      (store : x.Store) (ip : Text) (pod : Pod)
      → get_pod_by_ip x store ip ≡ ok pod
      → is_pod_completed pod ≡ false
  get_pod_by_ip-active store ip pod h =
      let active =
        only_one-keep (is_active_at ip) (x.objects store) pod
          (sym (get_pod_by_ip_answers store ip) ∙ h) in
      ground arith

-- The pod's annotations name the identity, as far as the key in the cache tells.
abbrev pub is_key_of : Text → Outcome RoleIdentity → Bool
is_key_of key (ok i) = text_eq key (to_string i)
is_key_of key (err e) = false
is_key_of key panic = false

abbrev pub has_role : Resolver → RoleIdentity → Pod → Bool
has_role resolver identity pod =
    is_key_of (to_string identity)
      (new_role_identity resolver (pod_role pod) (pod_session_name pod) (pod_external_id pod))

among-singleton :
    (key : Text) (o : Outcome RoleIdentity)
    → among key (o >>= λ i. ok (to_string i ∷ [])) ≡ is_key_of key o
unfolding any
among-singleton key (ok i) = ground arith
among-singleton key (err e) = refl
among-singleton key panic = refl

new_role_identity-empty :
    (r : Resolver) (session external : Text)
    → new_role_identity r [] session external ≡ err role_empty
unfolding new_role_identity resolve
new_role_identity-empty r session external = refl

has_value-role :
    (resolver : Resolver) (identity : RoleIdentity) (pod : Pod)
    → has_value (pod_role_identity_index resolver) (to_string identity) pod
      ≡ has_role resolver identity pod
unfolding has_value pod_role_identity_index any
has_value-role resolver identity pod = elim (Bool-cases (text_eq (pod_role pod) [])) [
  | inl e ↦ rw e (rw ((text_eq_iff (pod_role pod) []).0 e) (rw new_role_identity-empty))
  | inr e ↦ rw e (among-singleton (to_string identity) _)
]

module _ (x : Indexer) where
  -- IsActivePodsForRole answers whether some pod in the store that has not completed is annotated
  -- with the identity, if the roles of all pods in the store can be resolved.
  pub is_active_pods_for_role_answers :
      (resolver : Resolver) (store : x.Store) (identity : RoleIdentity)
      → All (IsIndexed (pod_role_identity_index resolver)) (x.objects store)
      → is_active_pods_for_role x resolver store identity
        ≡ ok (
            any
              (λ pod. has_role resolver identity pod && not (is_pod_completed pod))
              (x.objects store))
  unfolding is_active_pods_for_role
  is_active_pods_for_role_answers resolver store identity h =
      let index = pod_role_identity_index resolver in
      let key = to_string identity in
      let (items, e, p) = x.by_index_finds index store key h in
      let active = λ (pod : Pod). not (is_pod_completed pod) in
      rw e (
        ap ok (
          any-Permᴰ active p
          ∙ any-keep active (has_value index key) (x.objects store)
          ∙ ap (λ (g : Pod → Bool). any (λ pod. g pod && active pod) (x.objects store))
              (fun_ext (has_value-role resolver identity))))
