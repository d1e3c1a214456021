-- ===== src/K8s/PodCache/Bag.antt =====
-- The lookups of pkg/k8s/pod_cache.go on the pods of the store as a bag, which has no order.
use kiam.Base.{Bool, not, ◌&&◌, ◌≡◌}
use mathlib.Core.List.{Permᴰ}
use mathlib.Core.Quot
use mathlib.Core.Quot.{Quot}
use kiam.Base.Keep.{keep, any, keep-Permᴰ, any-Permᴰ}
use kiam.Base.Text.{Text}
use kiam.Base.Lists.{All}
use kiam.Base.Outcome.{Outcome, ok}
use kiam.Sts.Resolver.{Resolver}
use kiam.Sts.Identity.{RoleIdentity}
use kiam.K8s.Pod.{Pod, is_pod_completed, pod_role_identity_index}
use kiam.K8s.PodCache.{Indexer, IsIndexed, only_one, get_pod_by_ip, is_active_pods_for_role}
use kiam.K8s.PodCache.Laws.{
  is_active_at, only_one-Permᴰ, has_role, get_pod_by_ip_answers, is_active_pods_for_role_answers,
}

Outcome_Pod-set : IsSet (Outcome Pod)
Outcome_Pod-set = hlevel

abbrev pub PodBag : Type 0
PodBag = Quot (Permᴰ {A = Pod})

-- What GetPodByIP answers: the one pod that may act under the address.
pub pod_for_ip : Text → PodBag → Outcome Pod
pod_for_ip ip =
    Quot.lift Outcome_Pod-set (λ pods. only_one (keep (is_active_at ip) pods))
      (λ xs ys p. only_one-Permᴰ (keep-Permᴰ (is_active_at ip) p))

-- What IsActivePodsForRole answers: whether a pod that has not completed has the role.
pub role_active : Resolver → RoleIdentity → PodBag → Bool
role_active resolver identity =
    Quot.lift (hlevel) (any (λ pod. has_role resolver identity pod && not (is_pod_completed pod)))
      (λ xs ys p. any-Permᴰ (λ pod. has_role resolver identity pod && not (is_pod_completed pod)) p)

module _ (x : Indexer) where
  pub bag_of : x.Store → PodBag
  bag_of store = Quot.mk (x.objects store)

  -- The pod cache is a bag of pods: if the roles of all pods in the store can be resolved, both
  -- lookups answer by the pods in the store alone, however the store and its indexes order them.
  pub pod_cache_refines_bag :
      (store : x.Store) (resolver : Resolver)
      → All (IsIndexed (pod_role_identity_index resolver)) (x.objects store)
      → ((ip : Text) → get_pod_by_ip x store ip ≡ pod_for_ip ip (bag_of store))
        × ((identity : RoleIdentity)
            → is_active_pods_for_role x resolver store identity
              ≡ ok (role_active resolver identity (bag_of store)))
  unfolding pod_for_ip role_active bag_of
  pod_cache_refines_bag store resolver indexed = (
    λ ip. get_pod_by_ip_answers x store ip,
    λ identity. is_active_pods_for_role_answers x resolver store identity indexed,
  )
