-- ===== src/Tests/K8s.antt =====
-- The theorems on pkg/k8s at concrete inputs.
use kiam.Base.{◌≡◌, refl, List, [], ◌∷◌}
use kiam.Base.Text.{Text, text_eq}
use kiam.Base.Outcome.{ok}
use kiam.Sts.Resolver.{resolve}
use kiam.Sts.Identity.{RoleIdentity, new_role_identity}
use kiam.K8s.Pod.{Pod, is_pod_completed, pod_role_identity_index, pod_role, annotation}
use kiam.K8s.PodCache.{get_pod_by_ip, is_active_pods_for_role}
use kiam.K8s.PodCache.Bag.{pod_for_ip, role_active, bag_of, pod_cache_refines_bag}
use kiam.K8s.Announcer.{
  Announcer, Event, Event.add, Event.take_one, current, pod, new_announcer, run,
}
use kiam.K8s.Announcer.Fifo.{Follows, received, wanted, announced_in_order}
use kiam.Tests.Fixtures.{list_indexer, resolver, web_pod, finished_pod}

abbrev pods : List Pod
pods = finished_pod ∷ web_pod ∷ []

pod_cache_refines_bag_example :
    ((ip : Text) → get_pod_by_ip list_indexer pods ip ≡ pod_for_ip ip (bag_of list_indexer pods))
    × ((identity : RoleIdentity)
        → is_active_pods_for_role list_indexer resolver pods identity
          ≡ ok (role_active resolver identity (bag_of list_indexer pods)))
unfolding pod_role_identity_index text_eq pod_role annotation new_role_identity resolve
pod_cache_refines_bag_example =
    pod_cache_refines_bag list_indexer pods resolver ((_, refl), ((_, refl), tt))

abbrev announced : Announcer
announced = record { pods = web_pod ∷ []; buffer_size = 1; dropped = 1 }

abbrev arrivals : List Event
arrivals =
    add (current (pod web_pod))
    ∷ add (current (pod finished_pod))
    ∷ take_one
    ∷ add (current (pod web_pod))
    ∷ add (current (pod web_pod))
    ∷ []

announced_in_order_example :
    Follows (received arrivals (new_announcer 1)) announced (wanted arrivals) 0
unfolding run new_announcer is_pod_completed text_eq pod_role annotation
announced_in_order_example = announced_in_order 1 arrivals announced refl
