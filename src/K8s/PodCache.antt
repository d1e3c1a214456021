-- ===== src/K8s/PodCache.antt =====
-- pkg/k8s/pod_cache.go: lookups in the pod cache. The store and its indexes are client-go's, and
-- enter as a parameter with the documented law of ByIndex.
pub mod Laws
pub mod Bag
use mathlib.Core.List.{Permᴰ}
use kiam.Base.{ℕ, Bool, true, false, not, ◌≡◌, List, [], ◌∷◌, if◌then◌else◌}
use kiam.Base.Lists.{All}
use kiam.Base.Keep.{keep, any}
use kiam.Base.Text.{Text, text_eq}
use kiam.Base.Outcome.{Outcome, ok, err, panic, pod_not_found, multiple_running_pods, ◌>>=◌}
use kiam.Sts.Resolver.{Resolver}
use kiam.Sts.Identity.{RoleIdentity, to_string}
use kiam.K8s.Pod.{Pod, is_pod_completed, pod_ip_index, pod_role_identity_index}

abbrev IndexFunc : Type 0
IndexFunc = Pod → Outcome (List Text)

-- The index function gives values for the object.
abbrev pub IsIndexed : IndexFunc → Pod → Type 0
IsIndexed index pod = (values : List Text) × (index pod ≡ ok values)

abbrev among : Text → Outcome (List Text) → Bool
among value (ok values) = any (text_eq value) values
among value (err e) = false
among value panic = false

unfoldable pub has_value : IndexFunc → Text → Pod → Bool
has_value index value pod = among value (index pod)

-- cache.Indexer
pub record Indexer : Type 1 where
  pub Store : Type 0
  pub objects : Store → List Pod
  pub by_index : IndexFunc → Store → Text → Outcome (List Pod)
  -- ByIndex returns, in some order, the objects whose indexed values include the value.
  pub by_index_finds :
      (index : IndexFunc) (store : Store) (value : Text)
      → All (IsIndexed index) (objects store)
      → (items : List Pod) × (by_index index store value ≡ ok items)
        × Permᴰ items (keep (has_value index value) (objects store))

-- The loop over the items of findPodForIP, and its tests on the number of pods found.
is_found : Text → Pod → Bool
is_found ip pod = if is_pod_completed pod then false else text_eq pod.ip ip

pub only_one : List Pod → Outcome Pod
only_one [] = err pod_not_found
only_one (pod ∷ []) = ok pod
only_one (pod ∷ other ∷ rest) = err multiple_running_pods

module _ (x : Indexer) where
  -- findPodForIP
  find_pod_for_ip : x.Store → Text → Outcome Pod
  unfolding only_one is_found keep
  find_pod_for_ip store ip = do
    items ← x.by_index pod_ip_index store ip
    only_one (keep (is_found ip) items)

  -- GetPodByIP
  unfoldable pub get_pod_by_ip : x.Store → Text → Outcome Pod
  unfolding find_pod_for_ip
  get_pod_by_ip store ip = find_pod_for_ip store ip

  -- IsActivePodsForRole; the resolver is the one that the index was made with.
  pub is_active_pods_for_role : Resolver → x.Store → RoleIdentity → Outcome Bool
  unfolding any
  is_active_pods_for_role resolver store identity = do
    items ← x.by_index (pod_role_identity_index resolver) store (to_string identity)
    ok (any (λ pod. not (is_pod_completed pod)) items)
