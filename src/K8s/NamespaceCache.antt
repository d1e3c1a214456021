-- ===== src/K8s/NamespaceCache.antt =====
-- pkg/k8s/namespace_cache.go: lookups of namespaces, and the handler of their events, which only logs,
-- so that it ends or panics: `none` is a panic.
use kiam.Base.{Option, none, some}
use kiam.Base.Text.{Text, codes}
use kiam.Base.Outcome.{Outcome, ok, ◌>>=◌}
use kiam.K8s.Pod.{Annotations}

-- v1.Namespace
pub record Namespace : Type 0 where
  pub name : Text
  pub annotations : Annotations

abbrev pub annotation_permitted_key : Text
annotation_permitted_key = codes "iam.amazonaws.com/permitted"

-- FindNamespace; the argument stands for the indexer's GetByKey. A missing namespace is a nil pointer
-- with no error.
unfoldable pub find_namespace :
    (Text → Outcome (Option Namespace)) → Text → Outcome (Option Namespace)
find_namespace get_by_key name = do
  found ← get_by_key name
  elim found [ none ↦ ok none | some ns ↦ ok (some ns) ]

-- What client-go hands to the handler of namespaces.
pub data NamespaceObject : Type 0 where
  namespace : Namespace → NamespaceObject
  other_object : NamespaceObject

pub data NamespaceNotice : Type 0 where
  current_namespace : NamespaceObject → NamespaceNotice
  last_known : NamespaceObject → NamespaceNotice

unfoldable pub on_namespace_add : NamespaceNotice → Option (Unit {0})
on_namespace_add n = some tt

-- Where the last known state is no namespace, the log line reads the fields of a nil namespace.
unfoldable pub on_namespace_delete : NamespaceNotice → Option (Unit {0})
on_namespace_delete (current_namespace o) = some tt
on_namespace_delete (last_known (namespace ns)) = some tt
on_namespace_delete (last_known other_object) = none

unfoldable pub on_namespace_update : NamespaceNotice → Option (Unit {0})
on_namespace_update n = some tt
