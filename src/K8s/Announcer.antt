-- ===== src/K8s/Announcer.antt =====
-- pkg/k8s/pod_cache.go: the handler of the pod cache's events. `pods` is the buffered channel
-- between the watcher and the prefetching manager: its items, oldest first, and its capacity, which is
-- taken to be one at least: without a buffer, a pod is handed to a receiver that waits.
pub mod Laws
pub mod Fifo
use kiam.Base.{
  ℕ, zero, suc, ◌+◌, Bool, true, false, ◌++◌, List, [], ◌∷◌, Option, none, some, if◌then◌else◌, ltb,
}
use kiam.Base.Lists.{length}
use kiam.Base.Text.{text_eq}
use kiam.K8s.Pod.{Pod, is_pod_completed, pod_role}

-- What client-go hands to a handler: a pod, something else, or the last known state of an object
-- whose deletion was missed (cache.DeletedFinalStateUnknown).
pub data Object : Type 0 where
  pod : Pod → Object
  unexpected : Object

pub data Notice : Type 0 where
  current : Object → Notice
  final_state_unknown : Object → Notice

pub record Announcer : Type 0 where
  pub pods : List Pod
  pub buffer_size : ℕ
  -- the metric dropAnnounce
  pub dropped : ℕ

-- make(chan *v1.Pod, bufferSize), in NewPodCache
unfoldable pub new_announcer : ℕ → Announcer
new_announcer buffer_size = record { pods = []; buffer_size = buffer_size; dropped = 0 }

announce : Pod → Announcer → Announcer
announce p a =
    if is_pod_completed p
    then a
    else if text_eq (pod_role p) []
    then a
    else if ltb (length a.pods) a.buffer_size
    then record a { pods = a.pods ++ p ∷ [] }
    else record a { dropped = a.dropped + 1 }

-- A handler ends or panics: `none` is a panic.
on_add : Notice → Announcer → Option Announcer
unfolding announce
on_add (current (pod p)) a = some (announce p a)
on_add (current unexpected) a = some a
on_add (final_state_unknown o) a = some a

-- Where the last known state is no pod, the log line reads the fields of a nil pod.
on_delete : Notice → Announcer → Option Announcer
on_delete (current o) a = some a
on_delete (final_state_unknown (pod p)) a = some a
on_delete (final_state_unknown unexpected) a = none

on_update : Notice → Announcer → Option Announcer
on_update n a = some a

-- A receive from Pods() where the channel holds something.
receive : Announcer → Option (Pod × Announcer)
receive a = elim a.pods [ [] ↦ none | p ∷ rest ↦ some (p, record a { pods = rest }) ]

pub data Event : Type 0 where
  add delete update : Notice → Event
  take_one : Event

-- One event; a receive on an empty channel waits, and changes nothing.
unfoldable pub step : Event → Announcer → Option Announcer
unfolding on_add on_delete on_update receive
step (add n) a = on_add n a
step (delete n) a = on_delete n a
step (update n) a = on_update n a
step take_one a = elim (receive a) [ none ↦ some a | some (p, b) ↦ some b ]

unfoldable pub run : List Event → Announcer → Option Announcer
unfolding step
run [] a = some a
run (e ∷ es) a = elim (step e a) [ none ↦ none | some b ↦ run es b ]
