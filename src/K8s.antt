-- ===== src/K8s.antt =====
-- pkg/k8s: pods and namespaces as the server sees them.
pub mod Pod
pub mod PodCache
pub mod Announcer
pub mod NamespaceCache
