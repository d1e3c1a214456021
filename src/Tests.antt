-- ===== src/Tests.antt =====
-- The theorems at concrete inputs.
mod Fixtures
mod Sts
mod K8s
mod Server
mod Items
mod Cache
mod Issued
mod EndToEnd
mod Warm
mod Mux
mod Agent
mod Lifecycle
mod Cmd
mod Timed
mod Tls
mod Metadata
