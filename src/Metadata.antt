-- ===== src/Metadata.antt =====
-- pkg/aws/metadata: the agent's HTTP handlers.
pub mod Http
pub mod ClientIp
pub mod Retry
pub mod Handlers
pub mod Proxy
pub mod Mux
pub mod Log
pub mod Server
