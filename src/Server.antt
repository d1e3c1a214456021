-- ===== src/Server.antt =====
-- pkg/server: the policies and the gRPC server.
pub mod Builder
pub mod Policy
pub mod Handlers
pub mod Gateway
pub mod GatewayBuilder
pub mod Tls
pub mod Issued
pub mod Lifecycle
