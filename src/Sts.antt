-- ===== src/Sts.antt =====
-- pkg/aws/sts: roles, identities, session names, endpoints and the credentials cache.
pub mod Resolver
pub mod Identity
pub mod Session
pub mod Credentials
pub mod Cache
pub mod Gateway
pub mod Endpoint
