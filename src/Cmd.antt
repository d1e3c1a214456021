-- ===== src/Cmd.antt =====
-- cmd/kiam: the commands.
pub mod Agent
pub mod Health
pub mod Iptables
pub mod Options
pub mod Server
