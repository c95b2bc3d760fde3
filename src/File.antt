-- ===== src/File.antt =====
-- The registry of lib/file: clients, their quotas, keys and rate limiters.
mod Tests
pub mod Free
pub mod Clients
pub mod Hosts
pub mod Targets
pub mod Pages
pub mod Counters
pub mod Tasks
pub mod Credentials
