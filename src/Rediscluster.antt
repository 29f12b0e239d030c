-- ===== src/Rediscluster.antt =====
-- Package rediscluster: an operation on one of several Redis nodes, with failover and health checks.
pub mod Node
pub mod Execute
pub mod Health
pub mod Urls
pub mod Config
pub mod Adapter
pub mod Reports
mod Examples
