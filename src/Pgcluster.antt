-- ===== src/Pgcluster.antt =====
-- Package pgcluster: a Postgres cluster with writer detection, read balancing and health checks.
pub mod Node
pub mod Routing
pub mod Connect
pub mod Health
pub mod Detect
pub mod Urls
pub mod Config
pub mod Manager
mod Examples
