-- ===== src/Httpclient.antt =====
-- Package httpclient (httpclient/client.go): the service-to-service HTTP client.
pub mod Breaker
pub mod Retry
pub mod Trace
mod Examples
