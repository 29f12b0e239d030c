-- ===== src/Middleware.antt =====
-- Package middleware, with the pagination of package httpx: who calls, how often, with which rights,
-- and for how much.
pub mod Context
pub mod RateLimit
pub mod ServiceAuth
pub mod Cors
pub mod Pagination
mod Examples
