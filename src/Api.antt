-- ===== src/Api.antt =====
-- internal/api: what guards the HTTP handlers.
pub mod RateLimit
