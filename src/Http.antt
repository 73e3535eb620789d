-- ===== src/Http.antt =====
-- The package httpapi, as far as it has state of its own.
pub mod RateLimit
mod Tests
