-- ===== src/Guard.antt =====
-- internal/guard: request quotas and the lease that serialises live voice connections.
pub mod Identity
pub mod RateLimit
pub mod LiveLease
mod Tests
