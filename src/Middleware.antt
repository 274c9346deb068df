-- ===== src/Middleware.antt =====
-- packages/hub/src/store-middleware.ts: the stores that `withRetry`, `withCircuitBreaker` and
-- `withCache` wrap around another one, by a file each.
pub mod Retry
pub mod Breaker
pub mod Cache
pub mod Health
mod Tests
