-- ===== src/RateLimit.antt =====
-- internal/ratelimit/ratelimit.go: the token bucket for each address, and the login guard.
pub mod Limiter
pub mod LoginGuard
mod Examples
