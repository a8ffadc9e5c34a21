-- ===== src/Auth.antt =====
-- internal/auth: the rate limiter, the account lockout and the session manager.
pub mod RateLimiter
pub mod Lockout
pub mod Manager
pub mod Session
