-- ===== src/RateLimit.antt =====
-- internal/ratelimit: sliding-window limits on requests and tokens, kept in Redis.
pub mod Redis
pub mod Script
pub mod Limiter
pub mod Window
pub mod History
pub mod Answers
