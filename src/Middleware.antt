-- ===== src/Middleware.antt =====
-- internal/middleware: authentication, rate limits and the capture of a response's usage.
pub mod Writer
pub mod Capture
pub mod Follows
pub mod Recording
pub mod Recorded
pub mod Transparency
pub mod Auth
pub mod Bodies
pub mod RequestInfo
pub mod Bearer
pub mod Access
pub mod Limit
pub mod Service
