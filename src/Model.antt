-- ===== src/Model.antt =====
-- internal/model: the request and response types, and the errors of a provider.
pub mod Errors
pub mod Chat
