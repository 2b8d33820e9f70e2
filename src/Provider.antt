-- ===== src/Provider.antt =====
-- internal/provider: health tracking, retries and the registry of models.
pub mod Health
pub mod Retry
pub mod Registry
pub mod Adapters
