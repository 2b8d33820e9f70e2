-- ===== src/Examples.antt =====
-- Concrete runs of the modelled code, and concrete instances of its interfaces.
pub mod Floats
pub mod Writers
pub mod Health
pub mod Routing
pub mod Settings
pub mod Limits
pub mod Stores
pub mod Access
pub mod Caches
pub mod Streams
pub mod Upstreams
pub mod Gateways
