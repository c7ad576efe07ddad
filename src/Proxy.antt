-- ===== src/Proxy.antt =====
-- The data plane: server/internal/proxy.
pub mod Routing
pub mod Circuit
pub mod Retry
pub mod Pinning
pub mod Outlier
pub mod Selection
pub mod Balancing
pub mod Health
