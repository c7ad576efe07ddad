-- ===== src/Store.antt =====
-- The stores of the control plane: server/internal/store.
pub mod Types
pub mod Memory
pub mod Encrypt
pub mod Platform
pub mod Bolt
