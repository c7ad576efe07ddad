-- ===== src/Controller.antt =====
-- The Kubernetes controller: clients/controller/internal.
pub mod Dedup
pub mod Batcher
pub mod RefGrant
