-- ===== src/Catalog.antt =====
-- pkg/ecnet/catalog: services and endpoints of all providers, and the outbound traffic policy.
pub mod Services
pub mod Clusters
pub mod Outbound
