-- ===== src/Providers.antt =====
-- pkg/ecnet/service/providers: where the catalog gets its services and endpoints from.
pub mod Subsets
pub mod Kube
pub mod Fsm
