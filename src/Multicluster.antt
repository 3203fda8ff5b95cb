-- ===== src/Multicluster.antt =====
-- pkg/ecnet/service/multicluster, over the resources of pkg/ecnet/apis/multicluster/v1alpha1.
pub mod TrafficPolicy
pub mod ServiceImport
pub mod Endpoints
