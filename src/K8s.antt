-- ===== src/K8s.antt =====
-- pkg/ecnet/k8s: the view of the cluster that the other parts read.
pub mod Hostnames
pub mod Handlers
pub mod Client
