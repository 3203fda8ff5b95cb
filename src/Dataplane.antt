-- ===== src/Dataplane.antt =====
-- pkg/ecnet/bridge/dataplane: the server that keeps the DNS maps of a node.
pub mod Dns
