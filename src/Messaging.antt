-- ===== src/Messaging.antt =====
-- pkg/ecnet/messaging: the broker between the Kubernetes events and the proxies.
pub mod Dispatcher
pub mod Events
