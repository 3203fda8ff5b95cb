-- ===== src/Tests.antt =====
-- The theorems of the other modules at concrete inputs, and runs of the definitions.
mod Samples
mod Naming
mod Routing
mod Balancing
mod Proxy
mod Dns
mod Broker
mod Headless
mod Ticking
mod Publishing
mod Jobs
mod Adding
mod Uninstalling
mod Asking
mod Probing
mod Pooling
mod Listening
mod Imported
mod Ordering
