-- ===== src/Ctrlplane.antt =====
-- pkg/ecnet/bridge/ctrlplane: the server that turns traffic policies into the proxy's configuration.
pub mod Names
pub mod Config
pub mod Routes
pub mod Balance
pub mod Order
pub mod Publish
pub mod Registry
pub mod Job
